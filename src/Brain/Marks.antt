-- ===== src/Brain/Marks.antt =====
-- The marks of src/company-brain/payload-merge.ts: what a human edited, deleted or controls. A JSON column
-- holds them between the requests.
use zex_platform.Base.{
  Text, text, text_eq, Bool, true, false, Option, List, [], ◌∷◌, ◌++◌, if◌then◌else◌,
}
use zex_platform.Json.{Json, bool, obj, Fields, end, field}
use zex_platform.Brain.Merge.{Overrides, normalize_list_overrides, has}

-- `ListSection`
pub data ListSection : Type 0 where
  personas pain_points competitors qualification_rules : ListSection

-- `CompanyBrainUserOverrides`, as it is stored.
pub record Stored : Type 0 where
  pub icp : Bool
  pub messaging_summary : Bool
  pub list : ListSection → Option Json

-- The same with each list of overrides normalised.
pub record UserOverrides : Type 0 where
  pub icp : Bool
  pub messaging_summary : Bool
  pub list : ListSection → Overrides

abbrev pub clone_user_overrides : Stored → UserOverrides
unfolding normalize_list_overrides
clone_user_overrides s = record {
  icp = s.icp;
  messaging_summary = s.messaging_summary;
  list = λ section. normalize_list_overrides (s.list section);
}

unfoldable pub keys_json : List Text → Fields
keys_json [] = end
keys_json (k ∷ ks) = field k (bool true) (keys_json ks)

-- An override as the JSON column holds it.
unfoldable pub stored : Overrides → Json
unfolding keys_json
stored o = obj (
    field (text "items") (obj (keys_json o.items)) (
      field (text "suppressedIds") (obj (keys_json o.suppressed))
        (field (text "wholeSection") (bool o.whole) end)))

abbrev pub same_section : ListSection → ListSection → Bool
same_section ListSection.personas ListSection.personas = true
same_section ListSection.pain_points ListSection.pain_points = true
same_section ListSection.competitors ListSection.competitors = true
same_section ListSection.qualification_rules ListSection.qualification_rules = true
same_section a b = false

-- `next[section] = list`
abbrev pub with_list : ListSection → (Overrides → Overrides) → UserOverrides → UserOverrides
with_list section f u = record u {
  list = λ s. if same_section s section then f (u.list s) else u.list s;
}

-- `{ ...map, [key]: true }`
unfoldable pub add_key : Text → List Text → List Text
add_key key ids = if has ids key then ids else ids ++ (key ∷ [])

-- `omitKey`
unfoldable pub omit_key : Text → List Text → List Text
omit_key key [] = []
omit_key key (k ∷ ks) = if text_eq key k then omit_key key ks else k ∷ omit_key key ks

unfoldable pub overridden : Text → Overrides → Overrides
unfolding add_key omit_key
overridden id o = record o { items = add_key id o.items; suppressed = omit_key id o.suppressed }

unfoldable pub suppressed_too : Text → Overrides → Overrides
unfolding add_key omit_key
suppressed_too id o = record o { suppressed = add_key id o.suppressed; items = omit_key id o.items }

unfoldable pub mark_section_override_icp : Stored → UserOverrides
mark_section_override_icp s = record (clone_user_overrides s) { icp = true }

unfoldable pub mark_section_override_messaging : Stored → UserOverrides
mark_section_override_messaging s = record (clone_user_overrides s) { messaging_summary = true }

unfoldable pub mark_list_item_override : Stored → ListSection → Text → UserOverrides
unfolding overridden
mark_list_item_override s section id = with_list section (overridden id) (clone_user_overrides s)

unfoldable pub mark_list_item_suppressed : Stored → ListSection → Text → UserOverrides
unfolding suppressed_too
mark_list_item_suppressed s section id =
    with_list section (suppressed_too id) (clone_user_overrides s)

-- `Object.fromEntries(ids.map(id => [id, true]))`
unfoldable pub add_keys : List Text → List Text → List Text
unfolding add_key
add_keys [] ids = ids
add_keys (k ∷ ks) ids = add_keys ks (add_key k ids)

-- The loop over the earlier ids.
unfoldable pub add_dropped : List Text → List Text → List Text → List Text
unfolding add_key
add_dropped retained [] ids = ids
add_dropped retained (k ∷ ks) ids =
    add_dropped retained ks (if has retained k then ids else add_key k ids)

unfoldable pub mark_whole_list_override :
    Stored → ListSection → List Text → List Text → UserOverrides
unfolding add_keys add_dropped
mark_whole_list_override s section retained previous =
    with_list section
      (λ o. record {
        whole = true;
        items = add_keys retained [];
        suppressed = add_dropped retained previous o.suppressed;
      })
      (clone_user_overrides s)
