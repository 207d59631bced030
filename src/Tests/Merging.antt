-- ===== src/Tests/Merging.antt =====
-- A merge of a list of the company brain.
use zex_platform.Base.{
  Text, text, text_eq, ◌≡◌, ◌≢◌, refl, All, In, true, false, Option, none, some, List, [], ◌∷◌,
}
use zex_platform.Json.{Json, bool, obj, end, field, get}
use zex_platform.Brain.Merge.{normalize_list_overrides, by_id, merge_list}
use zex_platform.Brain.Marks.{
  ListSection, Stored, stored, mark_list_item_override, mark_list_item_suppressed,
}
use zex_platform.Brain.Edits.{normalize-stored, suppressed-merge_list, overridden-merge_list}
use zex_platform.Brain.Protected.{IsMerge, merge_list-IsMerge}

-- An item is an id and a text.
abbrev Item : Type 0
Item = Text × Text

abbrev id_of : Item → Text
id_of x = x.0

abbrev current : List Item
current = (text "a", text "edited") ∷ (text "b", text "old") ∷ []

abbrev generated : List Item
generated = (text "a", text "new") ∷ (text "c", text "new") ∷ (text "d", text "new") ∷ []

-- The item `a` was edited, `d` was deleted.
abbrev raw : Option Json
raw = some (
    obj (
      field (text "items") (obj (field (text "a") (bool true) end))
        (field (text "suppressedIds") (obj (field (text "d") (bool true) end)) end)))

not_whole : (normalize_list_overrides raw).whole ≡ false
unfolding normalize_list_overrides text text_eq get
not_whole = refl

abbrev expected : List Item
expected = (text "a", text "edited") ∷ (text "c", text "new") ∷ []

merged_items : merge_list id_of current generated raw ≡ expected
unfolding merge_list normalize_list_overrides text text_eq get zex_platform.Brain.Merge.merged
merged_items = refl

merge_list-IsMerge_example :
    IsMerge id_of current generated
      (normalize_list_overrides raw)
      (merge_list id_of current generated raw)
merge_list-IsMerge_example = merge_list-IsMerge id_of current generated raw not_whole

-- The list of pain points, and the other lists without overrides.
abbrev the_list : ListSection → Option Json
the_list ListSection.pain_points = raw
the_list section = none

abbrev a_stored : Stored
a_stored = record { icp = false; messaging_summary = false; list = the_list }

normalize-stored_example :
    normalize_list_overrides (some (stored (normalize_list_overrides raw)))
    ≡ normalize_list_overrides raw
normalize-stored_example = normalize-stored (normalize_list_overrides raw)

suppressed-merge_list_example :
    All
      (λ (x : Item). id_of x ≢ text "c")
      (merge_list id_of current generated (
        some (
          stored (
            (mark_list_item_suppressed a_stored ListSection.pain_points (text "c")).list
              ListSection.pain_points))))
suppressed-merge_list_example =
    suppressed-merge_list id_of a_stored ListSection.pain_points (text "c") current generated
      not_whole

abbrev the_b : Item
the_b = (text "b", text "old")

b_found : by_id id_of current (text "b") ≡ some the_b
unfolding by_id text text_eq
b_found = refl

overridden-merge_list_example : In the_b (
    merge_list id_of current generated (
      some (
        stored (
          (mark_list_item_override a_stored ListSection.pain_points (text "b")).list
            ListSection.pain_points))))
overridden-merge_list_example =
    overridden-merge_list id_of a_stored ListSection.pain_points (text "b") current generated the_b
      not_whole b_found
