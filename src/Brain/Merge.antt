-- ===== src/Brain/Merge.antt =====
-- `normalizeListOverrides` and `mergeList` of src/company-brain/payload-merge.ts. The keys of an object
-- are taken in the order of its fields.
use zex_platform.Base.{
  Text, text, text_eq, Bool, true, false, ◌&&◌, ◌||◌, Option, none, some, List, [], ◌∷◌, ◌++◌, any,
  is_some, if◌then◌else◌,
}
use zex_platform.Json.{Json, bool, obj, Fields, end, field, get, is_true}

-- `CompanyBrainListOverrides`: the keys whose value is `true`.
pub record Overrides : Type 0 where
  pub items : List Text
  pub suppressed : List Text
  pub whole : Bool

unfoldable pub true_keys : Fields → List Text
true_keys end = []
true_keys (field k (bool true) fs) = k ∷ true_keys fs
true_keys (field k v fs) = true_keys fs

-- `asBoolMap`
as_bool_map : Option Json → List Text
unfolding true_keys
as_bool_map (some (obj fs)) = true_keys fs
as_bool_map _ = []

has_key : Text → Fields → Bool
unfolding get
has_key k fs = is_some (get k (some fs))

abbrev no_overrides : Overrides
no_overrides = record { items = []; suppressed = []; whole = false }

unfoldable pub normalize_list_overrides : Option Json → Overrides
unfolding as_bool_map has_key get
normalize_list_overrides (some (obj fs)) =
    if has_key (text "items") fs
      || has_key (text "suppressedIds") fs
      || has_key (text "wholeSection") fs
    then record {
      items = as_bool_map (get (text "items") (some fs));
      suppressed = as_bool_map (get (text "suppressedIds") (some fs));
      whole = is_true (get (text "wholeSection") (some fs));
    }
    else record { items = as_bool_map (some (obj fs)); suppressed = []; whole = false }
normalize_list_overrides _ = no_overrides

abbrev pub has : List Text → Text → Bool
has ids id = any (text_eq id) ids

abbrev pub none_in : List Text → Bool
none_in [] = true
none_in (t ∷ ts) = false

module _ {A : Type 0} (id : A → Text) where
  -- `currentById.get(key)`: the last item with an id counts.
  unfoldable pub by_id : List A → Text → Option A
  by_id [] key = none
  by_id (x ∷ xs) key = later (by_id xs key)
    where
      later : Option A → Option A
      later (some y) = some y
      later none = if text_eq (id x) key then some x else none

  -- The variables of the loops.
  pub record Merge : Type 0 where
    pub result : List A
    pub seen : List Text

  abbrev pub push : A → Merge → Merge
  push x m = record { result = m.result ++ (x ∷ []); seen = id x ∷ m.seen }

  -- A protected item that is generated again.
  abbrev pub keep_current : Option A → Text → Merge → Merge
  keep_current none key m = m
  keep_current (some x) key m = record { result = m.result ++ (x ∷ []); seen = key ∷ m.seen }

  -- The body of the loop over the generated items.
  unfoldable pub take_generated : List A → Overrides → A → Merge → Merge
  unfolding by_id
  take_generated current o x m =
      if has o.suppressed (id x)
      then m
      else if has o.items (id x)
      then keep_current (by_id current (id x)) (id x) m
      else push x m

  unfoldable pub take_all : List A → Overrides → List A → Merge → Merge
  unfolding take_generated
  take_all current o [] m = m
  take_all current o (x ∷ xs) m = take_all current o xs (take_generated current o x m)

  abbrev pub put_back : Option A → List A → List A
  put_back none result = result
  put_back (some x) result = result ++ (x ∷ [])

  -- The body of the loop over the protected ids.
  unfoldable pub restore : List A → Overrides → List Text → Text → List A → List A
  unfolding by_id
  restore current o seen key result =
      if has o.suppressed key
      then result
      else if has seen key
      then result
      else put_back (by_id current key) result

  unfoldable pub restore_all : List A → Overrides → List Text → List Text → List A → List A
  unfolding restore
  restore_all current o seen [] result = result
  restore_all current o seen (key ∷ keys) result =
      restore_all current o seen keys (restore current o seen key result)

  abbrev start : Merge
  start = record { result = []; seen = [] }

  unfoldable pub merged : List A → List A → Overrides → List A
  unfolding take_all restore_all
  merged current generated o =
      let m = take_all current o generated start in restore_all current o m.seen o.items m.result

  unfoldable pub merge_list : List A → List A → Option Json → List A
  unfolding normalize_list_overrides
  merge_list current generated raw =
      let o = normalize_list_overrides raw in
      if o.whole
      then current
      else if none_in o.items && none_in o.suppressed
      then generated
      else merged current generated o
