-- ===== src/Brain/Edits.antt =====
-- What a human's edit or deletion of an item means for the next merge.
use zex_platform.Base.{
  Text, text, text_eq, text_eq_refl, ◌≡◌, ◌≢◌, refl, ap, ◌∙◌, inl, inr, Bool, true, false, some,
  arith, List, [], ◌∷◌, ◌++◌, All, In, Bool-cases,
}
use zex_platform.Json.{bool, is_true, get}
use zex_platform.Brain.Merge.{
  Overrides, normalize_list_overrides, true_keys, has, by_id, merge_list,
}
use zex_platform.Brain.Marks.{
  ListSection, Stored, keys_json, same_section, suppressed_too, overridden, stored, add_key,
  omit_key, mark_list_item_override, mark_list_item_suppressed,
}
use zex_platform.Brain.Protected.{merge_list-IsMerge, IsKept}

has-add_key : (key : Text) (l : List Text) → has (add_key key l) key ≡ true
unfolding add_key
has-add_key key l = elim (Bool-cases (has l key)) [ inl e ↦ rw e e | inr e ↦ rw e (last l) ]
  where
    last : (l : List Text) → has (l ++ (key ∷ [])) key ≡ true
    last [] = rw (text_eq_refl key) refl
    last (x ∷ l) = ground (arith, last l)

has-omit_key : (key : Text) (l : List Text) → has (omit_key key l) key ≡ false
unfolding omit_key
has-omit_key key [] = refl
has-omit_key key (x ∷ l) = ground (arith, has-omit_key key l)

true_keys-keys_json : (l : List Text) → true_keys (keys_json l) ≡ l
unfolding true_keys keys_json
true_keys-keys_json [] = refl
true_keys-keys_json (k ∷ l) = ap (◌∷◌ k) (true_keys-keys_json l)

is_true-bool : (b : Bool) → is_true (some (bool b)) ≡ b
is_true-bool true = refl
is_true-bool false = refl

overrides : List Text → List Text → Bool → Overrides
overrides i s w = record { items = i; suppressed = s; whole = w }

same_overrides :
    (i i' s s' : List Text) (w w' : Bool)
    → i ≡ i'
    → s ≡ s'
    → w ≡ w'
    → overrides i s w ≡ overrides i' s' w'
same_overrides i i' s s' w w' a b c = rw (a, b, c) refl

-- Overrides that were stored are read as they were.
pub normalize-stored : (o : Overrides) → normalize_list_overrides (some (stored o)) ≡ o
unfolding normalize_list_overrides stored text text_eq get overrides
normalize-stored o =
    same_overrides _ o.items _ o.suppressed _ o.whole (true_keys-keys_json o.items)
      (true_keys-keys_json o.suppressed) (is_true-bool o.whole)

module _ {A : Type 0} (id : A → Text) (s : Stored) (section : ListSection) (key : Text) where
  same_here : (x : ListSection) → same_section x x ≡ true
  same_here x = ground arith

  abbrev before : Overrides
  before = normalize_list_overrides (s.list section)

  abbrev suppressed_now : Overrides
  suppressed_now = (mark_list_item_suppressed s section key).list section

  abbrev overridden_now : Overrides
  overridden_now = (mark_list_item_override s section key).list section

  suppressed_lem : suppressed_now ≡ suppressed_too key before
  unfolding mark_list_item_suppressed normalize_list_overrides
  suppressed_lem = rw (same_here section) refl

  overridden_lem : overridden_now ≡ overridden key before
  unfolding mark_list_item_override normalize_list_overrides
  overridden_lem = rw (same_here section) refl

  read_suppressed :
      normalize_list_overrides (some (stored suppressed_now)) ≡ suppressed_too key before
  read_suppressed = normalize-stored suppressed_now ∙ suppressed_lem

  read_overridden : normalize_list_overrides (some (stored overridden_now)) ≡ overridden key before
  read_overridden = normalize-stored overridden_now ∙ overridden_lem

  has-suppressed : has (suppressed_too key before).suppressed key ≡ true
  unfolding suppressed_too
  has-suppressed = has-add_key key before.suppressed

  whole_suppressed : (suppressed_too key before).whole ≡ before.whole
  unfolding suppressed_too
  whole_suppressed = refl

  has-overridden :
      (has (overridden key before).items key ≡ true)
      × ((has (overridden key before).suppressed key ≡ false)
          × ((overridden key before).whole ≡ before.whole))
  unfolding overridden
  has-overridden = (has-add_key key before.items, (has-omit_key key before.suppressed, refl))

  gone :
      (current generated : List A) (o : Overrides) (l : List A)
      → has o.suppressed key ≡ true
      → All (IsKept id current generated o) l
      → All (λ x. id x ≢ key) l
  gone current generated o [] h k = tt
  gone current generated o (x ∷ l) h (a, k) =
      (λ e. ground (arith, a.0, ap (has o.suppressed) e, h), gone current generated o l h k)

  -- After an item was marked as deleted and the marks were stored, no merge holds an item with its id, where
  -- the list is not controlled as a whole.
  pub suppressed-merge_list :
      (current generated : List A)
      → before.whole ≡ false
      → All (λ x. id x ≢ key) (merge_list id current generated (some (stored suppressed_now)))
  suppressed-merge_list current generated open_list =
      let m =
        merge_list-IsMerge id current generated (some (stored suppressed_now))
          (ap (λ o. o.whole) read_suppressed ∙ whole_suppressed ∙ open_list) in
      gone current generated (normalize_list_overrides (some (stored suppressed_now))) _
        (ap (λ o. has o.suppressed key) read_suppressed ∙ has-suppressed) m.sound

  -- After an item was marked as edited and the marks were stored, each merge holds the item as the current
  -- list has it, where the list is not controlled as a whole.
  pub overridden-merge_list :
      (current generated : List A) (x : A)
      → before.whole ≡ false
      → by_id id current key ≡ some x
      → In x (merge_list id current generated (some (stored overridden_now)))
  overridden-merge_list current generated x open_list found =
      let (item, (kept, whole)) = has-overridden in
      let m =
        merge_list-IsMerge id current generated (some (stored overridden_now))
          (ap (λ o. o.whole) read_overridden ∙ whole ∙ open_list) in
      m.restores key x (ap (λ o. has o.suppressed key) read_overridden ∙ kept)
        (ap (λ o. has o.items key) read_overridden ∙ item) found
