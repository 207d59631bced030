-- ===== src/Brain/Rest.antt =====
-- What a merge takes from the generated list: the items that no human has edited or deleted.
use zex_platform.Base.{
  Text, text_eq, text_eq_refl, text_eq_sound, In, ◌≡◌, refl, sym, ap, ◌∙◌, inl, inr, Bool, true,
  false, not, ◌&&◌, none, some, arith, List, [], ◌∷◌, ◌++◌, select, Bool-cases, Option-cases,
  if◌then◌else◌,
}
use zex_platform.Base.Members.{select_yes, select_no}
use zex_platform.Brain.Merge.{
  Overrides, has, by_id, Merge, take_generated, take_all, restore, restore_all, merged,
}

module _ {A : Type 0} (q : A → Bool) (x : A) where
  select_snoc_no : (l : List A) → q x ≡ false → select q (l ++ (x ∷ [])) ≡ select q l
  unfolding select
  select_snoc_no [] h = rw h refl
  select_snoc_no (y ∷ l) h = ap (λ (m : List A). if q y then y ∷ m else m) (select_snoc_no l h)

  select_snoc_yes : (l : List A) → q x ≡ true → select q (l ++ (x ∷ [])) ≡ select q l ++ (x ∷ [])
  unfolding select
  select_snoc_yes [] h = rw h refl
  select_snoc_yes (y ∷ l) h = elim (Bool-cases (q y)) [
    | inl e ↦ rw (e, select_snoc_yes l h) refl
    | inr e ↦ rw (e, select_snoc_yes l h) refl
  ]

pub has-In : (l : List Text) (k : Text) → In k l → has l k ≡ true
has-In [] k h = absurd h
has-In (x ∷ l) k (inl same) = rw (sym same, text_eq_refl k) refl
has-In (x ∷ l) k (inr there) = ground (arith, has-In l k there)

append_nil : {A : Type 0} (l : List A) → l ++ [] ≡ l
append_nil [] = refl
append_nil (x ∷ l) = ap (λ m. x ∷ m) (append_nil l)

append_snoc : {A : Type 0} (l : List A) (x : A) (m : List A) → (l ++ (x ∷ [])) ++ m ≡ l ++ (x ∷ m)
append_snoc [] x m = refl
append_snoc (y ∷ l) x m = ap (λ k. y ∷ k) (append_snoc l x m)

module _ {A : Type 0} (id : A → Text) where
  by_id_here :
      (y : A) (l : List A) (key : Text)
      → by_id id l key ≡ none
      → by_id id (y ∷ l) key ≡ (if text_eq (id y) key then some y else none)
  unfolding by_id
  by_id_here y l key h = rw h refl

  by_id_later :
      (y z : A) (l : List A) (key : Text) → by_id id l key ≡ some z → by_id id (y ∷ l) key ≡ some z
  unfolding by_id
  by_id_later y z l key h = rw h refl

  pub id-by_id : (l : List A) (key : Text) (x : A) → by_id id l key ≡ some x → id x ≡ key
  unfolding by_id
  id-by_id [] key x h = ground arith
  id-by_id (y ∷ l) key x h = elim (Option-cases (by_id id l key)) [
    | inl gone ↦ elim (Bool-cases (text_eq (id y) key)) [
      | inl same ↦ ground (arith, h, by_id_here y l key gone, same, text_eq_sound (id y) key same)
      | inr other ↦ ground (arith, h, by_id_here y l key gone, other)
    ]
    | inr (z, found) ↦ id-by_id l key x (found ∙ sym (by_id_later y z l key found) ∙ h)
  ]

  module _ (current : List A) (o : Overrides) where
    -- An item that is neither edited nor deleted.
    abbrev pub is_free : A → Bool
    is_free x = not (has o.suppressed (id x)) && not (has o.items (id x))

    edited_not_free : (k : Text) (y : A) → has o.items k ≡ true → id y ≡ k → is_free y ≡ false
    edited_not_free k y p same = elim (Bool-cases (has o.suppressed (id y))) [
      | inl s ↦ rw s refl
      | inr s ↦ rw (s, ap (has o.items) same ∙ p) refl
    ]

    kept_not_free :
        (k : Text) (y : A) → has o.items k ≡ true → by_id id current k ≡ some y → is_free y ≡ false
    kept_not_free k y p found = edited_not_free k y p (id-by_id current k y found)

    take_free :
        (x : A) (m : Merge id)
        → is_free x ≡ true
        → (take_generated id current o x m).result ≡ m.result ++ (x ∷ [])
    unfolding take_generated
    take_free x m h = elim (Bool-cases (has o.suppressed (id x))) [
      | inl s ↦ ground (arith, h, s)
      | inr s ↦ elim (Bool-cases (has o.items (id x))) [
        | inl p ↦ ground (arith, h, s, p)
        | inr p ↦ rw (s, p) refl
      ]
    ]

    take_other :
        (x : A) (m : Merge id)
        → is_free x ≡ false
        → select is_free (take_generated id current o x m).result ≡ select is_free m.result
    unfolding take_generated
    take_other x m h = elim (Bool-cases (has o.suppressed (id x))) [
      | inl s ↦ rw s refl
      | inr s ↦ elim (Bool-cases (has o.items (id x))) [
        | inl p ↦ elim (Option-cases (by_id id current (id x))) [
          | inl gone ↦ rw (s, p, gone) refl
          | inr (y, found) ↦
              rw (s, p, found) (select_snoc_no is_free y m.result (kept_not_free (id x) y p found))
        ]
        | inr p ↦ ground (arith, h, s, p)
      ]
    ]

    select-take_all :
        (xs : List A) (m : Merge id)
        → select is_free (take_all id current o xs m).result
          ≡ select is_free m.result ++ select is_free xs
    unfolding take_all select
    select-take_all [] m = sym (append_nil (select is_free m.result))
    select-take_all (x ∷ xs) m = elim (Bool-cases (is_free x)) [
      | inl e ↦
          select-take_all xs (take_generated id current o x m)
          ∙ ap (λ l. select is_free l ++ select is_free xs) (take_free x m e)
          ∙ ap (λ l. l ++ select is_free xs) (select_snoc_yes is_free x m.result e)
          ∙ append_snoc (select is_free m.result) x (select is_free xs)
          ∙ ap (λ l. select is_free m.result ++ l) (sym (select_yes is_free x xs e))
      | inr e ↦
          select-take_all xs (take_generated id current o x m)
          ∙ ap (λ l. l ++ select is_free xs) (take_other x m e)
          ∙ ap (λ l. select is_free m.result ++ l) (sym (select_no is_free x xs e))
    ]

    select-restore :
        (seen : List Text) (key : Text) (l : List A)
        → has o.items key ≡ true
        → select is_free (restore id current o seen key l) ≡ select is_free l
    unfolding restore
    select-restore seen key l p = elim (Bool-cases (has o.suppressed key)) [
      | inl s ↦ rw s refl
      | inr s ↦ elim (Bool-cases (has seen key)) [
        | inl e ↦ rw (s, e) refl
        | inr e ↦ elim (Option-cases (by_id id current key)) [
          | inl gone ↦ rw (s, e, gone) refl
          | inr (y, found) ↦
              rw (s, e, found) (select_snoc_no is_free y l (kept_not_free key y p found))
        ]
      ]
    ]

    select-restore_all :
        (seen keys : List Text) (l : List A)
        → ((k : Text) → In k keys → has o.items k ≡ true)
        → select is_free (restore_all id current o seen keys l) ≡ select is_free l
    unfolding restore_all
    select-restore_all seen [] l sub = refl
    select-restore_all seen (key ∷ keys) l sub =
        select-restore_all seen keys _ (λ k i. sub k (inr i))
        ∙ select-restore seen key l (sub key (inl refl))

    -- The free items of a merge are those of the generated list.
    pub select-merged :
        (generated : List A)
        → select is_free (merged id current generated o) ≡ select is_free generated
    unfolding merged select
    select-merged generated =
        select-restore_all _ o.items _ (λ k i. has-In o.items k i) ∙ select-take_all generated _
