-- ===== src/Brain/Protected.antt =====
-- What a merge keeps of the items that a human has edited or deleted.
use zex_platform.Base.{
  Text, text_eq, text_eq_sound, ◌≡◌, ◌≢◌, refl, sym, ap, subst, ◌∙◌, ◌⊎◌, inl, inr, Bool, true,
  false, ◌&&◌, Option, some, arith, List, [], ◌∷◌, ◌++◌, select, All, In, Bool-cases, Option-cases,
  if◌then◌else◌,
}
use zex_platform.Json.{Json}
use zex_platform.Brain.Merge.{
  Overrides, normalize_list_overrides, has, by_id, Merge, take_generated, take_all, restore,
  restore_all, merged, merge_list, none_in,
}
use zex_platform.Brain.Rest.{has-In, id-by_id, is_free, select-merged}

All-snoc :
    {A : Type 0} (P : A → Type 0) (l : List A) (x : A) → All P l → P x → All P (l ++ (x ∷ []))
All-snoc P [] x h k = (k, tt)
All-snoc P (y ∷ l) x (a, h) k = (a, All-snoc P l x h k)

module _ {A : Type 0} (id : A → Text) where
  module _ (current generated : List A) (o : Overrides) where
    -- What an item of the result is.
    abbrev pub IsKept : A → Type 0
    IsKept x =
        (has o.suppressed (id x) ≡ false)
        × (((has o.items (id x) ≡ true) × (by_id id current (id x) ≡ some x))
            ⊎ ((has o.items (id x) ≡ false) × In x generated))

    current-IsKept :
        (key : Text) (x : A)
        → has o.suppressed key ≡ false
        → has o.items key ≡ true
        → by_id id current key ≡ some x
        → IsKept x
    current-IsKept key x s p found =
        subst
          (λ k.
            (has o.suppressed k ≡ false)
            × (((has o.items k ≡ true) × (by_id id current k ≡ some x))
                ⊎ ((has o.items k ≡ false) × In x generated)))
          (sym (id-by_id id current key x found)) (s, inl (p, found))

    take-All :
        (x : A) (m : Merge id)
        → In x generated
        → All IsKept m.result
        → All IsKept (take_generated id current o x m).result
    unfolding take_generated
    take-All x m there h = elim (Bool-cases (has o.suppressed (id x))) [
      | inl s ↦ rw s h
      | inr s ↦ elim (Bool-cases (has o.items (id x))) [
        | inl p ↦ elim (Option-cases (by_id id current (id x))) [
          | inl gone ↦ rw (s, p, gone) h
          | inr (y, found) ↦
              rw (s, p, found) (All-snoc IsKept m.result y h (current-IsKept (id x) y s p found))
        ]
        | inr p ↦ rw (s, p) (All-snoc IsKept m.result x h (s, inr (p, there)))
      ]
    ]

    all-All :
        (xs : List A) (m : Merge id)
        → ((x : A) → In x xs → In x generated)
        → All IsKept m.result
        → All IsKept (take_all id current o xs m).result
    unfolding take_all
    all-All [] m sub h = h
    all-All (x ∷ xs) m sub h =
        all-All xs _ (λ y k. sub y (inr k)) (take-All x m (sub x (inl refl)) h)

    restore-All :
        (seen : List Text) (key : Text) (l : List A)
        → has o.items key ≡ true
        → All IsKept l
        → All IsKept (restore id current o seen key l)
    unfolding restore
    restore-All seen key l p h = elim (Bool-cases (has o.suppressed key)) [
      | inl s ↦ rw s h
      | inr s ↦ elim (Bool-cases (has seen key)) [
        | inl e ↦ rw (s, e) h
        | inr e ↦ elim (Option-cases (by_id id current key)) [
          | inl gone ↦ rw (s, e, gone) h
          | inr (y, found) ↦
              rw (s, e, found) (All-snoc IsKept l y h (current-IsKept key y s p found))
        ]
      ]
    ]

    restores-All :
        (seen keys : List Text) (l : List A)
        → ((k : Text) → In k keys → has o.items k ≡ true)
        → All IsKept l
        → All IsKept (restore_all id current o seen keys l)
    unfolding restore_all
    restores-All seen [] l sub h = h
    restores-All seen (key ∷ keys) l sub h =
        restores-All seen keys _ (λ k i. sub k (inr i))
          (restore-All seen key l (sub key (inl refl)) h)

    merged-All : All IsKept (merged id current generated o)
    unfolding merged
    merged-All =
        restores-All _ o.items _ (λ k i. has-In o.items k i) (all-All generated _ (λ x i. i) tt)

    -- A seen id that is protected is that of an item of the result.
    abbrev IsSeen : List Text → List A → Type 0
    IsSeen seen l =
        (key : Text) (x : A)
        → has seen key ≡ true
        → has o.items key ≡ true
        → by_id id current key ≡ some x
        → In x l

    In-snoc : (x y : A) (l : List A) → In x l → In x (l ++ (y ∷ []))
    In-snoc x y (z ∷ l) (inl same) = inl same
    In-snoc x y (z ∷ l) (inr there) = inr (In-snoc x y l there)
    In-snoc x y [] h = absurd h

    In-last : (x : A) (l : List A) → In x (l ++ (x ∷ []))
    In-last x [] = inl refl
    In-last x (y ∷ l) = inr (In-last x l)

    two : (z x : A) → some z ≡ some x → z ≡ x
    two z x e = ground (arith, e)

    clash : (b : Bool) → b ≡ true → b ≢ false
    clash b e f = ground (arith, e, f)

    take-IsSeen :
        (y : A) (m : Merge id)
        → IsSeen m.seen m.result
        → let n = take_generated id current o y m in IsSeen n.seen n.result
    unfolding take_generated
    take-IsSeen y m h = elim (Bool-cases (has o.suppressed (id y))) [
      | inl s ↦ rw s h
      | inr s ↦ elim (Bool-cases (has o.items (id y))) [
        | inl p ↦ elim (Option-cases (by_id id current (id y))) [
          | inl gone ↦ rw (s, p, gone) h
          | inr (z, found) ↦
              rw (s, p, found)
                λ key x e q at. elim (Bool-cases (text_eq key (id y))) [
                  | inl same ↦
                      subst (λ a. In a (m.result ++ (z ∷ [])))
                        (two z x (
                          sym found
                          ∙ ap (by_id id current) (sym (text_eq_sound key (id y) same))
                          ∙ at))
                        (In-last z m.result)
                  | inr other ↦ In-snoc x z m.result (h key x (ground (arith, e, other)) q at)
                ]
        ]
        | inr p ↦
            rw (s, p)
              λ key x e q at. elim (Bool-cases (text_eq key (id y))) [
                | inl same ↦ absurd (
                    clash (has o.items (id y))
                      (ap (has o.items) (sym (text_eq_sound key (id y) same)) ∙ q) p)
                | inr other ↦ In-snoc x y m.result (h key x (ground (arith, e, other)) q at)
              ]
      ]
    ]

    all-IsSeen :
        (xs : List A) (m : Merge id)
        → IsSeen m.seen m.result
        → let n = take_all id current o xs m in IsSeen n.seen n.result
    unfolding take_all
    all-IsSeen [] m h = h
    all-IsSeen (x ∷ xs) m h = all-IsSeen xs _ (take-IsSeen x m h)

    In-restore :
        (seen : List Text) (key : Text) (x : A) (l : List A)
        → In x l
        → In x (restore id current o seen key l)
    unfolding restore
    In-restore seen key x l h = elim (Bool-cases (has o.suppressed key)) [
      | inl s ↦ rw s h
      | inr s ↦ elim (Bool-cases (has seen key)) [
        | inl e ↦ rw (s, e) h
        | inr e ↦ elim (Option-cases (by_id id current key)) [
          | inl gone ↦ rw (s, e, gone) h
          | inr (y, found) ↦ rw (s, e, found) (In-snoc x y l h)
        ]
      ]
    ]

    In-restore_all :
        (seen keys : List Text) (x : A) (l : List A)
        → In x l
        → In x (restore_all id current o seen keys l)
    unfolding restore_all
    In-restore_all seen [] x l h = h
    In-restore_all seen (key ∷ keys) x l h =
        In-restore_all seen keys x _ (In-restore seen key x l h)

    restored :
        (seen : List Text) (key : Text) (x : A) (l : List A)
        → IsSeen seen l
        → has o.suppressed key ≡ false
        → has o.items key ≡ true
        → by_id id current key ≡ some x
        → In x (restore id current o seen key l)
    unfolding restore
    restored seen key x l h s p found = elim (Bool-cases (has seen key)) [
      | inl e ↦ rw (s, e) (h key x e p found)
      | inr e ↦ rw (s, e, found) (In-last x l)
    ]

    all_restored :
        (seen keys : List Text) (key : Text) (x : A) (l : List A)
        → IsSeen seen l
        → has keys key ≡ true
        → has o.suppressed key ≡ false
        → has o.items key ≡ true
        → by_id id current key ≡ some x
        → In x (restore_all id current o seen keys l)
    unfolding restore_all
    all_restored seen [] key x l h i s p found = ground (arith, i)
    all_restored seen (k ∷ keys) key x l h i s p found = elim (Bool-cases (text_eq key k)) [
      | inl same ↦ In-restore_all seen keys x _ (
          subst (λ j. In x (restore id current o seen j l)) (text_eq_sound key k same)
            (restored seen key x l h s p found))
      | inr other ↦
          all_restored seen keys key x _ (λ j y e q at. In-restore seen k y l (h j y e q at))
            (ground (arith, i, other)) s p found
    ]

    merged-In :
        (key : Text) (x : A)
        → has o.suppressed key ≡ false
        → has o.items key ≡ true
        → by_id id current key ≡ some x
        → In x (merged id current generated o)
    unfolding merged
    merged-In key x s p found =
        all_restored _ o.items key x _ (all-IsSeen generated _ (λ k y e q at. ground (arith, e))) p
          s p found

    -- What a merge promises.
    pub record IsMerge (result : List A) : Type 0 where
      pub sound : All IsKept result
      pub restores :
          (key : Text) (x : A)
          → has o.suppressed key ≡ false
          → has o.items key ≡ true
          → by_id id current key ≡ some x
          → In x result
      -- In the order of the generated list, each as often as there.
      pub rest : select (is_free id current o) result ≡ select (is_free id current o) generated

    none_in-has : (l : List Text) (k : Text) → none_in l ≡ true → has l k ≡ false
    none_in-has [] k h = refl
    none_in-has (x ∷ l) k h = ground (arith, h)

    -- Without any override every generated item is taken.
    all_generated :
        (xs : List A)
        → ((x : A) → In x xs → In x generated)
        → none_in o.items ≡ true
        → none_in o.suppressed ≡ true
        → All IsKept xs
    all_generated [] sub i s = tt
    all_generated (x ∷ xs) sub i s = (
      (none_in-has o.suppressed (id x) s, inr (none_in-has o.items (id x) i, sub x (inl refl))),
      all_generated xs (λ y k. sub y (inr k)) i s,
    )

    untouched : none_in o.items ≡ true → none_in o.suppressed ≡ true → IsMerge generated
    untouched i s = record {
      sound = all_generated generated (λ x k. k) i s;
      restores = λ key x _ p _. absurd (clash (has o.items key) p (none_in-has o.items key i));
      rest = refl;
    }

    by_case :
        (b : Bool)
        → (none_in o.items && none_in o.suppressed) ≡ b
        → IsMerge (if b then generated else merged id current generated o)
    by_case true h = untouched (ground (arith, h)) (ground (arith, h))
    by_case false h = record {
      sound = merged-All;
      restores = merged-In;
      rest = select-merged id current o generated;
    }

  -- The merge of a list that is not controlled as a whole holds no deleted item, holds each edited item
  -- that the current list has as it stands there, and no other item with the id of an edited one; its
  -- items that are neither edited nor deleted are those of the generated list, all of them, in their order.
  pub merge_list-IsMerge :
      (current generated : List A) (raw : Option Json)
      → (normalize_list_overrides raw).whole ≡ false
      → IsMerge current generated
          (normalize_list_overrides raw)
          (merge_list id current generated raw)
  unfolding merge_list
  merge_list-IsMerge current generated raw h =
      rw h (by_case current generated (normalize_list_overrides raw) _ refl)
