-- ===== src/Base/Members.antt =====
-- The elements of a list that is built from another.
use Prim.Native.Nat.{ℕ, zero, suc, ◌≤◌}
use mathlib.Core.Path.{◌≡◌, refl, sym, ap, subst, ◌∙◌}
use mathlib.Core.Bool.{Bool, true, false}
use mathlib.Core.List.{List, [], ◌∷◌, ◌++◌, map}
use mathlib.Core.Logic.{inl, inr}
use native.Mathlib.Omega.{arith}
use zex_platform.Base.Tests.{Bool-cases}
use zex_platform.Base.Lists.{In, length, take, select}

module _ {A : Type 0} where
  pub In-take : (n : ℕ) (x : A) (l : List A) → In x (take n l) → In x l
  In-take zero x l h = absurd h
  In-take (suc n) x [] h = h
  In-take (suc n) x (y ∷ ys) (inl e) = inl e
  In-take (suc n) x (y ∷ ys) (inr h) = inr (In-take n x ys h)

  module _ (q : A → Bool) where
    pub select_nil : select q [] ≡ []
    unfolding select
    select_nil = refl

    pub select_yes : (x : A) (l : List A) → q x ≡ true → select q (x ∷ l) ≡ x ∷ select q l
    unfolding select
    select_yes x l e = rw e refl

    pub select_no : (x : A) (l : List A) → q x ≡ false → select q (x ∷ l) ≡ select q l
    unfolding select
    select_no x l e = rw e refl

  pub In-select : (q : A → Bool) (a : A) (l : List A) → In a (select q l) → In a l × (q a ≡ true)
  In-select q a [] h = absurd (subst (In a) (select_nil q) h)
  In-select q a (x ∷ l) h = elim (Bool-cases (q x)) [
    | inl e ↦ elim (subst (In a) (select_yes q x l e) h) [
      | inl same ↦ (inl same, ap q same ∙ e)
      | inr there ↦ let (deep, fits) = In-select q a l there in (inr deep, fits)
    ]
    | inr e ↦
        let (deep, fits) = In-select q a l (subst (In a) (select_no q x l e) h) in (inr deep, fits)
  ]

  pub In-append_left : (x : A) (l m : List A) → In x l → In x (l ++ m)
  In-append_left x [] m h = absurd h
  In-append_left x (y ∷ ys) m (inl e) = inl e
  In-append_left x (y ∷ ys) m (inr h) = inr (In-append_left x ys m h)

  pub In-append_right : (x : A) (l m : List A) → In x m → In x (l ++ m)
  In-append_right x [] m h = h
  In-append_right x (y ∷ ys) m h = inr (In-append_right x ys m h)

  pub In-map :
      {B : Type 0} (f : A → B) (b : B) (l : List A) → In b (map f l) → (a : A) × In a l × (f a ≡ b)
  In-map f b [] h = absurd h
  In-map f b (x ∷ xs) (inl e) = (x, inl refl, sym e)
  In-map f b (x ∷ xs) (inr h) = let (a, there, e) = In-map f b xs h in (a, inr there, e)

  pub length-map : {B : Type 0} (f : A → B) (l : List A) → length (map f l) ≡ length l
  length-map f [] = refl
  length-map f (x ∷ xs) = omega (arith, length-map f xs)

  pub length-append_le : (l m : List A) → length l ≤ length (l ++ m)
  length-append_le [] m = omega arith
  length-append_le (x ∷ xs) m = omega (arith, length-append_le xs m)
