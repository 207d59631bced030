-- ===== src/Base/Lists.antt =====
-- Lists of rows: a table is a list, the newest row first.
use Prim.Native.Nat.{ℕ, zero, suc, ◌+◌, ◌≤◌, ◌<◌}
use mathlib.Core.Path.{◌≡◌, refl, ap}
use mathlib.Core.Bool.{Bool, true, false, ◌&&◌, ◌||◌}
use mathlib.Core.Option.{Option, none, some}
use mathlib.Core.List.{List, [], ◌∷◌, ◌++◌, reverse, reverse-cons}
use native.Mathlib.Omega.{arith}
use zex_platform.Base.Tests.{if◌then◌else◌, Bool-cases}
use mathlib.Core.Logic.{◌≢◌, ◌⊎◌, inl, inr}
use mathlib.Core.Option

-- An element of a list.
abbrev pub In : {A : Type 0} → A → List A → Type 0
In a [] = ⊥
In a (x ∷ xs) = (a ≡ x) ⊎ In a xs

module _ {ℓ} {A : Type ℓ} where
  abbrev pub length : List A → ℕ
  length [] = 0
  length (x ∷ xs) = suc (length xs)

  abbrev pub take : ℕ → List A → List A
  take zero xs = []
  take (suc n) [] = []
  take (suc n) (x ∷ xs) = x ∷ take n xs

  abbrev pub drop : ℕ → List A → List A
  drop zero xs = xs
  drop (suc n) [] = []
  drop (suc n) (x ∷ xs) = drop n xs

  -- What `p` holds of at every element.
  abbrev pub All {κ} : (A → Type κ) → List A → Type κ
  All P [] = Unit
  All P (x ∷ xs) = P x × All P xs

  -- `findFirst({ where: p })`: the newest row that fits.
  unfoldable pub find_first : (A → Bool) → List A → Option A
  find_first p [] = none
  find_first p (x ∷ xs) = if p x then some x else find_first p xs

  -- `findMany({ where: p })`
  unfoldable pub select : (A → Bool) → List A → List A
  select p [] = []
  select p (x ∷ xs) = if p x then x ∷ select p xs else select p xs

  -- `updateMany({ where: p, data: f })`
  unfoldable pub update_where : (A → Bool) → (A → A) → List A → List A
  update_where p f [] = []
  update_where p f (x ∷ xs) = (if p x then f x else x) ∷ update_where p f xs

  abbrev pub any : (A → Bool) → List A → Bool
  any p [] = false
  any p (x ∷ xs) = p x || any p xs

  abbrev pub all : (A → Bool) → List A → Bool
  all p [] = true
  all p (x ∷ xs) = p x && all p xs

  -- A row that is found fits, and is in the table.
  pub find_first_sound : (p : A → Bool) (l : List A) {a : A} → find_first p l ≡ some a → p a ≡ true
  unfolding find_first
  find_first_sound p [] h = ground arith
  find_first_sound p (x ∷ xs) h = elim (Bool-cases (p x)) [
    | inl yes_x ↦ ground arith
    | inr no_x ↦ find_first_sound p xs (ground arith)
  ]

  abbrev pub touched : (A → Bool) → (A → A) → A → A
  touched q f x = if q x then f x else x

  -- An update that does not change what `p` tests commutes with the lookup by `p`.
  pub find_first-update_where :
      (p q : A → Bool) (f : A → A) (l : List A)
      → ((x : A) → p (f x) ≡ p x)
      → find_first p (update_where q f l) ≡ Option.map (touched q f) (find_first p l)
  unfolding find_first update_where
  find_first-update_where p q f [] h = refl
  find_first-update_where p q f (x ∷ xs) h = ground (arith, h x, find_first-update_where p q f xs h)

  -- What an update makes true where it applies, and leaves alone, holds of every row.
  pub update_where-All {κ} :
      (P : A → Type κ) (q : A → Bool) (f : A → A) (l : List A)
      → ((x : A) → q x ≡ true → P (f x))
      → ((x : A) → q x ≡ false → P x)
      → All P (update_where q f l)
  unfolding update_where
  update_where-All P q f [] hit miss = tt
  update_where-All P q f (x ∷ xs) hit miss = (
    elim (Bool-cases (q x)) [ inl e ↦ rw e (hit x e) | inr e ↦ rw e (miss x e) ],
    update_where-All P q f xs hit miss,
  )

  -- An update of other rows does not change a selection.
  pub select-update_where :
      (p q : A → Bool) (f : A → A) (l : List A)
      → ((x : A) → p (f x) ≡ p x)
      → ((x : A) → q x ≡ true → p x ≡ false)
      → select p (update_where q f l) ≡ select p l
  unfolding select update_where
  select-update_where p q f [] same other = refl
  select-update_where p q f (x ∷ xs) same other = elim (Bool-cases (q x)) [
    | inl e ↦ ground (arith, same x, other x e, e, select-update_where p q f xs same other)
    | inr e ↦ ground (arith, e, select-update_where p q f xs same other)
  ]

  find_first-select_none :
      (p q : A → Bool) (l : List A) (a : A)
      → ((x : A) → p x ≡ true → q x ≡ true)
      → select q l ≡ []
      → find_first p l ≢ some a
  unfolding find_first select
  find_first-select_none p q [] a h none_left found = ground arith
  find_first-select_none p q (x ∷ xs) a h none_left found = elim (Bool-cases (p x)) [
    | inl e ↦ ground (arith, e, h x e)
    | inr e ↦ elim (Bool-cases (q x)) [
      | inl f ↦ ground (arith, f)
      | inr f ↦ find_first-select_none p q xs a h (ground (arith, f)) (ground (arith, e))
    ]
  ]

  -- A row that is found is the only one of a wider selection.
  pub find_first-select_one :
      (p q : A → Bool) (l : List A) (c a : A)
      → ((x : A) → p x ≡ true → q x ≡ true)
      → select q l ≡ c ∷ []
      → find_first p l ≡ some a
      → a ≡ c
  unfolding find_first select
  find_first-select_one p q [] c a h one found = ground arith
  find_first-select_one p q (x ∷ xs) c a h one found = elim (Bool-cases (q x)) [
    | inl f ↦ elim (Bool-cases (p x)) [
      | inl e ↦ ground (arith, e, f)
      | inr e ↦ absurd (find_first-select_none p q xs a h (ground (arith, f)) (ground (arith, e)))
    ]
    | inr f ↦ elim (Bool-cases (p x)) [
      | inl e ↦ ground (arith, f, h x e)
      | inr e ↦ find_first-select_one p q xs c a h (ground (arith, f)) (ground (arith, e))
    ]
  ]

  pub length-append : (xs ys : List A) → length (xs ++ ys) ≡ length xs + length ys
  length-append [] ys = omega arith
  length-append (x ∷ xs) ys = omega (arith, length-append xs ys)

  pub length-reverse : (xs : List A) → length (reverse xs) ≡ length xs
  length-reverse [] = refl
  length-reverse (x ∷ xs) =
      rw (reverse-cons x xs) (omega (arith, length-append (reverse xs) (x ∷ []), length-reverse xs))

  -- One more element at the end is taken if there is room, and else changes nothing.
  pub take-append_room :
      (n : ℕ) (xs : List A) (x : A) → length xs < n → take n (xs ++ x ∷ []) ≡ take n xs ++ x ∷ []
  take-append_room zero xs x h = absurd (omega arith)
  take-append_room (suc zero) [] x h = refl
  take-append_room (suc (suc n)) [] x h = refl
  take-append_room (suc n) (y ∷ xs) x h = ap (◌∷◌ y) (take-append_room n xs x (omega arith))

  pub take-append_full :
      (n : ℕ) (xs : List A) (x : A) → n ≤ length xs → take n (xs ++ x ∷ []) ≡ take n xs
  take-append_full zero xs x h = refl
  take-append_full (suc n) [] x h = absurd (omega arith)
  take-append_full (suc n) (y ∷ xs) x h = ap (◌∷◌ y) (take-append_full n xs x (omega arith))
