-- ===== src/Research/Latest.antt =====
-- A completed run is the one that the AI SDR takes: `executeResearch`, then `getLatest`.
use Prim.Native.Nat.{◌<◌}
use zex_platform.Base.{
  ℕ, ◌≤◌, ◌≡◌, refl, sym, ap, subst, ◌∙◌, ◌⊎◌, inl, inr, arith, Text, text_eq, Bool, true, Option,
  none, some, List, [], ◌∷◌, All, In, find_first, select, update_where, Bool-cases, leb,
  if◌then◌else◌,
}
use zex_platform.Store.{ResearchRun}
use zex_platform.Research.Reading.{newer, newest}

-- `run` is the one row with the id.
abbrev pub IsOnly : Text → ResearchRun → List ResearchRun → Type 0
IsOnly id run rs = All (λ r. text_eq r.id id ≡ true → r ≡ run) rs

-- No row was completed at `n` or later.
abbrev pub IsBefore : ℕ → List ResearchRun → Type 0
IsBefore n rs = All (λ r. r.completed_at < n) rs

-- A row of a list that is later than all others is the newest.
abbrev pub Tops : ResearchRun → List ResearchRun → Type 0
Tops r l = All (λ x. (x ≡ r) ⊎ (x.completed_at < r.completed_at)) l

newer_top : (x r : ResearchRun) → x.completed_at < r.completed_at → newer x (some r) ≡ some r
newer_top x r h = ground (arith, h)

newer_self : (r : ResearchRun) → newer r (some r) ≡ some r
newer_self r = ground arith

newer_old : (r x : ResearchRun) → x.completed_at < r.completed_at → newer r (some x) ≡ some r
newer_old r x h = ground (arith, h)

newer_both :
    (r x y : ResearchRun)
    → x.completed_at < r.completed_at
    → y.completed_at < r.completed_at
    → (z : ResearchRun) × (newer x (some y) ≡ some z) × (z.completed_at < r.completed_at)
newer_both r x y hx hy = elim (Bool-cases (leb y.completed_at x.completed_at)) [
  | inl e ↦ (x, rw e refl, hx)
  | inr e ↦ (y, rw e refl, hy)
]

-- What the newest of such a list is, whether the row itself is in it or not.
abbrev Outcome : ResearchRun → Option ResearchRun → Type 0
Outcome r o =
    (o ≡ none)
    ⊎ (o ≡ some r)
    ⊎ ((x : ResearchRun) × (o ≡ some x) × (x.completed_at < r.completed_at))

next_top :
    (r x : ResearchRun) (o : Option ResearchRun)
    → (x ≡ r) ⊎ (x.completed_at < r.completed_at)
    → Outcome r o
    → Outcome r (newer x o)
next_top r x o (inl e) (inl none_o) = inr (inl (rw (none_o, e) refl))
next_top r x o (inr old) (inl none_o) = inr (inr (x, ap (newer x) none_o, old))
next_top r x o (inl e) (inr (inl same)) = inr (inl (rw (same, e) (newer_self r)))
next_top r x o (inr old) (inr (inl same)) = inr (inl (rw same (newer_top x r old)))
next_top r x o (inl e) (inr (inr (y, is_y, old))) = inr (inl (rw (is_y, e) (newer_old r y old)))
next_top r x o (inr old) (inr (inr (y, is_y, older))) =
    inr (inr (rw is_y (newer_both r x y old older)))

newest-Outcome : (r : ResearchRun) (l : List ResearchRun) → Tops r l → Outcome r (newest l)
unfolding newest
newest-Outcome r [] h = inl refl
newest-Outcome r (x ∷ xs) h = next_top r x (newest xs) h.0 (newest-Outcome r xs h.1)

first_top : (r : ResearchRun) (o : Option ResearchRun) → Outcome r o → newer r o ≡ some r
first_top r o (inl none_o) = rw none_o refl
first_top r o (inr (inl same)) = rw same (newer_self r)
first_top r o (inr (inr (x, is_x, old))) = rw is_x (newer_old r x old)

later_top :
    (r x : ResearchRun) → (x ≡ r) ⊎ (x.completed_at < r.completed_at) → newer x (some r) ≡ some r
later_top r x (inl e) = rw e (newer_self r)
later_top r x (inr old) = newer_top x r old

pub newest-top : (r : ResearchRun) (l : List ResearchRun) → Tops r l → In r l → newest l ≡ some r
unfolding newest
newest-top r [] h there = absurd there
newest-top r (x ∷ xs) h (inl e) =
    subst (λ y. newer y (newest xs) ≡ some r) e (first_top r (newest xs) (newest-Outcome r xs h.1))
newest-top r (x ∷ xs) h (inr there) = ap (newer x) (newest-top r xs h.1 there) ∙ later_top r x h.0

module _ (id : Text) (f : ResearchRun → ResearchRun) (run : ResearchRun) where
  -- The rows after the one row with the id was set.
  pub IsOnly-update_where :
      (rs : List ResearchRun)
      → ((r : ResearchRun) → (f r).id ≡ r.id)
      → IsOnly id run rs
      → IsOnly id (f run) (update_where (λ r. text_eq r.id id) f rs)
  unfolding update_where
  IsOnly-update_where [] same h = tt
  IsOnly-update_where (r ∷ rs) same h = (
    elim (Bool-cases (text_eq r.id id)) [
      | inl e ↦ rw e λ _. ap f (h.0 e)
      | inr e ↦ rw e λ bad. ground (arith, e, bad)
    ],
    IsOnly-update_where rs same h.1,
  )

  pub Tops-update_where :
      (rs : List ResearchRun)
      → IsOnly id run rs
      → IsBefore (f run).completed_at rs
      → Tops (f run) (update_where (λ r. text_eq r.id id) f rs)
  unfolding update_where
  Tops-update_where [] h old = tt
  Tops-update_where (r ∷ rs) h old = (
    elim (Bool-cases (text_eq r.id id)) [
      | inl e ↦ rw e (inl (ap f (h.0 e)))
      | inr e ↦ rw e (inr old.0)
    ],
    Tops-update_where rs h.1 old.1,
  )

  pub IsBefore-update_where :
      (n : ℕ) (rs : List ResearchRun)
      → ((r : ResearchRun) → (f r).completed_at ≡ r.completed_at)
      → IsBefore n rs
      → IsBefore n (update_where (λ r. text_eq r.id id) f rs)
  unfolding update_where
  IsBefore-update_where n [] same old = tt
  IsBefore-update_where n (r ∷ rs) same old = (
    elim (Bool-cases (text_eq r.id id)) [
      | inl e ↦ rw e (subst (λ k. k < n) (sym (same r)) old.0)
      | inr e ↦ rw e old.0
    ],
    IsBefore-update_where n rs same old.1,
  )

pub IsBefore-later : (m n : ℕ) (rs : List ResearchRun) → m ≤ n → IsBefore m rs → IsBefore n rs
IsBefore-later m n [] le old = tt
IsBefore-later m n (r ∷ rs) le old = (omega (arith, le, old.0), IsBefore-later m n rs le old.1)

module _ (p : ResearchRun → Bool) where
  pub Tops-select : (r : ResearchRun) (l : List ResearchRun) → Tops r l → Tops r (select p l)
  unfolding select
  Tops-select r [] h = tt
  Tops-select r (x ∷ xs) h = elim (Bool-cases (p x)) [
    | inl e ↦ rw e (h.0, Tops-select r xs h.1)
    | inr e ↦ rw e (Tops-select r xs h.1)
  ]

  -- A row that a lookup finds is in each selection that takes it.
  pub In-select_found :
      (q : ResearchRun → Bool) (r : ResearchRun) (l : List ResearchRun)
      → find_first q l ≡ some r
      → p r ≡ true
      → In r (select p l)
  unfolding select find_first
  In-select_found q r [] found e = ground arith
  In-select_found q r (x ∷ xs) found e = elim (Bool-cases (q x)) [
    | inl hit ↦ here (ground (arith, hit, found))
    | inr miss ↦ elim (Bool-cases (p x)) [
      | inl f ↦ rw f (inr (In-select_found q r xs (ground (arith, miss, found)) e))
      | inr f ↦ rw f (In-select_found q r xs (ground (arith, miss, found)) e)
    ]
  ]
    where
      here : x ≡ r → In r (if p x then x ∷ select p xs else select p xs)
      here same = rw (ap p same ∙ e) (inl (sym same))

pub only_found :
    (id : Text) (run r : ResearchRun) (l : List ResearchRun)
    → IsOnly id run l
    → find_first (λ x. text_eq x.id id) l ≡ some r
    → r ≡ run
unfolding find_first
only_found id run r [] h found = ground arith
only_found id run r (x ∷ xs) h found = elim (Bool-cases (text_eq x.id id)) [
  | inl hit ↦ sym (ground (arith, hit, found)) ∙ h.0 hit
  | inr miss ↦ only_found id run r xs h.1 (ground (arith, miss, found))
]
