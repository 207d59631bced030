-- ===== src/Prospects/Finding.antt =====
-- What the lookup of a candidate answers.
use zex_platform.Base.{
  Text, text, ◌≡◌, refl, ap, ◌∙◌, Option, ◌⊎◌, inl, inr, Option-cases, none, some, find_first,
}
use zex_platform.Base.Effects.{Error, ok, err, not_found, ◌>>=◌, or_throw}
use zex_platform.Store.{Candidate, Db, Action}
use zex_platform.Prospects.Lookups.{the_row, require_tenant, require_candidate}

pub record Finds (tenant id : Text) (s : Db) (c : Candidate) : Type 0 where
  pub row : find_first (the_row tenant id) s.candidates ≡ some c
  pub runs : require_candidate tenant id s ≡ (ok c, s)

module _ (tenant id : Text) where
  abbrev look : Error → Action Candidate
  look e s = or_throw (find_first (the_row tenant id) s.candidates) e s

  the_cases :
      {A : Type 0} (o : Option A) (s : Db) (e e' : Error)
      → require_candidate tenant id s ≡ (or_throw o e >>= λ _. look e') s
      → ((e : Error) × (require_candidate tenant id s ≡ (err e, s)))
        ⊎ ((c : Candidate) × Finds tenant id s c)
  the_cases none s e e' runs = inl (e, runs)
  the_cases (some t) s e e' runs =
      elim (Option-cases (find_first (the_row tenant id) s.candidates)) [
        | inl h ↦ inl (e', runs ∙ ap (λ x. or_throw x e' s) h)
        | inr (c, h) ↦ inr (c, record { row = h; runs = runs ∙ ap (λ x. or_throw x e' s) h })
      ]

pub require_candidate_cases :
    (tenant id : Text) (s : Db)
    → ((e : Error) × (require_candidate tenant id s ≡ (err e, s)))
      ⊎ ((c : Candidate) × Finds tenant id s c)
unfolding require_candidate require_tenant
require_candidate_cases tenant id s =
    the_cases tenant id _ s _ (not_found (text "Prospect candidate not found")) refl
