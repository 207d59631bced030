-- ===== src/Scoring/Bounds.antt =====
-- How high a score can be.
use zex_platform.Base.{
  ℕ, ◌+◌, ◌≤◌, min, Text, text, ◌≡◌, sym, ap, ◌∙◌, ◌⊎◌, inl, inr, true, false, Option, none, some,
  arith, List, [], ◌∷◌, ◌++◌, All, In, get_or, Bool-cases,
}
use zex_platform.Base.Ints.{
  ℤ, pos, negsuc, pos_part, percent, leb_ℤ, ◌+ℤ◌, +ℤ_zero, +ℤ_assoc, pos_part-+ℤ,
}
use zex_platform.Store.{
  Lead, Enrichment, TitleKeywords, ActivityRecency, Weights, Factor, ScoringRule, Db, Env,
}
use zex_platform.Scoring.Choice.{applies, score-Chosen}
use zex_platform.Scoring.Engine.{
  factor, clamp, score, total, title_factor, size_factor, size_points, industry_factor,
  recency_factor, calculate_factors, default_weights, for_age, score_by,
}

-- What a list of factors adds to a score at most.
abbrev gain : List Factor → ℕ
gain fs = pos_part (total fs)

-- The sum of one factor.
gain_one : (name : Text) (a : ℤ) → gain (factor name a) ≡ pos_part a
unfolding total ◌+ℤ◌
gain_one name a = ground arith

total-append : (fs gs : List Factor) → total (fs ++ gs) ≡ total fs +ℤ total gs
unfolding total
total-append [] gs = +ℤ_zero (total gs)
total-append (f ∷ fs) gs =
    ap (λ a. f.points +ℤ a) (total-append fs gs) ∙ sym (+ℤ_assoc f.points (total fs) (total gs))

gain-append : (fs gs : List Factor) → gain (fs ++ gs) ≤ gain fs + gain gs
gain-append fs gs = rw (total-append fs gs) (pos_part-+ℤ (total fs) (total gs))

-- The most that a configuration can give: the weights above zero, and 20 points for the size, whose weight
-- the code does not read.
abbrev title_most : Option TitleKeywords → ℕ
title_most none = 0
title_most (some k) = pos_part (get_or k.weight (pos 25))

abbrev size_most : Option (Option ℤ) → ℕ
size_most none = 0
size_most (some weight) = 20

abbrev industry_most : Option (Option ℤ) → ℕ
industry_most none = 0
industry_most (some w) = pos_part (get_or w (pos 20))

abbrev recency_most : Option ActivityRecency → ℕ
recency_most none = 0
recency_most (some a) = pos_part (get_or a.weight (pos 15))

abbrev pub most : Weights → ℕ
most w =
    title_most w.title_keywords
    + size_most w.company_size_match
    + industry_most w.industry_match
    + recency_most w.activity_recency

title_bound :
    (lower : Text → Text) (p : Lead) (e : Enrichment) (k : Option TitleKeywords)
    → gain (title_factor lower p e k) ≤ title_most k
unfolding title_factor total
title_bound lower p e none = omega arith
title_bound lower p e (some k) = grind (arith, gain_one)

size_points_bound : (t : Option Text) → size_points t ≤ 20
unfolding size_points
size_points_bound none = omega arith
size_points_bound (some t) = ground arith

size_bound : (e : Enrichment) (w : Option (Option ℤ)) → gain (size_factor e w) ≤ size_most w
unfolding size_factor total
size_bound e none = omega arith
size_bound e (some w) = grind (arith, gain_one, size_points_bound e.company_size)

industry_bound :
    (e : Enrichment) (w : Option (Option ℤ)) → gain (industry_factor e w) ≤ industry_most w
unfolding industry_factor total
industry_bound e none = omega arith
industry_bound e (some w) = grind (arith, gain_one)

half_bound : (w : ℤ) → pos_part (percent 50 w) ≤ pos_part w
half_bound w = ground arith

part_bound : (w : ℤ) → pos_part (percent 66 w) ≤ pos_part w
part_bound w = ground arith

age_bound : (days : Option ℤ) (w n : ℤ) → pos_part (for_age days w n) ≤ pos_part w
age_bound none w n = half_bound w
age_bound (some d) w n = elim (Bool-cases (leb_ℤ d n)) [
  | inl young ↦ rw young (omega arith)
  | inr older ↦ elim (Bool-cases (leb_ℤ d (pos 30))) [
    | inl near ↦ rw (older, near) (part_bound w)
    | inr far ↦ rw (older, far) (omega arith)
  ]
]

recency_bound : (p : Lead) (a : Option ActivityRecency) → gain (recency_factor p a) ≤ recency_most a
unfolding recency_factor total
recency_bound p none = omega arith
recency_bound p (some a) = omega (
  arith,
  gain_one (text "activityRecency")
      (for_age p.days_old (get_or a.weight (pos 15)) (get_or a.days_threshold (pos 7))),
  age_bound p.days_old (get_or a.weight (pos 15)) (get_or a.days_threshold (pos 7)),
)

sum_bound :
    (t z i r : List Factor) (a b c d : ℕ)
    → gain t ≤ a
    → gain z ≤ b
    → gain i ≤ c
    → gain r ≤ d
    → gain (t ++ z ++ i ++ r) ≤ a + b + c + d
sum_bound t z i r a b c d h k l m =
    omega (arith, h, k, l, m, gain-append (t ++ z ++ i) r, gain-append (t ++ z) i, gain-append t z)

factors_bound :
    (lower : Text → Text) (p : Lead) (e : Enrichment) (w : Weights)
    → gain (calculate_factors lower p e w) ≤ most w
unfolding calculate_factors
factors_bound lower p e w =
    sum_bound (title_factor lower p e w.title_keywords) (size_factor e w.company_size_match)
      (industry_factor e w.industry_match) (recency_factor p w.activity_recency) _ _ _ _
      (title_bound lower p e w.title_keywords) (size_bound e w.company_size_match)
      (industry_bound e w.industry_match) (recency_bound p w.activity_recency)

-- The weights that a score is computed with.
abbrev pub weights_of : Option ScoringRule → Weights
weights_of none = default_weights
weights_of (some r) = r.weights

clamp_bound : (a : ℤ) → clamp a ≤ min 100 (pos_part a)
clamp_bound (pos n) = omega arith
clamp_bound (negsuc n) = omega arith

score_by_bound :
    (env : Env) (p : Lead) (e : Enrichment) (o : Option ScoringRule)
    → (score_by env p e o).score ≤ min 100 (most (weights_of o))
score_by_bound env p e none = omega (
  arith,
  clamp_bound (total (calculate_factors env.lower p e default_weights)),
  factors_bound env.lower p e default_weights,
)
score_by_bound env p e (some r) = omega (
  arith,
  clamp_bound (total (calculate_factors env.lower p e r.weights)),
  factors_bound env.lower p e r.weights,
)

-- A score is at most 80 where no rule of the tenant applies; otherwise a rule that applies bounds it by
-- 100, and by the sum of those of its weights that are above zero, with 20 in place of the weight of the
-- company's size, which the code does not read.
pub score_bound :
    (env : Env) (tenant : Text) (p : Lead) (e : Enrichment) (db : Db)
    → let s = score env tenant p e db in
      (All (λ r. applies env tenant e r ≡ false) db.scoring_rules × (s.score ≤ 80))
      ⊎ ((r : ScoringRule) × In r db.scoring_rules
          × (applies env tenant e r ≡ true)
          × (s.score ≤ min 100 (most r.weights)))
score_bound env tenant p e db = elim (score-Chosen env tenant p e db) [
  | inl (nothing, by_default) ↦
      inl (nothing, rw by_default (omega (arith, score_by_bound env p e none)))
  | inr c ↦ inr (c.rule, c.there, c.fits, rw c.gives (score_by_bound env p e (some c.rule)))
]
