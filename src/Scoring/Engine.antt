-- ===== src/Scoring/Engine.antt =====
-- `score` and `calculateFactors` of src/scoring/scoring.engine.ts. Weights are whole numbers, and
-- the age of a person is in days.
use zex_platform.Base.{
  ℕ, min, Text, text, text_eq, Bool, ◌&&◌, Option, none, some, List, [], ◌∷◌, ◌++◌, any, get_or,
  or_else, select, find_first, if◌then◌else◌,
}
use zex_platform.Base.Ints.{ℤ, pos, negsuc, leb_ℤ, percent, ◌+ℤ◌}
use zex_platform.Base.Texts.{includes}
use zex_platform.Store.{
  Lead, Enrichment, TitleKeywords, ActivityRecency, Weights, Factor, ScoringRule, Db, Env,
}
use zex_platform.Sdr.Templates.{some_text}
use zex_platform.Scoring.Filters.{matches_filters}

abbrev pub factor : Text → ℤ → List Factor
factor name points = record { name = name; points = points } ∷ []

-- `sizeMap`
unfoldable pub size_points : Option Text → ℕ
size_points none = 0
size_points (some t) =
    if text_eq t (text "1-10")
    then 5
    else if text_eq t (text "11-50")
    then 15
    else if text_eq t (text "51-200")
    then 20
    else if text_eq t (text "201-500")
    then 18
    else if text_eq t (text "500+")
    then 20
    else if text_eq t (text "501-1000")
    then 20
    else if text_eq t (text "1000+")
    then 20
    else 0

abbrev job_title : Lead → Enrichment → Text
job_title p e = get_or (or_else (some_text p.job_title) (some_text e.job_title)) (text "")

unfoldable pub title_factor : (Text → Text) → Lead → Enrichment → Option TitleKeywords → List Factor
unfolding includes
title_factor lower p e none = []
title_factor lower p e (some k) = factor (text "titleMatch") (
    if any (λ w. includes (lower (job_title p e)) (lower w)) k.keywords
    then get_or k.weight (pos 25)
    else pos 0)

-- The weight of the size is not read.
unfoldable pub size_factor : Enrichment → Option (Option ℤ) → List Factor
unfolding size_points
size_factor e none = []
size_factor e (some weight) = factor (text "companySizeMatch") (pos (size_points e.company_size))

abbrev for_industry : Option Text → ℤ → ℤ
for_industry none weight = pos 0
for_industry (some t) weight = weight

unfoldable pub industry_factor : Enrichment → Option (Option ℤ) → List Factor
industry_factor e none = []
industry_factor e (some weight) =
    factor (text "industryMatch") (for_industry (some_text e.industry) (get_or weight (pos 20)))

-- `Math.floor(weight * 0.66)` for an age up to 30 days, `Math.floor(weight * 0.5)` for an unknown one.
abbrev pub for_age : Option ℤ → ℤ → ℤ → ℤ
for_age none weight threshold = percent 50 weight
for_age (some days) weight threshold =
    if leb_ℤ days threshold
    then weight
    else if leb_ℤ days (pos 30)
    then percent 66 weight
    else pos 0

unfoldable pub recency_factor : Lead → Option ActivityRecency → List Factor
recency_factor p none = []
recency_factor p (some a) =
    factor (text "activityRecency")
      (for_age p.days_old (get_or a.weight (pos 15)) (get_or a.days_threshold (pos 7)))

unfoldable pub calculate_factors : (Text → Text) → Lead → Enrichment → Weights → List Factor
unfolding title_factor size_factor industry_factor recency_factor
calculate_factors lower p e w =
    title_factor lower p e w.title_keywords
    ++ size_factor e w.company_size_match
    ++ industry_factor e w.industry_match
    ++ recency_factor p w.activity_recency

-- `Object.values(factors).reduce((a, b) => a + b, 0)`
unfoldable pub total : List Factor → ℤ
unfolding ◌+ℤ◌
total [] = pos 0
total (f ∷ fs) = f.points +ℤ total fs

pub record Score : Type 0 where
  pub score : ℕ
  pub factors : List Factor
  pub rule_name : Text

-- `Math.min(100, Math.max(0, total))`
abbrev pub clamp : ℤ → ℕ
clamp (pos n) = min 100 n
clamp (negsuc n) = 0

abbrev pub score_of : List Factor → Text → Score
score_of factors name = record {
  score = clamp (total factors);
  factors = factors;
  rule_name = name;
}

-- `orderBy: { priority: 'desc' }`
unfoldable pub insert : ScoringRule → List ScoringRule → List ScoringRule
insert r [] = r ∷ []
insert r (x ∷ xs) = if leb_ℤ x.priority r.priority then r ∷ x ∷ xs else x ∷ insert r xs

unfoldable pub by_priority : List ScoringRule → List ScoringRule
unfolding insert
by_priority [] = []
by_priority (r ∷ rs) = insert r (by_priority rs)

abbrev pub is_active_rule : Text → ScoringRule → Bool
is_active_rule tenant r = text_eq r.tenant tenant && r.enabled

-- The configuration where no rule matches.
abbrev pub default_weights : Weights
default_weights = record {
  title_keywords = some (record {
    keywords = text "CEO" ∷ text "VP" ∷ text "Director" ∷ text "Founder" ∷ [];
    weight = some (pos 25);
  });
  company_size_match = some (some (pos 20));
  industry_match = some (some (pos 20));
  activity_recency = some (record { weight = some (pos 15); days_threshold = some (pos 7) });
}

abbrev pub score_by : Env → Lead → Enrichment → Option ScoringRule → Score
score_by env p e none =
    score_of (calculate_factors env.lower p e default_weights) (text "builtin-default")
score_by env p e (some r) = score_of (calculate_factors env.lower p e r.weights) r.name

-- The loop returns at the first rule that matches.
unfoldable pub score : Env → Text → Lead → Enrichment → Db → Score
unfolding by_priority matches_filters calculate_factors total
score env tenant p e db = score_by env p e (
    find_first (λ r. matches_filters env.at_most e r.filters)
      (by_priority (select (is_active_rule tenant) db.scoring_rules)))
