-- ===== src/Tests/Scoring.antt =====
-- The score of a person.
use zex_platform.Base.{
  ℕ, ◌≤◌, min, Text, text, ◌≡◌, ◌⊎◌, refl, Bool, true, false, Option, none, some, List, [], ◌∷◌,
  All, In, map, text_eq,
}
use zex_platform.Base.Ints.{pos, negsuc}
use zex_platform.Store.{word, single, Weights, Factor, ScoringRule, Db}
use zex_platform.Scoring.Engine.{Score, score, score_by, total, calculate_factors}
use zex_platform.Scoring.Choice.{applies, Chosen, score-Chosen}
use zex_platform.Scoring.Bounds.{most, score_bound}
use zex_platform.Tests.Rows.{empty_db, an_env, a_lead, an_enrichment}

abbrev a_rule : ScoringRule
a_rule = record {
  tenant = text "t";
  name = text "small";
  enabled = true;
  priority = negsuc 0;
  filters =
      record { about = text "industry"; operator = text "eq"; value = single (word (text "SaaS")) }
      ∷ [];
  weights = record {
    title_keywords = none;
    company_size_match = some none;
    industry_match = some (some (pos 90));
    activity_recency = none;
  };
}

abbrev another_rule : ScoringRule
another_rule = record a_rule { name = text "large"; priority = pos 2 }

abbrev rules_db : Db
rules_db = record empty_db { scoring_rules = a_rule ∷ another_rule ∷ [] }

abbrev a_score : Score
a_score = score an_env (text "t") a_lead an_enrichment rules_db

score-Chosen_example :
    (All (λ r. applies an_env (text "t") an_enrichment r ≡ false) rules_db.scoring_rules
      × (a_score ≡ score_by an_env a_lead an_enrichment none))
    ⊎ Chosen an_env (text "t") a_lead an_enrichment rules_db.scoring_rules a_score
score-Chosen_example = score-Chosen an_env (text "t") a_lead an_enrichment rules_db

-- The rule of the higher priority, and a sum of 110.
chosen_name : a_score.rule_name ≡ text "large"
unfolding score zex_platform.Base.find_first zex_platform.Base.select zex_platform.Base.text_eq text
chosen_name = refl

chosen_score : a_score.score ≡ 100
unfolding score zex_platform.Base.find_first zex_platform.Base.select zex_platform.Base.text_eq text
chosen_score = refl

score_bound_example :
    (All (λ r. applies an_env (text "t") an_enrichment r ≡ false) rules_db.scoring_rules
      × (a_score.score ≤ 80))
    ⊎ ((r : ScoringRule) × In r rules_db.scoring_rules
        × (applies an_env (text "t") an_enrichment r ≡ true)
        × (a_score.score ≤ min 100 (most r.weights)))
score_bound_example = score_bound an_env (text "t") a_lead an_enrichment rules_db

-- A weight below zero takes points away, and the score stops at zero.
abbrev strict : Weights
strict = record {
  title_keywords = some (record { keywords = text "CEO" ∷ []; weight = some (negsuc 49) });
  company_size_match = some (some (pos 5));
  industry_match = none;
  activity_recency = some (record { weight = some (negsuc 2); days_threshold = some (pos 1) });
}

strict_points :
    map (λ (f : Factor). f.points) (calculate_factors an_env.lower a_lead an_enrichment strict)
    ≡ negsuc 49 ∷ pos 20 ∷ negsuc 1 ∷ []
unfolding calculate_factors text text_eq
strict_points = refl

strict_score :
    (score_by an_env a_lead an_enrichment (some (record a_rule { weights = strict }))).score ≡ 0
unfolding calculate_factors total text text_eq
strict_score = refl
