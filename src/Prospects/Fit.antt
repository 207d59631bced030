-- ===== src/Prospects/Fit.antt =====
-- src/prospect-discovery/fit-scoring.ts. The score may go below zero before it is clamped at the end: a
-- balance keeps what was added and what was taken off.
use zex_platform.Base.{
  ℕ, ◌+◌, ◌-◌, min, Text, text, text_eq, Bool, true, false, not, Option, none, some, List, [], ◌∷◌,
  ◌++◌, ◌||◌, any, leb, map, get_or, if◌then◌else◌,
}
use zex_platform.Base.Texts.{includes, trim, non_empty}
use zex_platform.Store.{
  RuleValue, one, many, Polarity, Rule, Icp, IcpInput, ReasonType, FitReason, FitBand,
}

-- `CandidateSignals`
pub record Signals : Type 0 where
  pub industry : Option Text
  pub company_size : Option Text
  pub geography : Option Text
  pub description : Option Text
  pub company_name : Option Text

-- `FitAssessment`
pub record Fit : Type 0 where
  pub score : ℕ
  pub band : FitBand
  pub reasons : List FitReason
  pub disqualifiers : List Text

-- The variables of the loops.
pub record Tally : Type 0 where
  pub added : ℕ
  pub taken : ℕ
  pub reasons : List FitReason
  pub disqualifiers : List Text

abbrev pub plus : ℕ → FitReason → Tally → Tally
plus n r t = record t { added = t.added + n; reasons = t.reasons ++ (r ∷ []) }

abbrev pub minus : ℕ → FitReason → Tally → Tally
minus n r t = record t { taken = t.taken + n; reasons = t.reasons ++ (r ∷ []) }

abbrev pub disqualify : Text → Tally → Tally
disqualify d t = record t { disqualifiers = t.disqualifiers ++ (d ∷ []) }

abbrev reason : ReasonType → Text → Option Text → Text → FitReason
reason kind label detail about = record {
  kind = kind;
  label = label;
  detail = detail;
  rule_id = none;
  about = some about;
}

abbrev filled : Option Text → Option Text
filled none = none
filled (some t) = non_empty t

module _ (lower : Text → Text) where
  -- `normalizeToken`
  unfoldable pub token : Text → Text
  unfolding trim
  token t = lower (trim t)

  abbrev holds_any : Option Text → List Text → Bool
  holds_any none needles = false
  holds_any (some h) needles = any (λ n. includes (token h) (token n)) needles

  unfoldable pub includes_any : Option Text → List Text → Bool
  unfolding token non_empty includes
  includes_any haystack needles = holds_any (filled haystack) needles

  -- `normalizeToken(actual)` or the empty text
  abbrev actual_token : Option Text → Text
  actual_token none = []
  actual_token (some t) = token t

  abbrev pub near : Text → List Text → Bool
  near a values = any (λ v. includes a v || includes v a) values

  -- The operators on one expected value.
  unfoldable pub compare_one : (Text → Text → Bool) → Text → Text → Text → Bool
  unfolding includes
  compare_one at_most operator a e =
      if text_eq operator (text "eq")
      then text_eq a e
      else if text_eq operator (text "neq")
      then not (text_eq a e)
      else if text_eq operator (text "contains")
      then includes a e
      else if text_eq operator (text "gte")
      then at_most e a
      else if text_eq operator (text "lte")
      then at_most a e
      else false

  -- `String(expected)` of an array
  abbrev joined : List Text → Text
  joined [] = []
  joined (v ∷ []) = v
  joined (v ∷ w ∷ vs) = v ++ text "," ++ joined (w ∷ vs)

  unfoldable pub rule_matches : (Text → Text → Bool) → Text → Option Text → RuleValue → Bool
  unfolding token non_empty compare_one includes
  rule_matches at_most operator actual expected =
      let a = actual_token (filled actual) in
      if text_eq operator (text "exists") then not (text_eq a []) else elim expected [
        | one e ↦ compare_one at_most operator a (token e)
        | many es ↦
            if text_eq operator (text "in")
            then near a (map token es)
            else if text_eq operator (text "not_in")
            then not (near a (map token es))
            else compare_one at_most operator a (token (joined es))
      ]

-- `fieldValue`
unfoldable pub signal_of : Signals → Text → Option Text
signal_of c about =
    if text_eq about (text "industry")
    then c.industry
    else if text_eq about (text "companySize") || text_eq about (text "employeeCount")
    then c.company_size
    else if text_eq about (text "geography") || text_eq about (text "location")
    then c.geography
    else if text_eq about (text "description")
    then c.description
    else if text_eq about (text "companyName") || text_eq about (text "name")
    then c.company_name
    else none

abbrev pub is_empty : List Text → Bool
is_empty [] = true
is_empty (t ∷ ts) = false

module _ (lower : Text → Text) (at_most : Text → Text → Bool) (c : Signals) where
  unfoldable pub weigh_industry : Icp → Tally → Tally
  unfolding includes_any
  weigh_industry icp t =
      if includes_any lower c.industry icp.industries
      then plus 20
          (reason ReasonType.positive (text "Industry matches ICP") c.industry (text "industry")) t
      else if is_empty icp.industries
      then t
      else minus 10
          (reason ReasonType.negative (text "Industry not in ICP list")
            (some (get_or c.industry (text "unknown"))) (text "industry"))
          t

  unfoldable pub weigh_size : Icp → Tally → Tally
  unfolding includes_any
  weigh_size icp t =
      if includes_any lower c.company_size icp.company_size
      then plus 15
          (reason ReasonType.positive (text "Company size matches ICP") none (text "companySize")) t
      else t

  unfoldable pub weigh_geography : Icp → Tally → Tally
  unfolding includes_any
  weigh_geography icp t =
      if includes_any lower c.geography icp.geography
      then plus 10
          (reason ReasonType.positive (text "Geography matches ICP") none (text "geography")) t
      else t

  unfoldable pub hits_disqualifier : Text → Bool
  unfolding includes_any
  hits_disqualifier d =
      includes_any lower c.industry (d ∷ [])
      || includes_any lower c.description (d ∷ [])
      || includes_any lower c.company_name (d ∷ [])

  unfoldable pub weigh_disqualifiers : List Text → Tally → Tally
  weigh_disqualifiers [] t = t
  weigh_disqualifiers (d ∷ ds) t = weigh_disqualifiers ds (
      if hits_disqualifier d
      then minus 40
          (reason ReasonType.negative (text "ICP disqualifier: " ++ d) none (text "disqualifier"))
          (disqualify d t)
      else t)

  -- `rule.label || ...`
  abbrev label_or : Rule → Text → Text
  label_or r other = get_or (filled r.label) other

  abbrev rule_reason : Rule → Text → FitReason
  rule_reason r other = record {
    kind = ReasonType.rule;
    label = label_or r (other ++ r.about);
    detail = none;
    rule_id = some r.id;
    about = some r.about;
  }

  -- A rule that matches.
  unfoldable pub apply_rule : Rule → Polarity → Tally → Tally
  unfolding non_empty
  apply_rule r Polarity.positive t = plus 8 (rule_reason r (text "Positive rule ")) t
  apply_rule r Polarity.negative t =
      minus 25 (rule_reason r (text "Negative rule ")) (disqualify (label_or r r.about) t)

  unfoldable pub weigh_rules : List Rule → Tally → Tally
  unfolding apply_rule rule_matches signal_of
  weigh_rules [] t = t
  weigh_rules (r ∷ rs) t = weigh_rules rs (
      if rule_matches lower at_most r.operator (signal_of c r.about) r.value
      then apply_rule r r.polarity t
      else t)

  abbrev pub start : Tally
  start = record { added = 40; taken = 0; reasons = []; disqualifiers = [] }

  -- The balance at the end of the loops.
  unfoldable pub tally : IcpInput → Tally
  unfolding weigh_industry weigh_size weigh_geography weigh_disqualifiers weigh_rules
  tally brain = weigh_rules brain.rules (
      weigh_disqualifiers brain.icp.disqualifiers
        (weigh_geography brain.icp (weigh_size brain.icp (weigh_industry brain.icp start))))

  -- `Math.max(0, Math.min(100, score))`
  unfoldable pub clamped : Tally → ℕ
  clamped t = min 100 (t.added - t.taken)

  unfoldable pub band_of : List Text → ℕ → FitBand
  band_of (d ∷ ds) score = FitBand.disqualified
  band_of [] score =
      if leb 75 score
      then FitBand.strong
      else if leb 55 score
      then FitBand.moderate
      else FitBand.weak

  unfoldable pub assess_icp_fit : IcpInput → Fit
  unfolding tally clamped band_of
  assess_icp_fit brain =
      let t = tally brain in
      record {
        score = clamped t;
        band = band_of t.disqualifiers (clamped t);
        reasons = t.reasons;
        disqualifiers = t.disqualifiers;
      }
