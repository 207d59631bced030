-- ===== src/Research/Context.antt =====
-- `computeResearchConfidence`, `hasConflict` and `buildOutreachContext` of
-- src/research-agent/package-builder.ts. Arithmetic is exact: a confidence is a fraction of which
-- `clamp01` leaves at most one.
use zex_platform.Base.{
  ℕ, ◌+◌, ◌-◌, ◌*◌, min, Text, text, text_eq, Bool, true, false, not, Option, none, some, List, [],
  ◌∷◌, ◌++◌, ◌&&◌, ◌||◌, leb, ltb, take, length, map, any, is_some, find_first, select, or_else,
  get_or, if◌then◌else◌,
}
use zex_platform.Base.Texts.{includes, is_space, ascii_lower}
use zex_platform.Base.Effects.{Result, ok, err, plain}
use zex_platform.Store.{FindingType, EvidenceType, Finding, Ratio, OutreachContext}
use zex_platform.Research.Findings.{finding_type_text}
use zex_platform.Sdr.Templates.{some_text}

abbrev pub same_type : FindingType → FindingType → Bool
same_type a b = text_eq (finding_type_text a) (finding_type_text b)

abbrev pub is_of : FindingType → Finding → Bool
is_of t f = same_type f.found.kind t

abbrev pub is_stale : Finding → Bool
is_stale f = f.found.stale

abbrev pub claim_of : Finding → Text
claim_of f = f.found.claim

abbrev pub has_person : Finding → Bool
has_person f = is_some (some_text f.found.person_name)

abbrev pub has_url : Finding → Bool
has_url f = is_some (some_text f.found.source_url)

unfoldable pub has_conflict : List Finding → Bool
has_conflict fs =
    any (is_of FindingType.objection_context) fs
    && (any (is_of FindingType.crm_change) fs
        || any (is_of FindingType.hiring) fs
        || any (is_of FindingType.funding) fs)

abbrev pub sum_of : (Finding → ℕ) → List Finding → ℕ
sum_of f [] = 0
sum_of f (x ∷ xs) = f x + sum_of f xs

-- `clamp01`
abbrev pub clamp01 : ℕ → ℕ → Ratio
clamp01 over under = record { over = min over under; under = under }

abbrev pub penalty : Bool → ℕ → ℕ
penalty true n = n
penalty false n = 0

-- The confidence of `n` findings in ten-thousandths of an `n`-th: the sums of the confidences and of the
-- relevances in hundredths stand for the averages. A difference below zero is clamped to zero.
unfoldable pub weighed : ℕ → List Finding → ℕ
unfolding select has_conflict
weighed n fs =
    2500 * n
    + 35 * sum_of (λ f. f.found.confidence) fs
    + 20 * sum_of (λ f. f.found.relevance) fs
    + min 2500 (500 * length (select has_url fs)) * n
    - (penalty (any is_stale fs) 1200 + penalty (has_conflict fs) 1800 + penalty (ltb n 2) 1500) * n

unfoldable pub compute_research_confidence : List Finding → Ratio
unfolding weighed
compute_research_confidence [] = record { over = 15; under = 100 }
compute_research_confidence (f ∷ fs) =
    clamp01 (weighed (length (f ∷ fs)) (f ∷ fs)) (10000 * length (f ∷ fs))

-- `confidence < 0.45`
abbrev pub below_45 : Ratio → Bool
below_45 r = ltb (100 * r.over) (45 * r.under)

abbrev is_alnum : ℕ → Bool
is_alnum c = (leb b'0' c && leb c b'9') || (leb b'a' c && leb c b'z')

-- `\s*[a-z0-9]` at the start.
after_series : Text → Bool
unfolding is_space
after_series [] = false
after_series (c ∷ s) = let rest = after_series s in if is_space c then rest else is_alnum c

-- What stands after `prefix`, if the text starts with it.
rest_after : Text → Text → Option Text
rest_after [] s = some s
rest_after (p ∷ ps) [] = none
rest_after (p ∷ ps) (c ∷ s) = if text_eq (p ∷ []) (c ∷ []) then rest_after ps s else none

unfoldable pub followed : Option Text → Bool
unfolding after_series
followed none = false
followed (some s) = after_series s

congratulates : Text → Bool
unfolding rest_after after_series
congratulates [] = false
congratulates (c ∷ s) =
    followed (rest_after (text "congrats on your series") (c ∷ s)) || congratulates s

pub data Pattern : Type 0 where
  saw_recently series migrated : Pattern

-- `UNSUPPORTED_PERSONALIZATION_PATTERNS`
abbrev pub patterns : List Pattern
patterns = saw_recently ∷ series ∷ migrated ∷ []

-- `re.test(t)`
unfoldable pub matches : Text → Pattern → Bool
unfolding includes ascii_lower congratulates
matches t saw_recently = includes (ascii_lower t) (text "i saw your team recently")
matches t series = congratulates (ascii_lower t)
matches t migrated = includes (ascii_lower t) (text "i noticed you migrated from salesforce")

-- A claim that speaks of a series or of Salesforce.
unfoldable pub supports : (Text → Text) → Text → Bool
unfolding includes
supports lower c = includes (lower c) (text "series") || includes (lower c) (text "salesforce")

unfoldable pub unsupported : (Text → Text) → List Text → Text → Bool
unfolding matches
unsupported lower claims fact = any (matches fact) patterns && not (any (supports lower) claims)

unfoldable pub check_facts : (Text → Text) → List Text → List Text → Result (Unit {0})
unfolding unsupported
check_facts lower claims [] = ok tt
check_facts lower claims (fact ∷ facts) =
    if unsupported lower claims fact
    then err (plain (text "Unsupported personalization phrase generated: " ++ fact))
    else check_facts lower claims facts

abbrev pub is_explicit : EvidenceType → Bool
is_explicit EvidenceType.explicit = true
is_explicit EvidenceType.inferred = false

abbrev pub is_fact : Finding → Bool
is_fact f = not (is_stale f) && is_explicit f.found.evidence

unfoldable pub personalization_facts : List Finding → List Text
unfolding select
personalization_facts fs = map claim_of (take 5 (select is_fact fs))

abbrev pub line : Bool → Text → List Text
line true t = t ∷ []
line false t = []

abbrev pub no_findings : List Finding → Bool
no_findings [] = true
no_findings (f ∷ fs) = false

unfoldable pub do_not_claim : Text → List Finding → Ratio → List Text
unfolding has_conflict
do_not_claim company fs confidence =
    line (not (any (is_of FindingType.funding) fs))
      (text "Do not congratulate on funding or Series rounds — no funding evidence.")
    ++ line (not (any (is_of FindingType.crm_change) fs))
        (text "Do not claim CRM migration/switching without evidence.")
    ++ line (not (any has_person fs))
        (text "Do not address a named contact — no source-backed person identified.")
    ++ line (no_findings fs)
        (text "Do not invent recent company activity or personalization hooks.")
    ++ line (no_findings fs)
        (text "Do not claim firsthand observation of " ++ company ++ text " without evidence.")
    ++ line (any is_stale fs) (text "Do not present stale findings as recent events.")
    ++ line (below_45 confidence)
        (text "Do not overstate research certainty — evidence is sparse or conflicting.")
    ++ line (has_conflict fs)
        (text "Acknowledge conflicting signals; do not pick only the positive narrative.")

abbrev claim_found : Option Finding → Option Text
claim_found none = none
claim_found (some f) = some_text (some f.found.claim)

abbrev first_claim : Text → List Finding → Text
first_claim company [] =
    text "Limited evidence on "
    ++ company
    ++ text "; lead with verified ICP fit rather than unverified events."
first_claim company (f ∷ fs) = f.found.claim

abbrev is_hook : Finding → Bool
is_hook f = is_of FindingType.outreach_hook f || is_of FindingType.crm_change f

primary_angle : Text → List Finding → Text
unfolding find_first
primary_angle company fs =
    get_or
      (or_else (claim_found (find_first is_hook fs))
        (claim_found (find_first (is_of FindingType.icp_relevance) fs)))
      (first_claim company fs)

abbrev pub is_risk : Finding → Bool
is_risk f = is_of FindingType.objection_context f || is_stale f

abbrev pub risk_text : Text → Finding → Text
risk_text mark f = if is_stale f then mark ++ f.found.claim else f.found.claim

unfoldable pub risks_of : Text → Text → List Finding → List Text
unfolding select
risks_of mark none_found fs =
    map (risk_text mark) (select is_risk fs) ++ line (no_findings fs) none_found

abbrev is_no_objection : Finding → Bool
is_no_objection f = not (is_of FindingType.objection_context f)

-- What `buildOutreachContext` returns.
unfoldable pub outreach_context : List Finding → List Text → Text → Ratio → OutreachContext
unfolding primary_angle personalization_facts do_not_claim risks_of select
outreach_context fs roles company confidence = record {
  primary_angle = primary_angle company fs;
  supporting_points = map claim_of (take 4 (select is_no_objection fs));
  personalization_facts = personalization_facts fs;
  risks = risks_of (text "Stale evidence: ") (text "No external research findings available.") fs;
  do_not_claim = do_not_claim company fs confidence;
  suggested_buyer_roles = take 8 roles;
}

abbrev pub after_check : Result (Unit {0}) → OutreachContext → Result OutreachContext
after_check (ok u) c = ok c
after_check (err e) c = err e

unfoldable pub build_outreach_context :
    (Text → Text) → List Finding → List Text → Text → Ratio → Result OutreachContext
unfolding check_facts personalization_facts outreach_context
build_outreach_context lower fs roles company confidence =
    after_check (check_facts lower (map claim_of fs) (personalization_facts fs))
      (outreach_context fs roles company confidence)
