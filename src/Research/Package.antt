-- ===== src/Research/Package.antt =====
-- `buildResearchPackage` of src/research-agent/package-builder.ts, with the limits of
-- `researchPackageSchema` in src/research-agent/research-agent.types.ts.
use zex_platform.Base.{
  ℕ, ◌*◌, Text, text, Bool, not, Option, none, some, List, [], ◌∷◌, ◌++◌, ◌&&◌, ◌||◌, leb, take,
  length, map, any, all, find_first, select, or_else, get_or, if◌then◌else◌,
}
use zex_platform.Base.Texts.{join, non_empty}
use zex_platform.Base.Effects.{Result, ok, err, plain}
use zex_platform.Json.{Json, str, arr, obj, Items, nil, item, end, field}
use zex_platform.Json.Print.{stringify}
use zex_platform.Store.{
  IcpInput, FindingType, Finding, KeyFinding, Person, OutreachContext, Package,
}
use zex_platform.Sdr.Templates.{some_text}
use zex_platform.Research.Context.{
  is_of, has_person, compute_research_confidence, Pattern, patterns, matches, risks_of,
  build_outreach_context,
}

-- `PackageBuildInput`
pub record Material : Type 0 where
  pub company_name : Text
  pub industry : Option Text
  pub description : Option Text
  pub brain : IcpInput
  pub findings : List Finding
  pub why_now_text : Option Text
  pub why_now_snapshot_id : Option Text
  pub buyer_roles : List Text

abbrev pub rank : Finding → ℕ
rank f = f.found.confidence * f.found.relevance

unfoldable pub place : Finding → List Finding → List Finding
place f [] = f ∷ []
place f (g ∷ gs) = if leb (rank g) (rank f) then f ∷ g ∷ gs else g ∷ place f gs

-- `sort` by rank, the greatest first; findings of one rank keep their order.
unfoldable pub ranked : List Finding → List Finding
unfolding place
ranked [] = []
ranked (f ∷ fs) = place f (ranked fs)

abbrev pub key_finding : Finding → KeyFinding
key_finding f = record {
  id = f.id;
  kind = f.found.kind;
  title = f.found.title;
  summary = f.found.summary;
  claim = f.found.claim;
  source_url = f.found.source_url;
  source_title = f.found.source_title;
  confidence = f.found.confidence;
  stale = f.found.stale;
  person_name = f.found.person_name;
  person_role = f.found.person_role;
}

abbrev pub summary_found : Option Finding → Option Text
summary_found none = none
summary_found (some f) = some_text (some f.found.summary)

company_summary : Material → List Finding → Text
unfolding find_first
company_summary m fs =
    get_or
      (or_else (summary_found (find_first (is_of FindingType.company_overview) fs))
        (some_text m.description))
      (m.company_name ++ text " — limited public overview available from research.")

-- `slice(0, 3).join(', ') || other`
unfoldable pub first_three : List Text → Text → Text
unfolding join non_empty
first_three ts other = get_or (non_empty (join (text ", ") (take 3 ts))) other

abbrev pub relevance_text : Text → Text → Text → Option Text → Text
relevance_text company industries use_cases none =
    text "Relevance to Company Brain ICP ("
    ++ industries
    ++ text ") is inferred from discovery fit; research evidence is limited."
relevance_text company industries use_cases (some industry) =
    company
    ++ text " ("
    ++ industry
    ++ text ") maps to Company Brain focus on "
    ++ industries
    ++ text " / "
    ++ use_cases
    ++ text "."

why_relevant : Material → List Finding → Text
unfolding find_first
why_relevant m fs = get_or (summary_found (find_first (is_of FindingType.icp_relevance) fs)) (
    relevance_text m.company_name (first_three m.brain.icp.industries (text "target industries"))
      (first_three m.brain.icp.use_cases (text "ICP use cases")) (some_text m.industry))

abbrev pub named_person : Finding → Person
named_person f = record {
  name = get_or f.found.person_name [];
  role = f.found.person_role;
  source_url = f.found.source_url;
  finding_id = f.id;
}

unfoldable pub texts : List Text → Items
texts [] = nil
texts (t ∷ ts) = item (str t) (texts ts)

unfoldable pub context_json : OutreachContext → Json
unfolding texts
context_json c = obj (
    field (text "primaryAngle") (str c.primary_angle) (
      field (text "supportingPoints") (arr (texts c.supporting_points)) (
        field (text "personalizationFacts") (arr (texts c.personalization_facts)) (
          field (text "risks") (arr (texts c.risks)) (
            field (text "doNotClaim") (arr (texts c.do_not_claim))
              (field (text "suggestedBuyerRoles") (arr (texts c.suggested_buyer_roles)) end))))))

unfoldable pub in_finding : Pattern → Finding → Bool
unfolding matches
in_finding p f = matches f.found.claim p || matches f.found.summary p

-- A pattern in the printed context that no finding holds.
unfoldable pub invented : Text → List Finding → Pattern → Bool
unfolding matches
invented printed fs p = matches printed p && not (any (in_finding p) fs)

abbrev pub at_most : ℕ → Text → Bool
at_most n t = leb (length t) n

abbrev pub each_at_most : ℕ → ℕ → List Text → Bool
each_at_most most n ts = leb (length ts) most && all (at_most n) ts

abbrev pub fits_context : OutreachContext → Bool
fits_context c =
    at_most 500 c.primary_angle
    && each_at_most 8 400 c.supporting_points
    && each_at_most 8 400 c.personalization_facts
    && each_at_most 8 400 c.risks
    && each_at_most 12 400 c.do_not_claim
    && each_at_most 12 120 c.suggested_buyer_roles

-- What `researchPackageSchema` asks of a package.
unfoldable pub fits : Package → Bool
fits p =
    at_most 2000 p.company_summary
    && at_most 2000 p.why_relevant
    && at_most 2000 p.why_now
    && leb (length p.key_findings) 8
    && each_at_most 10 400 p.risks_objections
    && fits_context p.outreach_context
    && leb p.confidence.over p.confidence.under

abbrev pub version : Text
version = text "research-agent-v1"

unfoldable pub package_of : Material → List Finding → OutreachContext → Package
unfolding company_summary why_relevant compute_research_confidence risks_of select
package_of m fs c = record {
  company_summary = company_summary m fs;
  why_relevant = why_relevant m fs;
  why_now =
      get_or (some_text m.why_now_text)
        (text "No Why-Now snapshot available — do not invent urgency from research alone.");
  why_now_snapshot_id = m.why_now_snapshot_id;
  key_findings = map key_finding (take 8 fs);
  likely_roles = m.buyer_roles;
  named_people = map named_person (select has_person fs);
  risks_objections =
      risks_of (text "[Stale] ") (text "Research returned no usable external findings.") fs;
  outreach_context = c;
  confidence = compute_research_confidence fs;
  research_version = version;
  finding_ids = map (λ (f : Finding). f.id) fs;
}

-- The guard on the phrases and the schema; the error of the schema has the issues in its message.
unfoldable pub checked_package :
    (Text → Text) → Material → List Finding → OutreachContext → Result Package
unfolding stringify invented package_of fits
checked_package lower m fs c =
    if any (invented (lower (stringify (context_json c))) fs) patterns
    then err (plain (text "Outreach context contains unsupported personalization phrasing"))
    else if fits (package_of m fs c)
    then ok (package_of m fs c)
    else err (plain (text "too_big"))

unfoldable pub with_context :
    (Text → Text) → Material → List Finding → Result OutreachContext → Result Package
unfolding checked_package
with_context lower m fs (err e) = err e
with_context lower m fs (ok c) = checked_package lower m fs c

-- The steps after the sort.
unfoldable pub build_from_ranked : (Text → Text) → Material → List Finding → Result Package
unfolding build_outreach_context compute_research_confidence
build_from_ranked lower m fs =
    with_context lower m fs (
      build_outreach_context lower fs m.buyer_roles m.company_name (compute_research_confidence fs))

unfoldable pub build_research_package : (Text → Text) → Material → Result Package
unfolding ranked build_from_ranked
build_research_package lower m = build_from_ranked lower m (ranked m.findings)
