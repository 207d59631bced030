-- ===== src/Research/Findings.antt =====
-- src/research-agent/finding-utils.ts, and `sanitizeProviderFindings` of
-- src/research-agent/package-builder.ts.
use zex_platform.Base.{
  ℕ, ◌*◌, Text, text, text_eq, Bool, true, false, not, Option, none, some, List, [], ◌∷◌, ◌++◌,
  ◌&&◌, ◌||◌, leb, ltb, take, length, is_some, get_or, if◌then◌else◌,
}
use mathlib.Core.List.{reverse}
use zex_platform.Base.Texts.{includes, trim, join, non_empty}
use zex_platform.Sdr.Templates.{some_text}
use zex_platform.Prospects.Names.{single_spaces}
use zex_platform.Base.Effects.{Result, ok, err, plain}
use zex_platform.Store.{FindingType, ProviderFinding, Url, Env}

abbrev pub finding_type_text : FindingType → Text
finding_type_text FindingType.company_overview = text "COMPANY_OVERVIEW"
finding_type_text FindingType.business_model = text "BUSINESS_MODEL"
finding_type_text FindingType.product = text "PRODUCT"
finding_type_text FindingType.icp_relevance = text "ICP_RELEVANCE"
finding_type_text FindingType.leadership = text "LEADERSHIP"
finding_type_text FindingType.hiring = text "HIRING"
finding_type_text FindingType.funding = text "FUNDING"
finding_type_text FindingType.expansion = text "EXPANSION"
finding_type_text FindingType.tech_stack = text "TECH_STACK"
finding_type_text FindingType.crm_change = text "CRM_CHANGE"
finding_type_text FindingType.strategic_initiative = text "STRATEGIC_INITIATIVE"
finding_type_text FindingType.pain_signal = text "PAIN_SIGNAL"
finding_type_text FindingType.competitor = text "COMPETITOR"
finding_type_text FindingType.recent_news = text "RECENT_NEWS"
finding_type_text FindingType.objection_context = text "OBJECTION_CONTEXT"
finding_type_text FindingType.outreach_hook = text "OUTREACH_HOOK"

-- `?.trim() || null`
unfoldable pub trimmed : Option Text → Option Text
unfolding trim non_empty
trimmed none = none
trimmed (some t) = non_empty (trim t)

bounded : Text → Text
bounded t = if leb (length t) 500 then t else take 499 t ++ text "…"

bound_text : Option Text → Option Text
unfolding bounded
bound_text none = none
bound_text (some t) = some (bounded t)

unfoldable pub bound_excerpt : Option Text → Option Text
unfolding bound_text
bound_excerpt t = bound_text (trimmed (some_text t))

-- `replace(/\/+$/, '')`
drop_slashes : Text → Text
drop_slashes [] = []
drop_slashes (c ∷ s) = if text_eq (c ∷ []) (text "/") then drop_slashes s else c ∷ s

without_slashes : Text → Text
unfolding drop_slashes
without_slashes s = reverse (drop_slashes (reverse s))

abbrev pub is_web : Url → Bool
is_web u = text_eq u.protocol (text "http:") || text_eq u.protocol (text "https:")

unfoldable pub normal_path : Text → Text
unfolding without_slashes
normal_path p = if ltb 1 (length p) then without_slashes p else p

abbrev pub normal_url : (Text → Text) → Url → Url
normal_url lower u = record u {
  hash = [];
  pathname = normal_path u.pathname;
  hostname = lower u.hostname;
}

abbrev pub printed_url : Env → Option Url → Option Text
printed_url env none = none
printed_url env (some u) = if is_web u then some (env.print_url (normal_url env.lower u)) else none

unfoldable pub parsed_url : Env → Option Text → Option Url
unfolding trim
parsed_url env none = none
parsed_url env (some t) = env.parse_url (trim t)

unfoldable pub normalize_source_url : Env → Option Text → Option Text
normalize_source_url env raw = printed_url env (parsed_url env (some_text raw))

unfoldable pub normalize_claim : (Text → Text) → Text → Text
unfolding trim single_spaces
normalize_claim lower claim = single_spaces false (lower (trim claim))

-- The text that `buildFindingDedupeKey` hashes.
unfoldable pub dedupe_material : Env → Text → ProviderFinding → Text
unfolding normalize_claim normalize_source_url join trim
dedupe_material env candidate_id f = join (text "|") (
    candidate_id
    ∷ finding_type_text f.kind
    ∷ normalize_claim env.lower f.claim
    ∷ get_or (normalize_source_url env f.source_url) []
    ∷ take 10 (get_or f.occurred_at [])
    ∷ env.lower (trim (get_or f.person_name []))
    ∷ [])

unfoldable pub build_finding_dedupe_key : Env → Text → ProviderFinding → Text
unfolding dedupe_material
build_finding_dedupe_key env candidate_id f = env.sha256 (dedupe_material env candidate_id f)

abbrev pub has_excerpt : ProviderFinding → Bool
has_excerpt f = is_some (trimmed f.excerpt)

abbrev pub has_source : ProviderFinding → Bool
has_source f =
    is_some (some_text f.source_url)
    || is_some (some_text f.source_title)
    || is_some (some_text f.source_type)

-- The text in which a named person must stand.
unfoldable pub evidence_text : (Text → Text) → ProviderFinding → Text
evidence_text lower f = lower (get_or f.excerpt [] ++ text " " ++ f.summary ++ text " " ++ f.claim)

unfoldable pub names_person : (Text → Text) → ProviderFinding → Option Text → Bool
unfolding evidence_text includes trim
names_person lower f none = true
names_person lower f (some name) = includes (evidence_text lower f) (lower (trim name))

unfoldable pub assert_finding_provenance : (Text → Text) → ProviderFinding → Result (Unit {0})
unfolding names_person
assert_finding_provenance lower f =
    if not (has_excerpt f) && not (has_source f)
    then err (plain (text "Finding lacks provenance: " ++ f.title))
    else if names_person lower f (some_text f.person_name)
    then ok tt
    else err
        (plain (text "Named person not evidenced in finding text: " ++ get_or f.person_name []))

-- `daysBetween(now, date) > 180`, false for a text that is no date.
abbrev pub older : Option ℕ → Bool
older none = false
older (some ms) = ltb (180 * 24 * 60 * 60 * 1000) ms

abbrev pub is_old : Env → Option Text → Bool
is_old env none = false
is_old env (some d) = older (env.ms_since d)

unfoldable pub sanitized : Env → ProviderFinding → ProviderFinding
unfolding normalize_source_url bound_excerpt
sanitized env f = record f {
  source_url = normalize_source_url env f.source_url;
  excerpt = bound_excerpt f.excerpt;
  stale = f.stale || is_old env (some_text f.occurred_at) || is_old env (some_text f.published_at);
  person_name = trimmed f.person_name;
  person_role = trimmed f.person_role;
}

unfoldable pub sanitize_one :
    Env
    → ProviderFinding
    → Result (Unit {0})
    → Result (List ProviderFinding)
    → Result (List ProviderFinding)
unfolding sanitized
sanitize_one env f (err e) rest = err e
sanitize_one env f (ok u) (err e) = err e
sanitize_one env f (ok u) (ok fs) = ok (sanitized env f ∷ fs)

unfoldable pub sanitize_provider_findings :
    Env → List ProviderFinding → Result (List ProviderFinding)
unfolding assert_finding_provenance sanitize_one
sanitize_provider_findings env [] = ok []
sanitize_provider_findings env (f ∷ fs) =
    sanitize_one env f (assert_finding_provenance env.lower f) (sanitize_provider_findings env fs)
