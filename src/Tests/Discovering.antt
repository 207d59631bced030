-- ===== src/Tests/Discovering.antt =====
-- Candidates: scores, the comparison with the CRM, and creation.
use zex_platform.Base.{
  ℕ, ◌≤◌, ◌-◌, min, Text, text, text_eq, ◌≡◌, ◌≢◌, ◌⊎◌, ◌∙◌, sym, refl, ap, true, none, some, List,
  [], ◌∷◌, arith, length, leb, is_some, if◌then◌else◌, select, find_first,
}
use zex_platform.Base.Effects.{plain, err}
use zex_platform.Store.{
  company, RuleValue, one, many, Polarity, Rule, Icp, IcpInput, FitBand, Candidate, CandidateStatus,
  Company, Dedupe, Db, Env,
}
use zex_platform.Prospects.Fit.{Signals, Fit, hits_disqualifier, assess_icp_fit}
use zex_platform.Prospects.Names.{normalize_company_name}
use zex_platform.Prospects.Dedupe.{
  has_domain, has_name, domain_or_website, dedupe_company_against_crm,
}
use zex_platform.Prospects.Scores.{
  merits, demerits, is_out, score-assess_icp_fit, band-assess_icp_fit,
}
use zex_platform.Prospects.Matching.{some_has, grade, grade-dedupe_company_against_crm}
use zex_platform.Prospects.Create.{create_approved_candidate}
use zex_platform.Prospects.Creating.{Called, crm-create_approved_candidate}
use zex_platform.Prospects.Once.{again-create_approved_candidate}
use zex_platform.Prospects.Requests.{Request, Asked, starts, approves, rejects, creates, serve_all}
use zex_platform.Prospects.Settled.{rows_of, settled-serve_all}
use zex_platform.Tests.Rows.{empty_db, an_env, a_candidate}

abbrev same_text : Text → Text
same_text t = t

abbrev a_signal : Signals
a_signal = record {
  industry = some (text "saas");
  company_size = some (text "51-200");
  geography = none;
  description = some (text "gambling");
  company_name = some (text "Acme");
}

abbrev an_input : IcpInput
an_input = record {
  company_name = text "Z";
  website_url = none;
  icp = record {
    industries = text "saas" ∷ [];
    company_size = text "51" ∷ [];
    geography = [];
    use_cases = [];
    buying_triggers = [];
    disqualifiers = text "gambling" ∷ [];
  };
  personas = [];
  rules =
      record {
        id = text "r";
        about = text "industry";
        operator = text "in";
        value = many (text "saas" ∷ []);
        polarity = Polarity.positive;
        label = none;
      }
      ∷ [];
  limit = none;
}

abbrev a_fit : Fit
a_fit = assess_icp_fit same_text (λ a b. true) a_signal an_input

an_input_score : a_fit.score ≡ 43
unfolding assess_icp_fit text_eq text hits_disqualifier
an_input_score = refl

score-assess_icp_fit_example :
    a_fit.score
    ≡ min 100 (
        merits same_text (λ a b. true) a_signal an_input
        - demerits same_text (λ a b. true) a_signal an_input)
score-assess_icp_fit_example = score-assess_icp_fit same_text (λ a b. true) a_signal an_input

band-assess_icp_fit_example : a_fit.band ≡ (
    if is_out same_text (λ a b. true) a_signal an_input
    then FitBand.disqualified
    else if leb 75 a_fit.score
    then FitBand.strong
    else if leb 55 a_fit.score
    then FitBand.moderate
    else FitBand.weak)
band-assess_icp_fit_example = band-assess_icp_fit same_text (λ a b. true) a_signal an_input

abbrev a_company : Company
a_company = record {
  id = text "k";
  name = some (text "acme, inc.");
  domain = some (text "https://www.acme.com/about");
  website_url = none;
}

-- The protocol, the path and the legal form are left out.
acme_domain :
    domain_or_website same_text a_company.domain a_company.website_url ≡ some (text "acme.com")
unfolding domain_or_website text
acme_domain = refl

acme_name : normalize_company_name same_text a_company.name ≡ some (text "acme")
unfolding normalize_company_name text_eq text
acme_name = refl

grade-dedupe_company_against_crm_example :
    let d = domain_or_website same_text (some (text "acme.com")) none in
    (dedupe_company_against_crm same_text
      (text "Acme LLC")
      (some (text "acme.com"))
      none
      (a_company ∷ [])).status
    ≡ grade (is_some d) (some_has (has_domain same_text) d (a_company ∷ [])) (
        some_has
          (has_name same_text)
          (normalize_company_name same_text (some (text "Acme LLC")))
          (a_company ∷ []))
grade-dedupe_company_against_crm_example =
    grade-dedupe_company_against_crm same_text (text "Acme LLC") (some (text "acme.com")) none
      (a_company ∷ [])

crm-create_approved_candidate_example :
    let t = (create_approved_candidate an_env (text "t") (text "c") (text "u") empty_db).1 in
    (t.crm ≡ []) ⊎ Called an_env (text "t") (text "c") empty_db t
crm-create_approved_candidate_example =
    crm-create_approved_candidate an_env (text "t") (text "c") (text "u") empty_db

-- The checkpoint cannot be written.
abbrev broken_env : Env
broken_env = record an_env { checkpoint_saved = λ n. err (plain (text "down")) }

abbrev broken_db : Db
broken_db = (create_approved_candidate broken_env (text "t") (text "c") (text "u") empty_db).1

broken_calls : broken_db.crm ≡ company (text "t") (text "Acme") none none ∷ []
unfolding create_approved_candidate zex_platform.Prospects.Lookups.require_candidate find_first
    text_eq text zex_platform.Store.has_id zex_platform.Checkpoints.get_completed
    zex_platform.Prospects.Create.create_unless zex_platform.Prospects.Create.create_new
    zex_platform.Prospects.Create.load_companies zex_platform.Prospects.Lookups.load_crm_companies
    zex_platform.Prospects.Lookups.query zex_platform.Prospects.Create.check_verdict
    dedupe_company_against_crm zex_platform.Prospects.Lookups.put_all
    zex_platform.Prospects.Create.create_in_crm zex_platform.Prospects.Create.after_call
    zex_platform.Prospects.Create.creation_failed zex_platform.Prospects.Lookups.set_candidate
    zex_platform.Store.log zex_platform.Sdr.Crm.crm_call
    zex_platform.Prospects.Create.finish_creation zex_platform.Prospects.Lookups.load_by_name
broken_calls = refl

again-create_approved_candidate_example :
    (create_approved_candidate broken_env (text "t") (text "c") (text "v") broken_db).1.crm
    ≡ broken_db.crm
again-create_approved_candidate_example =
    again-create_approved_candidate broken_env (text "t") (text "c") (text "u") (text "v") empty_db
      (b'0' ∷ 0 ∷ []) (λ e. omega (arith, ap length (sym broken_calls ∙ e))) (λ call. refl) refl

abbrev a_created : Candidate
a_created = record a_candidate {
  status = CandidateStatus.created;
  created_company = some (text "k");
}

abbrev created_db : Db
created_db = record empty_db { candidates = a_created ∷ [] }

abbrev by_u : Request → Asked
by_u r = record { tenant = text "t"; by = text "u"; request = r }

abbrev a_history : List Asked
a_history =
    by_u (approves (text "c"))
    ∷ by_u (starts (text "b") none true)
    ∷ by_u (rejects (text "c"))
    ∷ by_u (creates (text "c"))
    ∷ []

not_c : (n : ℕ) → 0 ≤ n → an_env.cuid n ≢ text "c"
unfolding text
not_c n h e = omega (arith, ap length e)

created_rows : rows_of (text "c") created_db ≡ a_created ∷ []
unfolding select text_eq text
created_rows = refl

settled-serve_all_example :
    rows_of (text "c") (serve_all an_env a_history created_db) ≡ a_created ∷ []
settled-serve_all_example =
    settled-serve_all an_env a_created a_history created_db refl not_c created_rows
