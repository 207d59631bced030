-- ===== src/Prospects/Discovery.antt =====
-- `startDiscovery` and `executeDiscovery` of src/prospect-discovery/prospect-discovery.service.ts.
use zex_platform.Base.{
  ℕ, suc, Text, text, text_eq, Bool, true, false, not, Option, none, some, List, [], ◌∷◌, ◌++◌,
  ◌||◌, length, map, update_where,
}
use zex_platform.Base.Effects.{
  Error, bad_request, plain, message, pure, throw, lift, gets, modify, ◌>>=◌, ◌>>◌, throw_if,
  or_throw, try_catch, for_each, branch,
}
use zex_platform.Json.{str, num, nullable, Fields, end, field}
use zex_platform.Store.{
  Payload, BrainStatus, Brain, IcpInput, Found, RunStatus, DiscoveryRun, CandidateStatus, Dedupe,
  Candidate, Company, Job, Db, Action, Env, log, logged,
}
use zex_platform.Sdr.Statuses.{candidate_status_text}
use zex_platform.Prospects.Fit.{Signals, Fit, assess_icp_fit}
use zex_platform.Prospects.Dedupe.{Verdict, domain_or_website, dedupe_company_against_crm}
use zex_platform.Prospects.Lookups.{
  require_tenant, require_run, get_brain, best_effort, Sought, load_crm_companies,
}

abbrev pub is_ready : BrainStatus → Bool
is_ready BrainStatus.ready = true
is_ready _ = false

abbrev pub new_run : Env → Text → Text → Db → DiscoveryRun
new_run env tenant brain_id db = record {
  id = env.cuid db.next_row;
  tenant = tenant;
  brain_id = brain_id;
  status = RunStatus.queued;
  provider = some env.discovery_provider;
  error = none;
}

-- `prospectDiscoveryRun.update({ where: { id } })`
unfoldable pub set_run : Text → (DiscoveryRun → DiscoveryRun) → Db → Db
set_run id f db = record db {
  discovery_runs = update_where (λ r. text_eq r.id id) f db.discovery_runs;
}

dedupe_text : Dedupe → Text
dedupe_text Dedupe.new_company = text "NEW"
dedupe_text Dedupe.exact_match = text "EXACT_MATCH"
dedupe_text Dedupe.possible_match = text "POSSIBLE_MATCH"

abbrev pub status_for : Dedupe → CandidateStatus
status_for Dedupe.exact_match = CandidateStatus.duplicate
status_for _ = CandidateStatus.proposed

abbrev action_for : Dedupe → Text
action_for Dedupe.exact_match = text "prospect_candidate_duplicate_detected"
action_for _ = text "prospect_candidate_proposed"

abbrev signals_of : Found → Signals
signals_of f = record {
  industry = f.industry;
  company_size = f.company_size;
  geography = f.geography;
  description = f.description;
  company_name = some f.company_name;
}

abbrev pub new_candidate : Env → Text → Text → Found → Fit → Verdict → Db → Candidate
new_candidate env tenant run_id f fit v db = record {
  id = env.cuid db.next_row;
  tenant = tenant;
  run_id = run_id;
  provider_key = some f.provider_key;
  company_name = f.company_name;
  domain = domain_or_website env.lower f.domain f.website_url;
  website_url = f.website_url;
  industry = f.industry;
  company_size = f.company_size;
  geography = f.geography;
  description = f.description;
  fit_score = fit.score;
  fit_band = fit.band;
  fit_reasons = fit.reasons;
  disqualifiers = fit.disqualifiers;
  status = status_for v.status;
  dedupe = v.status;
  existing_company = v.existing;
  created_company = none;
  evidence = f.evidence;
  buyer_roles = f.buyer_roles;
  last_error = none;
}

candidate_fields : Candidate → Fields
unfolding candidate_status_text dedupe_text
candidate_fields c = field (text "companyName") (str c.company_name) (
    field (text "domain") (nullable c.domain) (
      field (text "status") (str (candidate_status_text c.status)) (
        field (text "dedupeStatus") (str (dedupe_text c.dedupe)) (
          field (text "fitScore") (num c.fit_score)
            (field (text "existingTwentyCompanyId") (nullable c.existing_company) end)))))

unfoldable pub add_candidate : Env → Text → Text → Found → Fit → Verdict → Text → Action (Unit {0})
unfolding candidate_fields
add_candidate env tenant run_id f fit v by = do
  c ← gets (new_candidate env tenant run_id f fit v)
  modify λ db. record db { next_row = suc db.next_row; candidates = c ∷ db.candidates }
  _ ← log env (
      logged tenant (action_for v.status) (text "ProspectCandidate") c.id
        (some (candidate_fields c)) by)
  pure tt

-- The body of the loop over what the provider found.
unfoldable pub propose_candidate :
    Env → Text → Text → IcpInput → List Company → Text → Found → Action (Unit {0})
propose_candidate env tenant run_id icp companies by f =
    add_candidate env tenant run_id f (assess_icp_fit env.lower env.at_most (signals_of f) icp)
      (dedupe_company_against_crm env.lower f.company_name f.domain f.website_url companies) by

abbrev pub icp_input : Brain → Payload → Option ℕ → IcpInput
icp_input b p limit = record {
  company_name = b.company_name;
  website_url = b.website_url;
  icp = p.icp;
  personas = p.personas;
  rules = p.rules;
  limit = limit;
}

abbrev sought_of : Found → Sought
sought_of f = record { name = f.company_name; domain = f.domain; website_url = f.website_url }

abbrev pub processing_run : DiscoveryRun → DiscoveryRun
processing_run r = record r { status = RunStatus.processing; error = none }

abbrev pub completed_run : Text → DiscoveryRun → DiscoveryRun
completed_run provider r = record r {
  status = RunStatus.completed;
  provider = some provider;
  error = none;
}

abbrev pub failed_run : Text → DiscoveryRun → DiscoveryRun
failed_run why r = record r { status = RunStatus.failed; error = some why }

-- The body of the `try`.
unfoldable pub discover_all : Env → Text → DiscoveryRun → Option ℕ → Text → Action (Unit {0})
discover_all env tenant run limit by = do
  b ← get_brain tenant run.brain_id
  p ← or_throw b.payload (plain (text "Required"))
  found ← lift (env.discover (icp_input b p limit))
  companies ← load_crm_companies env tenant best_effort (map sought_of found.candidates) []
  for_each found.candidates (propose_candidate env tenant run.id (icp_input b p limit) companies by)
  modify (set_run run.id (completed_run found.provider))
  _ ← log env (
      logged tenant (text "prospect_discovery_completed") (text "ProspectDiscoveryRun") run.id
        (some (
          field (text "candidateCount") (num (length found.candidates))
            (field (text "provider") (str found.provider) end)))
        by)
  pure tt

-- The `catch`.
unfoldable pub discovery_failed : Env → Text → DiscoveryRun → Text → Error → Action (Unit {0})
discovery_failed env tenant run by e = do
  modify (set_run run.id (failed_run (message e)))
  _ ←
      log env
        (record (logged tenant (text "prospect_discovery_failed") (text "ProspectDiscoveryRun")
          run.id none by) { success = false; message = some (message e) })
  throw e

unfoldable pub execute_discovery : Env → Text → Text → Option ℕ → Text → Action (Unit {0})
execute_discovery env tenant run_id limit by = do
  run ← require_run tenant run_id
  modify (set_run run.id processing_run)
  try_catch (discover_all env tenant run limit by) (discovery_failed env tenant run by)

abbrev has_payload : Option Payload → Bool
has_payload none = false
has_payload (some p) = true

-- The id of the run, which is then run at once or put on the queue.
unfoldable pub start_discovery : Env → Text → Text → Option ℕ → Bool → Text → Action Text
start_discovery env tenant brain_id limit sync by = do
  _ ← require_tenant tenant
  b ← get_brain tenant brain_id
  throw_if (not (is_ready b.status) || not (has_payload b.payload))
      (bad_request (text "Company Brain must be ready with a payload before discovery"))
  run ← gets (new_run env tenant brain_id)
  modify λ db. record db { next_row = suc db.next_row; discovery_runs = run ∷ db.discovery_runs }
  _ ← log env (
      logged tenant (text "prospect_discovery_run_created") (text "ProspectDiscoveryRun") run.id
        (some (
          field (text "companyBrainId") (str brain_id)
            (field (text "provider") (str env.discovery_provider) end)))
        by)
  branch sync (do execute_discovery env tenant run.id limit (by ++ text ":sync"); pure run.id)
      (do modify λ db. record db { jobs = Job.discover tenant run.id limit ∷ db.jobs }; pure run.id)
