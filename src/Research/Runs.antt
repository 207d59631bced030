-- ===== src/Research/Runs.antt =====
-- `startResearch` and `executeResearch` of src/research-agent/research-agent.service.ts.
use zex_platform.Base.{
  ℕ, suc, Text, text, text_eq, Bool, true, false, not, Option, none, some, List, [], ◌∷◌, ◌++◌,
  length, take, map, or_else, find_first, select, update_where, if◌then◌else◌,
}
use zex_platform.Base.Effects.{
  Error, bad_request, not_found, plain, message, pure, throw, lift, gets, modify, ◌>>=◌, ◌>>◌,
  or_throw, try_catch, branch,
}
use zex_platform.Json.{Json, str, num, arr, obj, Items, nil, item, Fields, end, field, get}
use zex_platform.Store.{
  research_agent, Payload, Brain, IcpInput, Candidate, Finding, Collected, Question, Package,
  ResearchStatus, ResearchRun, ScoreSnapshot, Db, Action, Env, Entry, log, logged,
}
use zex_platform.AgentControl.Service.{is_paused}
use zex_platform.Sdr.Statuses.{candidate_status_text, is_researchable}
use zex_platform.Sdr.Templates.{some_text}
use zex_platform.Prospects.Lookups.{require_run, get_brain}
use zex_platform.Prospects.Discovery.{is_ready, icp_input}
use zex_platform.Research.Findings.{sanitize_provider_findings}
use zex_platform.Research.Persist.{Order, View, persist_all}
use zex_platform.Research.Package.{Material, build_research_package, version}
use zex_platform.Research.Reading.{Detail, require_candidate, require_research_run}

abbrev pub refused : Text → Text → Text → Text → Option Fields → Text → Entry
refused tenant action resource_type resource_id after by =
    record (logged tenant action resource_type resource_id after by) { success = false }

-- `prospectResearchRun.update({ where: { id } })`
unfoldable pub set_run : Text → (ResearchRun → ResearchRun) → Db → Db
set_run id f db = record db {
  research_runs = update_where (λ r. text_eq r.id id) f db.research_runs;
}

-- An update that also sets `completedAt`.
unfoldable pub finish_run : Text → (ResearchRun → ResearchRun) → Action ResearchRun
unfolding set_run
finish_run id f = do
  modify λ db. set_run id (λ r. record (f r) { completed_at = db.next_row }) db
  found ← gets λ db. find_first (λ r. text_eq r.id id) db.research_runs
  or_throw found (plain (text "Record to update not found."))

abbrev pub blocked_run : Text → ResearchRun → ResearchRun
blocked_run why r = record r { status = ResearchStatus.blocked; error = some why }

abbrev pub processing_run : ResearchRun → ResearchRun
processing_run r = record r { status = ResearchStatus.processing; error = none }

abbrev pub failed_run : Text → ResearchRun → ResearchRun
failed_run why r = record r {
  status = ResearchStatus.failed;
  error = some why;
  pkg = none;
  confidence = none;
}

abbrev pub completed_run : Text → Package → Option Text → ℕ → ResearchRun → ResearchRun
completed_run provider pkg snapshot_id count r = record r {
  status = ResearchStatus.completed;
  provider = some provider;
  pkg = some pkg;
  confidence = some pkg.confidence;
  why_now_snapshot_id = snapshot_id;
  finding_count = count;
  error = none;
  research_version = version;
}

abbrev pub detail : ResearchRun → List Finding → Detail
detail run fs = record { run = run; findings = fs }

-- The run becomes BLOCKED: no provider is called.
unfoldable pub block : Env → Order → Text → Text → Fields → Action Detail
unfolding finish_run
block env o why action after = do
  r ← finish_run o.run_id (blocked_run why)
  _ ← log env (
      refused o.tenant action (text "ProspectResearchRun") o.run_id
        (some (field (text "prospectCandidateId") (str o.candidate_id) after)) o.triggered_by)
  pure (detail r [])

unfoldable pub role_of : Json → Option Text
unfolding get
role_of (obj fs) = text_or (get (text "role") (some fs))
  where
    text_or : Option Json → Option Text
    text_or (some (str t)) = some_text (some t)
    text_or _ = none
role_of _ = none

abbrev pub with_role : Option Text → List Text → List Text
with_role none rs = rs
with_role (some r) rs = r ∷ rs

roles_of : Items → List Text
roles_of nil = []
roles_of (item j js) = with_role (role_of j) (roles_of js)

unfoldable pub extract_buyer_roles : Json → List Text
unfolding roles_of
extract_buyer_roles (arr js) = roles_of js
extract_buyer_roles _ = []

abbrev pub question : Candidate → Payload → Option Text → Question
question c p fixture = record {
  company_name = c.company_name;
  domain = c.domain;
  website_url = c.website_url;
  industry = c.industry;
  company_size = c.company_size;
  geography = c.geography;
  description = c.description;
  provider_key = c.provider_key;
  buying_triggers = p.icp.buying_triggers;
  use_cases = p.icp.use_cases;
  fixture = fixture;
}

abbrev pub snapshot_text : Option ScoreSnapshot → Option Text
snapshot_text none = none
snapshot_text (some s) = some s.why_now

abbrev pub snapshot_id : Option ScoreSnapshot → Option Text
snapshot_id none = none
snapshot_id (some s) = some s.id

unfoldable pub material : Candidate → IcpInput → List Finding → Option ScoreSnapshot → Material
unfolding extract_buyer_roles
material c icp fs s = record {
  company_name = c.company_name;
  industry = c.industry;
  description = c.description;
  brain = icp;
  findings = fs;
  why_now_text = snapshot_text s;
  why_now_snapshot_id = snapshot_id s;
  buyer_roles = extract_buyer_roles c.buyer_roles;
}

abbrev pub findings_of_views : List View → List Finding
findings_of_views vs = map (λ (v : View). v.0) vs

unfoldable pub count_new : Bool → List View → ℕ
unfolding select
count_new wanted vs = length (select (λ (v : View). if v.1 then wanted else not wanted) vs)

-- A confidence is written as its two parts.
abbrev pub completed_entry : Order → Text → Package → List View → Entry
completed_entry o provider pkg vs =
    logged o.tenant (text "research_completed") (text "ProspectResearchRun") o.run_id
      (some (
        field (text "prospectCandidateId") (str o.candidate_id) (
          field (text "provider") (str provider) (
            field (text "findingCount") (num (length vs)) (
              field (text "confidence")
                (obj (
                  field (text "over") (num pkg.confidence.over)
                    (field (text "under") (num pkg.confidence.under) end)))
                (field (text "status") (str (text "COMPLETED")) (
                  field (text "createdFindings") (num (count_new true vs))
                    (field (text "duplicateFindings") (num (count_new false vs)) end))))))))
      o.triggered_by

-- The package and the completed run.
unfoldable pub complete_research :
    Env → Order → Candidate → IcpInput → Option ScoreSnapshot → Text → List View → Action Detail
unfolding build_research_package finish_run
complete_research env o c icp s provider vs = do
  pkg ← lift (build_research_package env.lower (material c icp (findings_of_views vs) s))
  r ← finish_run o.run_id (completed_run provider pkg (snapshot_id s) (length vs))
  _ ← log env (completed_entry o provider pkg vs)
  pure (detail r (findings_of_views vs))

abbrev pub ready_payload : Brain → Option Payload
ready_payload b = if is_ready b.status then b.payload else none

-- `provider.research`
unfoldable pub ask_provider : Env → Question → Action Collected
ask_provider env q = do
  r ← gets λ db. env.research db.reads q
  modify λ db. record db { reads = suc db.reads }
  lift r

-- The body of the `try`.
unfoldable pub collect_research : Env → Order → ResearchRun → Candidate → Text → Action Detail
unfolding ask_provider sanitize_provider_findings persist_all complete_research
collect_research env o run c brain_id = do
  b ← get_brain o.tenant brain_id
  p ← or_throw (ready_payload b) (bad_request (text "Company Brain must be ready before research"))
  s ← gets λ db.
      find_first
        (λ x. if text_eq x.tenant o.tenant then text_eq x.candidate_id o.candidate_id else false)
        db.snapshots
  collected ← ask_provider env (question c p (or_else o.fixture run.fixture))
  clean ← lift (sanitize_provider_findings env collected.findings)
  vs ← persist_all env o clean
  complete_research env o c (icp_input b p none) s collected.provider vs

-- The error that leaves the `catch`.
abbrev pub rethrown : Text → Error → Error
rethrown why (bad_request m) = bad_request m
rethrown why (not_found m) = not_found m
rethrown why _ = bad_request why

-- The `catch`.
unfoldable pub research_failed : Env → Order → Error → Action Detail
unfolding finish_run
research_failed env o e = do
  _ ← finish_run o.run_id (failed_run (take 500 (message e)))
  _ ←
      log env
        (record (refused o.tenant (text "research_failed") (text "ProspectResearchRun") o.run_id
          (some (
            field (text "prospectCandidateId") (str o.candidate_id)
              (field (text "status") (str (text "FAILED")) end)))
          o.triggered_by) { message = some (take 500 (message e)) })
  throw (rethrown (take 500 (message e)) e)

-- From the PROCESSING state on.
unfoldable pub process_research : Env → Order → ResearchRun → Candidate → Text → Action Detail
unfolding set_run collect_research research_failed
process_research env o run c brain_id = do
  modify (set_run o.run_id processing_run)
  _ ← log env (
      logged o.tenant (text "research_started") (text "ProspectResearchRun") o.run_id
        (some (
          field (text "prospectCandidateId") (str o.candidate_id)
            (field (text "provider") (str (text "pending")) end)))
        o.triggered_by)
  try_catch (collect_research env o run c brain_id) (research_failed env o)

-- The check of the approval at the time of the execution, and what follows it.
unfoldable pub research_candidate : Env → Order → ResearchRun → Candidate → Action Detail
unfolding block process_research
research_candidate env o run c =
    branch (is_researchable c.status)
      (do d ← require_run o.tenant c.run_id; process_research env o run c d.brain_id)
      (block env o (text "Blocked: candidate status is " ++ candidate_status_text c.status)
        (text "research_blocked_not_approved")
        (field (text "status") (str (candidate_status_text c.status)) end))

unfoldable pub research_unpaused : Env → Order → ResearchRun → Action Detail
unfolding research_candidate
research_unpaused env o run = do
  c ← require_candidate o.tenant o.candidate_id
  research_candidate env o run c

unfoldable pub execute_research : Env → Order → Action Detail
unfolding block research_unpaused
execute_research env o = do
  run ← require_research_run o.tenant o.candidate_id o.run_id
  paused ← is_paused o.tenant research_agent
  branch paused
      (block env o (text "Blocked: research_agent is paused") (text "research_blocked_agent_paused")
        (field (text "agentId") (str (text "research_agent")) end))
      (research_unpaused env o run)
