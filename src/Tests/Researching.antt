-- ===== src/Tests/Researching.antt =====
-- A run of the research agent on a small database.
use zex_platform.Base.{
  ℕ, Text, text, ◌≡◌, ◌≢◌, refl, inl, inr, true, false, none, some, arith, List, [], ◌∷◌, In, any,
  find_first, map, select,
}
use zex_platform.Base.Effects.{Result, ok, err}
use zex_platform.Store.{
  Brain, BrainStatus, Candidate, CandidateStatus, DiscoveryRun, RunStatus, FindingType,
  EvidenceType, ProviderFinding, Finding, Control, ControlState, research_agent, ResearchStatus,
  ResearchRun, Package, Db, Env,
}
use zex_platform.Research.Context.{
  outreach_context, compute_research_confidence, is_of, is_explicit, is_risk,
}
use zex_platform.Research.Package.{Material, package_of, build_research_package}
use zex_platform.Research.Reading.{Detail, get_latest_research}
use zex_platform.Research.Handoff.{get_latest-execute_research}
use zex_platform.Research.Persist.{Order, persist_all}
use zex_platform.Research.Runs.{execute_research}
use zex_platform.Research.Unique.{HasUniqueKeys, execute_research-HasUniqueKeys, again-persist_all}
use zex_platform.Research.Settled.{IsSettled, execute_research-IsSettled}
use zex_platform.Research.Blocked.{IsRefused, execute_research-IsRefused}
use zex_platform.Research.Grounded.{
  no_funding, warning_text, fact-build_research_package, refused-build_research_package,
  warning-build_research_package,
}
use zex_platform.Tests.Rows.{empty_db, an_env, a_candidate}

abbrev a_found : ProviderFinding
a_found = record {
  kind = FindingType.outreach_hook;
  title = text "Hook";
  summary = text "s";
  claim = text "hires";
  source_url = none;
  source_title = some (text "News");
  source_type = none;
  excerpt = none;
  occurred_at = none;
  published_at = none;
  confidence = 80;
  relevance = 50;
  evidence = EvidenceType.explicit;
  person_name = none;
  person_role = none;
  stale = false;
  provider_key = none;
}

abbrev a_finding : Finding
a_finding = record {
  id = text "f";
  tenant = text "t";
  run_id = text "r";
  candidate_id = text "c";
  found = a_found;
  dedupe_key = text "k";
}

abbrev a_brain : Brain
a_brain = record {
  id = text "b";
  tenant = text "t";
  company_name = text "Z";
  website_url = none;
  status = BrainStatus.ready;
  payload = some (record {
    icp = record {
      industries = [];
      company_size = [];
      geography = [];
      use_cases = [];
      buying_triggers = [];
      disqualifiers = [];
    };
    personas = [];
    rules = [];
  });
}

abbrev a_discovery : DiscoveryRun
a_discovery = record {
  id = text "run";
  tenant = text "t";
  brain_id = text "b";
  status = RunStatus.completed;
  provider = none;
  error = none;
}

abbrev a_run : ResearchRun
a_run = record {
  id = text "r";
  tenant = text "t";
  candidate_id = text "c";
  status = ResearchStatus.queued;
  provider = none;
  completed_at = 0;
  error = none;
  triggered_by = text "u";
  research_version = text "research-agent-v1";
  pkg = none;
  confidence = none;
  why_now_snapshot_id = none;
  finding_count = 0;
  fixture = none;
}

abbrev research_db : Db
research_db = record empty_db {
  next_row = 1;
  brains = a_brain ∷ [];
  discovery_runs = a_discovery ∷ [];
  research_runs = a_run ∷ [];
}

abbrev research_env : Env
research_env = record an_env {
  research = λ n q. ok (record { provider = text "p"; findings = a_found ∷ [] });
}

abbrev an_order : Order
an_order = record {
  tenant = text "t";
  candidate_id = text "c";
  run_id = text "r";
  fixture = none;
  triggered_by = text "u";
}

abbrev material_of : List Finding → Material
material_of fs = record {
  company_name = text "Acme";
  industry = none;
  description = none;
  brain = record {
    company_name = text "Z";
    website_url = none;
    icp = record {
      industries = [];
      company_size = [];
      geography = [];
      use_cases = [];
      buying_triggers = [];
      disqualifiers = [];
    };
    personas = [];
    rules = [];
    limit = none;
  };
  findings = fs;
  why_now_text = none;
  why_now_snapshot_id = none;
  buyer_roles = [];
}

abbrev done_db : Db
done_db = (execute_research research_env an_order research_db).1

abbrev status_of : ResearchRun → ResearchStatus
status_of r = r.status

research_completes : map status_of done_db.research_runs ≡ ResearchStatus.completed ∷ []
unfolding execute_research zex_platform.Research.Reading.require_research_run find_first
    zex_platform.Store.has_id zex_platform.Base.text_eq text
    zex_platform.AgentControl.Service.is_paused zex_platform.Research.Reading.require_candidate
    zex_platform.Sdr.Statuses.is_researchable zex_platform.Prospects.Lookups.require_run
    zex_platform.Store.log zex_platform.Prospects.Lookups.get_brain
    zex_platform.Research.Runs.collect_research
    zex_platform.Research.Findings.sanitize_provider_findings
    zex_platform.Research.Findings.assert_finding_provenance
    zex_platform.Research.Findings.bound_excerpt zex_platform.Research.Findings.trimmed
    zex_platform.Research.Package.with_context zex_platform.Research.Runs.material
    zex_platform.Research.Context.followed zex_platform.Research.Package.context_json
    zex_platform.Research.Findings.parsed_url zex_platform.Research.Package.first_three
    zex_platform.Base.update_where
research_completes = refl

execute_research-HasUniqueKeys_example : HasUniqueKeys done_db.findings
execute_research-HasUniqueKeys_example =
    execute_research-HasUniqueKeys research_env an_order research_db tt

execute_research-IsSettled_example : IsSettled (text "r") done_db
unfolding find_first zex_platform.Store.has_id zex_platform.Base.text_eq text
execute_research-IsSettled_example =
    execute_research-IsSettled research_env an_order a_run a_candidate a_discovery research_db refl
      refl refl

abbrev paused_db : Db
paused_db = record research_db {
  controls =
      record {
        id = text "k";
        tenant = text "t";
        agent = research_agent;
        state = ControlState.paused;
        updated_by = text "u";
      }
      ∷ [];
}

execute_research-IsRefused_example :
    IsRefused (text "r") paused_db (execute_research research_env an_order paused_db).1
unfolding find_first zex_platform.Store.has_id zex_platform.Base.text_eq text
    zex_platform.AgentControl.Service.same_agent
execute_research-IsRefused_example =
    execute_research-IsRefused research_env an_order a_run paused_db refl (inl refl)

again-persist_all_example :
    (persist_all research_env
      (record an_order { run_id = text "q"; triggered_by = text "v" })
      (a_found ∷ [])
      (persist_all research_env an_order (a_found ∷ []) research_db).1).1.findings
    ≡ (persist_all research_env an_order (a_found ∷ []) research_db).1.findings
again-persist_all_example =
    again-persist_all research_env an_order (text "q") (text "v") (a_found ∷ []) research_db

abbrev same_text : Text → Text
same_text t = t

abbrev a_package : Package
a_package = package_of (material_of (a_finding ∷ [])) (a_finding ∷ []) (
    outreach_context (a_finding ∷ []) [] (text "Acme")
      (compute_research_confidence (a_finding ∷ [])))

built_example : build_research_package same_text (material_of (a_finding ∷ [])) ≡ ok a_package
unfolding build_research_package zex_platform.Research.Package.with_context
    zex_platform.Research.Context.check_facts zex_platform.Research.Package.checked_package
    zex_platform.Json.Print.stringify text zex_platform.Research.Context.followed
    zex_platform.Base.text_eq zex_platform.Research.Package.context_json
    zex_platform.Research.Package.first_three
built_example = refl

fact-build_research_package_example :
    (f : Finding) × In f (a_finding ∷ [])
    × (f.found.claim ≡ text "hires")
    × (f.found.stale ≡ false)
    × (is_explicit f.found.evidence ≡ true)
unfolding package_of outreach_context
fact-build_research_package_example =
    fact-build_research_package same_text (material_of (a_finding ∷ [])) a_package (text "hires")
      built_example (inl refl)

warning-build_research_package_example :
    In (warning_text no_funding) a_package.outreach_context.do_not_claim
unfolding zex_platform.Base.text_eq text
warning-build_research_package_example =
    warning-build_research_package same_text (material_of (a_finding ∷ [])) a_package no_funding
      built_example refl

abbrev a_risk : Finding
a_risk = record a_finding { found = record a_found { stale = true } }

abbrev nine_risks : List Finding
nine_risks = a_risk ∷ a_risk ∷ a_risk ∷ a_risk ∷ a_risk ∷ a_risk ∷ a_risk ∷ a_risk ∷ a_risk ∷ []

refused-build_research_package_example :
    build_research_package same_text (material_of nine_risks) ≢ ok a_package
unfolding select zex_platform.Base.text_eq text
refused-build_research_package_example =
    refused-build_research_package same_text (material_of nine_risks) a_package (omega arith)

abbrev completed_detail : Detail
completed_detail = detail_of (execute_research research_env an_order research_db).0
  where
    detail_of : Result Detail → Detail
    detail_of (ok d) = d
    detail_of (err e) = record { run = a_run; findings = [] }

research_ran : execute_research research_env an_order research_db ≡ (ok completed_detail, done_db)
unfolding execute_research zex_platform.Research.Reading.require_research_run find_first
    zex_platform.Store.has_id zex_platform.Base.text_eq text
    zex_platform.AgentControl.Service.is_paused zex_platform.Research.Reading.require_candidate
    zex_platform.Sdr.Statuses.is_researchable zex_platform.Prospects.Lookups.require_run
    zex_platform.Store.log zex_platform.Prospects.Lookups.get_brain
    zex_platform.Research.Runs.collect_research
    zex_platform.Research.Findings.sanitize_provider_findings
    zex_platform.Research.Findings.assert_finding_provenance
    zex_platform.Research.Findings.bound_excerpt zex_platform.Research.Findings.trimmed
    zex_platform.Research.Package.with_context zex_platform.Research.Runs.material
    zex_platform.Research.Context.followed zex_platform.Research.Package.context_json
    zex_platform.Research.Findings.parsed_url zex_platform.Research.Package.first_three
    zex_platform.Base.update_where
research_ran = refl

completed_status : completed_detail.run.status ≡ ResearchStatus.completed
unfolding execute_research zex_platform.Research.Reading.require_research_run find_first
    zex_platform.Store.has_id zex_platform.Base.text_eq text
    zex_platform.AgentControl.Service.is_paused zex_platform.Research.Reading.require_candidate
    zex_platform.Sdr.Statuses.is_researchable zex_platform.Prospects.Lookups.require_run
    zex_platform.Store.log zex_platform.Prospects.Lookups.get_brain
    zex_platform.Research.Runs.collect_research
    zex_platform.Research.Findings.sanitize_provider_findings
    zex_platform.Research.Findings.assert_finding_provenance
    zex_platform.Research.Findings.bound_excerpt zex_platform.Research.Findings.trimmed
    zex_platform.Research.Package.with_context zex_platform.Research.Runs.material
    zex_platform.Research.Context.followed zex_platform.Research.Package.context_json
    zex_platform.Research.Findings.parsed_url zex_platform.Research.Package.first_three
    zex_platform.Base.update_where
completed_status = refl

get_latest-execute_research_example :
    (e : Detail) × (get_latest_research (text "t") (text "c") done_db ≡ (ok e, done_db))
    × (e.run ≡ completed_detail.run)
unfolding find_first zex_platform.Store.has_id zex_platform.Base.text_eq text
get_latest-execute_research_example =
    get_latest-execute_research research_env an_order a_run research_db completed_detail done_db
      refl ((λ _. refl), tt) (omega arith, tt) research_ran completed_status
