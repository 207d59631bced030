-- ===== src/Research/Start.antt =====
-- `startResearch` of src/research-agent/research-agent.service.ts, and the processor of its queue in
-- src/jobs/processors/prospect-research.processor.ts.
use zex_platform.Base.{suc, Text, text, Bool, Option, none, some, ◌∷◌, ◌++◌, get_or}
use zex_platform.Base.Effects.{bad_request, pure, throw, gets, modify, ◌>>=◌, ◌>>◌, branch}
use zex_platform.Json.{str, nullable, end, field}
use zex_platform.Store.{
  research_agent, Candidate, ResearchStatus, ResearchRun, Job, Db, Action, Env, log, logged,
}
use zex_platform.AgentControl.Service.{assert_agent_not_paused}
use zex_platform.Sdr.Statuses.{candidate_status_text, is_researchable}
use zex_platform.Sdr.Templates.{some_text}
use zex_platform.Webhooks.Receive.{add_job}
use zex_platform.Research.Package.{version}
use zex_platform.Research.Reading.{Detail, require_candidate}
use zex_platform.Research.Persist.{Order}
use zex_platform.Research.Runs.{refused, execute_research}

abbrev pub new_run : Env → Text → Text → Option Text → Text → Db → ResearchRun
new_run env tenant candidate_id fixture by db = record {
  id = env.cuid db.next_row;
  tenant = tenant;
  candidate_id = candidate_id;
  status = ResearchStatus.queued;
  provider = none;
  completed_at = 0;
  error = none;
  triggered_by = by;
  research_version = version;
  pkg = none;
  confidence = none;
  why_now_snapshot_id = none;
  finding_count = 0;
  fixture = fixture;
}

pub data Started : Type 0 where
  executed : Detail → Started
  enqueued : (job_id run_id : Text) → Started

unfoldable pub check_researchable : Env → Text → Candidate → Text → Action (Unit {0})
check_researchable env tenant c by = branch (is_researchable c.status) (pure tt) (do
  _ ← log env (
      refused tenant (text "research_blocked_not_approved") (text "ProspectCandidate") c.id
        (some (field (text "status") (str (candidate_status_text c.status)) end)) by)
  throw (
      bad_request (
        text "Research requires APPROVED or CREATED candidate; current status is "
        ++ candidate_status_text c.status)))

-- The new run, with its entry in the audit trail.
unfoldable pub open_run : Env → Text → Text → Option Text → Text → Action ResearchRun
open_run env tenant candidate_id fixture by = do
  run ← gets (new_run env tenant candidate_id fixture by)
  modify λ db. record db { next_row = suc db.next_row; research_runs = run ∷ db.research_runs }
  _ ← log env (
      logged tenant (text "research_run_created") (text "ProspectResearchRun") run.id
        (some (
          field (text "prospectCandidateId") (str candidate_id) (
            field (text "status") (str (text "QUEUED"))
              (field (text "fixture") (nullable fixture) end))))
        by)
  pure run

unfoldable pub start_research : Env → Text → Text → Option Text → Bool → Text → Action Started
unfolding check_researchable open_run
start_research env tenant candidate_id fixture sync by = do
  assert_agent_not_paused env tenant research_agent by
  c ← require_candidate tenant candidate_id
  check_researchable env tenant c by
  run ← open_run env tenant candidate_id fixture by
  branch sync
      (do
        d ← execute_research env (record {
          tenant = tenant;
          candidate_id = candidate_id;
          run_id = run.id;
          fixture = fixture;
          triggered_by = by;
        })
        pure (executed d))
      (do
        id ← add_job env (Job.research tenant candidate_id run.id fixture)
        pure (enqueued id run.id))

-- The job of the queue: `job.data.triggeredBy || job:<id>`.
unfoldable pub process_research_job : Env → Order → Text → Action (Unit {0})
process_research_job env o job_id = do
  _ ←
      execute_research env (record o {
        triggered_by = get_or (some_text (some o.triggered_by)) (text "job:" ++ job_id);
      })
  pure tt
