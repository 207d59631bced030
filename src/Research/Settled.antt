-- ===== src/Research/Settled.antt =====
-- The states in which `executeResearch` leaves a run.
use zex_platform.Base.{
  ◌≡◌, refl, ap, Text, take, length, Bool, true, false, Option, some, List, find_first,
}
use zex_platform.Base.Effects.{Error, Result, ok, err, message, recover, try_catch, branch}
use zex_platform.Json.{Fields}
use zex_platform.Store.{
  Candidate, IcpInput, research_agent, ResearchStatus, ResearchRun, ScoreSnapshot, DiscoveryRun, Db,
  Env, has_id, log,
}
use zex_platform.Frames.{frame_rules}
use zex_platform.AgentControl.Service.{is_paused, is_paused_state, get_control_state, state_in}
use zex_platform.Sdr.Statuses.{is_researchable}
use zex_platform.Prospects.Lookups.{require_run}
use zex_platform.Research.Reading.{
  Detail, the_candidate, the_run, require_candidate, require_research_run,
}
use zex_platform.Research.Ends.{
  EndsIn, Ends, order, log-Keeps, bind-Ends, finish-settles, finish-Ends,
}
use zex_platform.Research.Persist.{Order, View}
use zex_platform.Research.Runs.{
  block, blocked_run, failed_run, completed_run, snapshot_id, complete_research, collect_research,
  research_failed, process_research, research_candidate, research_unpaused, execute_research,
}

abbrev pub is_final : ResearchStatus → Bool
is_final ResearchStatus.queued = false
is_final ResearchStatus.processing = false
is_final _ = true

-- Every row with the id is in a final state.
abbrev pub IsSettled : Text → Db → Type 0
IsSettled id db = EndsIn is_final id db

module _ (env : Env) (o : Order) where
  complete_research-Ends :
      (c : Candidate) (icp : IcpInput) (s : Option ScoreSnapshot) (provider : Text) (vs : List View)
      → Ends is_final o.run_id (complete_research env o c icp s provider vs)
  unfolding complete_research
  complete_research-Ends c icp s provider vs = bind-Ends is_final o.run_id _ _ λ pkg.
      finish-Ends is_final o.run_id (completed_run provider pkg (snapshot_id s) (length vs)) _
        (λ r. refl) λ r. search (frame_rules, order is_final o.run_id, log-Keeps is_final o.run_id)

  collect_research-Ends :
      (run : ResearchRun) (c : Candidate) (brain_id : Text)
      → Ends is_final o.run_id (collect_research env o run c brain_id)
  unfolding collect_research
  collect_research-Ends run c brain_id = search (bind-Ends, complete_research-Ends) depth 12

  research_failed-IsSettled :
      (e : Error) (s : Db) → IsSettled o.run_id (research_failed env o e s).1
  unfolding research_failed
  research_failed-IsSettled e s =
      finish-settles is_final o.run_id (failed_run (take 500 (message e))) _ s (λ r. refl)
        λ r. search (frame_rules, order is_final o.run_id, log-Keeps is_final o.run_id)

  block-IsSettled :
      (why action : Text) (after : Fields) (s : Db)
      → IsSettled o.run_id (block env o why action after s).1
  unfolding block
  block-IsSettled why action after s =
      finish-settles is_final o.run_id (blocked_run why) _ s (λ r. refl)
        λ r. search (frame_rules, order is_final o.run_id, log-Keeps is_final o.run_id)

  recovered :
      (r : Result Detail) (t : Db)
      → ((d : Detail) → r ≡ ok d → IsSettled o.run_id t)
      → IsSettled o.run_id (recover (research_failed env o) r t).1
  recovered (ok d) t h = h d refl
  recovered (err e) t h = research_failed-IsSettled e t

  process_research-IsSettled :
      (run : ResearchRun) (c : Candidate) (brain_id : Text) (s : Db)
      → IsSettled o.run_id (process_research env o run c brain_id s).1
  unfolding process_research log
  process_research-IsSettled run c brain_id s = tried _
    where
      tried :
          (u : Db)
          → IsSettled o.run_id
              (try_catch (collect_research env o run c brain_id) (research_failed env o) u).1
      tried u =
          let r = collect_research env o run c brain_id u in
          recovered r.0 r.1 λ d e.
            (collect_research-Ends run c brain_id).run u d r.1
              (ap (λ (x : Result Detail). (x, r.1)) e)

  candidate_settles :
      (run : ResearchRun) (c : Candidate) (d : DiscoveryRun) (s : Db) (b : Bool)
      → is_researchable c.status ≡ b
      → find_first (λ r. has_id c.run_id o.tenant r.id r.tenant) s.discovery_runs ≡ some d
      → IsSettled o.run_id (research_candidate env o run c s).1
  unfolding research_candidate require_run
  candidate_settles run c d s true e found =
      rw (e, found) (process_research-IsSettled run c d.brain_id s)
  candidate_settles run c d s false e found = rw e (block-IsSettled _ _ _ s)

  unpaused_settles :
      (run : ResearchRun) (c : Candidate) (d : DiscoveryRun) (s : Db)
      → find_first (the_candidate o.tenant o.candidate_id) s.candidates ≡ some c
      → find_first (λ r. has_id c.run_id o.tenant r.id r.tenant) s.discovery_runs ≡ some d
      → IsSettled o.run_id (research_unpaused env o run s).1
  unfolding research_unpaused require_candidate
  unpaused_settles run c d s found from =
      rw found (candidate_settles run c d s (is_researchable c.status) refl from)

  either_settles :
      (b : Bool) (why action : Text) (after : Fields) (run : ResearchRun) (c : Candidate)
      (d : DiscoveryRun) (s : Db)
      → find_first (the_candidate o.tenant o.candidate_id) s.candidates ≡ some c
      → find_first (λ r. has_id c.run_id o.tenant r.id r.tenant) s.discovery_runs ≡ some d
      → IsSettled o.run_id
          (branch b (block env o why action after) (research_unpaused env o run) s).1
  either_settles true why action after run c d s known from = block-IsSettled why action after s
  either_settles false why action after run c d s known from = unpaused_settles run c d s known from

  -- If the run, its candidate and the candidate's discovery run exist, then executeResearch leaves
  -- the run COMPLETED, FAILED or BLOCKED, whatever the provider answers and whether it returns or
  -- throws: the run is not left QUEUED or PROCESSING.
  pub execute_research-IsSettled :
      (run : ResearchRun) (c : Candidate) (d : DiscoveryRun) (s : Db)
      → find_first (the_run o.tenant o.candidate_id o.run_id) s.research_runs ≡ some run
      → find_first (the_candidate o.tenant o.candidate_id) s.candidates ≡ some c
      → find_first (λ r. has_id c.run_id o.tenant r.id r.tenant) s.discovery_runs ≡ some d
      → IsSettled o.run_id (execute_research env o s).1
  unfolding execute_research require_research_run is_paused get_control_state
  execute_research-IsSettled run c d s found known from = rw found (
      either_settles (is_paused_state (state_in o.tenant research_agent s.controls)) _ _ _ run c d s
        known from)
