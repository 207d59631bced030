-- ===== src/Research/Blocked.antt =====
-- What a run that may not be executed does.
use zex_platform.Base.{ℕ, ◌≡◌, refl, ◌⊎◌, inl, inr, Text, Bool, true, false, some, List, find_first}
use zex_platform.Base.Effects.{branch}
use zex_platform.Json.{Fields}
use zex_platform.Store.{
  research_agent, ControlState, Candidate, Finding, ResearchStatus, ResearchRun, Db, Env, Entry,
  log,
}
use zex_platform.Frames.{IsOrder, Within, frame_rules, Same, Same-IsOrder}
use zex_platform.AgentControl.Service.{is_paused, is_paused_state, get_control_state, state_in}
use zex_platform.Sdr.Statuses.{is_researchable}
use zex_platform.Research.Reading.{the_candidate, the_run, require_candidate, require_research_run}
use zex_platform.Research.Ends.{EndsIn, order, log-Keeps, finish-settles}
use zex_platform.Research.Persist.{Order}
use zex_platform.Research.Runs.{
  set_run, finish_run, blocked_run, block, research_candidate, research_unpaused, execute_research,
}

-- The findings, and the count of the questions to the providers.
abbrev pub research_done : Db → List Finding × ℕ
research_done db = (db.findings, db.reads)

abbrev pub is_blocked : ResearchStatus → Bool
is_blocked ResearchStatus.blocked = true
is_blocked _ = false

pub record IsRefused (id : Text) (s t : Db) : Type 0 where
  pub blocked : EndsIn is_blocked id t
  pub untouched : research_done t ≡ research_done s

research_done-IsOrder : IsOrder (Same research_done)
research_done-IsOrder = Same-IsOrder research_done

log-Same : (env : Env) (e : Entry) → Within (Same research_done) (log env e)
unfolding log
log-Same env e = record { run = λ s. refl }

set_run-Same :
    (id : Text) (f : ResearchRun → ResearchRun) (s : Db) → Same research_done s (set_run id f s)
unfolding set_run
set_run-Same id f s = refl

finish_run-Same :
    (id : Text) (f : ResearchRun → ResearchRun) → Within (Same research_done) (finish_run id f)
unfolding finish_run
finish_run-Same id f = search (frame_rules, research_done-IsOrder, set_run-Same)

module _ (env : Env) (o : Order) where
  block-Same :
      (why action : Text) (after : Fields)
      → Within (Same research_done) (block env o why action after)
  unfolding block
  block-Same why action after =
      search (frame_rules, research_done-IsOrder, finish_run-Same, log-Same)

  block-EndsIn :
      (why action : Text) (after : Fields) (s : Db)
      → EndsIn is_blocked o.run_id (block env o why action after s).1
  unfolding block
  block-EndsIn why action after s =
      finish-settles is_blocked o.run_id (blocked_run why) _ s (λ r. refl)
        λ r. search (frame_rules, order is_blocked o.run_id, log-Keeps is_blocked o.run_id)

  block-IsRefused :
      (why action : Text) (after : Fields) (s : Db)
      → IsRefused o.run_id s (block env o why action after s).1
  block-IsRefused why action after s = record {
    blocked = block-EndsIn why action after s;
    untouched = (block-Same why action after).run s;
  }

  -- Why a run may not be executed.
  abbrev pub Refusal : Db → Type 0
  Refusal s =
      (state_in o.tenant research_agent s.controls ≡ ControlState.paused)
      ⊎ ((c : Candidate) × (find_first (the_candidate o.tenant o.candidate_id) s.candidates
            ≡ some c)
          × (is_researchable c.status ≡ false))

  candidate-IsRefused :
      (run : ResearchRun) (c : Candidate) (s : Db)
      → is_researchable c.status ≡ false
      → IsRefused o.run_id s (research_candidate env o run c s).1
  unfolding research_candidate
  candidate-IsRefused run c s e = rw e (block-IsRefused _ _ _ s)

  unpaused-IsRefused :
      (b : Bool) (why action : Text) (after : Fields) (run : ResearchRun) (c : Candidate) (s : Db)
      → find_first (the_candidate o.tenant o.candidate_id) s.candidates ≡ some c
      → is_researchable c.status ≡ false
      → IsRefused o.run_id s
          (branch b (block env o why action after) (research_unpaused env o run) s).1
  unfolding research_unpaused require_candidate
  unpaused-IsRefused true why action after run c s found e = block-IsRefused why action after s
  unpaused-IsRefused false why action after run c s found e =
      rw found (candidate-IsRefused run c s e)

  -- If the run exists, and the research agent is paused or the run's candidate is neither APPROVED
  -- nor CREATED at the time of the execution, then executeResearch leaves the run BLOCKED, asks no
  -- provider and stores no finding.
  pub execute_research-IsRefused :
      (run : ResearchRun) (s : Db)
      → find_first (the_run o.tenant o.candidate_id o.run_id) s.research_runs ≡ some run
      → Refusal s
      → IsRefused o.run_id s (execute_research env o s).1
  unfolding execute_research require_research_run is_paused get_control_state
  execute_research-IsRefused run s found (inl stopped) =
      rw (found, stopped) (block-IsRefused _ _ _ s)
  execute_research-IsRefused run s found (inr (c, known, e)) = rw found (
      unpaused-IsRefused (is_paused_state (state_in o.tenant research_agent s.controls)) _ _ _ run c
        s known e)
