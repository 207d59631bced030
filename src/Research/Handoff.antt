-- ===== src/Research/Handoff.antt =====
-- A completed run is the one that the AI SDR takes: `executeResearch`, then `getLatest`.
use zex_platform.Base.{
  ◌≡◌, refl, sym, ap, subst, ◌∙◌, arith, Text, text_eq, Bool, true, false, some, [], find_first,
  find_first_sound, select, update_where,
}
use zex_platform.Base.Effects.{Result, ok, branch}
use zex_platform.Json.{Fields}
use zex_platform.Store.{
  research_agent, Candidate, ResearchStatus, ResearchRun, Db, Env, Action, has_id,
}
use zex_platform.Outcomes.{or_throw_then}
use zex_platform.AgentControl.Service.{is_paused, is_paused_state, get_control_state, state_in}
use zex_platform.Sdr.Statuses.{is_researchable}
use zex_platform.Prospects.Lookups.{require_run}
use zex_platform.Research.Reading.{
  Detail, the_candidate, the_run, of_candidate, latest_of, newest, ids_of, findings_of,
  require_candidate, load_run_detail, get_latest_research, require_research_run,
}
use zex_platform.Research.Persist.{Order}
use zex_platform.Research.Runs.{
  set_run, blocked_run, completed_run, block, processing_run, process_research, research_candidate,
  research_unpaused, execute_research,
}
use zex_platform.Research.Latest.{
  IsOnly, IsBefore, Tops, IsOnly-update_where, IsBefore-update_where, IsBefore-later,
  Tops-update_where, Tops-select, In-select_found, newest-top, only_found,
}
use zex_platform.Research.Between.{Kept, Finished, finish_step}
use zex_platform.Research.Completing.{Processed, process_returns}

branch_yes :
    (b : Bool) (m n : Action Detail) (s : Db) (r : Result Detail × Db)
    → b ≡ true
    → branch b m n s ≡ r
    → m s ≡ r
branch_yes true m n s r e h = h
branch_yes false m n s r e h = ground (arith, e)

branch_no :
    (b : Bool) (m n : Action Detail) (s : Db) (r : Result Detail × Db)
    → b ≡ false
    → branch b m n s ≡ r
    → n s ≡ r
branch_no true m n s r e h = ground (arith, e)
branch_no false m n s r e h = h

module _ (env : Env) (o : Order) where
  -- The row after an update that finished it.
  abbrev stamped : (ResearchRun → ResearchRun) → Db → ResearchRun → ResearchRun
  stamped f at r = record (f r) { completed_at = at.next_row }

  shown_run_is :
      (f : ResearchRun → ResearchRun) (run : ResearchRun) (s : Db) (d : Detail) (t : Db)
      → ((r : ResearchRun) → (f r).id ≡ r.id)
      → IsOnly o.run_id run s.research_runs
      → (x : Finished env o f s d t) → d.run ≡ stamped f x.at run
  shown_run_is f run s d t same only x =
      only_found o.run_id (stamped f x.at run) d.run
        (update_where (λ r. text_eq r.id o.run_id) (stamped f x.at) x.at.research_runs)
        (IsOnly-update_where o.run_id (stamped f x.at) run x.at.research_runs same
          (subst (IsOnly o.run_id run) (sym x.before.runs) only))
        x.shown

  module _ (run taken : ResearchRun) where
    blocked_returns :
        (why action : Text) (after : Fields) (s : Db) (d : Detail) (t : Db)
        → IsOnly o.run_id run s.research_runs
        → block env o why action after s ≡ (ok d, t)
        → d.run.status ≡ ResearchStatus.blocked
    unfolding block
    blocked_returns why action after s d t only h =
        let x = finish_step env o (blocked_run why) _ [] s d t h in
        ap (λ (r : ResearchRun). r.status)
          (shown_run_is (blocked_run why) run s d t (λ r. refl) only x)

    -- A completed run was processed.
    candidate_returns :
        (c : Candidate) (s : Db) (d : Detail) (t : Db) (b : Bool)
        → is_researchable c.status ≡ b
        → IsOnly o.run_id run s.research_runs
        → research_candidate env o taken c s ≡ (ok d, t)
        → d.run.status ≡ ResearchStatus.completed
        → Processed env o s d t
    unfolding research_candidate require_run
    candidate_returns c s d t true e only h done =
        let (dr, found, rest) =
          or_throw_then (find_first (λ r. has_id c.run_id o.tenant r.id r.tenant) s.discovery_runs)
            _ (λ dr. process_research env o taken c dr.brain_id) s d t
            (branch_yes (is_researchable c.status) _ _ s (ok d, t) e h) in
        process_returns env o taken c dr.brain_id s d t rest
    candidate_returns c s d t false e only h done =
        let stopped =
          blocked_returns _ _ _ s d t only
            (branch_no (is_researchable c.status) _ _ s (ok d, t) e h) in
        ground (arith, stopped, done)

    unpaused_returns :
        (s : Db) (d : Detail) (t : Db)
        → IsOnly o.run_id run s.research_runs
        → research_unpaused env o taken s ≡ (ok d, t)
        → d.run.status ≡ ResearchStatus.completed
        → ((c : Candidate) × (find_first (the_candidate o.tenant o.candidate_id) s.candidates
              ≡ some c))
          × Processed env o s d t
    unfolding research_unpaused require_candidate
    unpaused_returns s d t only h done =
        let (c, found, rest) =
          or_throw_then (find_first (the_candidate o.tenant o.candidate_id) s.candidates) _
            (research_candidate env o taken) s d t h in
        ((c, found), candidate_returns c s d t (is_researchable c.status) refl only rest done)

    either_returns :
        (b : Bool) (why action : Text) (after : Fields) (s : Db) (d : Detail) (t : Db)
        → IsOnly o.run_id run s.research_runs
        → branch b (block env o why action after) (research_unpaused env o taken) s ≡ (ok d, t)
        → d.run.status ≡ ResearchStatus.completed
        → ((c : Candidate) × (find_first (the_candidate o.tenant o.candidate_id) s.candidates
              ≡ some c))
          × Processed env o s d t
    either_returns true why action after s d t only h done =
        ground (arith, blocked_returns why action after s d t only h, done)
    either_returns false why action after s d t only h done = unpaused_returns s d t only h done

  -- The rows of the runs after a completed execution.
  module _ (run d_run : ResearchRun) (f : ResearchRun → ResearchRun) (s at t : Db)
      (mine : of_candidate o.tenant o.candidate_id run ≡ true)
      (only : IsOnly o.run_id run s.research_runs) (old : IsBefore s.next_row s.research_runs)
      (kept : Kept (set_run o.run_id processing_run s) at)
      (stored : t.research_runs
        ≡ update_where (λ r. text_eq r.id o.run_id) (stamped f at) at.research_runs)
      (shown : find_first (λ r. text_eq r.id o.run_id) t.research_runs ≡ some d_run)
      (is : d_run ≡ stamped f at (processing_run run))
      (fits : latest_of o.tenant o.candidate_id d_run ≡ true) where
    at-IsOnly : IsOnly o.run_id (processing_run run) at.research_runs
    unfolding set_run
    at-IsOnly =
        subst (IsOnly o.run_id (processing_run run)) (sym kept.runs)
          (IsOnly-update_where o.run_id processing_run run s.research_runs (λ r. refl) only)

    at-IsBefore : IsBefore at.next_row at.research_runs
    unfolding set_run
    at-IsBefore = subst (IsBefore at.next_row) (sym kept.runs) (
        IsBefore-later s.next_row at.next_row _ kept.more (
          IsBefore-update_where o.run_id processing_run run s.next_row s.research_runs (λ r. refl)
            old))

    newest_is : newest (select (latest_of o.tenant o.candidate_id) t.research_runs) ≡ some d_run
    newest_is =
        newest-top d_run (select (latest_of o.tenant o.candidate_id) t.research_runs)
          (Tops-select (latest_of o.tenant o.candidate_id) d_run t.research_runs (
            subst (Tops d_run) (sym stored) (
              subst
                (λ r.
                  Tops r
                    (update_where (λ x. text_eq x.id o.run_id) (stamped f at) at.research_runs))
                (sym is)
                (Tops-update_where o.run_id (stamped f at) (processing_run run) at.research_runs
                  at-IsOnly at-IsBefore))))
          (In-select_found (latest_of o.tenant o.candidate_id) (λ r. text_eq r.id o.run_id) d_run
            t.research_runs shown fits)

  latest_is :
      (c : Candidate) (run : ResearchRun) (t : Db)
      → find_first (the_candidate o.tenant o.candidate_id) t.candidates ≡ some c
      → newest (select (latest_of o.tenant o.candidate_id) t.research_runs) ≡ some run
      → (e : Detail) × (get_latest_research o.tenant o.candidate_id t ≡ (ok e, t)) × (e.run ≡ run)
  unfolding get_latest_research require_candidate load_run_detail
  latest_is c run t known top = (
    record { run = run; findings = findings_of o.tenant run (ids_of run.pkg) t.findings },
    rw (known, top) refl,
    refl,
  )

  get_latest-Processed :
      (run : ResearchRun) (s : Db) (d : Detail) (t : Db) (c : Candidate)
      → of_candidate o.tenant o.candidate_id run ≡ true
      → IsOnly o.run_id run s.research_runs
      → IsBefore s.next_row s.research_runs
      → find_first (the_candidate o.tenant o.candidate_id) s.candidates ≡ some c
      → Processed env o s d t
      → (e : Detail) × (get_latest_research o.tenant o.candidate_id t ≡ (ok e, t)) × (e.run ≡ d.run)
  unfolding set_run
  get_latest-Processed run s d t c mine only old known (provider, pkg, snapshot, n, x) =
      let f = completed_run provider pkg snapshot n in
      let is =
        shown_run_is f (processing_run run) (set_run o.run_id processing_run s) d t (λ r. refl)
          (IsOnly-update_where o.run_id processing_run run s.research_runs (λ r. refl) only) x in
      latest_is c d.run t
        (ap (find_first (the_candidate o.tenant o.candidate_id)) (x.same ∙ x.before.candidates)
          ∙ known)
        (newest_is run d.run f s x.at t mine only old x.before x.stored
          (ap (find_first (λ r. text_eq r.id o.run_id)) x.stored ∙ x.shown) is
          (subst (λ r. latest_of o.tenant o.candidate_id r ≡ true) (sym is) (rw mine refl)))

  mine_of :
      (run : ResearchRun)
      → the_run o.tenant o.candidate_id o.run_id run ≡ true
      → of_candidate o.tenant o.candidate_id run ≡ true
  unfolding has_id
  mine_of run h = ground (arith, h)

  -- If the order's run is the one row with its id, no run was completed at the present count of rows or
  -- later, and executeResearch returns with the run completed, then getLatest for the candidate, by
  -- which the AI SDR takes its package, returns this run from the database that is left.
  pub get_latest-execute_research :
      (run : ResearchRun) (s : Db) (d : Detail) (t : Db)
      → find_first (the_run o.tenant o.candidate_id o.run_id) s.research_runs ≡ some run
      → IsOnly o.run_id run s.research_runs
      → IsBefore s.next_row s.research_runs
      → execute_research env o s ≡ (ok d, t)
      → d.run.status ≡ ResearchStatus.completed
      → (e : Detail) × (get_latest_research o.tenant o.candidate_id t ≡ (ok e, t)) × (e.run ≡ d.run)
  unfolding execute_research require_research_run is_paused get_control_state
  get_latest-execute_research run s d t found only old h done =
      let (taken, _, rest) =
        or_throw_then (find_first (the_run o.tenant o.candidate_id o.run_id) s.research_runs) _ _ s
          d t h in
      let ((c, known), x) =
        either_returns run taken (is_paused_state (state_in o.tenant research_agent s.controls)) _ _
          _ s d t only rest done in
      get_latest-Processed run s d t c
        (mine_of run
          (find_first_sound (the_run o.tenant o.candidate_id o.run_id) s.research_runs found))
        only old known x
