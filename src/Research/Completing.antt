-- ===== src/Research/Completing.antt =====
-- Where `executeResearch` returns from the processing of a run, it has completed it.
use zex_platform.Base.{ℕ, ◌≡◌, ◌≢◌, ap, subst, ◌∙◌, arith, Text, Option, List, take, length}
use zex_platform.Base.Effects.{
  Error, Result, ok, err, recover, lift, pure, try_catch, message, ◌>>=◌,
}
use zex_platform.Store.{
  Candidate, IcpInput, Finding, ResearchRun, ScoreSnapshot, Package, Db, Env, Action, Entry, log,
}
use zex_platform.Frames.{Within, lift-Within, frame_rules}
use zex_platform.Outcomes.{bind_returns}
use zex_platform.Research.Reading.{Detail}
use zex_platform.Research.Package.{build_research_package}
use zex_platform.Research.Persist.{Order, View}
use zex_platform.Research.Runs.{
  set_run, finish_run, failed_run, completed_run, completed_entry, findings_of_views, material,
  detail, snapshot_id, complete_research, collect_research, research_failed, processing_run,
  process_research,
}
use zex_platform.Research.Writes.{persist_all-Within}
use zex_platform.Research.Between.{
  Kept, order, log-Kept, get_brain-Kept, ask_provider-Kept, persist_one-Kept, Finished, finish_step,
}

module _ (env : Env) (o : Order) where
  -- A handler that, where it returns, has finished the run as completed.
  record Completes (m : Action Detail) : Type 0 where
    run :
        (s : Db) (d : Detail) (t : Db)
        → m s ≡ (ok d, t)
        → (provider : Text) × (pkg : Package) × (snapshot : Option Text) × (n : ℕ) × Finished env o
            (completed_run provider pkg snapshot n)
            s
            d
            t

  later :
      (f : ResearchRun → ResearchRun) (s u : Db) (d : Detail) (t : Db)
      → Kept s u
      → Finished env o f u d t
      → Finished env o f s d t
  later f s u d t k x = record {
    at = x.at;
    before = order.chain s u x.at k x.before;
    stored = x.stored;
    same = x.same;
    shown = x.shown;
  }

  bind-Completes :
      {A : Type 0} (m : Action A) (f : A → Action Detail)
      → Within Kept m
      → ((a : A) → Completes (f a))
      → Completes (m >>= f)
  bind-Completes m f km kf = record {
    run = λ s d t h.
        let r = bind_returns m f s d t h in
        let (provider, pkg, snapshot, n, x) = (kf r.value).run r.left d t r.next in
        (
          provider,
          pkg,
          snapshot,
          n,
          later (completed_run provider pkg snapshot n) s r.left d t
              (subst (λ (y : Result _ × Db). Kept s y.1) r.here (km.run s)) x,
        );
  }

  finish-Completes :
      (provider : Text) (pkg : Package) (snapshot : Option Text) (n : ℕ) (e : Entry)
      (fs : List Finding)
      → Completes (
          finish_run o.run_id (completed_run provider pkg snapshot n) >>= λ r.
          log env e >>= λ _. pure (detail r fs))
  finish-Completes provider pkg snapshot n e fs = record {
    run = λ u d t h. (
      provider,
      pkg,
      snapshot,
      n,
      finish_step env o (completed_run provider pkg snapshot n) e fs u d t h,
    );
  }

  complete_research-Completes :
      (c : Candidate) (icp : IcpInput) (s : Option ScoreSnapshot) (provider : Text) (vs : List View)
      → Completes (complete_research env o c icp s provider vs)
  unfolding complete_research
  complete_research-Completes c icp s provider vs =
      bind-Completes
        (lift (build_research_package env.lower (material c icp (findings_of_views vs) s))) _
        (lift-Within order _)
        λ pkg.
          finish-Completes provider pkg (snapshot_id s) (length vs)
            (completed_entry o provider pkg vs) (findings_of_views vs)

  collect_research-Completes :
      (run : ResearchRun) (c : Candidate) (brain_id : Text)
      → Completes (collect_research env o run c brain_id)
  unfolding collect_research
  collect_research-Completes run c brain_id =
      search
        (
          bind-Completes,
          frame_rules,
          order,
          get_brain-Kept,
          ask_provider-Kept,
          persist_one-Kept env o,
          persist_all-Within,
          complete_research-Completes,
        )
        depth 12

  -- A thrown error is no return.
  failed_returns :
      (e : Error) (s : Db) (d : Detail) (t : Db) → research_failed env o e s ≢ (ok d, t)
  unfolding research_failed log
  failed_returns e s d t h =
      let r = bind_returns (finish_run o.run_id (failed_run (take 500 (message e)))) _ s d t h in
      ground (arith, r.next)

  recovered_returns :
      (r : Result Detail) (u : Db) (d : Detail) (t : Db)
      → recover (research_failed env o) r u ≡ (ok d, t)
      → (r ≡ ok d) × (u ≡ t)
  recovered_returns (ok x) u d t h =
      (ap (λ (y : Result Detail × Db). y.0) h, ap (λ (y : Result Detail × Db). y.1) h)
  recovered_returns (err e) u d t h = absurd (failed_returns e u d t h)

  -- What an execution that returned has done, where the run was processed.
  abbrev pub Processed : Db → Detail → Db → Type 0
  Processed s d t =
      (provider : Text) × (pkg : Package) × (snapshot : Option Text) × (n : ℕ) × Finished env o
        (completed_run provider pkg snapshot n) (set_run o.run_id processing_run s) d t

  pub process_returns :
      (run : ResearchRun) (c : Candidate) (brain_id : Text) (s : Db) (d : Detail) (t : Db)
      → process_research env o run c brain_id s ≡ (ok d, t)
      → Processed s d t
  unfolding process_research
  process_returns run c brain_id s d t h =
      let first =
        bind_returns (log env _)
          (λ _. try_catch (collect_research env o run c brain_id) (research_failed env o))
          (set_run o.run_id processing_run s) d t h in
      let r = collect_research env o run c brain_id first.left in
      let (back, left) = recovered_returns r.0 r.1 d t first.next in
      let (provider, pkg, snapshot, n, x) =
        (collect_research-Completes run c brain_id).run first.left d t
          (ap (λ (y : Result Detail). (y, r.1)) back ∙ ap (λ (u : Db). (ok d, u)) left) in
      (
        provider,
        pkg,
        snapshot,
        n,
        later (completed_run provider pkg snapshot n) (set_run o.run_id processing_run s) first.left
            d t
            (subst (λ (y : Result _ × Db). Kept (set_run o.run_id processing_run s) y.1) first.here
              ((log-Kept env _).run (set_run o.run_id processing_run s)))
            x,
      )
