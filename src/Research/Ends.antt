-- ===== src/Research/Ends.antt =====
-- The status that `finish_run` of Research/Runs.antt gives to a run, through what follows it.
use zex_platform.Base.{
  ◌≡◌, subst, arith, Text, text, text_eq, Bool, true, Option, none, some, List, All, find_first,
  update_where, update_where-All,
}
use zex_platform.Base.Effects.{Error, Result, ok, plain, or_throw, ◌>>=◌}
use zex_platform.Store.{ResearchStatus, ResearchRun, Db, Env, Action, Entry, log}
use zex_platform.Frames.{IsOrder, Within, continue-Within}
use zex_platform.Outcomes.{bind_returns}
use zex_platform.Research.Runs.{set_run, finish_run}

-- Every row with the id has a status that `good` takes.
abbrev pub EndsIn : (ResearchStatus → Bool) → Text → Db → Type 0
EndsIn good id db = All (λ r. text_eq r.id id ≡ true → good r.status ≡ true) db.research_runs

stays :
    {A : Type 0} (a : Option A) (e : Error) (s : Db) (P : Db → Type 0) → P s → P (or_throw a e s).1
stays none e s P h = h
stays (some a) e s P h = h

module _ (good : ResearchStatus → Bool) (id : Text) where
  settles :
      (f : ResearchRun → ResearchRun) (rs : List ResearchRun)
      → ((r : ResearchRun) → good (f r).status ≡ true)
      → All
          (λ r. text_eq r.id id ≡ true → good r.status ≡ true)
          (update_where (λ r. text_eq r.id id) f rs)
  settles f rs final =
      update_where-All (λ r. text_eq r.id id ≡ true → good r.status ≡ true) (λ r. text_eq r.id id) f
        rs (λ r hit same. final r) λ r miss same. ground (arith, miss, same)

  finish_run-EndsIn :
      (f : ResearchRun → ResearchRun) (s : Db)
      → ((r : ResearchRun) → good (f r).status ≡ true)
      → EndsIn good id (finish_run id f s).1
  unfolding finish_run set_run
  finish_run-EndsIn f s final =
      stays
        (find_first (λ r. text_eq r.id id)
          (update_where (λ r. text_eq r.id id) (λ r. record (f r) { completed_at = s.next_row })
            s.research_runs))
        (plain (text "Record to update not found."))
        (set_run id (λ r. record (f r) { completed_at = s.next_row }) s) (EndsIn good id)
        (settles (λ r. record (f r) { completed_at = s.next_row }) s.research_runs final)

  abbrev pub Keeps : Db → Db → Type 0
  Keeps s t = EndsIn good id s → EndsIn good id t

  pub order : IsOrder Keeps
  order = record { same = λ s h. h; chain = λ s t u f g h. g (f h) }

  pub log-Keeps : (env : Env) (e : Entry) → Within Keeps (log env e)
  unfolding log
  log-Keeps env e = record { run = λ s h. h }

  -- Once the run is settled, what follows keeps it.
  bind-settles :
      {A B : Type 0} (m : Action A) (f : A → Action B) (s : Db)
      → EndsIn good id (m s).1
      → ((a : A) → Within Keeps (f a))
      → EndsIn good id ((m >>= f) s).1
  bind-settles m f s h kf =
      continue-Within order f (m s).0 (m s).1 (m s).1 kf (order.same (m s).1) h

  -- A handler that settles the run where it returns.
  pub record Ends {A : Type 0} (m : Action A) : Type 0 where
    pub run : (s : Db) (a : A) (t : Db) → m s ≡ (ok a, t) → EndsIn good id t

  pub bind-Ends :
      {A B : Type 0} (m : Action A) (f : A → Action B) → ((a : A) → Ends (f a)) → Ends (m >>= f)
  bind-Ends m f ends = record {
    run = λ s b t h. let r = bind_returns m f s b t h in (ends r.value).run r.left b t r.next;
  }

  pub finish-settles :
      {B : Type 0} (f : ResearchRun → ResearchRun) (k : ResearchRun → Action B) (s : Db)
      → ((r : ResearchRun) → good (f r).status ≡ true)
      → ((r : ResearchRun) → Within Keeps (k r))
      → EndsIn good id ((finish_run id f >>= k) s).1
  finish-settles f k s final kk =
      bind-settles (finish_run id f) k s (finish_run-EndsIn f s final) kk

  pub finish-Ends :
      {B : Type 0} (f : ResearchRun → ResearchRun) (k : ResearchRun → Action B)
      → ((r : ResearchRun) → good (f r).status ≡ true)
      → ((r : ResearchRun) → Within Keeps (k r))
      → Ends (finish_run id f >>= k)
  finish-Ends {B} f k final kk = record {
    run = λ s b t h.
        subst (λ (r : Result B × Db). EndsIn good id r.1) h (finish-settles f k s final kk);
  }
