-- ===== src/Research/Between.antt =====
-- How `executeResearch` leaves the runs and candidates between two updates of its run, and the update
-- that finishes the run.
use native.Mathlib.Nat.{le_refl, le_trans}
use zex_platform.Base.{
  ℕ, ◌≤◌, ◌≡◌, refl, sym, ap, ◌∙◌, arith, Text, text_eq, Option, none, some, List, find_first,
  update_where,
}
use zex_platform.Base.Effects.{Error, Result, ok, err, pure, or_throw, ◌>>=◌}
use zex_platform.Store.{Finding, ProviderFinding, Question, ResearchRun, Db, Env, Entry, log}
use zex_platform.Frames.{IsOrder, Within, frame_rules}
use zex_platform.Prospects.Lookups.{get_brain}
use zex_platform.Research.Reading.{Detail}
use zex_platform.Research.Persist.{Order, add_finding, note_duplicate, keep_finding, persist_one}
use zex_platform.Research.Runs.{set_run, finish_run, detail, ask_provider}

-- Between two writes of the run.
pub record Kept (s t : Db) : Type 0 where
  pub runs : t.research_runs ≡ s.research_runs
  pub candidates : t.candidates ≡ s.candidates
  pub more : s.next_row ≤ t.next_row

pub order : IsOrder Kept
order = record {
  same = λ s. record { runs = refl; candidates = refl; more = le_refl s.next_row };
  chain = λ s t u p q. record {
    runs = q.runs ∙ p.runs;
    candidates = q.candidates ∙ p.candidates;
    more = le_trans p.more q.more;
  };
}

pub log-Kept : (env : Env) (e : Entry) → Within Kept (log env e)
unfolding log
log-Kept env e = record { run = λ s. record { runs = refl; candidates = refl; more = omega arith } }

pub get_brain-Kept : (tenant id : Text) → Within Kept (get_brain tenant id)
unfolding get_brain
get_brain-Kept tenant id = search (frame_rules, order)

reads-Kept : (s : Db) (n : ℕ) → Kept s (record s { reads = n })
reads-Kept s n = record { runs = refl; candidates = refl; more = le_refl s.next_row }

pub ask_provider-Kept : (env : Env) (q : Question) → Within Kept (ask_provider env q)
unfolding ask_provider
ask_provider-Kept env q = search (frame_rules, order, reads-Kept)

module _ (env : Env) (o : Order) where
  keep_finding-Kept :
      (raw : ProviderFinding) (key : Text) (known : Option Finding)
      → Within Kept (keep_finding env o raw key known)
  unfolding keep_finding add_finding note_duplicate log
  keep_finding-Kept raw key none = record {
    run = λ s. record { runs = refl; candidates = refl; more = omega arith };
  }
  keep_finding-Kept raw key (some f) = record {
    run = λ s. record { runs = refl; candidates = refl; more = omega arith };
  }

  pub persist_one-Kept : (raw : ProviderFinding) → Within Kept (persist_one env o raw)
  unfolding persist_one
  persist_one-Kept raw = search (frame_rules, order, keep_finding-Kept)

  -- A run that was finished by `f` from a state that `s` led to, and what the caller is shown of it.
  pub record Finished (f : ResearchRun → ResearchRun) (s : Db) (d : Detail) (t : Db) : Type 0 where
    pub at : Db
    pub before : Kept s at
    pub stored :
        t.research_runs
        ≡ update_where
            (λ r. text_eq r.id o.run_id)
            (λ r. record (f r) { completed_at = at.next_row })
            at.research_runs
    pub same : t.candidates ≡ at.candidates
    pub shown :
        find_first
          (λ r. text_eq r.id o.run_id)
          (update_where
            (λ r. text_eq r.id o.run_id)
            (λ r. record (f r) { completed_at = at.next_row })
            at.research_runs)
        ≡ some d.run

  shown_run : ResearchRun → Result Detail → ResearchRun
  shown_run other (ok d) = d.run
  shown_run other (err e) = other

  step_of :
      (found : Option ResearchRun) (why : Error) (e : Entry) (fs : List Finding) (u : Db)
      (d : Detail) (t : Db)
      → (or_throw found why >>= λ r. log env e >>= λ _. pure (detail r fs)) u ≡ (ok d, t)
      → (found ≡ some d.run) × (t.research_runs ≡ u.research_runs) × (t.candidates ≡ u.candidates)
  unfolding log shown_run
  step_of none why e fs u d t h = ground arith
  step_of (some r) why e fs u d t h = (
    ap (λ (x : Result Detail × Db). some (shown_run r x.0)) h,
    ap (λ (x : Result Detail × Db). x.1.research_runs) (sym h),
    ap (λ (x : Result Detail × Db). x.1.candidates) (sym h),
  )

  -- The step that finishes a run, with its entry.
  pub finish_step :
      (f : ResearchRun → ResearchRun) (e : Entry) (fs : List Finding) (s : Db) (d : Detail) (t : Db)
      → (finish_run o.run_id f >>= λ r. log env e >>= λ _. pure (detail r fs)) s ≡ (ok d, t)
      → Finished f s d t
  unfolding finish_run set_run
  finish_step f e fs s d t h =
      let (found, runs, same) = step_of _ _ e fs _ d t h in
      record { at = s; before = order.same s; stored = runs; same = same; shown = found }
