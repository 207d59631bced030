-- ===== src/Research/Unique.antt =====
-- The unique keys of the findings, `@@unique([tenantId, dedupeKey])`, and findings that are stored twice.
use zex_platform.Base.{
  ◌≡◌, refl, sym, ap, subst, ◌∙◌, inl, inr, arith, Text, text_eq_refl, true, false, Option, none,
  some, List, [], ◌∷◌, find_first, All, Bool-cases,
}
use zex_platform.Base.Effects.{Result, ok}
use zex_platform.Store.{ProviderFinding, Finding, Db, Env, log}
use zex_platform.Frames.{Within}
use zex_platform.Outcomes.{bind_goes}
use zex_platform.Research.Findings.{build_finding_dedupe_key}
use zex_platform.Research.Persist.{
  Order, View, is_known, new_finding, add_finding, note_duplicate, keep_finding, persist_one,
  persist_all,
}
use zex_platform.Research.Runs.{execute_research}
use zex_platform.Research.Writes.{Permits, execute_research-Within}

-- No two findings share their tenant and key.
abbrev pub HasUniqueKeys : List Finding → Type 0
HasUniqueKeys [] = Unit
HasUniqueKeys (f ∷ fs) = (find_first (is_known f.tenant f.dedupe_key) fs ≡ none) × HasUniqueKeys fs

abbrev Keeps : Db → Db → Type 0
Keeps s t = HasUniqueKeys s.findings → HasUniqueKeys t.findings

Keeps-Permits : Permits Keeps
Keeps-Permits = record {
  order = record { same = λ s h. h; chain = λ s t u f g h. g (f h) };
  audit = λ s n more a h. h;
  runs = λ s rs h. h;
  reads = λ s n h. h;
}

module _ (env : Env) (o : Order) where
  keep-Keeps :
      (raw : ProviderFinding) (key : Text) (s : Db) (known : Option Finding)
      → find_first (is_known o.tenant key) s.findings ≡ known
      → Keeps s (keep_finding env o raw key known s).1
  unfolding keep_finding add_finding note_duplicate log
  keep-Keeps raw key s none e h = (e, h)
  keep-Keeps raw key s (some f) e h = h

  persist-Keeps : (raw : ProviderFinding) → Within Keeps (persist_one env o raw)
  unfolding persist_one
  persist-Keeps raw = record {
    run = λ s.
        keep-Keeps raw (build_finding_dedupe_key env o.candidate_id raw) s
          (find_first (is_known o.tenant (build_finding_dedupe_key env o.candidate_id raw))
            s.findings)
          refl;
  }

  -- If no two stored findings share their tenant and dedupe key, then the same holds after
  -- executeResearch, whatever the provider finds and wherever it fails.
  pub execute_research-HasUniqueKeys :
      (s : Db) → HasUniqueKeys s.findings → HasUniqueKeys (execute_research env o s).1.findings
  execute_research-HasUniqueKeys s =
      (execute_research-Within Keeps-Permits env o persist-Keeps).run s

  -- The key of a provider's finding is stored.
  abbrev IsStored : ProviderFinding → Db → Type 0
  IsStored raw s =
      (f : Finding) × (find_first
          (is_known o.tenant (build_finding_dedupe_key env o.candidate_id raw)) s.findings
        ≡ some f)

  -- Nothing that was stored is lost.
  abbrev Grows : Db → Db → Type 0
  Grows s t = (raw : ProviderFinding) → IsStored raw s → IsStored raw t

  grow :
      (key : Text) (s : Db) (raw : ProviderFinding) (g f : Finding) (fs : List Finding)
      → find_first (is_known o.tenant key) fs ≡ some f
      → (x : Finding) × (find_first (is_known o.tenant key) (g ∷ fs) ≡ some x)
  unfolding find_first
  grow key s raw g f fs e = elim (Bool-cases (is_known o.tenant key g)) [
    | inl yes_g ↦ (g, rw yes_g refl)
    | inr no_g ↦ (f, rw no_g e)
  ]

  keep-stores :
      (raw : ProviderFinding) (s : Db) (known : Option Finding)
      → find_first (is_known o.tenant (build_finding_dedupe_key env o.candidate_id raw)) s.findings
        ≡ known
      → IsStored raw
          (keep_finding env o raw (build_finding_dedupe_key env o.candidate_id raw) known s).1
  unfolding keep_finding add_finding note_duplicate log find_first
  keep-stores raw s none e = (
    new_finding env o raw (build_finding_dedupe_key env o.candidate_id raw) s,
    rw (text_eq_refl o.tenant, text_eq_refl (build_finding_dedupe_key env o.candidate_id raw)) refl,
  )
  keep-stores raw s (some f) e = (f, e)

  keep-Grows :
      (raw : ProviderFinding) (key : Text) (s : Db) (known : Option Finding)
      → Grows s (keep_finding env o raw key known s).1
  unfolding keep_finding add_finding note_duplicate log
  keep-Grows raw key s none x (f, e) =
      grow (build_finding_dedupe_key env o.candidate_id x) s raw (new_finding env o raw key s) f
        s.findings e
  keep-Grows raw key s (some g) x (f, e) = (f, e)

  persist-Grows : (raw : ProviderFinding) → Within Grows (persist_one env o raw)
  unfolding persist_one
  persist-Grows raw = record {
    run = λ s. keep-Grows raw (build_finding_dedupe_key env o.candidate_id raw) s (
        find_first (is_known o.tenant (build_finding_dedupe_key env o.candidate_id raw))
          s.findings);
  }

  persist-stores : (raw : ProviderFinding) (s : Db) → IsStored raw (persist_one env o raw s).1
  unfolding persist_one
  persist-stores raw s =
      keep-stores raw s
        (find_first (is_known o.tenant (build_finding_dedupe_key env o.candidate_id raw))
          s.findings)
        refl

  keep_returns :
      (raw : ProviderFinding) (key : Text) (s : Db) (known : Option Finding)
      → (v : View) × (keep_finding env o raw key known s
          ≡ (ok v, (keep_finding env o raw key known s).1))
  unfolding keep_finding add_finding note_duplicate log
  keep_returns raw key s none = ((new_finding env o raw key s, true), refl)
  keep_returns raw key s (some f) = ((f, false), refl)

  persist_one_returns :
      (raw : ProviderFinding) (s : Db)
      → (v : View) × (persist_one env o raw s ≡ (ok v, (persist_one env o raw s).1))
  unfolding persist_one
  persist_one_returns raw s =
      keep_returns raw (build_finding_dedupe_key env o.candidate_id raw) s (
        find_first (is_known o.tenant (build_finding_dedupe_key env o.candidate_id raw)) s.findings)

  all_grow :
      (fs : List ProviderFinding) (s t : Db)
      → Grows s t
      → All (λ f. IsStored f s) fs
      → All (λ f. IsStored f t) fs
  all_grow [] s t g h = tt
  all_grow (f ∷ fs) s t g h = (g f h.0, all_grow fs s t g h.1)

  -- The loop returns, and then all keys are stored.
  record Persisted (fs : List ProviderFinding) (s : Db) : Type 0 where
    views : List View
    left : Db
    runs : persist_all env o fs s ≡ (ok views, left)
    stored : All (λ f. IsStored f left) fs
    grows : Grows s left

  persist_all_returns : (fs : List ProviderFinding) (s : Db) → Persisted fs s
  unfolding persist_all
  persist_all_returns [] s = record {
    views = [];
    left = s;
    runs = refl;
    stored = tt;
    grows = λ raw h. h;
  }
  persist_all_returns (f ∷ fs) s =
      let one = persist_one_returns f s in
      let rest = persist_all_returns fs (persist_one env o f s).1 in
      record {
        views = one.0 ∷ rest.views;
        left = rest.left;
        runs =
            bind_goes (persist_one env o f) _ s one.0 (persist_one env o f s).1 one.1
            ∙ bind_goes (persist_all env o fs) _ (persist_one env o f s).1 rest.views rest.left
                rest.runs;
        stored = (rest.grows f (persist-stores f s), rest.stored);
        grows = λ raw h. rest.grows raw ((persist-Grows f).run s raw h);
      }

  keep_quiet :
      (raw : ProviderFinding) (key : Text) (s : Db) (known : Option Finding) (f : Finding)
      → known ≡ some f
      → (keep_finding env o raw key known s).1.findings ≡ s.findings
  unfolding keep_finding note_duplicate log
  keep_quiet raw key s none f e = ground arith
  keep_quiet raw key s (some g) f e = refl

  persist_quiet :
      (raw : ProviderFinding) (s : Db)
      → IsStored raw s
      → (persist_one env o raw s).1.findings ≡ s.findings
  unfolding persist_one
  persist_quiet raw s (f, e) =
      keep_quiet raw (build_finding_dedupe_key env o.candidate_id raw) s
        (find_first (is_known o.tenant (build_finding_dedupe_key env o.candidate_id raw))
          s.findings)
        f e

  all_quiet :
      (fs : List ProviderFinding) (s : Db)
      → All (λ f. IsStored f s) fs
      → (persist_all env o fs s).1.findings ≡ s.findings
  unfolding persist_all
  all_quiet [] s h = refl
  all_quiet (f ∷ fs) s h =
      let one = persist_one_returns f s in
      let rest = persist_all_returns fs (persist_one env o f s).1 in
      ap (λ (r : Result (List View) × Db). r.1.findings)
        (bind_goes (persist_one env o f) _ s one.0 (persist_one env o f s).1 one.1
          ∙ bind_goes (persist_all env o fs) _ (persist_one env o f s).1 rest.views rest.left
              rest.runs)
      ∙ ap (λ (r : Result (List View) × Db). r.1.findings) (sym rest.runs)
      ∙ all_quiet fs (persist_one env o f s).1
          (all_grow fs s (persist_one env o f s).1 ((persist-Grows f).run s) h.1)
      ∙ persist_quiet f s h.0

-- When another run of the same candidate, or a retry of the same job, stores the same sanitised
-- findings after a run has stored them, the table of findings stays as the first run left it.
pub again-persist_all :
    (env : Env) (o : Order) (other_run by : Text) (fs : List ProviderFinding) (s : Db)
    → (persist_all env
        (record o { run_id = other_run; triggered_by = by })
        fs
        (persist_all env o fs s).1).1.findings
      ≡ (persist_all env o fs s).1.findings
again-persist_all env o other_run by fs s =
    let first = persist_all_returns env o fs s in
    all_quiet env (record o { run_id = other_run; triggered_by = by }) fs (persist_all env o fs s).1
      (subst (λ (r : Result (List View) × Db). All (λ f. IsStored env o f r.1) fs) (sym first.runs)
        first.stored)
