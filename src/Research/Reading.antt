-- ===== src/Research/Reading.antt =====
-- The reading operations of src/research-agent/research-agent.service.ts: `getLatest`, `getRun`,
-- `getHistory` and `loadRunDetail`.
use zex_platform.Base.{
  Text, text, text_eq, Bool, true, false, Option, none, some, List, [], ◌∷◌, ◌&&◌, any, take, leb,
  find_first, select, if◌then◌else◌,
}
use zex_platform.Base.Effects.{not_found, gets, pure, ◌>>=◌, or_throw}
use zex_platform.Store.{Candidate, Finding, Package, ResearchStatus, ResearchRun, Action, has_id}

-- What `serializeRun` shows of a run.
pub record Detail : Type 0 where
  pub run : ResearchRun
  pub findings : List Finding

abbrev pub the_candidate : Text → Text → Candidate → Bool
the_candidate tenant id c = has_id id tenant c.id c.tenant

unfoldable pub require_candidate : Text → Text → Action Candidate
require_candidate tenant id = do
  found ← gets λ db. find_first (the_candidate tenant id) db.candidates
  or_throw found (not_found (text "Prospect candidate not found"))

abbrev pub ids_of : Option Package → List Text
ids_of none = []
ids_of (some p) = p.finding_ids

abbrev of_ids : Text → List Text → Finding → Bool
of_ids tenant ids f = any (λ i. has_id i tenant f.id f.tenant) ids

abbrev of_run : Text → Text → Finding → Bool
of_run tenant run_id f = text_eq f.tenant tenant && text_eq f.run_id run_id

unfoldable pub findings_of : Text → ResearchRun → List Text → List Finding → List Finding
findings_of tenant run [] fs = select (of_run tenant run.id) fs
findings_of tenant run (i ∷ ids) fs = select (of_ids tenant (i ∷ ids)) fs

unfoldable pub load_run_detail : Text → ResearchRun → Action Detail
unfolding findings_of
load_run_detail tenant run = do
  fs ← gets λ db. findings_of tenant run (ids_of run.pkg) db.findings
  pure (record { run = run; findings = fs })

abbrev pub is_completed : ResearchStatus → Bool
is_completed ResearchStatus.completed = true
is_completed _ = false

abbrev pub of_candidate : Text → Text → ResearchRun → Bool
of_candidate tenant candidate_id r = text_eq r.tenant tenant && text_eq r.candidate_id candidate_id

abbrev pub latest_of : Text → Text → ResearchRun → Bool
latest_of tenant candidate_id r = of_candidate tenant candidate_id r && is_completed r.status

abbrev pub newer : ResearchRun → Option ResearchRun → Option ResearchRun
newer r none = some r
newer r (some q) = if leb q.completed_at r.completed_at then some r else some q

-- The first by `orderBy: { completedAt: 'desc' }`.
unfoldable pub newest : List ResearchRun → Option ResearchRun
newest [] = none
newest (r ∷ rs) = newer r (newest rs)

-- `getLatest`
unfoldable pub get_latest_research : Text → Text → Action Detail
unfolding require_candidate newest load_run_detail
get_latest_research tenant candidate_id = do
  _ ← require_candidate tenant candidate_id
  found ← gets λ db. newest (select (latest_of tenant candidate_id) db.research_runs)
  run ← or_throw found (not_found (text "Research package not found"))
  load_run_detail tenant run

abbrev pub the_run : Text → Text → Text → ResearchRun → Bool
the_run tenant candidate_id id r =
    has_id id tenant r.id r.tenant && text_eq r.candidate_id candidate_id

unfoldable pub require_research_run : Text → Text → Text → Action ResearchRun
require_research_run tenant candidate_id id = do
  found ← gets λ db. find_first (the_run tenant candidate_id id) db.research_runs
  or_throw found (not_found (text "Research run not found"))

unfoldable pub get_run : Text → Text → Text → Action Detail
unfolding require_candidate require_research_run load_run_detail
get_run tenant candidate_id id = do
  _ ← require_candidate tenant candidate_id
  run ← require_research_run tenant candidate_id id
  load_run_detail tenant run

unfoldable pub get_history : Text → Text → Action (List ResearchRun)
unfolding require_candidate
get_history tenant candidate_id = do
  _ ← require_candidate tenant candidate_id
  gets λ db. take 50 (select (of_candidate tenant candidate_id) db.research_runs)
