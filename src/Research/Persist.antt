-- ===== src/Research/Persist.antt =====
-- The loop of `executeResearch` in src/research-agent/research-agent.service.ts that stores the findings.
use zex_platform.Base.{
  suc, Text, text, text_eq, Bool, true, false, Option, none, some, List, [], ◌∷◌, find_first,
  if◌then◌else◌,
}
use zex_platform.Base.Effects.{pure, gets, modify, ◌>>=◌, ◌>>◌}
use zex_platform.Json.{str, nullable, end, field}
use zex_platform.Store.{ProviderFinding, Finding, Db, Action, Env, log, logged}
use zex_platform.Research.Findings.{finding_type_text, build_finding_dedupe_key}

-- What `executeResearch` is called with.
pub record Order : Type 0 where
  pub tenant : Text
  pub candidate_id : Text
  pub run_id : Text
  pub fixture : Option Text
  pub triggered_by : Text

abbrev pub is_known : Text → Text → Finding → Bool
is_known tenant key f = if text_eq f.tenant tenant then text_eq f.dedupe_key key else false

abbrev pub new_finding : Env → Order → ProviderFinding → Text → Db → Finding
new_finding env o f key db = record {
  id = env.cuid db.next_row;
  tenant = o.tenant;
  run_id = o.run_id;
  candidate_id = o.candidate_id;
  found = f;
  dedupe_key = key;
}

-- A finding of this run or an earlier one, with whether it is new.
abbrev pub View : Type 0
View = Finding × Bool

unfoldable pub add_finding : Env → Order → ProviderFinding → Text → Action View
add_finding env o raw key = do
  f ← gets (new_finding env o raw key)
  modify λ db. record db { next_row = suc db.next_row; findings = f ∷ db.findings }
  _ ← log env (
      logged o.tenant (text "research_finding_created") (text "ProspectResearchFinding") f.id
        (some (
          field (text "researchRunId") (str o.run_id) (
            field (text "findingType") (str (finding_type_text raw.kind)) (
              field (text "sourceUrl") (nullable raw.source_url)
                (field (text "personName") (nullable raw.person_name) end)))))
        o.triggered_by)
  pure (f, true)

unfoldable pub note_duplicate : Env → Order → Text → Finding → Action View
note_duplicate env o key f = do
  _ ← log env (
      logged o.tenant (text "research_finding_duplicate_detected") (text "ProspectResearchFinding")
        f.id
        (some (
          field (text "dedupeKey") (str key) (
            field (text "researchRunId") (str o.run_id)
              (field (text "prospectCandidateId") (str o.candidate_id) end))))
        o.triggered_by)
  pure (f, false)

unfoldable pub keep_finding : Env → Order → ProviderFinding → Text → Option Finding → Action View
unfolding add_finding note_duplicate
keep_finding env o raw key none = add_finding env o raw key
keep_finding env o raw key (some f) = note_duplicate env o key f

-- The body of the loop over the findings.
unfoldable pub persist_one : Env → Order → ProviderFinding → Action View
unfolding keep_finding build_finding_dedupe_key
persist_one env o raw = do
  existing ← gets λ db.
      find_first (is_known o.tenant (build_finding_dedupe_key env o.candidate_id raw)) db.findings
  keep_finding env o raw (build_finding_dedupe_key env o.candidate_id raw) existing

unfoldable pub persist_all : Env → Order → List ProviderFinding → Action (List View)
unfolding persist_one
persist_all env o [] = pure []
persist_all env o (f ∷ fs) = do v ← persist_one env o f; vs ← persist_all env o fs; pure (v ∷ vs)
