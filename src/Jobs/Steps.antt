-- ===== src/Jobs/Steps.antt =====
-- The parts of `process` in src/jobs/processors/enrich-and-score.processor.ts: the person, and each
-- write to the CRM with its checkpoint, which may fail to be written.
use zex_platform.Base.{
  ℕ, ◌+◌, ◌/◌, Text, text, Bool, true, false, Option, none, some, ◌++◌, get_or, or_else, map,
  length,
}
use zex_platform.Base.Texts.{join}
use zex_platform.Base.Decimals.{decimal}
use zex_platform.Base.Ints.{pos, decimal_ℤ}
use zex_platform.Base.Effects.{
  Result, plain, pure, throw, lift, gets, modify, ◌>>=◌, ◌>>◌, or_throw, try_catch, branch,
}
use zex_platform.Store.{
  update_person, create_note, link_note_to_person, create_opportunity, CrmWrite, CrmCall, note,
  note_target, person, opportunity, Factor, Snapshot, Lead, Enrichment, Action, Db, Env,
}
use zex_platform.Checkpoints.{Progress, done, open_step, get_completed, record_success}
use zex_platform.Sdr.Templates.{some_text}
use zex_platform.Sdr.Crm.{crm_call}
use zex_platform.Scoring.Engine.{Score}

-- `EnrichJobData` and `attemptsMade`
pub record EnrichJob : Type 0 where
  pub tenant : Text
  pub person : Text
  pub log_id : Text
  pub snapshot : Option Snapshot
  pub attempts_made : ℕ

-- The configuration: `ALLOW_TWENTY_SNAPSHOT_FALLBACK`, and whether `FEATURE_AUTO_OPPORTUNITY` is not
-- "false".
pub record Settings : Type 0 where
  pub allow_fallback : Bool
  pub auto_opportunity : Bool

-- A call that reads.
unfoldable pub ask : {A : Type 0} → (Db → Result A) → Action A
ask answer = do r ← gets answer; modify λ db. record db { reads = db.reads + 1 }; lift r

abbrev snapshot_text : (Snapshot → Option Text) → Option Snapshot → Option Text
snapshot_text f none = none
snapshot_text f (some s) = f s

-- The person in the place of one that the CRM did not give.
abbrev pub from_snapshot : EnrichJob → Lead
from_snapshot j = record {
  id = j.person;
  first_name =
      some (get_or (some_text (snapshot_text (λ s. s.first_name) j.snapshot)) (text "Unknown"));
  last_name = some (get_or (some_text (snapshot_text (λ s. s.last_name) j.snapshot)) (text "Lead"));
  email = snapshot_text (λ s. s.email) j.snapshot;
  job_title = snapshot_text (λ s. s.job_title) j.snapshot;
  days_old = some (pos 0);
  company_id = none;
}

unfoldable pub person_for : Env → Settings → EnrichJob → Action Lead
unfolding ask
person_for env settings j =
    try_catch (ask λ db. env.get_person db.reads j.tenant j.person)
      λ e. branch settings.allow_fallback (pure (from_snapshot j)) (throw e)

-- `recordSuccess`
unfoldable pub save_checkpoint : Env → EnrichJob → CrmWrite → Option Text → Action (Unit {0})
save_checkpoint env j write external_id = do
  saved ← gets λ db. env.checkpoint_saved (length db.crm)
  lift saved
  record_success j.tenant j.log_id j.person write external_id

unfoldable pub update_from : Env → EnrichJob → CrmCall → Progress → Action (Unit {0})
update_from env j call (done id) = pure tt
update_from env j call open_step = do
  _ ← crm_call env call
  save_checkpoint env j update_person none

person_update : EnrichJob → Lead → Enrichment → CrmCall
person_update j p e =
    person j.tenant j.person (or_else (some_text e.job_title) (some_text p.job_title)) p.company_id

unfoldable pub update_once : Env → EnrichJob → Lead → Enrichment → Action (Unit {0})
unfolding update_from person_update
update_once env j p e = do
  c ← get_completed j.tenant j.log_id update_person
  update_from env j (person_update j p e) c

factor_text : Factor → Text
unfolding decimal_ℤ
factor_text f = f.name ++ text ": " ++ decimal_ℤ f.points

score_note : EnrichJob → Score → CrmCall
unfolding factor_text join
score_note j s = note j.tenant (text "ZEX Automation") (
    text "AI Automation: Score "
    ++ decimal s.score
    ++ text "/100 ("
    ++ join (text ", ") (map factor_text s.factors)
    ++ text ")")

unfoldable pub score_note_from : Env → EnrichJob → CrmCall → Progress → Action Text
score_note_from env j call (done id) = or_throw (some_text id) (
    plain
      (text "CREATE_NOTE checkpoint completed without externalId for webhookLogId=" ++ j.log_id))
score_note_from env j call open_step = do
  id ← crm_call env call
  save_checkpoint env j create_note (some id)
  pure id

unfoldable pub score_note_once : Env → EnrichJob → Score → Action Text
unfolding score_note_from score_note
score_note_once env j s = do
  c ← get_completed j.tenant j.log_id create_note
  score_note_from env j (score_note j s) c

unfoldable pub score_link_from : Env → EnrichJob → Text → Progress → Action (Unit {0})
score_link_from env j note_id (done id) = pure tt
score_link_from env j note_id open_step = do
  _ ← crm_call env (note_target j.tenant note_id j.person)
  save_checkpoint env j link_note_to_person (some note_id)

unfoldable pub score_link_once : Env → EnrichJob → Text → Action (Unit {0})
unfolding score_link_from
score_link_once env j note_id = do
  c ← get_completed j.tenant j.log_id link_note_to_person
  score_link_from env j note_id c

-- `Math.round(score / 10)`
abbrev probability : ℕ → ℕ
probability score = (score + 5) / 10

opportunity_for : EnrichJob → Lead → ℕ → CrmCall
opportunity_for j p score =
    opportunity j.tenant j.person
      (get_or (some_text p.first_name) (text "Lead") ++ text " - Auto-qualified") (text "prospect")
      (probability score)

unfoldable pub opportunity_from : Env → EnrichJob → CrmCall → Progress → Action (Option Text)
opportunity_from env j call (done id) = pure id
opportunity_from env j call open_step = do
  id ← crm_call env call
  save_checkpoint env j create_opportunity (some id)
  pure (some id)

unfoldable pub opportunity_once : Env → EnrichJob → Lead → ℕ → Action (Option Text)
unfolding opportunity_from opportunity_for
opportunity_once env j p score = do
  c ← get_completed j.tenant j.log_id create_opportunity
  opportunity_from env j (opportunity_for j p score) c

-- `opportunityCreated` and `opportunityTwentyId`
pub record Opened : Type 0 where
  pub created : Bool
  pub id : Option Text

unfoldable pub opportunity_if : Env → EnrichJob → Lead → ℕ → Bool → Action Opened
opportunity_if env j p score false = pure (record { created = false; id = none })
opportunity_if env j p score true = do
  id ← opportunity_once env j p score
  pure (record { created = true; id = id })
