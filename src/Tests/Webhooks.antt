-- ===== src/Tests/Webhooks.antt =====
-- A webhook that comes twice, and the job that it asks for.
use zex_platform.Base.{
  ℕ, ◌+◌, Text, text, text_eq, ◌≡◌, ◌≢◌, ◌⊎◌, refl, ap, Bool, true, false, Option, none, some, List,
  [], ◌∷◌, ◌++◌, All, arith, length, find_first,
}
use zex_platform.Base.Effects.{ok}
use zex_platform.Store.{LogStatus, WebhookLog, CrmCall, Db, Env}
use zex_platform.Webhooks.Receive.{Delivery, PersonRecord, event_id, receive, new_log}
use zex_platform.Webhooks.Redelivery.{
  Admitted, Arrival, receive_all, receive-Admitted, again-receive,
}
use zex_platform.Jobs.Steps.{EnrichJob, Settings}
use zex_platform.Jobs.Enrich.{Scored, process}
use zex_platform.Jobs.Repeats.{Calls, process-Calls}
use zex_platform.Jobs.Again.{IsLeft, process-IsLeft}
use zex_platform.Tests.Rows.{empty_db, an_env, returned}

abbrev a_person : PersonRecord
a_person = record {
  id = some (text "p");
  name_first_name = some (text "Ann");
  name_last_name = none;
  primary_email = none;
  first_name = none;
  last_name = none;
  email = none;
  job_title = none;
}

-- The keyed hash of the tests is the text.
abbrev a_delivery : Delivery
a_delivery = record {
  event = none;
  event_name = some (text "person.created");
  body_webhook_id = none;
  person = some a_person;
  data_record = none;
  raw_body = text "{}";
  signature = some (text "sha256=9:{}");
  webhook_id = none;
  nonce = some (text "n");
  timestamp = some (text "9");
  legacy_timestamp = none;
}

abbrev now : ℕ
now = 1700000001000

abbrev received_db : Db
received_db = (receive an_env now (text "t") a_delivery empty_db).1

receive-Admitted_example :
    (received_db ≡ empty_db) ⊎ Admitted an_env now (text "t") a_delivery empty_db received_db
receive-Admitted_example = receive-Admitted an_env now (text "t") a_delivery empty_db

one_job : length received_db.jobs ≡ 1
unfolding receive zex_platform.Webhooks.Checks.verify_twenty_webhook
    zex_platform.Webhooks.Checks.is_timestamp_fresh zex_platform.Webhooks.Receive.admit
    zex_platform.Webhooks.Checks.has_seen_or_mark zex_platform.Webhooks.Receive.accept
    zex_platform.Webhooks.Receive.event_id
    zex_platform.Webhooks.Receive.normalize_webhook_person_record
    zex_platform.Webhooks.Receive.add_job zex_platform.Webhooks.Receive.set_job
    zex_platform.Webhooks.Checks.mark zex_platform.Base.update_where text text_eq
one_job = refl

-- The same nonce with another body.
abbrev another_delivery : Delivery
another_delivery = record a_delivery { event_name = some (text "person.updated") }

-- Another event comes in between.
abbrev an_arrival : Arrival
an_arrival = record {
  at = now + 500;
  tenant = text "t";
  delivery = record a_delivery { nonce = some (text "o") };
}

again-receive_example :
    (receive an_env
      (now + 1000)
      (text "t")
      another_delivery
      (receive_all an_env (an_arrival ∷ []) received_db)).1
    ≡ receive_all an_env (an_arrival ∷ []) received_db
unfolding text event_id
again-receive_example =
    again-receive an_env now (now + 1000) (text "t") (text "t") a_delivery another_delivery
      (an_arrival ∷ []) empty_db (λ e. omega (arith, one_job, ap (λ (s : Db). length s.jobs) e))
      refl (omega arith)

abbrev a_job : EnrichJob
a_job = record {
  tenant = text "t";
  person = text "p";
  log_id = text "w";
  snapshot = none;
  attempts_made = 0;
}

abbrev settings : Settings
settings = record { allow_fallback = false; auto_opportunity = true }

abbrev queued_db : Db
queued_db = record empty_db {
  webhook_logs = new_log (text "w") (text "t") (text "person.created") ∷ [];
}

abbrev scored_db : Db
scored_db = (process an_env settings a_job queued_db).1

process-Calls_example : Calls (text "t") (text "w") queued_db scored_db
process-Calls_example = process-Calls an_env settings a_job queued_db

abbrev a_scored : Scored
a_scored =
    returned (process an_env settings a_job queued_db)
      (record { score = 0; factors = []; opportunity_created = false })

job_succeeds : process an_env settings a_job queued_db ≡ (ok a_scored, scored_db)
unfolding process zex_platform.Jobs.Enrich.start_log find_first text_eq text
    zex_platform.Jobs.Enrich.enrich_and_score zex_platform.Jobs.Enrich.gather
    zex_platform.Jobs.Enrich.set_log zex_platform.Jobs.Steps.person_for
    zex_platform.Jobs.Enrich.apply_score zex_platform.Jobs.Enrich.write_crm
    zex_platform.Jobs.Steps.update_once zex_platform.Checkpoints.get_completed
    zex_platform.Sdr.Crm.crm_call zex_platform.Jobs.Steps.save_checkpoint
    zex_platform.Checkpoints.record_success zex_platform.Jobs.Steps.score_note_once
    zex_platform.Jobs.Steps.score_link_once zex_platform.Jobs.Steps.opportunity_if
    zex_platform.Jobs.Steps.opportunity_once zex_platform.Jobs.Enrich.record_score
    zex_platform.Jobs.Steps.ask zex_platform.Scoring.Engine.score zex_platform.Base.select
    zex_platform.Base.update_where zex_platform.Checkpoints.put_checkpoint
    zex_platform.Checkpoints.same_write zex_platform.Jobs.Enrich.add_score zex_platform.Store.log
job_succeeds = refl

-- 25 for the title, 20 for the size, 20 for the industry and 15 for the recency.
job_score : a_scored.score ≡ 80
unfolding process zex_platform.Jobs.Enrich.start_log find_first text_eq text
    zex_platform.Jobs.Enrich.enrich_and_score zex_platform.Jobs.Enrich.gather
    zex_platform.Jobs.Enrich.set_log zex_platform.Jobs.Steps.person_for
    zex_platform.Jobs.Enrich.apply_score zex_platform.Jobs.Enrich.write_crm
    zex_platform.Jobs.Steps.update_once zex_platform.Checkpoints.get_completed
    zex_platform.Sdr.Crm.crm_call zex_platform.Jobs.Steps.save_checkpoint
    zex_platform.Checkpoints.record_success zex_platform.Jobs.Steps.score_note_once
    zex_platform.Jobs.Steps.score_link_once zex_platform.Jobs.Steps.opportunity_if
    zex_platform.Jobs.Steps.opportunity_once zex_platform.Jobs.Enrich.record_score
    zex_platform.Jobs.Steps.ask zex_platform.Scoring.Engine.score zex_platform.Base.select
    zex_platform.Base.update_where zex_platform.Checkpoints.put_checkpoint
    zex_platform.Checkpoints.same_write zex_platform.Jobs.Enrich.add_score zex_platform.Store.log
job_score = refl

process-IsLeft_example :
    let u = (process an_env settings (record a_job { attempts_made = 1 }) scored_db).1 in
    (calls : List CrmCall) × ((u.crm ≡ calls ++ scored_db.crm) × All IsLeft calls)
process-IsLeft_example =
    process-IsLeft an_env an_env settings settings a_job 1 queued_db a_scored scored_db job_succeeds
