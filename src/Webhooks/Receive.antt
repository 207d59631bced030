-- ===== src/Webhooks/Receive.antt =====
-- `receive` of src/webhooks/webhook.controller.ts, and the normalisation of a person's record of
-- src/twenty/twenty-person.mapper.ts.
use zex_platform.Base.{
  ℕ, zero, suc, Text, text, text_eq, Bool, true, false, not, ◌&&◌, Option, none, some, ◌∷◌, ◌++◌,
  get_or, or_else, length, update_where, is_some,
}
use zex_platform.Base.Texts.{starts_with}
use zex_platform.Base.Decimals.{decimal}
use zex_platform.Base.Effects.{
  Result, ok, err, plain, bad_request, unauthorized, pure, lift, gets, modify, ◌>>=◌, ◌>>◌,
  throw_if, branch,
}
use zex_platform.Store.{Snapshot, LogStatus, WebhookLog, Job, Db, Action, Env}
use zex_platform.Sdr.Templates.{some_text}
use zex_platform.Webhooks.Checks.{verify_twenty_webhook, is_timestamp_fresh, has_seen_or_mark}

-- A person in the body. The id is `none` where it is no text.
pub record PersonRecord : Type 0 where
  pub id : Option Text
  pub name_first_name : Option Text
  pub name_last_name : Option Text
  pub primary_email : Option Text
  pub first_name : Option Text
  pub last_name : Option Text
  pub email : Option Text
  pub job_title : Option Text

-- A request: its body, the text of its body, and its headers.
pub record Delivery : Type 0 where
  pub event : Option Text
  pub event_name : Option Text
  pub body_webhook_id : Option Text
  pub person : Option PersonRecord
  pub data_record : Option PersonRecord
  pub raw_body : Text
  pub signature : Option Text
  pub webhook_id : Option Text
  pub nonce : Option Text
  pub timestamp : Option Text
  pub legacy_timestamp : Option Text

pub record Received : Type 0 where
  pub webhook_id : Text
  pub duplicate : Bool

-- A person that has an id.
pub record Named : Type 0 where
  pub id : Text
  pub snapshot : Snapshot

abbrev named_by : PersonRecord → Option Text → Result Named
named_by r none = err (plain (text "Invalid Twenty person record: missing id"))
named_by r (some id) = ok (record {
  id = id;
  snapshot = record {
    first_name = or_else r.name_first_name r.first_name;
    last_name = or_else r.name_last_name r.last_name;
    email = or_else r.primary_email r.email;
    job_title = r.job_title;
  };
})

-- `normalizeWebhookPersonRecord`
unfoldable pub normalize_webhook_person_record : Option PersonRecord → Result (Option Named)
normalize_webhook_person_record none = ok none
normalize_webhook_person_record (some r) = keep (named_by r r.id)
  where
    keep : Result Named → Result (Option Named)
    keep (ok n) = ok (some n)
    keep (err e) = err e

-- `webhookTimestamp || legacyTimestamp`
abbrev pub timestamp_header : Delivery → Option Text
timestamp_header d = or_else (some_text d.timestamp) (some_text d.legacy_timestamp)

abbrev number_of : Env → Option Text → Option ℕ
number_of env none = none
number_of env (some t) = env.to_number t

abbrev pub event_of : Delivery → Text
event_of d = get_or (or_else (some_text d.event_name) (some_text d.event)) (text "unknown")

abbrev id_of : Option PersonRecord → Option Text
id_of none = none
id_of (some r) = some_text r.id

abbrev number_text : Option ℕ → Text
unfolding decimal
number_text none = text "NaN"
number_text (some n) = decimal n

unfoldable pub event_id : Env → Delivery → Text
unfolding number_text
event_id env d =
    get_or
      (or_else (some_text d.nonce) (or_else (some_text d.webhook_id) (some_text d.body_webhook_id)))
      (event_of d
        ++ text ":"
        ++ get_or (or_else (id_of d.person) (id_of d.data_record))
            (number_text (number_of env (timestamp_header d))))

-- `personId`, where it is not empty.
abbrev person_id : Option Named → Option Text
person_id none = none
person_id (some n) = some_text (some n.id)

abbrev snapshot_of : Option Named → Option Snapshot
snapshot_of none = none
snapshot_of (some n) = some n.snapshot

abbrev pub new_log : Text → Text → Text → WebhookLog
new_log id tenant event = record {
  id = id;
  tenant = tenant;
  event = event;
  status = LogStatus.queued;
  error = none;
  attempts = zero;
  job_id = none;
  result = none;
}

unfoldable pub set_job : Text → Text → Db → Db
set_job id job_id db = record db {
  webhook_logs =
      update_where (λ l. text_eq l.id id) (λ l. record l { job_id = some job_id }) db.webhook_logs;
}

-- `queue.add`
unfoldable pub add_job : Env → Job → Action Text
add_job env j = do
  r ← gets λ db. env.queue_add (length db.jobs)
  id ← lift r
  modify λ db. record db { jobs = j ∷ db.jobs }
  pure id

-- What follows the check for a duplicate.
unfoldable pub accept : Env → Text → Delivery → Text → Action Received
unfolding starts_with
accept env tenant d id = do
  named ← lift (normalize_webhook_person_record (or_else d.person d.data_record))
  throw_if (not (is_some (person_id named)) && starts_with (event_of d) (text "person."))
      (bad_request (text "Missing person id"))
  log_id ← gets λ db. env.cuid db.next_row
  modify λ db. record db {
    next_row = suc db.next_row;
    webhook_logs = new_log log_id tenant (event_of d) ∷ db.webhook_logs;
  }
  job_id ← add_job env (Job.enrich tenant (person_id named) (event_of d) log_id (snapshot_of named))
  modify (set_job log_id job_id)
  pure (record { webhook_id = id; duplicate = false })

abbrev pub is_verified : Env → Delivery → Text → Bool
is_verified env d secret =
    verify_twenty_webhook env d.raw_body d.signature secret (timestamp_header d)

abbrev pub is_fresh : Env → ℕ → Delivery → Bool
is_fresh env now d = is_timestamp_fresh (number_of env (timestamp_header d)) now

-- A delivery that passed the checks.
unfoldable pub admit : Env → ℕ → Text → Delivery → Action Received
admit env now tenant d = do
  duplicate ← has_seen_or_mark (event_id env d) now
  branch duplicate (pure (record { webhook_id = event_id env d; duplicate = true }))
      (accept env tenant d (event_id env d))

-- `now` is `Date.now()`.
unfoldable pub receive : Env → ℕ → Text → Delivery → Action Received
receive env now tenant d = do
  secret ← lift (env.webhook_secret tenant)
  throw_if (not (is_verified env d secret)) (unauthorized (text "Invalid signature"))
  throw_if (not (is_fresh env now d)) (unauthorized (text "Timestamp too old or invalid"))
  admit env now tenant d
