-- ===== src/Sdr/Send.antt =====
-- `assertSendAllowed`, `executeSend` and `sendDraft` of src/ai-sdr/ai-sdr.service.ts. Other requests
-- run while a send waits: `env.before_send` is what they did between the gate and the last look at the
-- sequence, `env.during_send` what they did while the provider was at work.
use zex_platform.Base.{
  suc, Text, text, text_eq, Bool, true, false, not, Option, none, some, ◌∷◌, ◌++◌, ◌&&◌, any,
  length, take, find_first, update_where, if◌then◌else◌,
}
use zex_platform.Base.Effects.{
  Error, bad_request, not_found, message, pure, throw, lift, gets, modify, ◌>>=◌, ◌>>◌, or_throw,
  try_catch, branch,
}
use zex_platform.Json.{str, Fields, end, field}
use zex_platform.Store.{
  ai_sdr, SequenceStatus, DraftStatus, MessageStatus, CrmSync, Sequence, Draft, Message, SendInput,
  SendResult, Job, Db, Action, Env, Entry, log, logged,
}
use zex_platform.AgentControl.Service.{assert_agent_not_paused}
use zex_platform.Sdr.Statuses.{is_stop, status_text}
use zex_platform.Sdr.Lookups.{require_sequence}
use zex_platform.Sdr.Drafts.{set_draft_status}
use zex_platform.Sdr.Crm.{is_delivered, update_message, set_crm_sync, sync_crm_for_message}
use zex_platform.Sdr.Gate.{block_if, Gate, stop_message, assert_send_allowed}

-- `send:${tenantId}:${draft.id}:${draft.contentHash}`
unfoldable pub idempotency_key : Text → Draft → Text
idempotency_key tenant d = text "send:" ++ tenant ++ text ":" ++ d.id ++ text ":" ++ d.content_hash

abbrev pub of_key : Text → Text → Message → Bool
of_key tenant key m = text_eq m.tenant tenant && text_eq m.idempotency_key key

abbrev new_message : Env → Text → Gate → Text → Db → Message
new_message env tenant g key db = record {
  id = env.cuid db.next_row;
  tenant = tenant;
  sequence_id = g.sequence.id;
  draft_id = g.draft.id;
  approval_id = g.approval.id;
  channel = g.draft.content.channel;
  provider = none;
  provider_message_id = none;
  idempotency_key = key;
  status = MessageStatus.queued;
  error = none;
  crm_sync = CrmSync.none;
  crm_sync_error = none;
}

-- `existing || sdrMessage.create(...)`
unfoldable pub message_for : Env → Text → Gate → Text → Option Message → Action Message
message_for env tenant g key (some m) = pure m
message_for env tenant g key none = do
  m ← gets (new_message env tenant g key)
  modify λ db. record db { next_row = suc db.next_row; messages = m ∷ db.messages }
  pure m

abbrev pub failed_with : Text → Message → Message
failed_with why m = record m {
  status = MessageStatus.failed;
  error = some why;
  crm_sync = CrmSync.none;
}

abbrev pub sending : Message → Message
sending m = record m { status = MessageStatus.sending }

abbrev pub sent_by : SendResult → Message → Message
sent_by r m = record m {
  status = MessageStatus.sent;
  provider = some r.provider;
  provider_message_id = some r.provider_message_id;
  error = none;
  crm_sync = CrmSync.pending;
}

-- The call of the provider: it is counted whether or not it succeeds.
unfoldable pub send_email : Env → SendInput → Action SendResult
send_email env i = do
  n ← gets λ db. length db.outbox
  modify λ db. record db { outbox = i ∷ db.outbox }
  lift (env.send_email n i)

abbrev pub send_input : Text → Gate → Text → Message → SendInput
send_input tenant g key m = record {
  tenant = tenant;
  sequence_id = g.sequence.id;
  draft_id = g.draft.id;
  message_id = m.id;
  idempotency_key = key;
  to_email = g.email;
  subject = g.draft.content.subject;
  body = g.draft.content.body;
}

-- The last look at the sequence before the provider is called.
unfoldable pub check_live : Env → Text → Text → Message → Sequence → Text → Action (Unit {0})
check_live env tenant draft_id m live by =
    branch (is_stop live.status)
      (do
        modify (update_message m.id (failed_with (stop_message live.status)))
        block_if env true tenant draft_id
            (text "sequence_" ++ status_text live.status ++ text "_pre_provider") by
            (stop_message live.status))
      (pure tt)

abbrev pub live_row : Text → Sequence → Bool
live_row id s = text_eq s.id id && not (is_stop s.status)

abbrev activated : Sequence → Sequence
activated s = record s { status = SequenceStatus.active; crm_sync = CrmSync.pending }

-- A sequence that a reply has stopped meanwhile keeps its status.
unfoldable pub activate_sequence : Text → Db → Db
unfolding set_crm_sync
activate_sequence id db =
    if any (live_row id) db.sequences
    then record db { sequences = update_where (live_row id) activated db.sequences }
    else set_crm_sync id CrmSync.pending db

abbrev pub crm_failed : Text → Message → Message
crm_failed why m = record m { crm_sync = CrmSync.failed; crm_sync_error = some why }

failure_entry : Text → Text → Text → Text → Text → Entry
failure_entry tenant action id why by =
    record (logged tenant action (text "SdrMessage") id none by) {
      success = false;
      message = some why;
    }

-- A failure of the CRM sync is kept on the message and does not undo the send.
unfoldable pub sync_or_note_failure : Env → Text → Text → Text → Action (Unit {0})
unfolding failure_entry
sync_or_note_failure env tenant message_id by = do
  try_catch (do _ ← sync_crm_for_message env tenant message_id by; pure tt)
      (λ e. do
        modify (update_message message_id (crm_failed (take 500 (message e))))
        _ ←
            log env (
              failure_entry tenant (text "sdr_crm_sync_failed") message_id (take 500 (message e))
                by)
        pure tt)

pub sent_fields : SendResult → Draft → Fields
sent_fields r d =
    field (text "providerMessageId") (str r.provider_message_id)
      (field (text "draftId") (str d.id) (field (text "contentHash") (str d.content_hash) end))

-- After the provider has accepted the email.
unfoldable pub record_sent : Env → Text → Gate → Message → SendResult → Text → Action Message
unfolding sent_fields
record_sent env tenant g m r by = do
  modify (update_message m.id (sent_by r))
  modify (set_draft_status g.draft.id DraftStatus.sent)
  modify (activate_sequence g.sequence.id)
  _ ←
      log env
        (logged tenant (text "sdr_sent") (text "SdrMessage") m.id (some (sent_fields r g.draft)) by)
  sync_or_note_failure env tenant m.id by
  found ← gets λ db. find_first (λ x. text_eq x.id m.id) db.messages
  or_throw found (not_found (text "No SdrMessage found"))

-- The call of the provider and what follows it.
unfoldable pub hand_over : Env → Text → Gate → Text → Message → Text → Action Message
hand_over env tenant g key m by = do
  modify (update_message m.id sending)
  r ← send_email env (send_input tenant g key m)
  modify env.during_send
  record_sent env tenant g m r by

-- The body of the `try`.
unfoldable pub deliver : Env → Text → Gate → Text → Message → Text → Action Message
deliver env tenant g key m by = do
  live ← require_sequence tenant g.sequence.id
  check_live env tenant g.draft.id m live by
  hand_over env tenant g key m by

-- The `catch`.
unfoldable pub send_failed : Env → Text → Message → Text → Error → Action Message
unfolding failure_entry
send_failed env tenant m by e = do
  modify (update_message m.id (failed_with (take 500 (message e))))
  _ ← log env (failure_entry tenant (text "sdr_send_failed") m.id (take 500 (message e)) by)
  throw (bad_request (take 500 (message e)))

-- The message of the send, from which the audit trail has the start.
unfoldable pub start_message : Env → Text → Gate → Text → Option Message → Text → Action Message
start_message env tenant g key existing by = do
  m ← message_for env tenant g key existing
  _ ← log env (
      logged tenant (text "sdr_send_started") (text "SdrMessage") m.id
        (some (
          field (text "draftId") (str g.draft.id)
            (field (text "sequenceId") (str g.sequence.id) end)))
        by)
  pure m

unfoldable pub start_send : Env → Text → Gate → Text → Option Message → Text → Action Message
start_send env tenant g key existing by = do
  m ← start_message env tenant g key existing by
  modify env.before_send
  try_catch (deliver env tenant g key m by) (send_failed env tenant m by)

-- A message that was sent under the same key is the answer.
unfoldable pub send_once : Env → Text → Gate → Text → Option Message → Text → Action Message
send_once env tenant g key none by = start_send env tenant g key none by
send_once env tenant g key (some m) by =
    branch (is_delivered m.status) (pure m) (start_send env tenant g key (some m) by)

unfoldable pub execute_send : Env → Text → Text → Text → Action Message
execute_send env tenant draft_id by = do
  assert_agent_not_paused env tenant ai_sdr by
  g ← assert_send_allowed env tenant draft_id
  existing ← gets λ db. find_first (of_key tenant (idempotency_key tenant g.draft)) db.messages
  send_once env tenant g (idempotency_key tenant g.draft) existing by

pub data Sent : Type 0 where
  message_of : Message → Sent
  crm_sync_queued : Text → Sent
  queued : Text → Sent

abbrev delivered_of : Text → Text → Message → Bool
delivered_of tenant draft_id m =
    text_eq m.tenant tenant && text_eq m.draft_id draft_id && is_delivered m.status

unfoldable pub sync_only : Env → Text → Text → Bool → Text → Action Sent
sync_only env tenant draft_id sync by = do
  found ← gets λ db. find_first (delivered_of tenant draft_id) db.messages
  m ← or_throw found (not_found (text "Sent message not found for CRM sync"))
  branch sync (do m' ← sync_crm_for_message env tenant m.id by; pure (message_of m'))
      (do
        modify λ db. record db { jobs = Job.crm_sync tenant m.id ∷ db.jobs }
        pure (crm_sync_queued m.id))

-- `sendDraft` with `crmSyncOnly` and `sync`.
unfoldable pub send_draft : Env → Text → Text → Bool → Bool → Text → Action Sent
send_draft env tenant draft_id true sync by = sync_only env tenant draft_id sync by
send_draft env tenant draft_id false true by = do
  m ← execute_send env tenant draft_id by
  pure (message_of m)
send_draft env tenant draft_id false false by = do
  assert_agent_not_paused env tenant ai_sdr by
  _ ← assert_send_allowed env tenant draft_id
  modify λ db. record db { jobs = Job.send tenant draft_id ∷ db.jobs }
  pure (queued draft_id)
