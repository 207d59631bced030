-- ===== src/Tests/Sending.antt =====
-- Sends, and the reply that ends them.
use zex_platform.Base.{
  ℕ, ◌≤◌, text, text_eq, ◌≡◌, ◌≢◌, ◌⊎◌, ◌↔◌, refl, ap, true, false, none, some, [], ◌∷◌, arith,
  length, find_first,
}
use zex_platform.Base.Effects.{plain, err, ok}
use zex_platform.Store.{
  note, ai_sdr, paused, DraftStatus, Classification, Purpose, Sequence, Db, Env, has_id, Message,
  MessageStatus, CrmSync,
}
use zex_platform.AgentControl.Service.{same_agent}
use zex_platform.Sdr.Statuses.{is_stop, the_sequence}
use zex_platform.Sdr.Lookups.{require_sequence}
use zex_platform.Sdr.Drafts.{Target, create_sequence, create_draft}
use zex_platform.Sdr.Gate.{Gate, gate_of, assert_send_allowed}
use zex_platform.Sdr.Send.{execute_send, send_draft}
use zex_platform.Sdr.Replies.{ReplyEvent, Source, match_of, correlate, by_sequence, ingest_reply}
use zex_platform.Sdr.Requests.{Asked, replies, send_job, serve_all}
use zex_platform.Sdr.Silence.{emails_of}
use zex_platform.Sdr.AfterReply.{among, silence-ingest_reply}
use zex_platform.Sdr.Consent.{Consent, assert_send_allowed_lem}
use zex_platform.Sdr.Delivery.{Emailed, outbox-execute_send}
use zex_platform.Sdr.Once.{again-execute_send}
use zex_platform.Sdr.Refusals.{paused_answer, paused-handlers}
use zex_platform.Checkpoints.{get_completed, record_success}
use zex_platform.Sdr.Crm.{crm_call, note_once}
use zex_platform.Sdr.Notes.{again-note_once}
use zex_platform.Tests.Rows.{
  empty_db, an_env, a_draft, a_sequence, an_approval, approved_db, returned,
}

abbrev a_reply : ReplyEvent
a_reply = record {
  provider_event_id = text "e";
  provider_message_id = none;
  sequence_id = some (text "s");
  classification = Classification.negative;
  sender = none;
  subject = none;
  body_summary = none;
}

abbrev another_send : Asked
another_send = record { tenant = text "t"; by = text "w"; request = send_job (text "d") }

abbrev another_reply : Asked
another_reply = record { tenant = text "t"; by = text "w"; request = replies a_reply Source.admin }

abbrev busy_env : Env
busy_env = among an_env (another_reply ∷ []) (another_send ∷ [])

abbrev silent_db : Db
silent_db =
    serve_all busy_env (another_send ∷ another_reply ∷ another_send ∷ [])
      (ingest_reply busy_env (text "t") a_reply Source.admin (text "u") approved_db).1

matches :
    correlate (text "t") a_reply none approved_db ≡ (ok (match_of a_sequence none), approved_db)
unfolding correlate by_sequence require_sequence find_first has_id text_eq text
matches = refl

new_ids : (n : ℕ) → 0 ≤ n → an_env.cuid n ≢ text "s"
unfolding text
new_ids n h e = omega (arith, ap length e)

silence-ingest_reply_example :
    (row : Sequence) × (find_first (the_sequence (text "t") (text "s")) silent_db.sequences
      ≡ some row)
    × (is_stop row.status ≡ true)
    × (emails_of (text "t") (text "s") silent_db ≡ emails_of (text "t") (text "s") approved_db)
unfolding find_first text
silence-ingest_reply_example =
    silence-ingest_reply an_env (another_reply ∷ []) (another_send ∷ [])
      (another_send ∷ another_reply ∷ another_send ∷ []) (text "t") a_reply Source.admin (text "u")
      approved_db (match_of a_sequence none) refl refl matches new_ids

outbox-execute_send_example :
    ((execute_send an_env (text "t") (text "d") (text "u") approved_db).1.outbox ≡ [])
    ⊎ Emailed an_env
        (text "t")
        (text "d")
        (text "u")
        approved_db
        (execute_send an_env (text "t") (text "d") (text "u") approved_db).1
outbox-execute_send_example =
    outbox-execute_send an_env (text "t") (text "d") (text "u") approved_db (λ s. refl) (λ s. refl)

abbrev a_gate : Gate
a_gate =
    gate_of (record a_draft { status = DraftStatus.approved }) a_sequence an_approval (text "a@b")

assert_send_allowed_example :
    (assert_send_allowed an_env (text "t") (text "d") approved_db ≡ (ok a_gate, approved_db))
    ↔ Consent an_env (text "t") (text "d") approved_db a_gate
assert_send_allowed_example =
    assert_send_allowed_lem an_env (text "t") (text "d") approved_db a_gate

abbrev sent_db : Db
sent_db = (execute_send an_env (text "t") (text "d") (text "u") approved_db).1

abbrev a_message : Message
a_message = record {
  id = text "m";
  tenant = text "t";
  sequence_id = text "s";
  draft_id = text "d";
  approval_id = text "a";
  channel = text "email";
  provider = none;
  provider_message_id = none;
  idempotency_key = [];
  status = MessageStatus.queued;
  error = none;
  crm_sync = CrmSync.none;
  crm_sync_error = none;
}

abbrev the_sent : Message
the_sent = returned (execute_send an_env (text "t") (text "d") (text "u") approved_db) a_message

send_returns :
    execute_send an_env (text "t") (text "d") (text "u") approved_db ≡ (ok the_sent, sent_db)
unfolding execute_send zex_platform.AgentControl.Service.assert_agent_not_paused find_first
    assert_send_allowed zex_platform.Sdr.Lookups.require_draft has_id text_eq text require_sequence
    zex_platform.Sdr.Gate.check_sendable zex_platform.Sdr.Gate.block_if is_stop
    zex_platform.Sdr.Gate.require_approval zex_platform.Sdr.Gate.check_approval
    zex_platform.Sdr.Phrases.hash_draft_content zex_platform.Sdr.Lookups.require_candidate
    zex_platform.Sdr.Statuses.is_researchable zex_platform.AgentControl.Agents.agent_text
    zex_platform.AgentControl.Service.blocked_entry
    zex_platform.AgentControl.Service.get_control_state
    zex_platform.AgentControl.Service.refuse_paused same_agent zex_platform.Base.update_where
    zex_platform.Base.Texts.is_space zex_platform.Base.Texts.trim zex_platform.Base.Texts.trim_start
    get_completed zex_platform.Checkpoints.put_checkpoint record_success
    zex_platform.Checkpoints.same_write crm_call zex_platform.Sdr.Crm.link_from
    zex_platform.Sdr.Crm.link_if_known zex_platform.Sdr.Crm.link_once zex_platform.Sdr.Crm.note_from
    note_once zex_platform.Sdr.Crm.sent_note zex_platform.Sdr.Crm.set_crm_sync
    zex_platform.Sdr.Crm.sync_crm_for_message zex_platform.Sdr.Crm.update_message
    zex_platform.Sdr.Drafts.set_draft_status zex_platform.Sdr.Gate.blocked_entry
    zex_platform.Sdr.Phrases.bound_text zex_platform.Sdr.Send.activate_sequence
    zex_platform.Sdr.Send.check_live zex_platform.Sdr.Send.deliver zex_platform.Sdr.Send.hand_over
    zex_platform.Sdr.Send.idempotency_key zex_platform.Sdr.Send.message_for
    zex_platform.Sdr.Send.record_sent zex_platform.Sdr.Send.send_email
    zex_platform.Sdr.Send.send_failed zex_platform.Sdr.Send.send_once
    zex_platform.Sdr.Send.start_message zex_platform.Sdr.Send.start_send
    zex_platform.Sdr.Send.sync_or_note_failure zex_platform.Sdr.Statuses.candidate_status_text
    zex_platform.Sdr.Statuses.purpose_text zex_platform.Sdr.Statuses.status_text
    zex_platform.Store.log
send_returns = refl

again-execute_send_example :
    (execute_send an_env (text "t") (text "d") (text "w") sent_db).1.outbox ≡ sent_db.outbox
again-execute_send_example =
    again-execute_send an_env an_env (text "t") (text "d") (text "u") (text "w") approved_db
      the_sent sent_db (λ s. (refl, refl)) (λ s. (refl, refl)) (λ s. refl) (λ s. refl) send_returns

abbrev a_target : Target
a_target = record {
  email = none;
  person_twenty_id = none;
  person_name = none;
  generate_draft = true;
}

abbrev paused_db : Db
paused_db = record approved_db {
  controls =
      record {
        id = text "k";
        tenant = text "t";
        agent = ai_sdr;
        state = paused;
        updated_by = text "u";
      }
      ∷ [];
}

paused-handlers_example :
    (create_sequence an_env (text "t") (text "c") a_target (text "u") paused_db
      ≡ paused_answer an_env (text "t") (text "u") paused_db)
    × (create_draft an_env (text "t") (text "s") Purpose.outreach (text "u") paused_db
        ≡ paused_answer an_env (text "t") (text "u") paused_db)
    × (execute_send an_env (text "t") (text "d") (text "u") paused_db
        ≡ paused_answer an_env (text "t") (text "u") paused_db)
    × (send_draft an_env (text "t") (text "d") false false (text "u") paused_db
        ≡ paused_answer an_env (text "t") (text "u") paused_db)
unfolding find_first text_eq text same_agent
paused-handlers_example =
    paused-handlers an_env (text "t") (text "u") paused_db (text "c") (text "s") (text "d") a_target
      Purpose.outreach refl

abbrev noted_db : Db
noted_db =
    (note_once an_env (text "t") (text "m") (text "p") (note (text "t") (text "n") (text "b"))
      empty_db).1

abbrev failing_env : Env
failing_env = record an_env { crm_write = λ n c. err (plain (text "down")) }

notes :
    note_once an_env
      (text "t")
      (text "m")
      (text "p")
      (note (text "t") (text "n") (text "b"))
      empty_db
    ≡ (ok (some (b'0' ∷ 0 ∷ [])), noted_db)
unfolding note_once get_completed find_first crm_call record_success
notes = refl

again-note_once_example :
    note_once failing_env
      (text "t")
      (text "m")
      (text "q")
      (note (text "t") (text "o") (text "c"))
      noted_db
    ≡ (ok (some (b'0' ∷ 0 ∷ [])), noted_db)
again-note_once_example =
    again-note_once an_env failing_env (text "t") (text "m") (text "p") (text "q")
      (note (text "t") (text "n") (text "b")) (note (text "t") (text "o") (text "c")) empty_db
      (some (b'0' ∷ 0 ∷ [])) noted_db notes
