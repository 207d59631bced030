-- ===== src/Sdr/Replies.antt =====
-- `ingestReply` and `confirmMeeting` of src/ai-sdr/ai-sdr.service.ts.
use zex_platform.Base.{
  suc, Text, text, text_eq, Bool, true, false, not, Option, none, some, ◌∷◌, ◌++◌, ◌&&◌, find_first,
  update_where, get_or, or_else, is_some,
}
use zex_platform.Base.Effects.{
  bad_request, not_found, pure, gets, modify, ◌>>=◌, ◌>>◌, or_throw, throw_if, try_catch, branch,
}
use zex_platform.Json.{str, end, field}
use zex_platform.Store.{
  ai_sdr, SequenceStatus, Classification, Purpose, Sequence, Message, Reply, CrmCall, note, Db,
  Action, Env, log, logged,
}
use zex_platform.AgentControl.Service.{is_paused}
use zex_platform.Sdr.Statuses.{status_text, classification_text}
use zex_platform.Sdr.Phrases.{bound_text}
use zex_platform.Sdr.Templates.{some_text}
use zex_platform.Sdr.Lookups.{require_sequence}
use zex_platform.Sdr.Drafts.{create_draft}
use zex_platform.Sdr.Crm.{person_or_unknown, note_once}

-- The parsed event of `replyEventSchema`.
pub record ReplyEvent : Type 0 where
  pub provider_event_id : Text
  pub provider_message_id : Option Text
  pub sequence_id : Option Text
  pub classification : Classification
  pub sender : Option Text
  pub subject : Option Text
  pub body_summary : Option Text

pub data Source : Type 0 where
  webhook admin : Source

abbrev pub of_event : Text → Text → Reply → Bool
of_event tenant event_id r = text_eq r.tenant tenant && text_eq r.provider_event_id event_id

abbrev pub of_provider : Text → Text → Message → Bool
of_provider tenant provider_id m = text_eq m.tenant tenant && names_id m.provider_message_id
  where
    names_id : Option Text → Bool
    names_id none = false
    names_id (some id) = text_eq id provider_id

abbrev pub conflicts : Option Text → Text → Bool
conflicts none id = false
conflicts (some given) id = not (text_eq given id)

-- The sequence and the message that a reply belongs to.
pub record Match : Type 0 where
  pub sequence : Sequence
  pub message : Option Message

abbrev pub match_of : Sequence → Option Message → Match
match_of s m = record { sequence = s; message = m }

unfoldable pub by_provider_message : Text → ReplyEvent → Text → Action Match
by_provider_message tenant e provider_id = do
  found ← gets λ db. find_first (of_provider tenant provider_id) db.messages
  m ← or_throw found (not_found (text "Outbound message for reply not found"))
  throw_if (conflicts e.sequence_id m.sequence_id) (
      bad_request
        (text "sequenceId does not match providerMessageId sequence (reply correlation mismatch)"))
  s ← require_sequence tenant m.sequence_id
  pure (match_of s (some m))

unfoldable pub by_sequence : Text → Option Text → Action Match
by_sequence tenant none =
    λ db. or_throw none (bad_request (text "sequenceId or providerMessageId required for reply")) db
by_sequence tenant (some id) = do s ← require_sequence tenant id; pure (match_of s none)

unfoldable pub correlate : Text → ReplyEvent → Option Text → Action Match
correlate tenant e (some provider_id) = by_provider_message tenant e provider_id
correlate tenant e none = by_sequence tenant e.sequence_id

abbrev message_id : Option Message → Option Text
message_id none = none
message_id (some m) = some m.id

abbrev pub new_reply : Env → Text → Match → ReplyEvent → Db → Reply
new_reply env tenant w e db = record {
  id = env.cuid db.next_row;
  tenant = tenant;
  sequence_id = w.sequence.id;
  message_id = message_id w.message;
  provider_event_id = e.provider_event_id;
  classification = e.classification;
  sender = bound_text e.sender 320;
  subject = bound_text e.subject 500;
  body_summary = bound_text e.body_summary 1000;
}

-- The status that a reply leaves the sequence in.
unfoldable pub status_after : Classification → SequenceStatus
status_after Classification.unsubscribe = SequenceStatus.cancelled
status_after Classification.negative = SequenceStatus.cancelled
status_after _ = SequenceStatus.replied

unfoldable pub set_sequence_status : Text → SequenceStatus → Db → Db
set_sequence_status id status db = record db {
  sequences = update_where (λ s. text_eq s.id id) (λ s. record s { status = status }) db.sequences;
}

unfoldable pub store_reply : Env → Text → Match → ReplyEvent → Text → Action Reply
store_reply env tenant w e by = do
  r ← gets (new_reply env tenant w e)
  modify λ db. record db { next_row = suc db.next_row; replies = r ∷ db.replies }
  _ ← log env (
      logged tenant (text "sdr_reply_received") (text "SdrReply") r.id
        (some (
          field (text "sequenceId") (str w.sequence.id) (
            field (text "classification") (str (classification_text e.classification))
              (field (text "providerEventId") (str e.provider_event_id) end))))
        by)
  pure r

unfoldable pub stop_sequence : Env → Text → Match → ReplyEvent → Text → Action (Unit {0})
stop_sequence env tenant w e by = do
  modify (set_sequence_status w.sequence.id (status_after e.classification))
  _ ← log env (
      logged tenant (text "sdr_sequence_paused_on_reply") (text "SdrSequence") w.sequence.id
        (some (
          field (text "status") (str (status_text (status_after e.classification)))
            (field (text "classification") (str (classification_text e.classification)) end)))
        by)
  pure tt

abbrev pub wants_answer : Classification → Bool
wants_answer Classification.positive = true
wants_answer Classification.question = true
wants_answer _ = false

abbrev pub wants_meeting : Classification → Bool
wants_meeting Classification.positive = true
wants_meeting _ = false

unfoldable pub draft_answers : Env → Text → Match → ReplyEvent → Text → Action (Unit {0})
draft_answers env tenant w e by = do
  _ ← create_draft env tenant w.sequence.id Purpose.reply by
  branch (wants_meeting e.classification)
      (do _ ← create_draft env tenant w.sequence.id Purpose.meeting by; pure tt) (pure tt)

-- Suggested drafts, unless the agent is paused.
unfoldable pub adapt : Env → Text → Match → ReplyEvent → Text → Action (Unit {0})
adapt env tenant w e by =
    branch (wants_answer e.classification)
      (do
        stopped ← is_paused tenant ai_sdr
        branch stopped (pure tt) (draft_answers env tenant w e by))
      (pure tt)

reply_note : Text → ReplyEvent → CrmCall
reply_note tenant e =
    note tenant (text "ZEX SDR: reply (" ++ classification_text e.classification ++ text ")") (
      get_or
        (bound_text
          (some (
            get_or (or_else (some_text e.body_summary) (some_text e.subject))
              (text "Reply received")))
          1000)
        (text "Reply"))

-- A note in the CRM, whose failure is swallowed.
unfoldable pub note_reply : Env → Text → Match → ReplyEvent → Reply → Action (Unit {0})
unfolding reply_note
note_reply env tenant w e r = do
  try_catch
      (do
        _ ←
            note_once env tenant (text "reply:" ++ r.id) (person_or_unknown w.sequence)
              (reply_note tenant e)
        pure tt)
      (λ _. pure tt)

-- What the handler returns: the reply, and the status of the sequence for a new one.
pub data Ingested : Type 0 where
  duplicate_of : Reply → Ingested
  ingested : Reply → SequenceStatus → Ingested

unfoldable pub ingest_new : Env → Text → Match → ReplyEvent → Text → Action Ingested
ingest_new env tenant w e by = do
  r ← store_reply env tenant w e by
  stop_sequence env tenant w e by
  adapt env tenant w e by
  note_reply env tenant w e r
  s ← require_sequence tenant w.sequence.id
  pure (ingested r s.status)

abbrev pub is_webhook : Source → Bool
is_webhook Source.webhook = true
is_webhook Source.admin = false

unfoldable pub ingest_unless :
    Env → Text → ReplyEvent → Source → Text → Option Reply → Action Ingested
ingest_unless env tenant e source by (some r) = pure (duplicate_of r)
ingest_unless env tenant e source by none = do
  throw_if (is_webhook source && not (is_some e.provider_message_id))
      (bad_request (text "providerMessageId required for SDR reply webhook correlation"))
  w ← correlate tenant e e.provider_message_id
  ingest_new env tenant w e by

unfoldable pub ingest_reply : Env → Text → ReplyEvent → Source → Text → Action Ingested
ingest_reply env tenant e source by = do
  existing ← gets λ db. find_first (of_event tenant e.provider_event_id) db.replies
  ingest_unless env tenant e source by existing
