-- ===== src/Sdr/Crm.antt =====
-- `syncCrmForMessage` of src/ai-sdr/ai-sdr.service.ts, and a mutation of the CRM through the client.
use zex_platform.Base.{
  Text, text, text_eq, Bool, true, false, Option, none, some, ◌∷◌, ◌++◌, ◌&&◌, length, find_first,
  update_where, get_or, is_some,
}
use zex_platform.Base.Effects.{not_found, pure, lift, gets, modify, ◌>>=◌, ◌>>◌, or_throw}
use zex_platform.Json.{bool, nullable, end, field}
use zex_platform.Store.{
  create_note, link_note_to_person, CrmSync, MessageStatus, Message, Sequence, Draft, CrmCall, note,
  note_target, Db, Action, Env, log, logged, has_id,
}
use zex_platform.Checkpoints.{Progress, done, open_step, get_completed, record_success}
use zex_platform.Sdr.Statuses.{purpose_text}
use zex_platform.Sdr.Phrases.{bound_text}
use zex_platform.Sdr.Templates.{some_text}
use zex_platform.Sdr.Lookups.{require_sequence, require_draft}

-- A call of the Twenty client: it is counted whether or not it succeeds.
unfoldable pub crm_call : Env → CrmCall → Action Text
crm_call env c = do
  n ← gets λ db. length db.crm
  modify λ db. record db { crm = c ∷ db.crm }
  lift (env.crm_write n c)

abbrev pub is_delivered : MessageStatus → Bool
is_delivered MessageStatus.sent = true
is_delivered _ = false

unfoldable pub update_message : Text → (Message → Message) → Db → Db
update_message id f db = record db { messages = update_where (λ m. text_eq m.id id) f db.messages }

unfoldable pub set_crm_sync : Text → CrmSync → Db → Db
set_crm_sync id sync db = record db {
  sequences = update_where (λ s. text_eq s.id id) (λ s. record s { crm_sync = sync }) db.sequences;
}

note_text : Message → Sequence → Draft → Text
note_text m s d =
    text "Sent "
    ++ d.content.channel
    ++ text " to "
    ++ get_or (some_text s.target_email) (text "unknown")
    ++ text "\nSubject: "
    ++ d.content.subject
    ++ text "\nProviderMsg: "
    ++ get_or m.provider_message_id (text "")

unfoldable pub sent_note : Message → Sequence → Draft → CrmCall
unfolding note_text purpose_text bound_text
sent_note m s d =
    note m.tenant (text "ZEX SDR: " ++ purpose_text d.content.purpose ++ text " email sent")
      (get_or (bound_text (some (note_text m s d)) 1500) (text "SDR outreach sent"))

abbrev pub person_or_unknown : Sequence → Text
person_or_unknown s = get_or (some_text s.target_person_twenty_id) (text "sdr-unknown-person")

-- A note is created once for each job; its id comes from the checkpoint after that.
unfoldable pub note_from : Env → Text → Text → Text → CrmCall → Progress → Action (Option Text)
note_from env tenant job person call (done id) = pure id
note_from env tenant job person call open_step = do
  id ← crm_call env call
  record_success tenant job person create_note (some id)
  pure (some id)

unfoldable pub note_once : Env → Text → Text → Text → CrmCall → Action (Option Text)
unfolding note_from
note_once env tenant job person call = do
  p ← get_completed tenant job create_note
  note_from env tenant job person call p

unfoldable pub link_from : Env → Text → Text → Text → Text → Progress → Action (Unit {0})
link_from env tenant job note_id person (done id) = pure tt
link_from env tenant job note_id person open_step = do
  _ ← crm_call env (note_target tenant note_id person)
  record_success tenant job person link_note_to_person (some note_id)

unfoldable pub link_once : Env → Text → Text → Text → Text → Action (Unit {0})
unfolding link_from
link_once env tenant job note_id person = do
  p ← get_completed tenant job link_note_to_person
  link_from env tenant job note_id person p

unfoldable pub link_if_known : Env → Text → Text → Option Text → Option Text → Action (Unit {0})
link_if_known env tenant job none person = pure tt
link_if_known env tenant job (some note_id) none = pure tt
link_if_known env tenant job (some note_id) (some person) = link_once env tenant job note_id person

abbrev pub sent_message : Text → Text → Message → Bool
sent_message tenant id m = has_id id tenant m.id m.tenant && is_delivered m.status

abbrev pub synced : Message → Message
synced m = record m { crm_sync = CrmSync.completed; crm_sync_error = none }

unfoldable pub sync_crm_for_message : Env → Text → Text → Text → Action Message
sync_crm_for_message env tenant message_id by = do
  found ← gets λ db. find_first (sent_message tenant message_id) db.messages
  m ← or_throw found (not_found (text "Sent message not found"))
  s ← require_sequence tenant m.sequence_id
  d ← require_draft tenant m.draft_id
  note_id ← note_once env tenant m.id (person_or_unknown s) (sent_note m s d)
  link_if_known env tenant m.id (some_text note_id) (some_text s.target_person_twenty_id)
  modify (update_message m.id synced)
  modify (set_crm_sync s.id CrmSync.completed)
  _ ← log env (
      logged tenant (text "sdr_crm_sync_completed") (text "SdrMessage") m.id
        (some (
          field (text "noteId") (nullable note_id) (
            field (text "linkedPerson") (bool (is_some (some_text s.target_person_twenty_id)))
              end)))
        by)
  pure (synced m)
