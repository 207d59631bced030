-- ===== src/Sdr/Gate.antt =====
-- `assertSendAllowed` of src/ai-sdr/ai-sdr.service.ts, the gate of each send.
use zex_platform.Base.{
  Text, text, text_eq, Bool, true, false, not, Option, none, some, ◌++◌, ◌||◌, ◌==◌, find_first,
}
use zex_platform.Base.Effects.{bad_request, pure, throw, gets, ◌>>=◌, ◌>>◌, or_throw, throw_if}
use zex_platform.Json.{str, end, field}
use zex_platform.Store.{SequenceStatus, Sequence, Draft, Approval, Action, Env, Entry, log, logged}
use zex_platform.Sdr.Statuses.{is_stop, is_researchable, status_text, candidate_status_text}
use zex_platform.Sdr.Phrases.{hash_draft_content}
use zex_platform.Sdr.Templates.{some_text}
use zex_platform.Sdr.Lookups.{require_candidate, require_sequence, require_draft}
use zex_platform.Sdr.Drafts.{of_draft}
use zex_platform.Sdr.Approvals.{is_superseded, is_rejected}

unfoldable pub blocked_entry : Text → Text → Text → Text → Entry
blocked_entry tenant draft_id reason by =
    record (logged tenant (text "sdr_send_blocked_unapproved") (text "SdrDraft") draft_id
      (some (field (text "reason") (str reason) end)) by) { success = false }

-- An audited refusal: the row is written, then the error thrown.
unfoldable pub block_if : Env → Bool → Text → Text → Text → Text → Text → Action (Unit {0})
unfolding blocked_entry
block_if env false tenant draft_id reason by why = pure tt
block_if env true tenant draft_id reason by why = do
  _ ← log env (blocked_entry tenant draft_id reason by)
  throw (bad_request why)

-- What the gate hands on.
pub record Gate : Type 0 where
  pub draft : Draft
  pub sequence : Sequence
  pub approval : Approval
  pub email : Text

unfoldable pub require_approval : Env → Text → Text → Action Approval
unfolding blocked_entry
require_approval env tenant draft_id = do
  found ← gets λ db. find_first (of_draft tenant draft_id) db.approvals
  block_if env (not (is_found found)) tenant draft_id (text "missing_approval") (text "send-gate")
      (text "Draft is not approved")
  or_throw found (bad_request (text "Draft is not approved"))
  where
    is_found : Option Approval → Bool
    is_found none = false
    is_found (some a) = true

abbrev pub mismatches : Approval → Draft → Bool
mismatches a d = not (text_eq a.content_hash d.content_hash) || not (a.draft_version == d.version)

abbrev pub stop_message : SequenceStatus → Text
stop_message status = text "Cannot send while sequence is " ++ status_text status

unfoldable pub check_sendable : Env → Text → Draft → Sequence → Action Text
check_sendable env tenant d s = do
  block_if env (is_stop s.status) tenant d.id (text "sequence_" ++ status_text s.status)
      (text "send-gate") (stop_message s.status)
  throw_if (is_superseded d.status) (bad_request (text "Cannot send superseded draft"))
  throw_if (is_rejected d.status) (bad_request (text "Cannot send a rejected draft"))
  or_throw (some_text s.target_email)
      (bad_request (text "Cannot send without explicit targetEmail"))

unfoldable pub check_approval : Env → Text → Draft → Approval → Action (Unit {0})
check_approval env tenant d a = do
  throw_if (not (text_eq a.draft_id d.id)) (bad_request (text "Approval does not match draft"))
  block_if env (mismatches a d) tenant d.id (text "hash_or_version_mismatch") (text "send-gate")
      (text "Approval does not match exact draft content/version")
  throw_if (not (text_eq (hash_draft_content env d.content) a.content_hash))
      (bad_request (text "Draft changed after approval"))

abbrev pub gate_of : Draft → Sequence → Approval → Text → Gate
gate_of d s a email = record { draft = d; sequence = s; approval = a; email = email }

unfoldable pub assert_send_allowed : Env → Text → Text → Action Gate
assert_send_allowed env tenant draft_id = do
  d ← require_draft tenant draft_id
  s ← require_sequence tenant d.sequence_id
  email ← check_sendable env tenant d s
  a ← require_approval env tenant d.id
  check_approval env tenant d a
  candidate ← require_candidate tenant s.candidate_id
  throw_if (not (is_researchable candidate.status)) (
      bad_request
        (text "Candidate status " ++ candidate_status_text candidate.status ++ text " cannot send"))
  pure (gate_of d s a email)
