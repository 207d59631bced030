-- ===== src/Sdr/Approvals.antt =====
-- `approveDraft`, `revokeApproval` and `rejectDraft` of src/ai-sdr/ai-sdr.service.ts.
use zex_platform.Base.{suc, Text, text, text_eq, Bool, true, false, not, none, some, ◌∷◌, any}
use zex_platform.Base.Effects.{
  bad_request, not_found, pure, gets, modify, ◌>>=◌, ◌>>◌, throw_if, branch,
}
use zex_platform.Json.{str, num, Fields, end, field}
use zex_platform.Store.{
  SequenceStatus, DraftStatus, Draft, Approval, Db, Action, Env, Entry, log, logged,
}
use zex_platform.Sdr.Statuses.{draft_status_text}
use zex_platform.Sdr.Phrases.{hash_draft_content}
use zex_platform.Sdr.Lookups.{require_draft}
use zex_platform.Sdr.Drafts.{advance_sequence, of_draft, set_draft_status, revoke_approvals}

abbrev pub is_superseded : DraftStatus → Bool
is_superseded DraftStatus.superseded = true
is_superseded _ = false

abbrev pub is_rejected : DraftStatus → Bool
is_rejected DraftStatus.rejected = true
is_rejected _ = false

abbrev pub is_sent : DraftStatus → Bool
is_sent DraftStatus.sent = true
is_sent _ = false

unfoldable pub check_approvable : Env → Draft → Action (Unit {0})
check_approvable env d = do
  throw_if (is_superseded d.status) (bad_request (text "Cannot approve a superseded draft"))
  throw_if (is_rejected d.status) (bad_request (text "Cannot approve a rejected draft"))
  throw_if (is_sent d.status) (bad_request (text "Draft already sent"))
  throw_if (not (text_eq (hash_draft_content env d.content) d.content_hash))
      (bad_request (text "Draft content hash mismatch — regenerate draft"))

abbrev pub new_approval : Env → Text → Draft → Text → Db → Approval
new_approval env tenant d approved_by db = record {
  id = env.cuid db.next_row;
  tenant = tenant;
  sequence_id = d.sequence_id;
  draft_id = d.id;
  draft_version = d.version;
  content_hash = d.content_hash;
  approved_by = approved_by;
  is_active = true;
}

approval_fields : Draft → Text → Fields
approval_fields d approved_by = field (text "draftId") (str d.id) (
    field (text "draftVersion") (num d.version) (
      field (text "contentHash") (str d.content_hash)
        (field (text "approvedBy") (str approved_by) end)))

-- The writes of an approval.
unfoldable pub grant : Env → Text → Draft → Text → Text → Action Approval
unfolding approval_fields
grant env tenant d approved_by by = do
  a ← gets (new_approval env tenant d approved_by)
  modify λ db. record db { next_row = suc db.next_row; approvals = a ∷ db.approvals }
  modify (set_draft_status d.id DraftStatus.approved)
  modify (advance_sequence d.sequence_id SequenceStatus.approved)
  _ ← log env (
      logged tenant (text "sdr_approval_granted") (text "SdrApproval") a.id
        (some (approval_fields d approved_by)) by)
  pure a

unfoldable pub approve_draft : Env → Text → Text → Text → Text → Action (Approval × Draft)
approve_draft env tenant draft_id approved_by by = do
  d ← require_draft tenant draft_id
  check_approvable env d
  a ← grant env tenant d approved_by by
  d' ← require_draft tenant draft_id
  pure (pair a d')
  where
    pair : Approval → Draft → Approval × Draft
    pair a d = (a, d)

unfoldable pub revoke_approval : Env → Text → Text → Text → Action (Unit {0})
revoke_approval env tenant draft_id by = do
  d ← require_draft tenant draft_id
  found ← gets λ db. any (of_draft tenant draft_id) db.approvals
  modify (revoke_approvals tenant draft_id)
  throw_if (not found) (not_found (text "Active approval not found"))
  modify (set_draft_status d.id DraftStatus.awaiting_approval)
  _ ← log env (logged tenant (text "sdr_approval_revoked") (text "SdrDraft") draft_id none by)
  pure tt

reject_fields : Draft → Text → Fields
reject_fields d rejected_by = field (text "status") (str (text "REJECTED")) (
    field (text "sequenceId") (str d.sequence_id) (
      field (text "rejectedBy") (str rejected_by) (
        field (text "version") (num d.version)
          (field (text "contentHash") (str d.content_hash) end))))

reject_entry : Text → Draft → Text → Text → Entry
unfolding reject_fields draft_status_text
reject_entry tenant d rejected_by by =
    record (logged tenant (text "sdr_draft_rejected") (text "SdrDraft") d.id
      (some (reject_fields d rejected_by)) by) {
        before = some (field (text "status") (str (draft_status_text d.status)) end);
      }

abbrev pub rejected_now : Draft → Draft × Bool
rejected_now d = (record d { status = DraftStatus.rejected }, false)

abbrev pub rejected_before : Draft → Draft × Bool
rejected_before d = (d, true)

unfoldable pub reject_writes : Env → Text → Draft → Text → Text → Action (Draft × Bool)
unfolding reject_entry
reject_writes env tenant d rejected_by by = do
  throw_if (is_superseded d.status) (bad_request (text "Cannot reject a superseded draft"))
  modify (revoke_approvals tenant d.id)
  modify (set_draft_status d.id DraftStatus.rejected)
  _ ← log env (reject_entry tenant d rejected_by by)
  pure (rejected_now d)

-- The draft, and whether it had been rejected before.
unfoldable pub reject_draft : Env → Text → Text → Text → Text → Action (Draft × Bool)
reject_draft env tenant draft_id rejected_by by = do
  d ← require_draft tenant draft_id
  throw_if (is_sent d.status) (bad_request (text "Cannot reject a sent draft"))
  branch (is_rejected d.status) (pure (rejected_before d))
      (reject_writes env tenant d rejected_by by)
