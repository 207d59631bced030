-- ===== src/Sdr/Statuses.antt =====
-- The constants of ai-sdr.types.ts and ai-sdr.service.ts.
use zex_platform.Base.{Text, text, Bool, true, false}
use zex_platform.Store.{
  SequenceStatus, Purpose, DraftStatus, CandidateStatus, Classification, Sequence, Draft, Candidate,
  has_id,
}

-- `STOP_STATUSES.has(status)`
unfoldable pub is_stop : SequenceStatus → Bool
is_stop SequenceStatus.replied = true
is_stop SequenceStatus.cancelled = true
is_stop SequenceStatus.paused = true
is_stop SequenceStatus.completed = true
is_stop SequenceStatus.failed = true
is_stop _ = false

abbrev pub is_replied : SequenceStatus → Bool
is_replied SequenceStatus.replied = true
is_replied _ = false

-- `RESEARCHABLE.has(status)`
unfoldable pub is_researchable : CandidateStatus → Bool
is_researchable CandidateStatus.approved = true
is_researchable CandidateStatus.created = true
is_researchable _ = false

unfoldable pub status_text : SequenceStatus → Text
status_text SequenceStatus.drafting = text "DRAFTING"
status_text SequenceStatus.awaiting_approval = text "AWAITING_APPROVAL"
status_text SequenceStatus.approved = text "APPROVED"
status_text SequenceStatus.active = text "ACTIVE"
status_text SequenceStatus.paused = text "PAUSED"
status_text SequenceStatus.replied = text "REPLIED"
status_text SequenceStatus.completed = text "COMPLETED"
status_text SequenceStatus.cancelled = text "CANCELLED"
status_text SequenceStatus.failed = text "FAILED"

unfoldable pub candidate_status_text : CandidateStatus → Text
candidate_status_text CandidateStatus.proposed = text "PROPOSED"
candidate_status_text CandidateStatus.duplicate = text "DUPLICATE"
candidate_status_text CandidateStatus.approved = text "APPROVED"
candidate_status_text CandidateStatus.rejected = text "REJECTED"
candidate_status_text CandidateStatus.created = text "CREATED"
candidate_status_text CandidateStatus.failed = text "FAILED"

unfoldable pub purpose_text : Purpose → Text
purpose_text Purpose.outreach = text "outreach"
purpose_text Purpose.follow_up = text "follow_up"
purpose_text Purpose.reply = text "reply"
purpose_text Purpose.meeting = text "meeting"

unfoldable pub same_purpose : Purpose → Purpose → Bool
same_purpose Purpose.outreach Purpose.outreach = true
same_purpose Purpose.follow_up Purpose.follow_up = true
same_purpose Purpose.reply Purpose.reply = true
same_purpose Purpose.meeting Purpose.meeting = true
same_purpose _ _ = false

-- `status: { in: ['DRAFT', 'AWAITING_APPROVAL', 'APPROVED'] }`
unfoldable pub is_open : DraftStatus → Bool
is_open DraftStatus.draft = true
is_open DraftStatus.awaiting_approval = true
is_open DraftStatus.approved = true
is_open _ = false

unfoldable pub draft_status_text : DraftStatus → Text
draft_status_text DraftStatus.draft = text "DRAFT"
draft_status_text DraftStatus.awaiting_approval = text "AWAITING_APPROVAL"
draft_status_text DraftStatus.approved = text "APPROVED"
draft_status_text DraftStatus.superseded = text "SUPERSEDED"
draft_status_text DraftStatus.sent = text "SENT"
draft_status_text DraftStatus.rejected = text "REJECTED"

unfoldable pub classification_text : Classification → Text
classification_text Classification.positive = text "POSITIVE"
classification_text Classification.negative = text "NEGATIVE"
classification_text Classification.question = text "QUESTION"
classification_text Classification.not_now = text "NOT_NOW"
classification_text Classification.ooo = text "OOO"
classification_text Classification.unsubscribe = text "UNSUBSCRIBE"
classification_text Classification.unknown = text "UNKNOWN"

-- The rows that `requireSequence`, `requireDraft` and `requireCandidate` look for.
abbrev pub the_sequence : Text → Text → Sequence → Bool
the_sequence tenant id s = has_id id tenant s.id s.tenant

abbrev pub the_draft : Text → Text → Draft → Bool
the_draft tenant id d = has_id id tenant d.id d.tenant

abbrev pub the_candidate : Text → Text → Candidate → Bool
the_candidate tenant id c = has_id id tenant c.id c.tenant
