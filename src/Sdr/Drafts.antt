-- ===== src/Sdr/Drafts.antt =====
-- `createDraft` and `createSequence` of src/ai-sdr/ai-sdr.service.ts.
use zex_platform.Base.{
  ℕ, suc, ◌+◌, max, Text, text, text_eq, Bool, true, false, not, Option, none, some, List, [], ◌∷◌,
  ◌++◌, ◌&&◌, length, select, update_where, is_some, if◌then◌else◌, map,
}
use zex_platform.Base.Texts.{trim, non_empty}
use zex_platform.Base.Effects.{
  bad_request, pure, throw, lift, gets, modify, ◌>>=◌, ◌>>◌, throw_if, try_catch, for_each, branch,
}
use zex_platform.Json.{str, num, bool, Fields, end, field}
use zex_platform.Store.{
  ai_sdr, Purpose, SequenceStatus, DraftStatus, CrmSync, Candidate, ResearchRun, Finding, Package,
  Person, Sequence, Content, Draft, Approval, Proposal, Db, Action, Env, log, logged,
}
use zex_platform.AgentControl.Service.{assert_agent_not_paused}
use zex_platform.Sdr.Statuses.{
  is_stop, is_replied, is_researchable, status_text, candidate_status_text, purpose_text,
  same_purpose, is_open,
}
use zex_platform.Sdr.Phrases.{hash_draft_content}
use zex_platform.Sdr.Templates.{DraftInput, some_text}
use zex_platform.Sdr.Generator.{generate_draft_content}
use zex_platform.Sdr.Lookups.{require_candidate, require_sequence}
use zex_platform.Research.Reading.{Detail, get_latest_research}

abbrev pub is_outreach : Purpose → Bool
is_outreach Purpose.outreach = true
is_outreach _ = false

abbrev pub is_meeting : Purpose → Bool
is_meeting Purpose.meeting = true
is_meeting _ = false

abbrev pub is_reply : Purpose → Bool
is_reply Purpose.reply = true
is_reply _ = false

abbrev first_person : List Person → Option Person
first_person [] = none
first_person (p ∷ ps) = some p

-- The two refusals before anything is generated.
unfoldable pub check_draftable : SequenceStatus → Purpose → Action (Unit {0})
check_draftable status purpose = do
  throw_if (is_stop status && not (is_replied status))
      (bad_request (text "Cannot draft for sequence status " ++ status_text status))
  throw_if (is_replied status && is_outreach purpose)
      (bad_request (text "Sequence replied — create reply/meeting draft instead"))

unfoldable pub add_booking : Env → Text → Sequence → Proposal → Db → Db
add_booking env tenant s p db = record db {
  next_row = suc db.next_row;
  bookings =
      record {
        id = env.cuid db.next_row;
        tenant = tenant;
        sequence_id = s.id;
        candidate_id = s.candidate_id;
        booked = false;
        booking_link = some p.booking_link;
        provider_meeting_id = none;
        proposed_times = p.proposed_times;
      }
      ∷ db.bookings;
}

unfoldable pub propose_meeting : Env → Text → Sequence → Text → Action (Option Text)
propose_meeting env tenant s by = do
  candidate ← require_candidate tenant s.candidate_id
  p ← lift (env.propose s.id candidate.company_name)
  modify (add_booking env tenant s p)
  _ ← log env (
      logged tenant (text "sdr_meeting_booking_started") (text "SdrSequence") s.id
        (some (field (text "bookingLink") (str p.booking_link) end)) by)
  pure (some p.booking_link)

unfoldable pub booking_link_for : Env → Text → Sequence → Purpose → Text → Action (Option Text)
unfolding propose_meeting
booking_link_for env tenant s purpose by =
    branch (is_meeting purpose) (propose_meeting env tenant s by) (pure none)

-- The drafts that a new draft of the purpose replaces.
abbrev pub is_prior : Text → Text → Purpose → Draft → Bool
is_prior tenant sequence_id purpose d =
    text_eq d.tenant tenant
    && text_eq d.sequence_id sequence_id
    && same_purpose d.content.purpose purpose
    && is_open d.status

abbrev pub of_draft : Text → Text → Approval → Bool
of_draft tenant draft_id a = text_eq a.tenant tenant && text_eq a.draft_id draft_id && a.is_active

abbrev pub revoked : Approval → Approval
revoked a = record a { is_active = false }

unfoldable pub set_draft_status : Text → DraftStatus → Db → Db
set_draft_status id status db = record db {
  drafts = update_where (λ d. text_eq d.id id) (λ d. record d { status = status }) db.drafts;
}

unfoldable pub revoke_approvals : Text → Text → Db → Db
revoke_approvals tenant draft_id db = record db {
  approvals = update_where (of_draft tenant draft_id) revoked db.approvals;
}

unfoldable pub supersede : Env → Text → Purpose → Text → Draft → Action (Unit {0})
unfolding set_draft_status revoke_approvals
supersede env tenant purpose by p = do
  modify (set_draft_status p.id DraftStatus.superseded)
  modify (revoke_approvals tenant p.id)
  _ ← log env (
      logged tenant (text "sdr_draft_superseded") (text "SdrDraft") p.id
        (some (field (text "supersededByPurpose") (str (purpose_text purpose)) end)) by)
  pure tt

-- `_max.version || 0`
unfoldable pub max_version : Text → List Draft → ℕ
max_version sequence_id [] = 0
max_version sequence_id (d ∷ ds) =
    if text_eq d.sequence_id sequence_id
    then max d.version (max_version sequence_id ds)
    else max_version sequence_id ds

abbrev pub new_draft : Env → Text → Sequence → Content → Db → Draft
new_draft env tenant s c db = record {
  id = env.cuid db.next_row;
  tenant = tenant;
  sequence_id = s.id;
  candidate_id = s.candidate_id;
  version = max_version s.id db.drafts + 1;
  content = c;
  why_now_snapshot_id = s.why_now_snapshot_id;
  status = DraftStatus.awaiting_approval;
  content_hash = hash_draft_content env c;
}

unfoldable pub add_draft : Env → Text → Sequence → Content → Action Draft
add_draft env tenant s c = do
  d ← gets (new_draft env tenant s c)
  modify λ db. record db { next_row = suc db.next_row; drafts = d ∷ db.drafts }
  pure d

-- `updateMany({ where: { id, status: { notIn: STOP_STATUSES } }, data: { status } })`
unfoldable pub advance_sequence : Text → SequenceStatus → Db → Db
advance_sequence id status db = record db {
  sequences =
      update_where (λ s. text_eq s.id id && not (is_stop s.status))
        (λ s. record s { status = status }) db.sequences;
}

-- `pkg?.`, with what stands in for a missing package.
abbrev of_package : {A : Type 0} → A → (Package → A) → Option Package → A
of_package other f none = other
of_package other f (some p) = f p

draft_input : Sequence → Purpose → Detail → Candidate → Option Text → DraftInput
draft_input s purpose d candidate link = record {
  company_name = candidate.company_name;
  purpose = purpose;
  why_now = of_package none (λ p. some_text (some p.why_now)) d.run.pkg;
  personalization_facts = of_package [] (λ p. p.outreach_context.personalization_facts) d.run.pkg;
  do_not_claim = of_package [] (λ p. p.outreach_context.do_not_claim) d.run.pkg;
  finding_ids = of_package (map (λ (f : Finding). f.id) d.findings) (λ p. p.finding_ids) d.run.pkg;
  buyer_roles = of_package [] (λ p. p.outreach_context.suggested_buyer_roles) d.run.pkg;
  named_person = of_package none (λ p. first_person p.named_people) d.run.pkg;
  target_person_name = s.target_person_name;
  value_prop = none;
  booking_link = link;
  reply_is_question = false;
}

draft_fields : Draft → Fields
draft_fields d = field (text "sequenceId") (str d.sequence_id) (
    field (text "version") (num d.version) (
      field (text "purpose") (str (purpose_text d.content.purpose)) (
        field (text "contentHash") (str d.content_hash) (
          field (text "confidence") (num d.content.confidence)
            (field (text "evidenceCount") (num (length d.content.evidence_refs)) end)))))

abbrev generated_action : Purpose → Text
generated_action purpose =
    if is_reply purpose then text "sdr_reply_draft_generated" else text "sdr_draft_generated"

-- Writing the new draft: the older open ones of its purpose are superseded first.
unfoldable pub store_draft : Env → Text → Sequence → Purpose → Content → Text → Action Draft
unfolding draft_fields
store_draft env tenant s purpose c by = do
  prior ← gets λ db. select (is_prior tenant s.id purpose) db.drafts
  for_each prior (supersede env tenant purpose by)
  d ← add_draft env tenant s c
  modify (advance_sequence s.id SequenceStatus.awaiting_approval)
  _ ←
      log env
        (logged tenant (generated_action purpose) (text "SdrDraft") d.id (some (draft_fields d)) by)
  pure d

unfoldable pub create_draft : Env → Text → Text → Purpose → Text → Action Draft
unfolding draft_input
create_draft env tenant sequence_id purpose by = do
  assert_agent_not_paused env tenant ai_sdr by
  s ← require_sequence tenant sequence_id
  check_draftable s.status purpose
  research ← get_latest_research tenant s.candidate_id
  link ← booking_link_for env tenant s purpose by
  candidate ← require_candidate tenant s.candidate_id
  c ← lift (generate_draft_content env.lower (draft_input s purpose research candidate link))
  store_draft env tenant s purpose c by

-- What the caller of `createSequence` gives.
pub record Target : Type 0 where
  pub email : Option Text
  pub person_twenty_id : Option Text
  pub person_name : Option Text
  pub generate_draft : Bool

-- `targetEmail?.trim().toLowerCase() || null`
unfoldable pub normal_email : (Text → Text) → Option Text → Option Text
unfolding trim non_empty
normal_email lower none = none
normal_email lower (some e) = non_empty (lower (trim e))

abbrev pub new_sequence : Env → Text → Text → ResearchRun → Target → Db → Sequence
new_sequence env tenant candidate_id run target db = record {
  id = env.cuid db.next_row;
  tenant = tenant;
  candidate_id = candidate_id;
  research_run_id = run.id;
  why_now_snapshot_id = some_text run.why_now_snapshot_id;
  status = SequenceStatus.drafting;
  channel = text "email";
  target_email = normal_email env.lower target.email;
  target_person_twenty_id = some_text target.person_twenty_id;
  target_person_name = some_text target.person_name;
  crm_sync = CrmSync.none;
}

abbrev with_draft : Sequence → Option Draft → Sequence × Option Draft
with_draft s d = (s, d)

unfoldable pub open_sequence : Env → Text → Text → ResearchRun → Target → Action Sequence
open_sequence env tenant candidate_id run target = do
  s ← gets (new_sequence env tenant candidate_id run target)
  modify λ db. record db { next_row = suc db.next_row; sequences = s ∷ db.sequences }
  pure s

unfoldable pub create_sequence :
    Env → Text → Text → Target → Text → Action (Sequence × Option Draft)
unfolding normal_email
create_sequence env tenant candidate_id target by = do
  assert_agent_not_paused env tenant ai_sdr by
  candidate ← require_candidate tenant candidate_id
  throw_if (not (is_researchable candidate.status)) (
      bad_request (
        text "SDR requires APPROVED or CREATED candidate; status="
        ++ candidate_status_text candidate.status))
  research ←
      try_catch (get_latest_research tenant candidate_id)
        (λ _. throw (bad_request (text "Completed Research Agent package required before SDR")))
  s ← open_sequence env tenant candidate_id research.run target
  _ ← log env (
      logged tenant (text "sdr_sequence_created") (text "SdrSequence") s.id
        (some (
          field (text "prospectCandidateId") (str candidate_id) (
            field (text "researchRunId") (str research.run.id)
              (field (text "targetEmailPresent") (bool (is_some s.target_email)) end))))
        by)
  branch target.generate_draft
      (do d ← create_draft env tenant s.id Purpose.outreach by; pure (with_draft s (some d)))
      (pure (with_draft s none))
