-- ===== src/AgentControl/Mapper.antt =====
-- src/agent-control/agent-action-mapper.ts: which agent an audit action belongs to, and how the
-- control center shows it.
use zex_platform.Base.{
  Text, text, text_eq, Bool, true, false, Option, none, some, List, [], ◌∷◌, ◌&&◌, ◌||◌, not, any,
  if◌then◌else◌,
}
use zex_platform.Base.Texts.{starts_with, includes, ends_with}
use zex_platform.Json.{Fields, get, as_text}
use zex_platform.Store.{AgentId, research_agent, ai_sdr}
use zex_platform.AgentControl.Agents.{to_agent}

-- `set.has(action)`
unfoldable pub has : List Text → Text → Bool
has set action = any (text_eq action) set

unfoldable pub research_actions : List Text
research_actions =
    text "research_run_created"
    ∷ text "research_started"
    ∷ text "research_finding_created"
    ∷ text "research_finding_duplicate_detected"
    ∷ text "research_completed"
    ∷ text "research_failed"
    ∷ text "research_blocked_not_approved"
    ∷ text "research_blocked_agent_paused"
    ∷ []

unfoldable pub sdr_actions : List Text
sdr_actions =
    text "sdr_sequence_created"
    ∷ text "sdr_draft_generated"
    ∷ text "sdr_reply_draft_generated"
    ∷ text "sdr_draft_superseded"
    ∷ text "sdr_draft_rejected"
    ∷ text "sdr_approval_granted"
    ∷ text "sdr_approval_revoked"
    ∷ text "sdr_send_started"
    ∷ text "sdr_sent"
    ∷ text "sdr_send_failed"
    ∷ text "sdr_send_blocked_unapproved"
    ∷ text "sdr_crm_sync_completed"
    ∷ text "sdr_crm_sync_failed"
    ∷ text "sdr_reply_received"
    ∷ text "sdr_sequence_paused_on_reply"
    ∷ text "sdr_meeting_booking_started"
    ∷ text "sdr_meeting_booked"
    ∷ text "sdr_blocked_agent_paused"
    ∷ []

unfoldable pub control_actions : List Text
control_actions =
    text "agent_control_paused" ∷ text "agent_control_resumed" ∷ text "agent_control_undo" ∷ []

unfoldable pub map_audit_action_to_agent_id : Text → Option Fields → Option AgentId
map_audit_action_to_agent_id action after =
    if has control_actions action
    then control_agent (as_text (get (text "agentId") after))
    else if has research_actions action || starts_with action (text "research_")
    then (if has research_actions action then some research_agent else none)
    else if has sdr_actions action || starts_with action (text "sdr_")
    then (if has sdr_actions action then some ai_sdr else none)
    else none
  where
    control_agent : Option Text → Option AgentId
    control_agent none = none
    control_agent (some t) = to_agent t

research_permission : Text → Text
research_permission action =
    if includes action (text "blocked")
    then text "research_accounts"
    else if includes action (text "finding")
    then text "write_research_findings"
    else if text_eq action (text "research_completed")
    then text "produce_outreach_context"
    else text "research_accounts"

sdr_permission : Text → Text
sdr_permission action =
    if includes action (text "approval")
    then text "approve_draft"
    else if includes action (text "send") || text_eq action (text "sdr_sent")
    then text "send_outreach"
    else if includes action (text "meeting")
    then text "book_meeting"
    else if includes action (text "reply")
        && not (text_eq action (text "sdr_reply_draft_generated"))
    then text "adapt_after_reply"
    else if includes action (text "draft") || includes action (text "sequence")
    then text "draft_outreach"
    else if includes action (text "crm")
    then text "crm_sync"
    else text "draft_outreach"

unfoldable pub permission_key_for_action : Text → Option AgentId → Option Text
unfolding research_permission sdr_permission
permission_key_for_action action none = none
permission_key_for_action action (some agent) =
    if starts_with action (text "agent_control_")
    then some (text "agent_control")
    else some (of_agent agent)
  where
    of_agent : AgentId → Text
    of_agent research_agent = research_permission action
    of_agent ai_sdr = sdr_permission action

unfoldable pub is_control_mutation_reversible : Text → Bool
is_control_mutation_reversible action =
    text_eq action (text "agent_control_paused") || text_eq action (text "agent_control_resumed")

unfoldable pub is_domain_action_reversible : Text → Bool
unfolding is_control_mutation_reversible
is_domain_action_reversible action = if is_control_mutation_reversible action then true else false

unfoldable pub derive_approval_state : Text → Option Fields → Option Text
derive_approval_state action after =
    if text_eq action (text "sdr_draft_generated")
      || text_eq action (text "sdr_reply_draft_generated")
    then some (text "awaiting_approval")
    else if text_eq action (text "sdr_approval_granted")
    then some (text "approved")
    else if text_eq action (text "sdr_draft_rejected")
    then some (text "rejected")
    else if text_eq action (text "sdr_draft_superseded")
    then some (text "superseded")
    else if text_eq action (text "sdr_approval_revoked")
    then some (text "approval_revoked")
    else if text_eq action (text "sdr_sent")
    then some (text "sent")
    else if text_eq action (text "sdr_meeting_booking_started")
    then some (text "meeting_awaiting_confirmation")
    else if text_eq action (text "sdr_meeting_booked")
    then some (text "meeting_booked")
    else if text_eq action (text "sdr_send_blocked_unapproved")
    then some (text "send_blocked")
    else as_text (get (text "status") after)

unfoldable pub action_status_from_audit : Text → Bool → Text
action_status_from_audit action false =
    if includes action (text "blocked") then text "blocked" else text "failed"
action_status_from_audit action true =
    if includes action (text "started") || ends_with action (text "_created")
    then text "started"
    else if includes action (text "completed")
        || text_eq action (text "sdr_sent")
        || text_eq action (text "sdr_meeting_booked")
    then text "completed"
    else if includes action (text "paused")
        || includes action (text "resumed")
        || text_eq action (text "agent_control_undo")
    then text "completed"
    else text "recorded"
