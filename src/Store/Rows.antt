-- ===== src/Store/Rows.antt =====
-- The rows of the tables. A status column holds one of the constants that its comment in the schema
-- lists, and is a data type.
use zex_platform.Base.{Text, ℕ, Bool, Option, List}
use zex_platform.Store.Leads.{Snapshot}
use zex_platform.Json.{Fields}

pub record Tenant : Type 0 where
  pub id : Text
  pub deleted : Bool
  pub auto_opportunity : Bool
  pub opportunity_threshold : ℕ

pub data AgentId : Type 0 where
  research_agent ai_sdr : AgentId

pub data ControlState : Type 0 where
  active paused : ControlState

pub record Control : Type 0 where
  pub id : Text
  pub tenant : Text
  pub agent : AgentId
  pub state : ControlState
  pub updated_by : Text

pub record AuditLog : Type 0 where
  pub id : Text
  pub tenant : Text
  pub action : Text
  pub resource_type : Text
  pub resource_id : Text
  pub before : Option Fields
  pub after : Option Fields
  pub triggered_by : Text
  pub success : Bool
  pub message : Option Text

pub data SequenceStatus : Type 0 where
  drafting awaiting_approval approved active paused replied completed cancelled failed :
      SequenceStatus

pub data CrmSync : Type 0 where
  none pending completed failed : CrmSync

pub record Sequence : Type 0 where
  pub id : Text
  pub tenant : Text
  pub candidate_id : Text
  pub research_run_id : Text
  pub why_now_snapshot_id : Option Text
  pub status : SequenceStatus
  pub channel : Text
  pub target_email : Option Text
  pub target_person_twenty_id : Option Text
  pub target_person_name : Option Text
  pub crm_sync : CrmSync

pub data Purpose : Type 0 where
  outreach follow_up reply meeting : Purpose

pub data DraftStatus : Type 0 where
  draft awaiting_approval approved superseded sent rejected : DraftStatus

pub record Grounding : Type 0 where
  pub personalization_facts : List Text
  pub why_now : Option Text
  pub company_name : Text

-- `GeneratedDraftContent`; the confidence is in hundredths.
pub record Content : Type 0 where
  pub channel : Text
  pub purpose : Purpose
  pub subject : Text
  pub body : Text
  pub evidence_refs : List Text
  pub research_finding_ids : List Text
  pub do_not_claim_applied : List Text
  pub grounding : Grounding
  pub confidence : ℕ

pub record Draft : Type 0 where
  pub id : Text
  pub tenant : Text
  pub sequence_id : Text
  pub candidate_id : Text
  pub version : ℕ
  pub content : Content
  pub why_now_snapshot_id : Option Text
  pub status : DraftStatus
  pub content_hash : Text

pub record Approval : Type 0 where
  pub id : Text
  pub tenant : Text
  pub sequence_id : Text
  pub draft_id : Text
  pub draft_version : ℕ
  pub content_hash : Text
  pub approved_by : Text
  pub is_active : Bool

pub data MessageStatus : Type 0 where
  queued sending sent failed : MessageStatus

pub record Message : Type 0 where
  pub id : Text
  pub tenant : Text
  pub sequence_id : Text
  pub draft_id : Text
  pub approval_id : Text
  pub channel : Text
  pub provider : Option Text
  pub provider_message_id : Option Text
  pub idempotency_key : Text
  pub status : MessageStatus
  pub error : Option Text
  pub crm_sync : CrmSync
  pub crm_sync_error : Option Text

pub data Classification : Type 0 where
  positive negative question not_now ooo unsubscribe unknown : Classification

pub record Reply : Type 0 where
  pub id : Text
  pub tenant : Text
  pub sequence_id : Text
  pub message_id : Option Text
  pub provider_event_id : Text
  pub classification : Classification
  pub sender : Option Text
  pub subject : Option Text
  pub body_summary : Option Text

pub record Booking : Type 0 where
  pub id : Text
  pub tenant : Text
  pub sequence_id : Text
  pub candidate_id : Text
  pub booked : Bool
  pub booking_link : Option Text
  pub provider_meeting_id : Option Text
  pub proposed_times : List Text

pub data CrmWrite : Type 0 where
  update_person create_note link_note_to_person create_opportunity create_company : CrmWrite

pub record Checkpoint : Type 0 where
  pub tenant : Text
  pub job : Text
  pub person : Text
  pub write : CrmWrite
  pub external_id : Option Text

-- `OutboundSendInput`
pub record SendInput : Type 0 where
  pub tenant : Text
  pub sequence_id : Text
  pub draft_id : Text
  pub message_id : Text
  pub idempotency_key : Text
  pub to_email : Text
  pub subject : Text
  pub body : Text

pub record SendResult : Type 0 where
  pub provider : Text
  pub provider_message_id : Text

-- A mutation of the CRM, as the Twenty client sends it.
pub data CrmCall : Type 0 where
  note : (tenant title body : Text) → CrmCall
  note_target : (tenant note_id person : Text) → CrmCall
  company : (tenant name : Text) (domain website : Option Text) → CrmCall
  person : (tenant person_id : Text) (job_title company_id : Option Text) → CrmCall
  opportunity : (tenant person_id name stage : Text) (probability : ℕ) → CrmCall

pub data Job : Type 0 where
  send : (tenant draft_id : Text) → Job
  crm_sync : (tenant message_id : Text) → Job
  discover : (tenant run_id : Text) (limit : Option ℕ) → Job
  research : (tenant candidate_id run_id : Text) (fixture : Option Text) → Job
  enrich :
      (tenant : Text) (person : Option Text) (event log_id : Text) (snapshot : Option Snapshot)
      → Job
