-- ===== src/Store/Data.antt =====
-- The database and the outside world.
use zex_platform.Base.{Text, ℕ, List, Bool, Option}
use zex_platform.Base.Effects.{Result}
use zex_platform.Store.Rows.{
  Tenant, Control, AuditLog, Sequence, Draft, Approval, Message, Reply, Booking, Checkpoint,
  SendInput, SendResult, CrmCall, Job,
}
use zex_platform.Store.Prospects.{Candidate, Brain, DiscoveryRun, Company, IcpInput, Discovered}
use zex_platform.Store.Research.{ResearchRun, Finding, ScoreSnapshot, Question, Collected, Url}
use zex_platform.Store.Leads.{WebhookLog, ScoreHistory, SeenKey, ScoringRule, Lead, Enrichment}

-- The tables; `next_row` counts the rows that were ever created, `outbox` and `crm` list the calls of
-- the outbound provider and the CRM mutations so far, `jobs` what was put on a queue, newest first;
-- `seen` holds the keys of the store of seen webhooks, `reads` counts the queries of the CRM and of the
-- data providers.
pub record Db : Type 0 where
  pub next_row : ℕ
  pub tenants : List Tenant
  pub controls : List Control
  pub audit : List AuditLog
  pub candidates : List Candidate
  pub research_runs : List ResearchRun
  pub findings : List Finding
  pub snapshots : List ScoreSnapshot
  pub sequences : List Sequence
  pub drafts : List Draft
  pub approvals : List Approval
  pub messages : List Message
  pub replies : List Reply
  pub bookings : List Booking
  pub checkpoints : List Checkpoint
  pub outbox : List SendInput
  pub crm : List CrmCall
  pub jobs : List Job
  pub brains : List Brain
  pub discovery_runs : List DiscoveryRun
  pub webhook_logs : List WebhookLog
  pub scores : List ScoreHistory
  pub scoring_rules : List ScoringRule
  pub seen : List SeenKey
  pub reads : ℕ

abbrev pub Action : Type 0 → Type 0
Action A = Db → Result A × Db

pub record Proposal : Type 0 where
  pub booking_link : Text
  pub proposed_times : List Text

-- Code that is not in the repository. A call that leaves the process is answered by how many calls of
-- its kind went before, so that each attempt may end differently; `before_send` and
-- `during_send` are what the other requests did to the database while a send waited. `at_most a b` is
-- `Number(a) <= Number(b)`, `to_number` is `Number` where the value is whole and not below zero, and
-- `hmac` gives hexadecimal digits; `ms_since` is how far a date and the present are apart, in whole
-- milliseconds, where the text is a date, and `parse_url` and `print_url` are those of the `URL` class.
pub record Env : Type 0 where
  pub cuid : ℕ → Text
  pub sha256 : Text → Text
  pub lower : Text → Text
  pub send_email : ℕ → SendInput → Result SendResult
  pub crm_write : ℕ → CrmCall → Result Text
  pub propose : Text → Text → Result Proposal
  pub confirm : Text → Text → Result Text
  pub before_send : Db → Db
  pub during_send : Db → Db
  pub at_most : Text → Text → Bool
  pub discovery_provider : Text
  pub discover : IcpInput → Result Discovered
  pub companies_by_domain : ℕ → Text → Text → Result (List Company)
  pub companies_by_name : ℕ → Text → Text → Result (List Company)
  pub get_person : ℕ → Text → Text → Result Lead
  pub enrich_person : ℕ → Text → Lead → Result Enrichment
  pub checkpoint_saved : ℕ → Result (Unit {0})
  pub webhook_secret : Text → Result Text
  pub hmac : Text → Text → Text
  pub from_hex : Text → List ℕ
  pub to_number : Text → Option ℕ
  pub research : ℕ → Question → Result Collected
  pub ms_since : Text → Option ℕ
  pub parse_url : Text → Option Url
  pub print_url : Url → Text
  pub queue_add : ℕ → Result Text
