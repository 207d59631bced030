-- ===== src/Store.antt =====
-- The database of prisma/schema.prisma as far as the modelled services touch it, the calls that
-- leave the process, and `AuditService.log` of src/audit/audit.service.ts. A table is a list of rows,
-- the newest first, so that an order by creation time, newest first, is the order of the list; no
-- column that only records a time is kept, but the completion of a research run as a count of rows. Ids come from `cuid`, which stands for Prisma's `cuid()`.
mod Prospects
mod Leads
mod Research
mod Rows
mod Data
mod Log
pub use Prospects.{
  RuleValue, one, many, Polarity, Rule, Icp, Persona, Payload, BrainStatus, Brain, IcpInput,
  ReasonType, FitReason, FitBand, Found, Discovered, RunStatus, DiscoveryRun, CandidateStatus,
  Dedupe, Candidate, Company,
}
pub use Leads.{
  LogStatus, WebhookLog, SeenKey, ScoreHistory, Snapshot, Lead, Enrichment, TitleKeywords,
  ActivityRecency, Weights, Factor, Scalar, word, number, Value, missing, single, array, Filter,
  ScoringRule,
}
pub use Research.{
  FindingType, EvidenceType, ProviderFinding, Finding, Collected, Question, Ratio, KeyFinding,
  Person, OutreachContext, Package, ResearchStatus, ResearchRun, ScoreSnapshot, Url,
}
pub use Rows.*
pub use Data.*
pub use Log.*
unfoldable pub use Log.{log, has_id}
