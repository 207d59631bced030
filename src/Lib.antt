-- ===== src/Lib.antt =====
-- The core of the ZEX platform. Prospect discovery proposes companies, which a human approves and
-- the platform then creates in the CRM. The research agent collects findings on an approved company
-- and builds a package of them. The AI SDR drafts outreach for them, waits for a human's approval,
-- sends, and stops on a reply. Webhooks of the CRM queue a job that enriches and scores a person.
-- The agent control center pauses, resumes and undoes. All are services over one database: the AI
-- SDR takes the candidates of discovery and the latest research package, and asks the control
-- center whether the agent may work, all but the webhooks write the audit trail, and the control
-- center reads it back to find what can be undone.
--
-- The files and the code, with paths from the repository's root:
--   Base, Json: numbers, lists with the lookups and updates of a table, texts as lists of UTF-16
--     code units, JSON values, and handlers as functions from a database to a result and a
--     database.
--   Store: prisma/schema.prisma as records, `AuditService.log` of src/audit/audit.service.ts, and
--     `Env`, the code that is not in the repository: ids, the hash, lower case, the comparison of
--     texts as numbers, the mail provider, the CRM, the calendar, the sources of companies, of
--     findings and of data on people, the `URL` class, the age of a date, the keyed hash and the
--     queue; the secret of a tenant's webhooks is one of its functions too. A table is a list with
--     the newest row first, `findFirst` the first row that fits. A call that leaves the process may
--     fail, and is answered by how many of its kind went before.
--   AgentControl: src/agent-control. Agents has the texts of the constants, Mapper is
--     agent-action-mapper.ts, Timeline its computeLatestEligibleControlActions, Service and Undo
--     are agent-control.service.ts (`change_agent` is the common text of pauseAgent and
--     resumeAgent); Gate, Changes and Undoing hold theorems.
--   Checkpoints: src/jobs/job-action-checkpoint.service.ts.
--   Research: src/research-agent. Findings is finding-utils.ts and sanitizeProviderFindings of
--     package-builder.ts, Context its buildOutreachContext and Package its buildResearchPackage,
--     with the schema of research-agent.types.ts. Persist and Runs (executeResearch), Start
--     (startResearch, and src/jobs/processors/prospect-research.processor.ts) and Reading
--     (getLatest, getRun, getHistory) are research-agent.service.ts. Writes, Ends, Settled,
--     Blocked, Unique, Grounded, Latest, Between, Completing and Handoff hold theorems.
--   Sdr: src/ai-sdr. Phrases, Templates and Generator are draft-generator.ts; Statuses, Lookups,
--     Drafts (createSequence, createDraft), Approvals (approveDraft, revokeApproval, rejectDraft),
--     Crm (syncCrmForMessage), Gate (assertSendAllowed), Send (executeSend, sendDraft), Replies
--     (ingestReply) and Meetings (confirmMeeting) are ai-sdr.service.ts. Requests puts the handlers
--     together to a history of requests. Writes, Silence, AfterReply, Consent, Delivery, Refusals,
--     Granted, Versions, Superseding, Notes, Sent, Once and Wording hold theorems.
--   Prospects: src/prospect-discovery. Names is domain-normalize.ts, Fit is fit-scoring.ts, Dedupe
--     is company-dedupe.ts; Lookups (requireCandidate, loadCrmCompanies), Decisions
--     (approveCandidate, rejectCandidate), Create (createApprovedCandidate) and Discovery
--     (startDiscovery, executeDiscovery) are prospect-discovery.service.ts. Requests puts the
--     handlers together to a history of requests. Writes, Finding, Matching, Creating, Once,
--     Settled and Scores hold theorems.
--   Webhooks: src/webhooks. Checks is signature.service.ts and idempotency.service.ts, Receive is
--     webhook.controller.ts with normalizeWebhookPersonRecord of
--     src/twenty/twenty-person.mapper.ts; Redelivery holds theorems.
--   Scoring: src/scoring/scoring.engine.ts, with matchesFilters in Filters and the rest in Engine;
--     Choice and Bounds hold theorems.
--   Jobs: src/jobs/processors/enrich-and-score.processor.ts. Steps has the person and each write to
--     the CRM with its checkpoint, Enrich the rest of `process`; Repeats and Again hold theorems.
--   Brain: src/company-brain/payload-merge.ts. Merge has normalizeListOverrides and mergeList,
--     Marks the marks of overrides; Rest, Protected and Edits hold theorems.
--   Frames: how the database after a handler relates to the one before it, rule by rule.
--   Outcomes: from the result of a handler back to the results of its parts.
--   Tests: runs on a small database.
--
-- A handler that throws keeps what it wrote before, since the services open no transaction. Two
-- requests interleave where a send waits: `before_send` stands for what other requests did before
-- the last look at the sequence, `during_send` for what they did while the provider was at work.
-- Elsewhere a handler runs to its end. Only the digits of a number are computed with fuel, one more
-- than the number, which Base/Decimals shows to be enough; each other loop runs over a list.
--
-- Not modelled: timestamps and the order of rows that depends on them beyond newest first, the
-- parsing of request bodies, failures of the database, deletion of rows, the fixtures of the
-- providers, the reading routes and serialisers but those of research. Confidences are in
-- hundredths, and what research computes from them is exact, where the code rounds to floating
-- point; the message of an error of the schemas is a word. `completed_at` counts rows in place of
-- the time. The balance of a fit score is kept as what was added and what was taken off. The
-- weights of a scoring rule are whole numbers, of either sign; the store of seen webhooks has the
-- clock of the service. The other parts of the platform (why-now, the rest of the company brain,
-- the action feed, the web layer) are left out.
pub mod Base
pub mod Json
pub mod Store
pub mod AgentControl
pub mod Checkpoints
pub mod Research
pub mod Sdr
pub mod Prospects
pub mod Scoring
pub mod Jobs
pub mod Webhooks
pub mod Brain
pub mod Frames
pub mod Outcomes
pub mod Tests
