-- ===== src/Prospects.antt =====
-- Prospect discovery: src/prospect-discovery. Candidates that a provider proposes are scored, compared
-- with the CRM, approved by a human and then created in the CRM, once.
pub mod Names
pub mod Fit
pub mod Dedupe
pub mod Lookups
pub mod Decisions
pub mod Create
pub mod Discovery
pub mod Writes
pub mod Requests
pub mod Finding
pub mod Matching
pub mod Creating
pub mod Once
pub mod Scores
pub mod Settled
