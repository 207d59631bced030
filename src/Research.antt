-- ===== src/Research.antt =====
-- The research agent of src/research-agent: findings with their provenance, the package that is built
-- from them, and the runs.
pub mod Reading
pub mod Findings
pub mod Context
pub mod Package
pub mod Persist
pub mod Runs
pub mod Start
pub mod Writes
pub mod Unique
pub mod Settled
pub mod Ends
pub mod Blocked
pub mod Grounded
pub mod Latest
pub mod Between
pub mod Completing
pub mod Handoff
