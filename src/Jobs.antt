-- ===== src/Jobs.antt =====
-- The job that enriches and scores a person: src/jobs/processors/enrich-and-score.processor.ts.
pub mod Steps
pub mod Enrich
pub mod Repeats
pub mod Again
