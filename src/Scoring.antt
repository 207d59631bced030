-- ===== src/Scoring.antt =====
-- The score of a person: src/scoring/scoring.engine.ts.
pub mod Filters
pub mod Engine
pub mod Choice
pub mod Bounds
