-- ===== src/Brain.antt =====
-- The company brain: src/company-brain/payload-merge.ts.
pub mod Merge
pub mod Marks
pub mod Rest
pub mod Protected
pub mod Edits
