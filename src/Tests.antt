-- ===== src/Tests.antt =====
-- Runs of the handlers on a small database, at which the theorems apply.
mod Rows
mod Control
mod Sending
mod Writing
mod Discovering
mod Merging
mod Scoring
mod Webhooks
mod Researching
