-- ===== src/AgentControl.antt =====
-- The agent control center: src/agent-control. Pausing and resuming an agent, undoing such a change,
-- and the gate that other services ask before they start new agent work.
pub mod Agents
pub mod Mapper
pub mod Timeline
pub mod Service
pub mod Undo
pub mod Gate
pub mod Changes
pub mod Undoing
