-- ===== src/Sdr.antt =====
-- The AI SDR: src/ai-sdr. Drafts of outreach, their approval by a human, sending, replies, meetings.
pub mod Statuses
pub mod Phrases
pub mod Templates
pub mod Generator
pub mod Lookups
pub mod Drafts
pub mod Approvals
pub mod Crm
pub mod Gate
pub mod Send
pub mod Replies
pub mod Meetings
pub mod Writes
pub mod Requests
pub mod Silence
pub mod AfterReply
pub mod Consent
pub mod Delivery
pub mod Refusals
pub mod Granted
pub mod Wording
pub mod Versions
pub mod Notes
pub mod Sent
pub mod Once
pub mod Superseding
