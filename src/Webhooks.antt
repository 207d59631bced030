-- ===== src/Webhooks.antt =====
-- The webhooks of the CRM: src/webhooks.
pub mod Checks
pub mod Receive
pub mod Redelivery
