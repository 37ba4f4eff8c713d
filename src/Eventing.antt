-- ===== src/Eventing.antt =====
-- Domain events: packages/modules/eventing/src.
pub mod Outbox
pub mod Retry
pub mod Relay
pub mod Inbox
