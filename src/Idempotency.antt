-- ===== src/Idempotency.antt =====
-- The idempotency keys of the HTTP commands: packages/modules/idempotency/src.
pub mod Repository
pub mod Completion
pub mod Replay
pub mod Leases
