-- ===== src/Eventing/Relay.antt =====
-- The relay of the outbox: packages/modules/eventing/src/outbox-relay.service.ts and
-- prisma-outbox-relay.repository.ts.
pub mod Repository
pub mod Service
pub mod Claims
pub mod Finalizations
pub mod Rows
pub mod Rounds
pub mod Drain
