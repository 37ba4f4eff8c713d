-- ===== src/Webhooks.antt =====
-- Delivery of events to the endpoints of merchants: packages/modules/webhooks/src.
pub mod Rows
pub mod Classification
pub mod Checks
pub mod Repository
pub mod Starting
pub mod Finishing
pub mod Marking
pub mod Bookkeeping
pub mod Attempts
pub mod Starts
pub mod Finishes
pub mod Histories
pub mod Evidence
pub mod Loading
pub mod Service
pub mod Runs
pub mod Messages
pub mod Projection
pub mod Signature
