-- ===== src/Payments.antt =====
-- Payment intents: packages/modules/payments/src.
pub mod Repository
pub mod Responses
pub mod Operations
pub mod Service
pub mod Atomicity
pub mod Projection
pub mod Preservation
pub mod Steps
pub mod Accounting
pub mod Refunds
pub mod Drift
pub mod Histories
