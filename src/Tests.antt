-- ===== src/Tests.antt =====
-- Runs at concrete inputs: a merchant with an amount captured and refunded.
mod Data
mod Ledger
mod Idempotency
mod Payments
mod World
mod Reconciliation
mod Settlements
mod Relay
mod Webhooks
mod Inbox
mod Signature
