-- ===== src/Database.antt =====
-- The database that the services share: its tables as lists of rows, oldest first
-- (prisma/schema.prisma and prisma/migrations). Identifiers are texts, times are milliseconds.
pub mod Ledger
pub mod Payments
pub mod Idempotency
pub mod Eventing
use settle_flow.Common.{List}
use settle_flow.Common.Action.{Action}
use Ledger.{LedgerAccount, LedgerTransaction}
use Payments.{PaymentIntent, Refund}
use Idempotency.{IdempotencyKey}
use Eventing.{OutboxEvent}

pub record Database : Type 0 where
  pub ledger_accounts : List LedgerAccount
  pub ledger_transactions : List LedgerTransaction
  pub payment_intents : List PaymentIntent
  pub refunds : List Refund
  pub idempotency_keys : List IdempotencyKey
  pub outbox_events : List OutboxEvent

-- A call on the database.
abbrev pub Call : Type 0 → Type 0
Call = Action Database
