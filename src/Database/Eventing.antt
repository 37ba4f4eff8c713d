-- ===== src/Database/Eventing.antt =====
-- The rows of the outbox (packages/modules/eventing/src/eventing.types.ts,
-- prisma-outbox.repository.ts).
use settle_flow.Common.{ℕ, Option}
use settle_flow.Common.Text.{Text}
use settle_flow.Database.Ledger.{Currency}

-- What the payload of an event holds besides the fields that every row has.
pub data Payload : Type 0 where
  payment_created : ℕ → Currency → Payload
  payment_captured : ℕ → Currency → ℕ → Text → Payload
  payment_refunded : Text → ℕ → Currency → ℕ → Text → Payload

pub record OutboxEvent : Type 0 where
  pub id : Text
  pub event_id : Text
  pub merchant_id : Text
  pub aggregate_id : Text
  pub occurred_at : ℕ
  pub request_id : Text
  pub payload : Payload
  pub attempt_count : ℕ
  pub available_at : ℕ
  pub locked_by : Option Text
  pub lease_expires_at : Option ℕ
  pub published_at : Option ℕ
