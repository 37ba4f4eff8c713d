-- ===== src/Webhooks/Messages.antt =====
-- The messages that payment-created-webhook-projection.service.ts of packages/modules/webhooks/src takes,
-- and the row of `webhook_event_projections` that it makes of one. A message has been validated: its
-- schema version is 1 and its identifiers and amounts have their form.
use settle_flow.Common.Text.{text_eq, text, Text}
use settle_flow.Eventing.Inbox.{InboxEvent}
use settle_flow.Webhooks.Rows.{WebhookEvent}
use settle_flow.Common.{◌==◌, ◌&&◌, ℕ, true, some, none, false, Option, Bool}

pub data EventBody : Type 0 where
  payment_created : (payment_id currency : Text) (amount_minor : ℕ) → EventBody
  payment_captured :
      (payment_id currency : Text) (captured_amount_minor available_on : ℕ)
      (ledger_transaction_id : Text)
      → EventBody
  payment_refunded :
      (payment_id currency : Text) (amount_minor cumulative_refunded_amount_minor : ℕ)
      (ledger_transaction_id refund_id : Text)
      → EventBody
  settlement_finalized : (batch_id : Text) → EventBody
  reconciliation_completed : (import_id : Text) → EventBody

-- `ValidatedDomainEventMessage`
pub record DomainMessage : Type 0 where
  pub event_id : Text
  pub merchant_id : Text
  pub occurred_at : ℕ
  pub request_id : Text
  pub body : EventBody
  pub payload_bytes : Text
  pub payload_sha256 : Text

abbrev pub event_type_of : EventBody → Text
event_type_of (payment_created p c a) = text "payment.created.v1"
event_type_of (payment_captured p c a t l) = text "payment.captured.v1"
event_type_of (payment_refunded p c a k l r) = text "payment.refunded.v1"
event_type_of (settlement_finalized b) = text "settlement.finalized.v1"
event_type_of (reconciliation_completed i) = text "reconciliation.completed.v1"

abbrev pub aggregate_id_of : EventBody → Text
aggregate_id_of (payment_created p c a) = p
aggregate_id_of (payment_captured p c a t l) = p
aggregate_id_of (payment_refunded p c a k l r) = p
aggregate_id_of (settlement_finalized b) = b
aggregate_id_of (reconciliation_completed i) = i

-- What the inbox reads of the message.
abbrev pub inbox_event : DomainMessage → InboxEvent
inbox_event m = record {
  event_id = m.event_id;
  event_type = event_type_of m.body;
  request_id = m.request_id;
  payload_sha256 = m.payload_sha256;
  schema_version = 1;
}

abbrev is_text : Option Text → Text → Bool
is_text o t = elim o [ none ↦ false | some u ↦ text_eq u t ]

abbrev is_number : Option ℕ → ℕ → Bool
is_number o n = elim o [ none ↦ false | some k ↦ k == n ]

-- `eventMatches`: what all events have in common, and the fields of each kind of event
abbrev matches_body : WebhookEvent → EventBody → Bool
matches_body e (payment_created p c a) =
    is_text e.payment_id p
    && is_text e.currency c
    && is_number e.amount_minor a
    && is_text e.payment_status (text "CREATED")
matches_body e (payment_captured p c a t l) =
    is_text e.payment_id p
    && is_text e.currency c
    && is_number e.amount_minor a
    && is_number e.available_on t
    && is_text e.ledger_transaction_id l
matches_body e (payment_refunded p c a k l r) =
    is_text e.payment_id p
    && is_text e.currency c
    && is_number e.amount_minor a
    && is_number e.cumulative_refunded_amount_minor k
    && is_text e.refund_id r
    && is_text e.ledger_transaction_id l
matches_body e (settlement_finalized b) = true
matches_body e (reconciliation_completed i) = true

unfoldable pub event_matches : WebhookEvent → DomainMessage → Bool
event_matches e m =
    text_eq e.event_id m.event_id
    && text_eq e.event_type (event_type_of m.body)
    && e.schema_version == 1
    && text_eq e.merchant_id m.merchant_id
    && text_eq e.aggregate_id (aggregate_id_of m.body)
    && e.occurred_at == m.occurred_at
    && text_eq e.request_id m.request_id
    && text_eq e.payload_bytes m.payload_bytes
    && text_eq e.payload_sha256 m.payload_sha256
    && matches_body e m.body

-- `projectionInput`: the row without the fields of one kind of event, then each kind of event
abbrev common_row : DomainMessage → ℕ → Text → WebhookEvent
common_row m projected_at aggregate_type = record {
  event_id = m.event_id;
  event_type = event_type_of m.body;
  schema_version = 1;
  merchant_id = m.merchant_id;
  aggregate_type = aggregate_type;
  aggregate_id = aggregate_id_of m.body;
  payment_id = none;
  occurred_at = m.occurred_at;
  request_id = m.request_id;
  amount_minor = none;
  currency = none;
  payment_status = none;
  refund_id = none;
  ledger_transaction_id = none;
  available_on = none;
  cumulative_refunded_amount_minor = none;
  payload_bytes = m.payload_bytes;
  payload_sha256 = m.payload_sha256;
  projected_at = projected_at;
}

abbrev payment_row : DomainMessage → ℕ → Text → Text → ℕ → WebhookEvent
payment_row m projected_at payment_id currency amount_minor =
    record (common_row m projected_at (text "payment_intent")) {
      payment_id = some payment_id;
      currency = some currency;
      amount_minor = some amount_minor;
    }

abbrev pub projection_input : DomainMessage → ℕ → WebhookEvent
projection_input m projected_at = elim (m.body) [
  | payment_created p c a ↦ record (payment_row m projected_at p c a) {
    payment_status = some (text "CREATED");
  }
  | payment_captured p c a t l ↦ record (payment_row m projected_at p c a) {
    available_on = some t;
    ledger_transaction_id = some l;
  }
  | payment_refunded p c a k l r ↦ record (payment_row m projected_at p c a) {
    cumulative_refunded_amount_minor = some k;
    ledger_transaction_id = some l;
    refund_id = some r;
  }
  | settlement_finalized b ↦ common_row m projected_at (text "settlement_batch")
  | reconciliation_completed i ↦ common_row m projected_at (text "reconciliation_import")
]
