-- ===== src/Eventing/Outbox.antt =====
-- Writing an event to the outbox: packages/modules/eventing/src/eventing.service.ts and
-- prisma-outbox.repository.ts, for the events of the payments.
use settle_flow.Common.Action.{ok, err}
use settle_flow.Common.Errors.{eventing, event_identifier_collision, database}
use settle_flow.Common.{◌∷◌, ◌++◌, ℕ, none, if◌then◌else◌, any, []}
use settle_flow.Common.Text.{text_eq, text, Text}
use settle_flow.Database.Eventing.{Payload, OutboxEvent}
use settle_flow.Database.{Call}

-- The UUID of the row and the ULID of the event, and the time of the row.
pub record GeneratedEvent : Type 0 where
  pub uuid : Text
  pub ulid : Text
  pub available_at : ℕ

-- `PaymentDomainEvent`
pub record PaymentEvent : Type 0 where
  pub event_id : Text
  pub merchant_id : Text
  pub payment_id : Text
  pub occurred_at : ℕ
  pub request_id : Text
  pub payload : Payload

-- `createPaymentCreatedEvent`, `createPaymentCapturedEvent` and `createPaymentRefundedEvent` differ
-- in the payload.
unfoldable pub create_payment_event :
    GeneratedEvent → Text → Text → Text → Payload → ℕ → PaymentEvent
create_payment_event g merchant_id payment_id request_id payload occurred_at = record {
  event_id = text "evt_" ++ g.ulid;
  merchant_id = merchant_id;
  payment_id = payment_id;
  occurred_at = occurred_at;
  request_id = request_id;
  payload = payload;
}

abbrev pub outbox_row : GeneratedEvent → PaymentEvent → OutboxEvent
outbox_row g event = record {
  id = g.uuid;
  event_id = event.event_id;
  merchant_id = event.merchant_id;
  aggregate_id = event.payment_id;
  occurred_at = event.occurred_at;
  request_id = event.request_id;
  payload = event.payload;
  attempt_count = 0;
  available_at = g.available_at;
  locked_by = none;
  lease_expires_at = none;
  published_at = none;
}

-- `insertDomainEvent`
unfoldable pub insert_domain_event : GeneratedEvent → PaymentEvent → Call (Unit {0})
insert_domain_event g event db =
    if any (λ e. text_eq e.id g.uuid) db.outbox_events
    then (err database, db)
    else if any (λ e. text_eq e.event_id event.event_id) db.outbox_events
    then (err (eventing event_identifier_collision), db)
    else (ok tt, record db { outbox_events = db.outbox_events ++ (outbox_row g event ∷ []) })
