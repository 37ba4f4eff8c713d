-- ===== src/Payments/Operations.antt =====
-- The operations that packages/modules/payments/src/payment-intent.service.ts runs within a
-- transaction, with the checks on the locked row.
use settle_flow.Common.Action.{pure, ◌>>◌, ◌>>=◌}
use settle_flow.Common.Int.{pos}
use settle_flow.Database.Eventing.{payment_refunded, payment_created, payment_captured}
use settle_flow.Database.Ledger.{currency_eq}
use settle_flow.Common.Text.{Text}
use settle_flow.Database.Payments.{
  status_eq, refunded, partially_refunded, created, captured, Refund, PaymentIntent,
}
use settle_flow.Common.{◌==◌, ◌+◌, ◌&&◌, ℕ, some, not, none, ltb, if◌then◌else◌, Option}
use settle_flow.Eventing.Outbox.{insert_domain_event, create_payment_event, GeneratedEvent}
use settle_flow.Ledger.Service.{
  post_refund, post_capture, from_result, LedgerMoneyPostingCommand, Generated,
}
use settle_flow.Common.Errors.{
  refund_amount_exceeds_available, payment, intent_not_refundable, intent_not_found,
  intent_not_capturable, capture_amount_mismatch, PaymentError, Error,
}
use settle_flow.Payments.Repository.{
  lock_by_public_id, create_refund, apply_refund, LockedPaymentIntent, CreateRefund,
}
use settle_flow.Payments.Responses.{
  to_representation, command_problem, RefundCommand, CreateCommand, CaptureCommand,
}
use settle_flow.Database.{Call}
use settle_flow.Database.Idempotency.{
  refund_body, intent_body, captured_body, application_json, StoredHttpResponse,
  RefundRepresentation, PaymentIntentRepresentation, Body,
}

-- `captureError`
unfoldable pub capture_error : Option PaymentIntent → CaptureCommand → Option Error
capture_error none c = some (payment intent_not_found)
capture_error (some row) c =
    if not (currency_eq row.currency c.currency)
    then some (payment PaymentError.currency_mismatch)
    else if not (status_eq row.payment_status created)
    then some (payment intent_not_capturable)
    else if not (row.amount_minor == c.amount_minor)
    then some (payment capture_amount_mismatch)
    else none

-- `refundError`: the difference is one of integers, and is compared as a sum.
unfoldable pub refund_error : Option PaymentIntent → RefundCommand → Option Error
refund_error none c = some (payment intent_not_found)
refund_error (some row) c =
    if not (currency_eq row.currency c.currency)
    then some (payment PaymentError.currency_mismatch)
    else if not (status_eq row.payment_status captured)
        && not (status_eq row.payment_status partially_refunded)
    then some (payment intent_not_refundable)
    else if ltb row.captured_amount_minor (c.amount_minor + row.refunded_amount_minor)
    then some (payment refund_amount_exceeds_available)
    else none

pub data CommandResult (T : Type 0) : Type 0 where
  command_error : Error → CommandResult T
  command_ok : T → CommandResult T

-- `errorResult`
unfoldable pub error_result :
    {T : Type 0} → Error → Text → Call (StoredHttpResponse × CommandResult T)
error_result e request_id = do
  stored ← from_result (command_problem e request_id)
  pure (stored, command_error e)

-- What the database and the generators give within one transaction.
pub record Draws : Type 0 where
  pub clock : ℕ
  pub uuid : Text
  pub posting : Generated
  pub event : GeneratedEvent

abbrev pub json : ℕ → Body → Text → StoredHttpResponse
json status body reference = record {
  body = body;
  content_type = application_json;
  result_reference = some reference;
  status = status;
}

-- The transaction of `create`, its public identifier and its event drawn before it.
unfoldable pub create_operation :
    CreateCommand
    → Text
    → ℕ
    → Text
    → Draws
    → Call (StoredHttpResponse × PaymentIntentRepresentation)
create_operation c payment_id occurred_at event_ulid draws = do
  row ← settle_flow.Payments.Repository.create draws.uuid draws.clock (record {
    amount_minor = c.amount_minor;
    currency = c.currency;
    external_ref = c.external_ref;
    merchant_id = c.merchant_id;
    public_id = payment_id;
  })
  insert_domain_event draws.event (
      create_payment_event (record draws.event { ulid = event_ulid }) c.merchant_id payment_id
        c.request_id (payment_created c.amount_minor c.currency) occurred_at)
  pure (json 201 (intent_body (to_representation row)) row.public_id, to_representation row)

abbrev pub Captured : Type 0
Captured = PaymentIntentRepresentation × Text

abbrev pub capture_posting : CaptureCommand → PaymentIntent → ℕ → LedgerMoneyPostingCommand
capture_posting c row occurred_at = record {
  amount_minor = pos c.amount_minor;
  business_reference = row.public_id;
  currency = row.currency;
  merchant_id = c.merchant_id;
  occurred_at = some occurred_at;
  request_id = c.request_id;
}

-- The transaction of `capture`, once the locked row has passed the checks.
unfoldable pub capture_locked :
    CaptureCommand
    → Draws
    → LockedPaymentIntent
    → Call (StoredHttpResponse × CommandResult Captured)
capture_locked c draws locked = do
  posted ← post_capture draws.posting (capture_posting c locked.payment locked.transaction_time)
  updated ← settle_flow.Payments.Repository.capture locked.payment locked.transaction_time
  insert_domain_event draws.event (
      create_payment_event draws.event c.merchant_id updated.public_id c.request_id
        (payment_captured updated.captured_amount_minor updated.currency locked.transaction_time
          posted.public_id)
        locked.transaction_time)
  let response = record (to_representation updated) { payment_status = captured }
  pure (
    json 200 (captured_body response posted.public_id) updated.public_id,
    command_ok (response, posted.public_id),
  )

unfoldable pub capture_operation :
    CaptureCommand → Draws → Call (StoredHttpResponse × CommandResult Captured)
capture_operation c draws db = elim (lock_by_public_id draws.clock c.merchant_id c.payment_id db) [
  | none ↦ error_result (payment intent_not_found) c.request_id db
  | some locked ↦ elim (capture_error (some locked.payment) c) [
    | some e ↦ error_result e c.request_id db
    | none ↦ capture_locked c draws locked db
  ]
]

abbrev pub refund_posting : RefundCommand → Text → PaymentIntent → ℕ → LedgerMoneyPostingCommand
refund_posting c refund_id row occurred_at = record {
  amount_minor = pos c.amount_minor;
  business_reference = refund_id;
  currency = row.currency;
  merchant_id = c.merchant_id;
  occurred_at = some occurred_at;
  request_id = c.request_id;
}

abbrev pub refund_input : RefundCommand → Text → Text → PaymentIntent → ℕ → CreateRefund
refund_input c refund_id uuid row occurred_at = record {
  amount_minor = c.amount_minor;
  created_at = occurred_at;
  currency = row.currency;
  external_ref = c.external_ref;
  id = uuid;
  merchant_id = c.merchant_id;
  payment_intent_id = row.id;
  public_id = refund_id;
}

abbrev pub refund_response : Refund → PaymentIntent → Text → RefundRepresentation
refund_response row updated ltx_id = record {
  amount_minor = row.amount_minor;
  created_at = row.created_at;
  cumulative_refunded_amount_minor = updated.refunded_amount_minor;
  currency = row.currency;
  external_ref = row.external_ref;
  id = row.public_id;
  ledger_transaction_id = ltx_id;
  payment_id = updated.public_id;
  payment_status =
      if status_eq updated.payment_status refunded then refunded else partially_refunded;
}

-- The transaction of `refund`, once the locked row has passed the checks.
unfoldable pub refund_locked :
    RefundCommand
    → Text
    → Draws
    → LockedPaymentIntent
    → Call (StoredHttpResponse × CommandResult RefundRepresentation)
refund_locked c refund_id draws locked = do
  row ← create_refund (refund_input c refund_id draws.uuid locked.payment locked.transaction_time)
  posted ←
      post_refund draws.posting
        (refund_posting c row.public_id locked.payment locked.transaction_time)
  updated ← apply_refund locked.payment c.amount_minor locked.transaction_time
  insert_domain_event draws.event (
      create_payment_event draws.event c.merchant_id updated.public_id c.request_id
        (payment_refunded row.public_id c.amount_minor updated.currency
          updated.refunded_amount_minor posted.public_id)
        locked.transaction_time)
  pure (
    json 201 (refund_body (refund_response row updated posted.public_id)) row.public_id,
    command_ok (refund_response row updated posted.public_id),
  )

unfoldable pub refund_operation :
    RefundCommand → Text → Draws → Call (StoredHttpResponse × CommandResult RefundRepresentation)
refund_operation c refund_id draws db =
    elim (lock_by_public_id draws.clock c.merchant_id c.payment_id db) [
      | none ↦ error_result (payment intent_not_found) c.request_id db
      | some locked ↦ elim (refund_error (some locked.payment) c) [
        | some e ↦ error_result e c.request_id db
        | none ↦ refund_locked c refund_id draws locked db
      ]
    ]
