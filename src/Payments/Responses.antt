-- ===== src/Payments/Responses.antt =====
-- The commands of packages/modules/payments/src/payments.types.ts and what payment-intent.service.ts
-- answers: representations, problem documents and stored responses. A Body is typed, so that only
-- the tests of `isPaymentIntentRepresentation` and its like that can fail on one are written out;
-- times are milliseconds and not their ISO strings.
use settle_flow.Common.Text.{text_eq, text, Text}
use settle_flow.Common.Action.{ok, err, Result}
use settle_flow.Database.Payments.{status_eq, refunded, partially_refunded, captured, PaymentIntent}
use settle_flow.Common.{◌||◌, ◌==◌, ◌&&◌, ℕ, some, none, leb, if◌then◌else◌, Option}
use settle_flow.Common.Errors.{
  unclassified, refund_external_reference_conflict, refund_amount_exceeds_available,
  provider_declined, payment, intent_not_refundable, intent_not_found, intent_not_capturable,
  external_reference_conflict, capture_amount_mismatch, PaymentError, Error,
}
use settle_flow.Database.Ledger.{Currency}
use settle_flow.Database.Idempotency.{
  refund_body, problem_body, intent_body, captured_body, application_problem_json,
  StoredHttpResponse, RefundRepresentation, PaymentIntentRepresentation, Body,
}

pub record CreateCommand : Type 0 where
  pub amount_minor : ℕ
  pub currency : Currency
  pub external_ref : Text
  pub idempotency_key : Text
  pub merchant_id : Text
  pub request_id : Text

pub record CaptureCommand : Type 0 where
  pub amount_minor : ℕ
  pub currency : Currency
  pub idempotency_key : Text
  pub merchant_id : Text
  pub payment_id : Text
  pub request_id : Text

pub record RefundCommand : Type 0 where
  pub amount_minor : ℕ
  pub currency : Currency
  pub external_ref : Text
  pub idempotency_key : Text
  pub merchant_id : Text
  pub payment_id : Text
  pub request_id : Text

-- `canonicalCreateCommand`, `canonicalCaptureCommand` and `canonicalRefundCommand`: the fields that
-- the JSON text holds.
pub data CanonicalRequest : Type 0 where
  create_request : Text → ℕ → Currency → CanonicalRequest
  capture_request : Text → ℕ → Currency → CanonicalRequest
  refund_request : Text → Text → ℕ → Currency → CanonicalRequest

unfoldable pub to_representation : PaymentIntent → PaymentIntentRepresentation
to_representation row = record {
  amount_minor = row.amount_minor;
  captured_amount_minor = row.captured_amount_minor;
  created_at = row.created_at;
  currency = row.currency;
  external_ref = row.external_ref;
  id = row.public_id;
  payment_status = row.payment_status;
  refunded_amount_minor = row.refunded_amount_minor;
  updated_at = row.updated_at;
  version = row.version;
}

abbrev pub max_safe_integer : ℕ
max_safe_integer = 9007199254740991

-- `isPaymentIntentRepresentation`, with the representation it finds.
unfoldable pub intent_of : Body → Option PaymentIntentRepresentation
intent_of (intent_body r) = if leb r.amount_minor max_safe_integer then some r else none
intent_of (captured_body r ltx_id) = if leb r.amount_minor max_safe_integer then some r else none
intent_of _ = none

-- `isCapturedRepresentation`
unfoldable pub captured_of : Body → Option (PaymentIntentRepresentation × Text)
captured_of (captured_body r ltx_id) =
    if leb r.amount_minor max_safe_integer && status_eq r.payment_status captured
    then some (r, ltx_id)
    else none
captured_of _ = none

-- `isRefundRepresentation`
unfoldable pub refund_of : Body → Option RefundRepresentation
refund_of (refund_body r) =
    if leb r.amount_minor max_safe_integer
      && (status_eq r.payment_status partially_refunded || status_eq r.payment_status refunded)
    then some r
    else none
refund_of _ = none

abbrev pub problem : Text → ℕ → Text → StoredHttpResponse
problem request_id status code = record {
  body = problem_body code request_id status;
  content_type = application_problem_json;
  result_reference = none;
  status = status;
}

-- `commandProblem`
unfoldable pub command_problem : Error → Text → Result StoredHttpResponse
command_problem (payment external_reference_conflict) request_id =
    ok (problem request_id 409 (text "external_reference_conflict"))
command_problem (payment intent_not_found) request_id =
    ok (problem request_id 404 (text "payment_intent_not_found"))
command_problem (payment PaymentError.currency_mismatch) request_id =
    ok (problem request_id 422 (text "currency_mismatch"))
command_problem (payment capture_amount_mismatch) request_id =
    ok (problem request_id 409 (text "capture_amount_mismatch"))
command_problem (payment intent_not_capturable) request_id =
    ok (problem request_id 409 (text "payment_intent_not_capturable"))
command_problem (payment intent_not_refundable) request_id =
    ok (problem request_id 409 (text "payment_intent_not_refundable"))
command_problem (payment refund_amount_exceeds_available) request_id =
    ok (problem request_id 409 (text "refund_amount_exceeds_available"))
command_problem (payment refund_external_reference_conflict) request_id =
    ok (problem request_id 409 (text "refund_external_reference_conflict"))
command_problem (payment provider_declined) request_id =
    ok (problem request_id 422 (text "payment_provider_declined"))
command_problem e request_id = err e

-- The table of `replayError`
unfoldable pub error_of_code : Text → Error
error_of_code code =
    if text_eq code (text "capture_amount_mismatch")
    then payment capture_amount_mismatch
    else if text_eq code (text "currency_mismatch")
    then payment PaymentError.currency_mismatch
    else if text_eq code (text "payment_intent_not_capturable")
    then payment intent_not_capturable
    else if text_eq code (text "payment_intent_not_found")
    then payment intent_not_found
    else if text_eq code (text "payment_intent_not_refundable")
    then payment intent_not_refundable
    else if text_eq code (text "payment_provider_declined")
    then payment provider_declined
    else if text_eq code (text "refund_amount_exceeds_available")
    then payment refund_amount_exceeds_available
    else if text_eq code (text "refund_external_reference_conflict")
    then payment refund_external_reference_conflict
    else unclassified

-- `replayError`
unfoldable pub replay_error : StoredHttpResponse → Error
replay_error stored = elim stored.body [
  | problem_body code request_id status ↦ error_of_code code
  | intent_body r ↦ unclassified
  | captured_body r ltx_id ↦ unclassified
  | refund_body r ↦ unclassified
]

-- What `create` answers on a replay.
unfoldable pub replay_create : StoredHttpResponse → Result PaymentIntentRepresentation
replay_create stored =
    if stored.status == 409
    then err (payment external_reference_conflict)
    else if stored.status == 201
    then elim (intent_of stored.body) [ none ↦ err unclassified | some r ↦ ok r ]
    else err unclassified

-- What `capture` answers on a replay.
unfoldable pub replay_capture : StoredHttpResponse → Result (PaymentIntentRepresentation × Text)
replay_capture stored =
    if stored.status == 200
    then elim (captured_of stored.body) [ none ↦ err (replay_error stored) | some r ↦ ok r ]
    else err (replay_error stored)

-- What `refund` answers on a replay.
unfoldable pub replay_refund : StoredHttpResponse → Result RefundRepresentation
replay_refund stored =
    if stored.status == 201
    then elim (refund_of stored.body) [ none ↦ err (replay_error stored) | some r ↦ ok r ]
    else err (replay_error stored)
