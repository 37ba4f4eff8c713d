-- ===== src/Payments/Repository.antt =====
-- packages/modules/payments/src/prisma-payment-intent.repository.ts, with the unique indexes of its
-- tables. Amounts are kept in the range of safe integers by the checks of the tables, so that
-- reading a row converts nothing.
use settle_flow.Common.Action.{ok, err}
use settle_flow.Common.Errors.{
  payment, refund_identifier_collision, refund_external_reference_conflict, projection_invariant,
  payment_identifier_collision, external_reference_conflict, database,
}
use settle_flow.Common.Text.{text_eq, Text}
use settle_flow.Database.Payments.{
  status_eq, refunded, partially_refunded, created, captured, Refund, PaymentStatus, PaymentIntent,
}
use settle_flow.Database.Ledger.{Currency}
use settle_flow.Database.{Database, Call}
use settle_flow.Common.{
  ◌∷◌, ◌==◌, ◌+◌, ◌++◌, ◌&&◌, ℕ, some, none, max, map, if◌then◌else◌, find?, count_if, any, [],
  Option, Bool,
}

pub record CreatePaymentIntent : Type 0 where
  pub amount_minor : ℕ
  pub currency : Currency
  pub external_ref : Text
  pub merchant_id : Text
  pub public_id : Text

pub record CreateRefund : Type 0 where
  pub amount_minor : ℕ
  pub created_at : ℕ
  pub currency : Currency
  pub external_ref : Text
  pub id : Text
  pub merchant_id : Text
  pub payment_intent_id : Text
  pub public_id : Text

-- A new row with the defaults of the table: its UUID and the time are the database's.
abbrev pub new_payment_intent : Text → ℕ → CreatePaymentIntent → PaymentIntent
new_payment_intent uuid now input = record {
  amount_minor = input.amount_minor;
  available_at = none;
  captured_amount_minor = 0;
  captured_at = none;
  created_at = now;
  currency = input.currency;
  external_ref = input.external_ref;
  id = uuid;
  merchant_id = input.merchant_id;
  payment_status = created;
  public_id = input.public_id;
  refunded_amount_minor = 0;
  updated_at = now;
  version = 0;
}

unfoldable pub create : Text → ℕ → CreatePaymentIntent → Call PaymentIntent
create uuid now input db =
    if any (λ p. text_eq p.id uuid) db.payment_intents
    then (err database, db)
    else if any (λ p. text_eq p.public_id input.public_id) db.payment_intents
    then (err (payment payment_identifier_collision), db)
    else if any
        (λ p. text_eq p.merchant_id input.merchant_id && text_eq p.external_ref input.external_ref)
        db.payment_intents
    then (err (payment external_reference_conflict), db)
    else (
      ok (new_payment_intent uuid now input),
      record db {
        payment_intents = db.payment_intents ++ (new_payment_intent uuid now input ∷ []);
      },
    )

unfoldable pub find_by_public_id : Text → Text → Database → Option PaymentIntent
find_by_public_id merchant_id public_id db =
    find? (λ p. text_eq p.merchant_id merchant_id && text_eq p.public_id public_id)
      db.payment_intents

pub record LockedPaymentIntent : Type 0 where
  pub payment : PaymentIntent
  pub transaction_time : ℕ

-- The time is `GREATEST(clock_timestamp(), "updated_at")`.
unfoldable pub lock_by_public_id : ℕ → Text → Text → Database → Option LockedPaymentIntent
unfolding find_by_public_id
lock_by_public_id clock merchant_id public_id db =
    elim (find_by_public_id merchant_id public_id db) [
      | none ↦ none
      | some p ↦ some (record { payment = p; transaction_time = max clock p.updated_at })
    ]

abbrev pub is_row : PaymentIntent → PaymentIntent → Bool
is_row intent p = text_eq p.id intent.id && text_eq p.merchant_id intent.merchant_id

-- `updateMany`
abbrev pub update_where :
    (PaymentIntent → Bool) → (PaymentIntent → PaymentIntent) → PaymentIntent → PaymentIntent
update_where passes change p = if passes p then change p else p

-- `updateMany` with its count held to one, and `findLockedRecord`.
unfoldable pub update_one :
    (PaymentIntent → Bool) → (PaymentIntent → PaymentIntent) → PaymentIntent → Call PaymentIntent
update_one passes change intent db =
    if count_if passes db.payment_intents == 1
    then elim (find? (is_row intent) (map (update_where passes change) db.payment_intents)) [
      | none ↦ (err (payment projection_invariant), db)
      | some p ↦ (
        ok p,
        record db { payment_intents = map (update_where passes change) db.payment_intents },
      )
    ]
    else (err (payment projection_invariant), db)

abbrev pub can_capture : PaymentIntent → PaymentIntent → Bool
can_capture intent p =
    is_row intent p
    && p.captured_amount_minor == 0
    && status_eq p.payment_status created
    && p.refunded_amount_minor == 0
    && p.version == intent.version

abbrev pub set_captured : PaymentIntent → ℕ → PaymentIntent → PaymentIntent
set_captured intent occurred_at p = record p {
  available_at = some occurred_at;
  captured_amount_minor = intent.amount_minor;
  captured_at = some occurred_at;
  payment_status = captured;
  updated_at = occurred_at;
  version = p.version + 1;
}

unfoldable pub capture : PaymentIntent → ℕ → Call PaymentIntent
capture intent occurred_at =
    update_one (can_capture intent) (set_captured intent occurred_at) intent

abbrev pub refund_row : CreateRefund → Refund
refund_row input = record {
  amount_minor = input.amount_minor;
  created_at = input.created_at;
  currency = input.currency;
  external_ref = input.external_ref;
  id = input.id;
  merchant_id = input.merchant_id;
  payment_intent_id = input.payment_intent_id;
  public_id = input.public_id;
}

unfoldable pub create_refund : CreateRefund → Call Refund
create_refund input db =
    if any (λ r. text_eq r.id input.id) db.refunds
    then (err database, db)
    else if any (λ r. text_eq r.public_id input.public_id) db.refunds
    then (err (payment refund_identifier_collision), db)
    else if any
        (λ r. text_eq r.merchant_id input.merchant_id && text_eq r.external_ref input.external_ref)
        db.refunds
    then (err (payment refund_external_reference_conflict), db)
    else (ok (refund_row input), record db { refunds = db.refunds ++ (refund_row input ∷ []) })

abbrev pub refunded_status : PaymentIntent → ℕ → PaymentStatus
refunded_status intent amount_minor =
    if intent.refunded_amount_minor + amount_minor == intent.captured_amount_minor
    then refunded
    else partially_refunded

abbrev pub expected_status : PaymentIntent → PaymentStatus
expected_status intent =
    if status_eq intent.payment_status captured then captured else partially_refunded

abbrev pub can_refund : PaymentIntent → PaymentIntent → Bool
can_refund intent p =
    is_row intent p
    && p.captured_amount_minor == intent.captured_amount_minor
    && status_eq p.payment_status (expected_status intent)
    && p.refunded_amount_minor == intent.refunded_amount_minor
    && p.version == intent.version

abbrev pub set_refunded : PaymentIntent → ℕ → ℕ → PaymentIntent → PaymentIntent
set_refunded intent amount_minor occurred_at p = record p {
  payment_status = refunded_status intent amount_minor;
  refunded_amount_minor = p.refunded_amount_minor + amount_minor;
  updated_at = occurred_at;
  version = p.version + 1;
}

unfoldable pub apply_refund : PaymentIntent → ℕ → ℕ → Call PaymentIntent
apply_refund intent amount_minor occurred_at =
    update_one (can_refund intent) (set_refunded intent amount_minor occurred_at) intent
