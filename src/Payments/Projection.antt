-- ===== src/Payments/Projection.antt =====
-- The status projection of the payment intents: the constraint of their table
-- (prisma/migrations/20260802210000_payment_capture_and_refunds/migration.sql). The model writes rows
-- without it.
pub mod Commands
use settle_flow.Common.Errors.{payment}
use settle_flow.Payments.Operations.{refund_error}
use settle_flow.Common.Action.{ok}
use settle_flow.Common.Text.{text_eq_refl, Text}
use settle_flow.Payments.Responses.{RefundCommand}
use settle_flow.Database.Payments.{
  status_eq, refunded, partially_refunded, created, captured, PaymentIntent,
}
use settle_flow.Payments.Repository.{
  update_where, update_one, set_refunded, set_captured, lock_by_public_id, find_by_public_id,
  can_refund, can_capture, LockedPaymentIntent,
}
use settle_flow.Database.{Database}
use settle_flow.Common.{
  only_pass, ◌≡◌, ◌==◌, ◌&&◌, ℕ, true, sym, subst, some, not, none, ltb, is_some, inr, inl, find?,
  false, arith, Bool-cases, Bool, All-map, All-image, All-both, All,
}

-- `"captured_at" IS NOT NULL AND "available_at" = "captured_at"`
unfoldable pub has_capture_time : PaymentIntent → Bool
has_capture_time p = elim p.captured_at [
  | none ↦ false
  | some t ↦ elim p.available_at [ none ↦ false | some s ↦ s == t ]
]

-- `payment_intents_status_projection_check`
unfoldable pub is_projected : PaymentIntent → Bool
unfolding has_capture_time
is_projected p = elim p.payment_status [
  | created ↦
      p.captured_amount_minor == 0
      && p.refunded_amount_minor == 0
      && not (is_some p.captured_at)
      && not (is_some p.available_at)
  | captured ↦
      p.captured_amount_minor == p.amount_minor
      && p.refunded_amount_minor == 0
      && has_capture_time p
  | partially_refunded ↦
      p.captured_amount_minor == p.amount_minor
      && ltb 0 p.refunded_amount_minor
      && ltb p.refunded_amount_minor p.captured_amount_minor
      && has_capture_time p
  | refunded ↦
      p.captured_amount_minor == p.amount_minor
      && p.refunded_amount_minor == p.captured_amount_minor
      && has_capture_time p
]

-- Every row meets the constraint.
abbrev pub IsProjected : Database → Type 0
IsProjected db = All (λ p. is_projected p ≡ true) db.payment_intents

-- An update of the locked row alone keeps what holds of the rows and of its new value.
pub update_one-All :
    (P : PaymentIntent → Type 0) (q passes : PaymentIntent → Bool)
    (change : PaymentIntent → PaymentIntent) (intent updated : PaymentIntent) (db db' : Database)
    → find? q db.payment_intents ≡ some intent
    → passes intent ≡ true
    → P (change intent)
    → update_one passes change intent db ≡ (ok updated, db')
    → All P db.payment_intents
    → All P db'.payment_intents
unfolding update_one
update_one-All P q passes change intent updated db db' found passed new ran all_rows =
    subst (All P) (ground arith) (
      All-image P (update_where passes change) db.payment_intents (
        All-map (λ x. (passes x ≡ true → x ≡ intent) × P x) _ db.payment_intents each
          (All-both (λ x. passes x ≡ true → x ≡ intent) P db.payment_intents
            (only_pass passes q db.payment_intents intent (ground arith) passed found) all_rows)))
  where
    each :
        (x : PaymentIntent)
        → (passes x ≡ true → x ≡ intent) × P x
        → P (update_where passes change x)
    each x (only, old) = elim (Bool-cases (passes x)) [
      | inl hit ↦ rw hit (subst (λ y. P (change y)) (sym (only hit)) new)
      | inr miss ↦ rw miss old
    ]

pub lock_find :
    (clock : ℕ) (merchant_id public_id : Text) (locked : LockedPaymentIntent) (db : Database)
    → lock_by_public_id clock merchant_id public_id db ≡ some locked
    → find_by_public_id merchant_id public_id db ≡ some locked.payment
unfolding lock_by_public_id
lock_find clock merchant_id public_id locked db h = ground arith

pub captured-is_projected :
    (p : PaymentIntent) (t : ℕ)
    → is_projected p ≡ true
    → status_eq p.payment_status created ≡ true
    → is_projected (set_captured p t p) ≡ true
unfolding is_projected
captured-is_projected p t h k = ground arith

pub can_capture_self :
    (p : PaymentIntent)
    → is_projected p ≡ true
    → status_eq p.payment_status created ≡ true
    → can_capture p p ≡ true
unfolding is_projected
can_capture_self p h k = ground (arith, text_eq_refl p.id, text_eq_refl p.merchant_id)

pub can_refund_self :
    (p : PaymentIntent) (c : RefundCommand) → refund_error (some p) c ≡ none → can_refund p p ≡ true
unfolding refund_error
can_refund_self p c k = ground (arith, text_eq_refl p.id, text_eq_refl p.merchant_id)

pub refunded-is_projected :
    (p : PaymentIntent) (c : RefundCommand) (t : ℕ)
    → is_projected p ≡ true
    → refund_error (some p) c ≡ none
    → ltb 0 c.amount_minor ≡ true
    → is_projected (set_refunded p c.amount_minor t p) ≡ true
unfolding is_projected refund_error
refunded-is_projected p c t h k positive = ground arith
