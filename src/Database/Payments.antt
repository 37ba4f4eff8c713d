-- ===== src/Database/Payments.antt =====
-- The rows of the payments (packages/modules/payments/src/payments.types.ts). The only capture
-- method is `manual`.
use settle_flow.Common.{ℕ, Bool, true, false, Option}
use settle_flow.Common.Text.{Text}
use settle_flow.Database.Ledger.{Currency}

pub data PaymentStatus : Type 0 where
  captured created partially_refunded refunded : PaymentStatus

abbrev pub status_eq : PaymentStatus → PaymentStatus → Bool
status_eq captured captured = true
status_eq created created = true
status_eq partially_refunded partially_refunded = true
status_eq refunded refunded = true
status_eq _ _ = false

pub record PaymentIntent : Type 0 where
  pub amount_minor : ℕ
  pub available_at : Option ℕ
  pub captured_amount_minor : ℕ
  pub captured_at : Option ℕ
  pub created_at : ℕ
  pub currency : Currency
  pub external_ref : Text
  pub id : Text
  pub merchant_id : Text
  pub payment_status : PaymentStatus
  pub public_id : Text
  pub refunded_amount_minor : ℕ
  pub updated_at : ℕ
  pub version : ℕ

pub record Refund : Type 0 where
  pub amount_minor : ℕ
  pub created_at : ℕ
  pub currency : Currency
  pub external_ref : Text
  pub id : Text
  pub merchant_id : Text
  pub payment_intent_id : Text
  pub public_id : Text
