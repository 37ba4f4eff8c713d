-- ===== src/Database/Idempotency.antt =====
-- The rows of the idempotency keys (packages/modules/idempotency/src/idempotency.types.ts and
-- prisma-idempotency.repository.ts). Hashes are lists of bytes. The body of a stored response is
-- one of the objects that the payment commands store; its headers, of which they set none, are left
-- out.
use settle_flow.Common.{ℕ, List, Option}
use settle_flow.Common.Text.{Text}
use settle_flow.Database.Ledger.{Currency}
use settle_flow.Database.Payments.{PaymentStatus}

pub data Route : Type 0 where
  payment_intents_route capture_route refunds_route : Route
  reconciliation_imports_route settlement_runs_route : Route

pub record PaymentIntentRepresentation : Type 0 where
  pub amount_minor : ℕ
  pub captured_amount_minor : ℕ
  pub created_at : ℕ
  pub currency : Currency
  pub external_ref : Text
  pub id : Text
  pub payment_status : PaymentStatus
  pub refunded_amount_minor : ℕ
  pub updated_at : ℕ
  pub version : ℕ

pub record RefundRepresentation : Type 0 where
  pub amount_minor : ℕ
  pub created_at : ℕ
  pub cumulative_refunded_amount_minor : ℕ
  pub currency : Currency
  pub external_ref : Text
  pub id : Text
  pub ledger_transaction_id : Text
  pub payment_id : Text
  pub payment_status : PaymentStatus

-- `problem_body` holds the code, the request identifier and the status of a problem document; its
-- type is made of the code, its title and detail are fixed texts.
pub data Body : Type 0 where
  intent_body : PaymentIntentRepresentation → Body
  captured_body : PaymentIntentRepresentation → Text → Body
  refund_body : RefundRepresentation → Body
  problem_body : Text → Text → ℕ → Body

pub data ContentType : Type 0 where
  application_json application_problem_json : ContentType

pub record StoredHttpResponse : Type 0 where
  pub body : Body
  pub content_type : ContentType
  pub result_reference : Option Text
  pub status : ℕ

pub data KeyState : Type 0 where
  completed in_progress : KeyState

pub record IdempotencyKey : Type 0 where
  pub id : Text
  pub merchant_id : Text
  pub normalized_route : Route
  pub key_hash : List ℕ
  pub request_hash : List ℕ
  pub state : KeyState
  pub owner_token : Option Text
  pub lease_expires_at : Option ℕ
  pub response : Option StoredHttpResponse
  pub response_expires_at : Option ℕ
  pub updated_at : ℕ

pub record IdempotencyOwnership : Type 0 where
  pub owner_token : Text
  pub record_id : Text

pub data AcquireResult : Type 0 where
  acquired : IdempotencyOwnership → AcquireResult
  replay : StoredHttpResponse → AcquireResult
