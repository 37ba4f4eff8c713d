-- ===== src/Webhooks/Rows.antt =====
-- The tables of webhook delivery (prisma/schema.prisma, prisma/migrations) and the types of
-- packages/modules/webhooks/src/webhook-delivery.types.ts.
use settle_flow.Common.{ℕ, Bool, List, Option}
use settle_flow.Common.Text.{Text}
use settle_flow.Common.Action.{Action}

-- `WebhookDeliveryStatus`
pub data DeliveryStatus : Type 0 where
  pending retrying delivered dead_lettered : DeliveryStatus

-- `WebhookHttpFailureCode`
pub data HttpFailureCode : Type 0 where
  connection_refused connection_reset destination_prohibited dns_unavailable : HttpFailureCode
  dns_unresolvable network_error request_timeout tls_verification_failed : HttpFailureCode

-- The error codes of an attempt: of the transport, of the status, and the two of the repository.
pub data ErrorCode : Type 0 where
  transport : HttpFailureCode → ErrorCode
  http_408 http_429 http_5xx http_redirect http_client_error http_unexpected_status : ErrorCode
  endpoint_inactive lease_expired_unknown : ErrorCode

-- `WebhookDeliveryAttemptOutcome`
pub data AttemptOutcome : Type 0 where
  succeeded retryable_failure non_retryable_failure unknown : AttemptOutcome

-- `WebhookHttpResult`
pub data HttpResult : Type 0 where
  failure : HttpFailureCode → HttpResult
  response : ℕ → Option Text → Bool → HttpResult

-- `WebhookDeliveryAttemptEvidence`
pub record Evidence : Type 0 where
  pub error_code : Option ErrorCode
  pub http_status : Option ℕ
  pub outcome : AttemptOutcome
  pub response_body_sha256 : Option Text
  pub response_body_truncated : Bool

-- A row of `webhook_deliveries`
pub record WebhookDelivery : Type 0 where
  pub id : Text
  pub public_id : Text
  pub merchant_id : Text
  pub endpoint_id : Text
  pub event_id : Text
  pub status : DeliveryStatus
  pub attempt_count : ℕ
  pub next_attempt_at : Option ℕ
  pub locked_by : Option Text
  pub claim_token : Option Text
  pub locked_at : Option ℕ
  pub lease_expires_at : Option ℕ
  pub active_attempt_number : Option ℕ
  pub active_attempt_started_at : Option ℕ
  pub active_signature_timestamp : Option ℕ
  pub active_current_secret_version : Option ℕ
  pub active_previous_secret_version : Option ℕ
  pub delivered_at : Option ℕ
  pub dead_lettered_at : Option ℕ

-- A row of `webhook_delivery_attempts`
pub record WebhookDeliveryAttempt : Type 0 where
  pub id : Text
  pub delivery_id : Text
  pub attempt_number : ℕ
  pub started_at : ℕ
  pub completed_at : ℕ
  pub duration_ms : ℕ
  pub http_status : Option ℕ
  pub error_code : Option ErrorCode
  pub outcome : AttemptOutcome
  pub response_body_sha256 : Option Text
  pub response_body_truncated : Bool
  pub signature_timestamp : Option ℕ
  pub current_secret_version : Option ℕ
  pub previous_secret_version : Option ℕ

-- A row of `webhook_endpoints`, with its rows of `webhook_endpoint_subscriptions`
pub record WebhookEndpoint : Type 0 where
  pub id : Text
  pub merchant_id : Text
  pub is_active : Bool
  pub normalized_url : Text
  pub subscriptions : List Text

-- `lifecycle`
pub data Lifecycle : Type 0 where
  current previous retired : Lifecycle

-- A row of `webhook_endpoint_secrets`; `sealed` stands for the columns of the ciphertext.
pub record WebhookSecret : Type 0 where
  pub endpoint_id : Text
  pub algorithm : Text
  pub sealed : Text
  pub lifecycle : Lifecycle
  pub overlap_expires_at : Option ℕ
  pub secret_version : ℕ

-- A row of `webhook_event_projections`
pub record WebhookEvent : Type 0 where
  pub event_id : Text
  pub event_type : Text
  pub schema_version : ℕ
  pub merchant_id : Text
  pub aggregate_type : Text
  pub aggregate_id : Text
  pub payment_id : Option Text
  pub occurred_at : ℕ
  pub request_id : Text
  pub amount_minor : Option ℕ
  pub currency : Option Text
  pub payment_status : Option Text
  pub refund_id : Option Text
  pub ledger_transaction_id : Option Text
  pub available_on : Option ℕ
  pub cumulative_refunded_amount_minor : Option ℕ
  pub payload_bytes : Text
  pub payload_sha256 : Text
  pub projected_at : ℕ

pub record WebhookTables : Type 0 where
  pub deliveries : List WebhookDelivery
  pub attempts : List WebhookDeliveryAttempt
  pub endpoints : List WebhookEndpoint
  pub secrets : List WebhookSecret
  pub events : List WebhookEvent

-- A call on these tables.
abbrev pub WebhookCall : Type 0 → Type 0
WebhookCall = Action WebhookTables

-- `ClaimedWebhookDelivery`
pub record ClaimedDelivery : Type 0 where
  pub attempt_count : ℕ
  pub claim_token : Text
  pub delivery_id : Text
  pub endpoint_id : Text
  pub event_id : Text
  pub merchant_id : Text
  pub public_id : Text

-- `WebhookDeliveryContext`
pub record DeliveryContext : Type 0 where
  pub body : Text
  pub claim : ClaimedDelivery
  pub current_secret : WebhookSecret
  pub endpoint_is_active : Bool
  pub event_type : Text
  pub normalized_url : Text
  pub previous_secret : Option WebhookSecret

-- `StartedWebhookDeliveryAttempt`
pub record StartedAttempt : Type 0 where
  pub attempt_number : ℕ
  pub current_secret_version : ℕ
  pub next_attempt_at : Option ℕ
  pub previous_secret_version : Option ℕ
  pub signature_timestamp : ℕ
  pub started_at : ℕ

-- `StartWebhookDeliveryAttemptResult`
pub data StartResult : Type 0 where
  inactive : ℕ → StartResult
  ownership_lost : StartResult
  started : StartedAttempt → StartResult

-- `WebhookDeliveryFinalizationResult`
pub record FinalizationResult : Type 0 where
  pub status : DeliveryStatus
  pub updated : Bool

-- `WebhookDeliveryRecoveryResult`
pub record RecoveryResult : Type 0 where
  pub cleared_unstarted : ℕ
  pub dead_lettered : ℕ
  pub recovered_unknown : ℕ
