-- ===== src/Webhooks/Classification.antt =====
-- packages/modules/webhooks/src/webhook-delivery-retry.ts
use settle_flow.Eventing.Retry.{scaled, Sample}
use settle_flow.Webhooks.Rows.{
  transport, succeeded, retrying, retryable_failure, response, request_timeout,
  non_retryable_failure, network_error, http_unexpected_status, http_redirect, http_client_error,
  http_5xx, http_429, http_408, failure, dns_unavailable, delivered, dead_lettered,
  connection_reset, connection_refused, HttpResult, HttpFailureCode, Evidence, ErrorCode,
  DeliveryStatus,
}
use settle_flow.Common.{
  leb, if◌then◌else◌, ◌==◌, ◌||◌, ◌&&◌, ℕ, true, some, none, false, Option, Bool,
}

-- `RETRY_CEILINGS_MS`
retry_ceiling_ms : ℕ → Option ℕ
retry_ceiling_ms n =
    if n == 2
    then some 60_000
    else if n == 3
    then some 300_000
    else if n == 4
    then some 900_000
    else if n == 5
    then some 3_600_000
    else if n == 6
    then some 21_600_000
    else if n == 7
    then some 86_400_000
    else none

-- `calculateWebhookRetryDelayMs`
unfoldable pub calculate_webhook_retry_delay_ms : ℕ → Sample → Option ℕ
unfolding retry_ceiling_ms
calculate_webhook_retry_delay_ms next_attempt_number sample =
    elim (retry_ceiling_ms next_attempt_number) [
      | none ↦ none
      | some ceiling ↦ some (scaled sample ceiling)
    ]

-- `RETRYABLE_TRANSPORT_CODES`
abbrev pub is_retryable_code : HttpFailureCode → Bool
is_retryable_code connection_refused = true
is_retryable_code connection_reset = true
is_retryable_code dns_unavailable = true
is_retryable_code network_error = true
is_retryable_code request_timeout = true
is_retryable_code _ = false

abbrev pub terminal_or_retrying : ℕ → DeliveryStatus
terminal_or_retrying attempt_number = if leb 7 attempt_number then dead_lettered else retrying

-- `httpErrorCode`
unfoldable pub http_error_code : ℕ → ErrorCode
http_error_code status =
    if status == 408
    then http_408
    else if status == 429
    then http_429
    else if leb 500 status
    then http_5xx
    else if leb 300 status && leb status 399
    then http_redirect
    else if leb 400 status && leb status 499
    then http_client_error
    else http_unexpected_status

-- `ClassifiedWebhookResult`
pub record Classified : Type 0 where
  pub evidence : Evidence
  pub status : DeliveryStatus

abbrev pub is_retryable_status : ℕ → Bool
is_retryable_status status = status == 408 || status == 429 || leb 500 status

-- `classifyWebhookResult`
unfoldable pub classify_webhook_result : ℕ → HttpResult → Classified
unfolding http_error_code
classify_webhook_result attempt_number (failure code) =
    let retryable = is_retryable_code code in
    record {
      evidence = record {
        error_code = some (transport code);
        http_status = none;
        outcome = if retryable then retryable_failure else non_retryable_failure;
        response_body_sha256 = none;
        response_body_truncated = false;
      };
      status = if retryable then terminal_or_retrying attempt_number else dead_lettered;
    }
classify_webhook_result attempt_number (response status body_sha256 body_truncated) =
    if leb 200 status && leb status 299
    then record {
      evidence = record {
        error_code = none;
        http_status = some status;
        outcome = succeeded;
        response_body_sha256 = body_sha256;
        response_body_truncated = body_truncated;
      };
      status = delivered;
    }
    else record {
      evidence = record {
        error_code = some (http_error_code status);
        http_status = some status;
        outcome = if is_retryable_status status then retryable_failure else non_retryable_failure;
        response_body_sha256 = body_sha256;
        response_body_truncated = body_truncated;
      };
      status =
          if is_retryable_status status then terminal_or_retrying attempt_number else dead_lettered;
    }
