-- ===== src/Webhooks/Checks.antt =====
-- The constraints on deliveries and attempts of
-- prisma/migrations/20260802150000_signed_webhook_delivery_and_retries. A comparison with NULL
-- counts as false, which asks for more than the database does. The form of `locked_by` is checked
-- where it is written.
use settle_flow.Ledger.Balance.{signed}
use settle_flow.Common.{
  ◌==◌, leb, is_some, ltb, ◌||◌, ◌&&◌, ℕ, true, some, not, none, false, Option, Bool,
}
use settle_flow.Webhooks.Rows.{
  unknown, succeeded, retrying, retryable_failure, pending, non_retryable_failure,
  lease_expired_unknown, endpoint_inactive, delivered, dead_lettered, WebhookDeliveryAttempt,
  WebhookDelivery, Evidence, ErrorCode, DeliveryStatus, AttemptOutcome,
}

abbrev pub is_none {ℓ} : {A : Type ℓ} → Option A → Bool
is_none none = true
is_none (some _) = false

abbrev pub passes : Option ℕ → (ℕ → Bool) → Bool
passes none p = false
passes (some n) p = p n

abbrev pub absent_or : Option ℕ → (ℕ → Bool) → Bool
absent_or none p = true
absent_or (some n) p = p n

-- `webhook_deliveries_claim_fields_check`
abbrev pub claim_fields_check : WebhookDelivery → Bool
claim_fields_check d =
    (is_none d.locked_by
      && is_none d.claim_token
      && is_none d.locked_at
      && is_none d.lease_expires_at)
    || (is_some d.locked_by
        && is_some d.claim_token
        && passes d.locked_at (λ l. passes d.lease_expires_at (λ e. ltb l e)))

-- `webhook_deliveries_active_attempt_fields_check`
abbrev pub active_attempt_fields_check : WebhookDelivery → Bool
active_attempt_fields_check d =
    (is_none d.active_attempt_number
      && is_none d.active_attempt_started_at
      && is_none d.active_signature_timestamp
      && is_none d.active_current_secret_version
      && is_none d.active_previous_secret_version)
    || (is_some d.claim_token
        && passes d.active_attempt_number (λ n. n == d.attempt_count && leb 1 n && leb n 7)
        && is_some d.active_attempt_started_at
        && passes d.active_signature_timestamp (λ t. ltb 0 t)
        && passes d.active_current_secret_version
            (λ v. leb 1 v && absent_or d.active_previous_secret_version (λ p. leb 1 p && ltb p v)))

abbrev pub is_pending_shape : WebhookDelivery → Bool
is_pending_shape d =
    (is_none d.active_attempt_number && d.attempt_count == 0 && is_some d.next_attempt_at)
    || (passes d.active_attempt_number (λ n. n == 1)
        && d.attempt_count == 1
        && is_some d.next_attempt_at)

abbrev pub is_retrying_shape : WebhookDelivery → Bool
is_retrying_shape d =
    (is_none d.active_attempt_number
      && leb 1 d.attempt_count
      && leb d.attempt_count 6
      && is_some d.next_attempt_at)
    || (passes d.active_attempt_number (λ n. n == d.attempt_count)
        && leb 2 d.attempt_count
        && leb d.attempt_count 7
        && ((ltb d.attempt_count 7 && is_some d.next_attempt_at)
            || (d.attempt_count == 7 && is_none d.next_attempt_at)))

abbrev pub is_terminal_shape : WebhookDelivery → Bool
is_terminal_shape d =
    leb 1 d.attempt_count
    && leb d.attempt_count 7
    && is_none d.next_attempt_at
    && is_none d.claim_token
    && is_none d.active_attempt_number

abbrev pub state_fields_at : DeliveryStatus → WebhookDelivery → Bool
state_fields_at pending d =
    is_none d.delivered_at && is_none d.dead_lettered_at && is_pending_shape d
state_fields_at retrying d =
    is_none d.delivered_at && is_none d.dead_lettered_at && is_retrying_shape d
state_fields_at delivered d =
    is_some d.delivered_at && is_none d.dead_lettered_at && is_terminal_shape d
state_fields_at dead_lettered d =
    is_none d.delivered_at && is_some d.dead_lettered_at && is_terminal_shape d

-- `webhook_deliveries_state_fields_check`
abbrev pub state_fields_check : WebhookDelivery → Bool
state_fields_check d = state_fields_at d.status d

-- All the constraints on a row of `webhook_deliveries`; the count of attempts lies between 0 and 7
-- by the last one.
unfoldable pub delivery_checks : WebhookDelivery → Bool
delivery_checks d = claim_fields_check d && active_attempt_fields_check d && state_fields_check d

abbrev pub is_signed : WebhookDeliveryAttempt → Bool
is_signed a = is_some a.signature_timestamp

-- `webhook_delivery_attempts_response_evidence_check` and `…_http_status_check`
unfoldable pub response_evidence_check : Evidence → Bool
response_evidence_check e =
    (is_none e.http_status && is_none e.response_body_sha256 && not e.response_body_truncated)
    || (passes e.http_status (λ s. leb 100 s && leb s 599)
        && ((e.response_body_truncated && is_none e.response_body_sha256)
            || (not e.response_body_truncated && is_some e.response_body_sha256)))

abbrev is_lease_expiry : Option ErrorCode → Bool
is_lease_expiry (some lease_expired_unknown) = true
is_lease_expiry _ = false

abbrev is_inactivity : Option ErrorCode → Bool
is_inactivity (some endpoint_inactive) = true
is_inactivity _ = false

outcome_shape_at : AttemptOutcome → Bool → Evidence → Bool
outcome_shape_at succeeded signed e =
    passes e.http_status (λ s. leb 200 s && leb s 299) && is_none e.error_code && signed
outcome_shape_at retryable_failure signed e =
    is_some e.error_code
    && absent_or e.http_status (λ s. s == 408 || s == 429 || (leb 500 s && leb s 599))
    && signed
outcome_shape_at non_retryable_failure signed e =
    is_some e.error_code
    && absent_or e.http_status
        (λ s. (leb 300 s && leb s 407) || (leb 409 s && leb s 428) || (leb 430 s && leb s 499))
    && (signed || is_inactivity e.error_code)
outcome_shape_at unknown signed e = is_none e.http_status && is_lease_expiry e.error_code && signed

-- `webhook_delivery_attempts_outcome_shape_check`
unfoldable pub outcome_shape_check : Bool → Evidence → Bool
unfolding outcome_shape_at
outcome_shape_check signed e = outcome_shape_at e.outcome signed e

abbrev pub evidence_of : WebhookDeliveryAttempt → Evidence
evidence_of a = record {
  error_code = a.error_code;
  http_status = a.http_status;
  outcome = a.outcome;
  response_body_sha256 = a.response_body_sha256;
  response_body_truncated = a.response_body_truncated;
}

-- `webhook_delivery_attempts_signature_fields_check`
signature_fields_check : WebhookDeliveryAttempt → Bool
signature_fields_check a =
    (is_none a.signature_timestamp
      && is_none a.current_secret_version
      && is_none a.previous_secret_version)
    || (passes a.signature_timestamp (λ t. ltb 0 t)
        && passes a.current_secret_version
            (λ v. leb 1 v && absent_or a.previous_secret_version (λ p. leb 1 p && ltb p v)))

-- All the constraints on a row of `webhook_delivery_attempts`.
unfoldable pub attempt_checks : WebhookDeliveryAttempt → Bool
unfolding signature_fields_check response_evidence_check outcome_shape_check
attempt_checks a =
    leb 1 a.attempt_number
    && leb a.attempt_number 7
    && leb a.started_at a.completed_at
    && leb a.duration_ms 30_000
    && response_evidence_check (evidence_of a)
    && signature_fields_check a
    && outcome_shape_check (is_signed a) (evidence_of a)
