-- ===== src/Webhooks/Evidence.antt =====
-- What is made of the answer of an endpoint: webhook-delivery-retry.ts against finalizeAttempt of
-- prisma-webhook-delivery.repository.ts and the constraints on attempts.
use settle_flow.Webhooks.Checks.{response_evidence_check, outcome_shape_check}
use settle_flow.Webhooks.Finishing.{final_status}
use settle_flow.Webhooks.Classification.{classify_webhook_result}
use settle_flow.Common.Text.{Text}
use settle_flow.Webhooks.Rows.{
  tls_verification_failed, response, request_timeout, network_error, failure, dns_unresolvable,
  dns_unavailable, destination_prohibited, connection_reset, connection_refused, HttpResult,
  Evidence,
}
use settle_flow.Common.{is_some, ◌≡◌, ◌&&◌, ℕ, true, refl, not, arith, Option, Bool}

-- The status that the classification announces is the one that the repository computes anew from the
-- evidence and stores.
pub classify-final_status :
    (attempt_number : ℕ) (result : HttpResult)
    → final_status (classify_webhook_result attempt_number result).evidence.outcome attempt_number
      ≡ (classify_webhook_result attempt_number result).status
unfolding final_status classify_webhook_result
classify-final_status attempt_number (failure connection_refused) = ground arith
classify-final_status attempt_number (failure connection_reset) = ground arith
classify-final_status attempt_number (failure destination_prohibited) = refl
classify-final_status attempt_number (failure dns_unavailable) = ground arith
classify-final_status attempt_number (failure dns_unresolvable) = refl
classify-final_status attempt_number (failure network_error) = ground arith
classify-final_status attempt_number (failure request_timeout) = ground arith
classify-final_status attempt_number (failure tls_verification_failed) = refl
classify-final_status attempt_number (response status digest truncated) = ground arith

-- The evidence as the table of attempts accepts it for a signed attempt.
abbrev pub is_accepted : Evidence → Bool
is_accepted e = response_evidence_check e && outcome_shape_check true e

-- A body is hashed exactly when it was read to its end.
abbrev pub HasDigest : Bool → Option Text → Type 0
HasDigest truncated digest = is_some digest ≡ not truncated
