-- ===== src/Tests/Webhooks.antt =====
-- The delivery of one event to one endpoint.
use settle_flow.Webhooks.Signature.{
  build_webhook_request_headers, is_signing_secret, is_base64url, is_bad_signing_input,
}
use settle_flow.Tests.Inbox.{message}
use settle_flow.Webhooks.Messages.{projection_input}
use settle_flow.Tests.Data.{ulid}
use settle_flow.Common.Text.{text_eq, text}
use settle_flow.Webhooks.Starting.{start_attempt}
use settle_flow.Eventing.Retry.{scaled}
use settle_flow.Webhooks.Runs.{run_deliveries-WellKept}
use settle_flow.Common.Patterns.{
  replicate, match_classes, is_public_id, is_digit, is_crockford, is_alphanumeric, is_request_id,
}
use settle_flow.Webhooks.Finishing.{recover_expired, finalize_attempt, final_status}
use settle_flow.Webhooks.Checks.{delivery_checks}
use settle_flow.Common.Errors.{transient_database, database}
use settle_flow.Webhooks.Evidence.{classify-final_status}
use settle_flow.Webhooks.Classification.{classify_webhook_result, calculate_webhook_retry_delay_ms}
use settle_flow.Webhooks.Bookkeeping.{WellKept, SecretsInOrder}
use settle_flow.Webhooks.Service.{
  run_deliveries, resolved, process_claim, Surroundings, ServiceState, RunResult,
}
use settle_flow.Common.Action.{err, Result}
use settle_flow.Webhooks.Histories.{
  recover_request, history-WellKept, history, claim_request, Request,
}
use settle_flow.Common.{
  ◌==◌, if◌then◌else◌, ◌≡◌, ◌∷◌, ◌+◌, ◌++◌, ℕ, true, sort_by, some, refl, none, map, false, arith,
  [], List,
}
use settle_flow.Webhooks.Rows.{
  response, WebhookTables, WebhookSecret, WebhookDelivery, Lifecycle, DeliveryStatus,
}
use settle_flow.Webhooks.Repository.{with_transaction, claim_due, Conditions}

abbrev delivery : WebhookDelivery
delivery = record {
  id = text "d";
  public_id = text "whd_" ++ ulid;
  merchant_id = text "m";
  endpoint_id = text "e";
  event_id = text "evt_" ++ ulid;
  status = DeliveryStatus.pending;
  attempt_count = 0;
  next_attempt_at = some 5_000;
  locked_by = none;
  claim_token = none;
  locked_at = none;
  lease_expires_at = none;
  active_attempt_number = none;
  active_attempt_started_at = none;
  active_signature_timestamp = none;
  active_current_secret_version = none;
  active_previous_secret_version = none;
  delivered_at = none;
  dead_lettered_at = none;
}

abbrev secret : WebhookSecret
secret = record {
  endpoint_id = text "e";
  algorithm = text "aes-256-gcm";
  sealed = text "whsec_" ++ replicate 43 b'a';
  lifecycle = Lifecycle.current;
  overlap_expires_at = none;
  secret_version = 1;
}

abbrev tables : WebhookTables
tables = record {
  deliveries = delivery ∷ [];
  attempts = [];
  endpoints =
      record {
        id = text "e";
        merchant_id = text "m";
        is_active = true;
        normalized_url = text "https://m.example/";
        subscriptions = text "payment.created.v1" ∷ [];
      }
      ∷ [];
  secrets = secret ∷ [];
  events = projection_input message 1_000 ∷ [];
}

in_order : SecretsInOrder tables.secrets
in_order = record {
  current_pos = λ endpoint_id v h. ground arith;
  previous_before = λ endpoint_id v now p h k. ground arith;
}

kept : WellKept tables
unfolding delivery_checks
kept = record {
  distinct = (refl, tt);
  checked = (refl, tt);
  counted = (refl, tt);
  ordered = in_order;
}

abbrev conditions_at : ℕ → Conditions
conditions_at now = record {
  connected = true;
  fault = λ n. if n == 1 then some transient_database else none;
  moment = λ n. record {
    now = now + n;
    later = now + n + 1;
    held = λ _. false;
    token = λ id. text "token " ++ id;
    attempt_id = λ id. text "attempt " ++ id;
  };
}

abbrev surroundings : ℕ → Surroundings
surroundings status = record {
  decrypt = λ _ x. some x.sealed;
  resolve = λ _. resolved (text "203.0.113.7");
  sign = λ secret bytes. secret;
  post = λ _ _ _. some (response status (some (text "digest")) false);
  draw = λ _. record { numerator = 1; denominator = 2 };
  connected = true;
  releasing = λ _. conditions_at 6_000;
  starting = λ _. conditions_at 7_000;
  finalizing = λ _. conditions_at 8_000;
}

abbrev serving : ServiceState
serving = record { dependency_ready = true; stopping = false }

abbrev run_with : ℕ → Result RunResult × WebhookTables
run_with status =
    run_deliveries (surroundings status) serving (conditions_at 5_500) (conditions_at 6_000)
      (text "worker") 2 tables

run_deliveries-WellKept_example : WellKept (run_with 200).1
run_deliveries-WellKept_example =
    run_deliveries-WellKept (surroundings 200) serving (conditions_at 5_500) (conditions_at 6_000)
      (text "worker") 2 tables (λ claim n. omega arith) kept

-- An answer of 200 delivers the event, one of 503 has it tried again, and one of 999 cannot be put on
-- record.
statuses_of : WebhookTables → List DeliveryStatus
statuses_of s = map (λ (d : WebhookDelivery). d.status) s.deliveries

delivers : statuses_of (run_with 200).1 ≡ DeliveryStatus.delivered ∷ []
unfolding statuses_of run_deliveries recover_expired claim_due with_transaction process_claim
    start_attempt finalize_attempt sort_by text_eq is_request_id classify_webhook_result
    final_status calculate_webhook_retry_delay_ms scaled build_webhook_request_headers
    is_bad_signing_input is_signing_secret match_classes replicate is_base64url is_alphanumeric
    is_digit is_public_id is_crockford
delivers = refl

retries : statuses_of (run_with 503).1 ≡ DeliveryStatus.retrying ∷ []
unfolding statuses_of run_deliveries recover_expired claim_due with_transaction process_claim
    start_attempt finalize_attempt sort_by text_eq is_request_id classify_webhook_result
    final_status calculate_webhook_retry_delay_ms scaled build_webhook_request_headers
    is_bad_signing_input is_signing_secret match_classes replicate is_base64url is_alphanumeric
    is_digit is_public_id is_crockford
retries = refl

unrecorded : (run_with 999).0 ≡ err database
unfolding run_deliveries recover_expired claim_due with_transaction process_claim start_attempt
    finalize_attempt sort_by text_eq is_request_id classify_webhook_result final_status
    calculate_webhook_retry_delay_ms scaled build_webhook_request_headers is_bad_signing_input
    is_signing_secret match_classes replicate is_base64url is_alphanumeric is_digit is_public_id
    is_crockford
unrecorded = refl

abbrev requests : List (Conditions × Request)
requests =
    (conditions_at 6_000, claim_request (text "worker") 2)
    ∷ (conditions_at 9_000, recover_request 2)
    ∷ (conditions_at 90_000, recover_request 2)
    ∷ []

history-WellKept_example : WellKept (history requests tables)
history-WellKept_example =
    history-WellKept requests tables (λ n. omega arith, (λ n. omega arith, (λ n. omega arith, tt)))
      kept

classify-final_status_example :
    final_status (classify_webhook_result 7 (response 503 none true)).evidence.outcome 7
    ≡ (classify_webhook_result 7 (response 503 none true)).status
classify-final_status_example = classify-final_status 7 (response 503 none true)
