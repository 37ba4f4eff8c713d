-- ===== src/Webhooks/Service.antt =====
-- packages/modules/webhooks/src/webhook-delivery.service.ts. The cipher, HMAC, the resolution of the
-- endpoint's URL and the HTTP client are parameters; the signals, which report what a run does, are
-- left out.
use settle_flow.Webhooks.Loading.{load_context, lift}
use settle_flow.Webhooks.Signature.{build_webhook_request_headers, WebhookHeaders, SigningInput}
use settle_flow.Webhooks.Starting.{start_attempt}
use settle_flow.Webhooks.Finishing.{same_option, recover_expired, finalize_attempt}
use settle_flow.Webhooks.Classification.{classify_webhook_result, calculate_webhook_retry_delay_ms}
use settle_flow.Common.Text.{Text}
use settle_flow.Eventing.Retry.{Sample}
use settle_flow.Common.Action.{pure, ◌>>◌, ◌>>=◌, on_some, ok, err}
use settle_flow.Webhooks.Repository.{release_unstarted, claim_due, Conditions}
use settle_flow.Webhooks.Rows.{
  started, network_error, inactive, failure, dns_unresolvable, dns_unavailable,
  destination_prohibited, WebhookSecret, WebhookCall, StartedAttempt, StartResult, RecoveryResult,
  HttpResult, DeliveryStatus, DeliveryContext, ClaimedDelivery,
}
use settle_flow.Common.{
  is_some, ltb, ◌==◌, or_else, if◌then◌else◌, ◌∷◌, ◌||◌, ◌+◌, ◌&&◌, ℕ, true, some, not, none,
  length, false, count_if, [], Option, List, Bool,
}

-- `WebhookSigningSecret`
pub record SigningSecret : Type 0 where
  pub plaintext : Text
  pub secret_version : ℕ

-- How `resolveForDelivery` ends: with an address, with one of three errors, or with another.
pub data Resolution : Type 0 where
  resolved : Text → Resolution
  resolution_unavailable unresolvable prohibited resolution_failed : Resolution

-- The secrets that sign a delivery, and when.
pub record Signing : Type 0 where
  pub current : SigningSecret
  pub previous : Option SigningSecret
  pub timestamp : ℕ

-- What the service is given: the cipher, which may throw, HMAC with its encoding, the policy on URLs,
-- and the HTTP client, which may throw too; and for each claim the circumstances of its calls and what
-- `random` returns.
pub record Surroundings : Type 0 where
  pub decrypt : DeliveryContext → WebhookSecret → Option Text
  pub resolve : Text → Resolution
  pub sign : Text → Text → Text
  pub post : DeliveryContext → Text → WebhookHeaders → Option HttpResult
  pub draw : ClaimedDelivery → Sample
  pub connected : Bool
  pub releasing : ClaimedDelivery → Conditions
  pub starting : ClaimedDelivery → Conditions
  pub finalizing : ClaimedDelivery → Conditions

-- `ClaimResult`
pub data ClaimResult : Type 0 where
  was_dead_lettered was_delivered dependency_unavailable lost_ownership will_retry : ClaimResult

-- `deliver`
unfoldable pub deliver : Surroundings → DeliveryContext → WebhookHeaders → HttpResult
deliver w context headers = elim (w.resolve context.normalized_url) [
  | resolved destination ↦ or_else (w.post context destination headers) (failure network_error)
  | resolution_unavailable ↦ failure dns_unavailable
  | unresolvable ↦ failure dns_unresolvable
  | prohibited ↦ failure destination_prohibited
  | resolution_failed ↦ failure network_error
]

-- The two secrets, if the endpoint is active; `none` where one cannot be decrypted.
abbrev pub decrypt_one : Surroundings → DeliveryContext → WebhookSecret → Option SigningSecret
decrypt_one w context x = elim (w.decrypt context x) [
  | none ↦ none
  | some plaintext ↦ some (record { plaintext = plaintext; secret_version = x.secret_version })
]

abbrev pub decrypt_previous :
    Surroundings → DeliveryContext → Option WebhookSecret → Option (Option SigningSecret)
decrypt_previous w context none = some none
decrypt_previous w context (some x) = elim (decrypt_one w context x) [
  | none ↦ none
  | some y ↦ some (some y)
]

unfoldable pub decrypt_secrets :
    Surroundings → DeliveryContext → Option (Option SigningSecret × Option SigningSecret)
decrypt_secrets w context =
    if not context.endpoint_is_active
    then some (none, none)
    else elim (decrypt_one w context context.current_secret) [
      | none ↦ none
      | some current_secret ↦ elim (decrypt_previous w context context.previous_secret) [
        | none ↦ none
        | some previous_secret ↦ some (some current_secret, previous_secret)
      ]
    ]

abbrev pub version_of : Option SigningSecret → Option ℕ
version_of none = none
version_of (some x) = some x.secret_version

abbrev pub result_of : DeliveryStatus → ClaimResult
result_of DeliveryStatus.delivered = was_delivered
result_of DeliveryStatus.retrying = will_retry
result_of _ = was_dead_lettered

-- What the headers are built from.
abbrev pub signing_input : DeliveryContext → Signing → SigningInput
signing_input context signing = record {
  body = context.body;
  current = signing.current.plaintext;
  delivery_id = context.claim.public_id;
  event_id = context.claim.event_id;
  event_type = context.event_type;
  previous = elim (signing.previous) [ none ↦ none | some p ↦ some p.plaintext ];
  timestamp = signing.timestamp;
}

-- The request, and what is recorded of its answer
unfoldable pub send_headers :
    Surroundings → DeliveryContext → StartedAttempt → WebhookHeaders → WebhookCall ClaimResult
unfolding deliver
send_headers w context attempt headers = do
  let classified = classify_webhook_result attempt.attempt_number (deliver w context headers)
  final ← finalize_attempt (w.finalizing context.claim) context.claim attempt classified.evidence
  pure (if final.updated then result_of final.status else lost_ownership)

unfoldable pub send_attempt :
    Surroundings → DeliveryContext → StartedAttempt → Signing → WebhookCall ClaimResult
unfolding send_headers build_webhook_request_headers
send_attempt w context attempt signing =
    lift (build_webhook_request_headers w.sign (signing_input context signing))
    >>= send_headers w context attempt

-- What follows the start of an attempt.
unfoldable pub continue_started :
    Surroundings
    → DeliveryContext
    → Option SigningSecret
    → Option SigningSecret
    → StartResult
    → WebhookCall ClaimResult
unfolding send_attempt
continue_started w context current_secret previous_secret StartResult.ownership_lost =
    pure lost_ownership
continue_started w context current_secret previous_secret (inactive _) = pure was_dead_lettered
continue_started w context none previous_secret (started attempt) = pure dependency_unavailable
continue_started w context (some current_secret) previous_secret (started attempt) =
    let selected =
      if same_option (version_of previous_secret) attempt.previous_secret_version
      then previous_secret
      else none in
    if not (current_secret.secret_version == attempt.current_secret_version)
      || (is_some attempt.previous_secret_version && not (is_some selected))
    then pure dependency_unavailable
    else send_attempt w context attempt (record {
      current = current_secret;
      previous = selected;
      timestamp = attempt.signature_timestamp;
    })

abbrev pub start_decrypted :
    Surroundings
    → DeliveryContext
    → Option SigningSecret × Option SigningSecret
    → WebhookCall ClaimResult
start_decrypted w context (current_secret, previous_secret) =
    start_attempt (w.starting context.claim) context
      (calculate_webhook_retry_delay_ms (context.claim.attempt_count + 2) (w.draw context.claim))
    >>= continue_started w context current_secret previous_secret

-- What follows the loading of the context.
unfoldable pub process_loaded :
    Surroundings → ClaimedDelivery → Option DeliveryContext → WebhookCall ClaimResult
unfolding decrypt_secrets continue_started
process_loaded w claim none = pure lost_ownership
process_loaded w claim (some context) =
    on_some (decrypt_secrets w context)
      (release_unstarted (w.releasing claim) claim >> pure dependency_unavailable)
      (start_decrypted w context)

-- `processClaim`
unfoldable pub process_claim : Surroundings → ClaimedDelivery → WebhookCall ClaimResult
unfolding process_loaded load_context
process_claim w claim = load_context w.connected claim >>= process_loaded w claim

-- The claims of a batch, which run side by side, one after another: an error of one does not keep
-- the others from going on, and is thrown at the end.
unfoldable pub process_claims : Surroundings → List ClaimedDelivery → WebhookCall (List ClaimResult)
unfolding process_claim
process_claims w [] s = (ok [], s)
process_claims w (claim ∷ claims) s =
    let (r, s') = process_claim w claim s in
    let (rs, s'') = process_claims w claims s' in
    (elim r [ err e ↦ err e | ok x ↦ elim rs [ err e ↦ err e | ok xs ↦ ok (x ∷ xs) ] ], s'')

-- `WebhookDeliveryRunResult`
pub record RunResult : Type 0 where
  pub claimed : ℕ
  pub dead_lettered : ℕ
  pub delivered : ℕ
  pub dispatcher_ready : Bool
  pub ownership_lost : ℕ
  pub recovered_unknown : ℕ
  pub retrying : ℕ

abbrev pub result_eq : ClaimResult → ClaimResult → Bool
result_eq was_dead_lettered was_dead_lettered = true
result_eq was_delivered was_delivered = true
result_eq dependency_unavailable dependency_unavailable = true
result_eq lost_ownership lost_ownership = true
result_eq will_retry will_retry = true
result_eq _ _ = false

abbrev pub count_results : ClaimResult → List ClaimResult → ℕ
count_results x = count_if (result_eq x)

-- The fields of the service: whether its dependencies are there, and whether it is stopping.
pub record ServiceState : Type 0 where
  pub dependency_ready : Bool
  pub stopping : Bool

abbrev pub is_ready : ServiceState → Bool
is_ready v = not v.stopping && v.dependency_ready

abbrev pub empty_run : ServiceState → RunResult
empty_run v = record {
  claimed = 0;
  dead_lettered = 0;
  delivered = 0;
  dispatcher_ready = is_ready v;
  ownership_lost = 0;
  recovered_unknown = 0;
  retrying = 0;
}

abbrev pub run_result :
    ServiceState → RecoveryResult → List ClaimedDelivery → List ClaimResult → RunResult
run_result v recovery claims results =
    let unavailable = ltb 0 (count_results dependency_unavailable results) in
    record {
      claimed = length claims;
      dead_lettered = recovery.dead_lettered + count_results was_dead_lettered results;
      delivered = count_results was_delivered results;
      dispatcher_ready = not unavailable && is_ready v;
      ownership_lost = count_results lost_ownership results;
      recovered_unknown = recovery.recovered_unknown;
      retrying = count_results will_retry results;
    }

unfoldable pub run_claims :
    Surroundings → ServiceState → RecoveryResult → List ClaimedDelivery → WebhookCall RunResult
unfolding process_claims
run_claims w v recovery [] = pure (record (empty_run v) {
  dead_lettered = recovery.dead_lettered;
  recovered_unknown = recovery.recovered_unknown;
})
run_claims w v recovery (claim ∷ claims) = process_claims w (claim ∷ claims) >>= λ results.
    pure (run_result v recovery (claim ∷ claims) results)

-- `runOnce`, given the circumstances of its recovery and of its claim. The service is ready
-- afterwards if the result says so.
unfoldable pub run_deliveries :
    Surroundings → ServiceState → Conditions → Conditions → Text → ℕ → WebhookCall RunResult
unfolding run_claims
run_deliveries w v recovering claiming worker_id batch_size =
    if v.stopping
    then pure (empty_run v)
    else recover_expired recovering batch_size >>= λ recovery.
        claim_due claiming worker_id batch_size >>= run_claims w v recovery
