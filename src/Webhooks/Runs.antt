-- ===== src/Webhooks/Runs.antt =====
-- A run of the delivery service keeps the books (webhook-delivery.service.ts).
use settle_flow.Webhooks.Loading.{mapped_error, load_context, lift, find_context, context_of}
use settle_flow.Webhooks.Service.{
  version_of, start_decrypted, signing_input, send_headers, send_attempt, run_result,
  run_deliveries, run_claims, result_of, process_loaded, process_claims, process_claim,
  lost_ownership, empty_run, dependency_unavailable, deliver, decrypt_secrets, continue_started,
  Surroundings, SigningSecret, Signing, ServiceState,
}
use settle_flow.Webhooks.Signature.{build_webhook_request_headers, WebhookHeaders}
use settle_flow.Webhooks.Classification.{classify_webhook_result, calculate_webhook_retry_delay_ms}
use settle_flow.Webhooks.Starting.{start_attempt}
use settle_flow.Common.Text.{Text, text_eq}
use settle_flow.Webhooks.Repository.{release_unstarted, claim_due, Conditions, with_id, has_token}
use settle_flow.Webhooks.Finishing.{recover_expired, same_option, finalize_attempt}
use settle_flow.Webhooks.Bookkeeping.{WellKept}
use settle_flow.Common.{
  true, false, ◌+◌, ◌∷◌, ℕ, [], List, if◌then◌else◌, is_some, ◌==◌, Bool-cases, Option-cases, ◌||◌,
  ◌&&◌, sym, subst, some, not, none, inr, inl, find?, Option, Bool, ◌≡◌, arith,
}
use settle_flow.Common.Action.{◌>>=◌, bind-kept, pure}
use settle_flow.Webhooks.Histories.{
  start_attempt-WellKept, release_unstarted-WellKept, recover_expired-WellKept,
  finalize_attempt-WellKept, claim_due-WellKept, ClockRuns,
}
use settle_flow.Webhooks.Rows.{
  Evidence, RecoveryResult, started, inactive, WebhookCall, StartedAttempt, StartResult,
  DeliveryContext, WebhookTables, WebhookEvent, WebhookEndpoint, ClaimedDelivery,
}

-- The clocks of the transactions that start an attempt have passed the first second of their epoch.
abbrev pub ClocksRun : Surroundings → Type 0
ClocksRun w = (claim : ClaimedDelivery) → ClockRuns (w.starting claim)

context_of_reads :
    (claim : ClaimedDelivery) (endpoint : WebhookEndpoint) (event : WebhookEvent)
    (s : WebhookTables)
    → (context_of claim endpoint event s).1 ≡ s
unfolding context_of
context_of_reads claim endpoint event s = ground arith

mapped_error_reads :
    {A : Type 0} (connected : Bool) (op : WebhookCall A) (s : WebhookTables)
    → (op s).1 ≡ s
    → (mapped_error connected op s).1 ≡ s
mapped_error_reads connected op s h = ground arith

find_context_reads : (claim : ClaimedDelivery) (s : WebhookTables) → (find_context claim s).1 ≡ s
unfolding find_context
find_context_reads claim s =
    elim (Option-cases
      (find? (λ d. with_id claim.delivery_id d && has_token claim.claim_token d) s.deliveries)) [
        | inl gone ↦ rw gone
        | inr (d, found) ↦
            rw found (elim (Option-cases (find? (λ e. text_eq e.id d.endpoint_id) s.endpoints)) [
              | inl none' ↦ rw none'
              | inr (endpoint, there) ↦
                  rw there
                    (elim (Option-cases (find? (λ e. text_eq e.event_id d.event_id) s.events)) [
                      | inl none' ↦ rw none'
                      | inr (event, known) ↦ rw known (context_of_reads claim endpoint event s)
                    ])
            ])
      ]

-- Loading the context of a claim changes nothing.
load_context_reads :
    (connected : Bool) (claim : ClaimedDelivery) (s : WebhookTables)
    → (load_context connected claim s).1 ≡ s
unfolding load_context
load_context_reads connected claim s =
    mapped_error_reads connected (find_context claim) s (find_context_reads claim s)

-- A call that keeps the books.
abbrev KeepsTables : {A : Type 0} → WebhookCall A → Type 0
KeepsTables op = (s : WebhookTables) → WellKept s → WellKept (op s).1

send_headers-KeepsTables :
    (w : Surroundings) (context : DeliveryContext) (attempt : StartedAttempt)
    (headers : WebhookHeaders)
    → KeepsTables (send_headers w context attempt headers)
unfolding send_headers
send_headers-KeepsTables w context attempt headers s h =
    let evidence : Evidence =
      (classify_webhook_result attempt.attempt_number (deliver w context headers)).evidence in
    bind-kept WellKept
      (finalize_attempt (w.finalizing context.claim) context.claim attempt evidence)
      (λ final. pure (if final.updated then result_of final.status else lost_ownership)) s
      (finalize_attempt-WellKept (w.finalizing context.claim) s h context.claim attempt evidence)
      (λ a t k. k)

send_attempt-KeepsTables :
    (w : Surroundings) (context : DeliveryContext) (attempt : StartedAttempt) (signing : Signing)
    → ClocksRun w
    → KeepsTables (send_attempt w context attempt signing)
unfolding send_attempt
send_attempt-KeepsTables w context attempt signing clocks s h =
    bind-kept WellKept (lift (build_webhook_request_headers w.sign (signing_input context signing)))
      (send_headers w context attempt) s h
      (λ headers t k. send_headers-KeepsTables w context attempt headers t k)

continue_started-KeepsTables :
    (w : Surroundings) (context : DeliveryContext) (x y : Option SigningSecret) (r : StartResult)
    → ClocksRun w
    → KeepsTables (continue_started w context x y r)
unfolding continue_started
continue_started-KeepsTables w context x y StartResult.ownership_lost clocks s h = h
continue_started-KeepsTables w context x y (inactive n) clocks s h = h
continue_started-KeepsTables w context none y (started attempt) clocks s h = h
continue_started-KeepsTables w context (some x) y (started attempt) clocks s h =
    elim (Bool-cases (
      not (x.secret_version == attempt.current_secret_version)
      || (is_some attempt.previous_secret_version
          && not (
              is_some (
                if same_option (version_of y) attempt.previous_secret_version
                then y
                else none))))) [
                  | inl other ↦ rw other h
                  | inr same ↦ rw same (
                      send_attempt-KeepsTables w context attempt
                        (record {
                          current = x;
                          previous =
                              if same_option (version_of y) attempt.previous_secret_version
                              then y
                              else none;
                          timestamp = attempt.signature_timestamp;
                        })
                        clocks s h)
                ]

start_decrypted-KeepsTables :
    (w : Surroundings) (context : DeliveryContext)
    (secrets : Option SigningSecret × Option SigningSecret)
    → ClocksRun w
    → KeepsTables (start_decrypted w context secrets)
start_decrypted-KeepsTables w context (x, y) clocks s h =
    let delay : Option ℕ =
      calculate_webhook_retry_delay_ms (context.claim.attempt_count + 2) (w.draw context.claim) in
    bind-kept WellKept (start_attempt (w.starting context.claim) context delay)
      (continue_started w context x y) s
      (start_attempt-WellKept (w.starting context.claim) s h context delay (clocks context.claim))
      (λ r t. continue_started-KeepsTables w context x y r clocks t)

process_loaded-KeepsTables :
    (w : Surroundings) (claim : ClaimedDelivery) (loaded : Option DeliveryContext)
    → ClocksRun w
    → KeepsTables (process_loaded w claim loaded)
unfolding process_loaded
process_loaded-KeepsTables w claim none clocks s h = h
process_loaded-KeepsTables w claim (some context) clocks s h =
    elim (Option-cases (decrypt_secrets w context)) [
      | inr (secrets, open') ↦ rw open' (start_decrypted-KeepsTables w context secrets clocks s h)
      | inl shut ↦ rw shut (
          bind-kept WellKept (release_unstarted (w.releasing claim) claim)
            (λ _. pure dependency_unavailable) s
            (release_unstarted-WellKept (w.releasing claim) s h claim) (λ a t k. k))
    ]

process_claim-KeepsTables :
    (w : Surroundings) (claim : ClaimedDelivery) → ClocksRun w → KeepsTables (process_claim w claim)
unfolding process_claim
process_claim-KeepsTables w claim clocks s h =
    bind-kept WellKept (load_context w.connected claim) (process_loaded w claim) s
      (subst WellKept (sym (load_context_reads w.connected claim s)) h)
      (λ loaded t. process_loaded-KeepsTables w claim loaded clocks t)

process_claims-KeepsTables :
    (w : Surroundings) (claims : List ClaimedDelivery)
    → ClocksRun w
    → KeepsTables (process_claims w claims)
unfolding process_claims
process_claims-KeepsTables w [] clocks s h = h
process_claims-KeepsTables w (claim ∷ claims) clocks s h =
    process_claims-KeepsTables w claims clocks (process_claim w claim s).1
      (process_claim-KeepsTables w claim clocks s h)

run_claims-KeepsTables :
    (w : Surroundings) (v : ServiceState) (recovery : RecoveryResult)
    (claims : List ClaimedDelivery)
    → ClocksRun w
    → KeepsTables (run_claims w v recovery claims)
unfolding run_claims
run_claims-KeepsTables w v recovery [] clocks s h = h
run_claims-KeepsTables w v recovery (claim ∷ claims) clocks s h =
    bind-kept WellKept (process_claims w (claim ∷ claims))
      (λ results. pure (run_result v recovery (claim ∷ claims) results)) s
      (process_claims-KeepsTables w (claim ∷ claims) clocks s h) (λ a t k. k)

if-kept :
    {A : Type 0} (b : Bool) (m k : WebhookCall A) (s : WebhookTables)
    → WellKept (m s).1
    → WellKept (k s).1
    → WellKept ((if b then m else k) s).1
if-kept true m k s x y = x
if-kept false m k s x y = y

-- A run of the delivery service keeps the constraints on every delivery and the count of its
-- attempts, whatever the endpoints, the cipher, the clocks and the database answer, and also where
-- the run throws.
pub run_deliveries-WellKept :
    (w : Surroundings) (v : ServiceState) (recovering claiming : Conditions) (worker_id : Text)
    (batch_size : ℕ) (s : WebhookTables)
    → ClocksRun w
    → WellKept s
    → WellKept (run_deliveries w v recovering claiming worker_id batch_size s).1
unfolding run_deliveries
run_deliveries-WellKept w v recovering claiming worker_id batch_size s clocks h =
    if-kept v.stopping (pure (empty_run v)) _ s h (
      bind-kept WellKept (recover_expired recovering batch_size)
        (λ recovery. claim_due claiming worker_id batch_size >>= run_claims w v recovery) s
        (recover_expired-WellKept recovering s h batch_size)
        λ recovery t k.
          bind-kept WellKept (claim_due claiming worker_id batch_size) (run_claims w v recovery) t
            (claim_due-WellKept claiming t k worker_id batch_size)
            (λ claims u. run_claims-KeepsTables w v recovery claims clocks u))
