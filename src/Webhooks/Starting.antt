-- ===== src/Webhooks/Starting.antt =====
-- Starting an attempt: `startAttempt` of
-- packages/modules/webhooks/src/prisma-webhook-delivery.repository.ts.
use settle_flow.Webhooks.Repository.{
  update_deliveries, with_transaction, with_id, lease_runs, is_open, has_token, clear_claim, Moment,
  Conditions,
}
use settle_flow.Webhooks.Checks.{passes, is_none, attempt_checks}
use settle_flow.Common.Text.{text_eq, Text}
use settle_flow.Common.Errors.{unclassified, database}
use settle_flow.Webhooks.Rows.{
  started, previous, non_retryable_failure, inactive, endpoint_inactive, dead_lettered, current,
  WebhookSecret, WebhookEndpoint, WebhookDeliveryAttempt, WebhookDelivery, WebhookCall, StartResult,
  Lifecycle, DeliveryContext, ClaimedDelivery,
}
use settle_flow.Common.{
  List, is_some, ◌==◌, ltb, if◌then◌else◌, ◌∷◌, ◌||◌, ◌/◌, ◌+◌, ◌++◌, ◌&&◌, ℕ, true, some, not,
  none, find?, false, any, [], Option, Bool,
}
use settle_flow.Common.Action.{on_some, pure, ◌>>◌, throw_if, ok, modify, err}

-- `webhookDeliveryAttempt.create`: the constraints of the table and its two keys
unfoldable pub create_attempt : WebhookDeliveryAttempt → WebhookCall (Unit {0})
unfolding attempt_checks
create_attempt a s =
    if not (attempt_checks a)
      || any
          (λ b.
            text_eq b.id a.id
            || (text_eq b.delivery_id a.delivery_id && b.attempt_number == a.attempt_number))
          s.attempts
    then (err database, s)
    else (ok tt, record s { attempts = s.attempts ++ (a ∷ []) })

abbrev pub inactive_attempt : Moment → ClaimedDelivery → ℕ → WebhookDeliveryAttempt
inactive_attempt m claim attempt_number = record {
  id = m.attempt_id claim.delivery_id;
  delivery_id = claim.delivery_id;
  attempt_number = attempt_number;
  started_at = m.later;
  completed_at = m.later;
  duration_ms = 0;
  http_status = none;
  error_code = some endpoint_inactive;
  outcome = non_retryable_failure;
  response_body_sha256 = none;
  response_body_truncated = false;
  signature_timestamp = none;
  current_secret_version = none;
  previous_secret_version = none;
}

abbrev pub dead_inactive : ℕ → ℕ → WebhookDelivery → WebhookDelivery
dead_inactive now attempt_number d = record d {
  attempt_count = attempt_number;
  claim_token = none;
  dead_lettered_at = some now;
  lease_expires_at = none;
  locked_at = none;
  locked_by = none;
  next_attempt_at = none;
  status = dead_lettered;
}

-- `persistInactiveAttempt`
unfoldable pub persist_inactive_attempt : Moment → ClaimedDelivery → ℕ → WebhookCall (Unit {0})
unfolding create_attempt
persist_inactive_attempt m claim attempt_number =
    create_attempt (inactive_attempt m claim attempt_number)
    >> modify (update_deliveries (with_id claim.delivery_id) (dead_inactive m.later attempt_number))

abbrev pub is_current : Lifecycle → Bool
is_current current = true
is_current _ = false

abbrev pub is_previous : Lifecycle → Bool
is_previous previous = true
is_previous _ = false

abbrev pub version_where : (WebhookSecret → Bool) → Text → List WebhookSecret → Option ℕ
version_where p endpoint_id secrets =
    elim (find? (λ x. text_eq x.endpoint_id endpoint_id && p x) secrets) [
      | none ↦ none
      | some x ↦ some x.secret_version
    ]

abbrev pub current_version : Text → List WebhookSecret → Option ℕ
current_version = version_where (λ x. is_current x.lifecycle)

abbrev pub overlaps : ℕ → WebhookSecret → Bool
overlaps now x = is_previous x.lifecycle && passes x.overlap_expires_at (λ e. ltb now e)

abbrev pub previous_version : ℕ → Text → List WebhookSecret → Option ℕ
previous_version now = version_where (overlaps now)

abbrev pub is_startable : ℕ → ClaimedDelivery → WebhookDelivery → Bool
is_startable now claim d =
    with_id claim.delivery_id d
    && has_token claim.claim_token d
    && lease_runs now d
    && is_open d.status
    && is_none d.active_attempt_number

abbrev pub same_version : Option ℕ → ℕ → Bool
same_version none v = false
same_version (some w) v = w == v

abbrev pub context_previous : DeliveryContext → Option ℕ
context_previous context = elim context.previous_secret [
  | none ↦ none
  | some x ↦ some x.secret_version
]

-- `selectedPrevious !== undefined && selectedPrevious !== context.previousSecret?.secretVersion`
abbrev pub is_other_previous : Option ℕ → DeliveryContext → Bool
is_other_previous none context = false
is_other_previous (some v) context = not (same_version (context_previous context) v)

abbrev pub begun :
    Moment → DeliveryContext → ℕ → Option ℕ → Option ℕ → WebhookDelivery → WebhookDelivery
begun m context expected selected_previous retry_delay_ms d = record d {
  attempt_count = expected;
  active_attempt_number = some expected;
  active_attempt_started_at = some m.later;
  active_signature_timestamp = some (m.later / 1000);
  active_current_secret_version = some context.current_secret.secret_version;
  active_previous_secret_version = selected_previous;
  next_attempt_at = elim retry_delay_ms [ none ↦ none | some delay ↦ some (m.later + delay) ];
}

abbrev pub is_own : ℕ → ClaimedDelivery → WebhookDelivery → Bool
is_own now claim d =
    with_id claim.delivery_id d && has_token claim.claim_token d && lease_runs now d

-- The second statement of `startAttempt` and what it returns.
unfoldable pub begin_attempt :
    Moment → DeliveryContext → ℕ → Option ℕ → Option ℕ → WebhookCall StartResult
begin_attempt m context expected selected_previous retry_delay_ms s =
    if any (is_own m.later context.claim) s.deliveries
    then (
      ok (
          started (record {
            attempt_number = expected;
            current_secret_version = context.current_secret.secret_version;
            next_attempt_at = elim retry_delay_ms [
              | none ↦ none
              | some delay ↦ some (m.later + delay)
            ];
            previous_secret_version = selected_previous;
            signature_timestamp = m.later / 1000;
            started_at = m.later;
          })),
      update_deliveries (is_own m.later context.claim)
          (begun m context expected selected_previous retry_delay_ms) s,
    )
    else (ok StartResult.ownership_lost, s)

-- `startAttempt` once the row and its endpoint are read
unfoldable pub start_locked :
    Moment
    → DeliveryContext
    → Option ℕ
    → WebhookDelivery
    → WebhookEndpoint
    → WebhookCall StartResult
unfolding persist_inactive_attempt clear_claim begin_attempt
start_locked m context retry_delay_ms row endpoint s =
    let expected = context.claim.attempt_count + 1 in
    let selected_previous = previous_version m.now row.endpoint_id s.secrets in
    if not (row.attempt_count == context.claim.attempt_count)
    then (ok StartResult.ownership_lost, s)
    else if not endpoint.is_active
    then (persist_inactive_attempt m context.claim expected >> pure (inactive expected)) s
    else if not context.endpoint_is_active
        || not (
            same_version (current_version row.endpoint_id s.secrets)
              context.current_secret.secret_version)
        || is_other_previous selected_previous context
    then (clear_claim context.claim >> pure StartResult.ownership_lost) s
    else begin_attempt m context expected selected_previous retry_delay_ms s

unfoldable pub start_attempt_at : DeliveryContext → Option ℕ → Moment → WebhookCall StartResult
unfolding start_locked
start_attempt_at context retry_delay_ms m s =
    on_some (find? (is_startable m.now context.claim) s.deliveries)
      (pure StartResult.ownership_lost)
      (λ row.
        on_some (find? (λ e. text_eq e.id row.endpoint_id) s.endpoints)
          (pure StartResult.ownership_lost) (start_locked m context retry_delay_ms row))
      s

abbrev pub is_bad_start : ℕ → Option ℕ → Bool
is_bad_start expected retry_delay_ms =
    ltb 7 expected
    || (ltb expected 7 && is_none retry_delay_ms)
    || (expected == 7 && is_some retry_delay_ms)

-- `startAttempt`
unfoldable pub start_attempt : Conditions → DeliveryContext → Option ℕ → WebhookCall StartResult
unfolding start_attempt_at with_transaction
start_attempt c context retry_delay_ms = do
  throw_if (is_bad_start (context.claim.attempt_count + 1) retry_delay_ms) unclassified
  with_transaction c (start_attempt_at context retry_delay_ms)
