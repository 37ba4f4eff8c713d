-- ===== src/Webhooks/Finishing.antt =====
-- Finishing an attempt, by its result or because its lease ran out: `finalizeAttempt` and
-- `recoverExpired` of packages/modules/webhooks/src/prisma-webhook-delivery.repository.ts.
use settle_flow.Common.Errors.{unclassified}
use settle_flow.Webhooks.Checks.{passes, is_none}
use settle_flow.Webhooks.Starting.{create_attempt}
use settle_flow.Common.Action.{on_some, throw, pure, ◌>>◌, ◌>>=◌, throw_if, modify}
use settle_flow.Webhooks.Repository.{
  update_deliveries, with_transaction, with_id, time_before, lease_runs, has_token,
  clear_claim_by_id, at_most, Moment, Conditions,
}
use settle_flow.Common.{
  ltb, leb, ◌==◌, if◌then◌else◌, is_some, or_else, ◌∷◌, ◌||◌, ◌-◌, ◌+◌, ◌&&◌, ℕ, true, take,
  sort_by, some, not, none, min, max, find?, filter, false, [], Option, List, Bool,
}
use settle_flow.Webhooks.Rows.{
  unknown, succeeded, retrying, retryable_failure, lease_expired_unknown, delivered, dead_lettered,
  WebhookTables, WebhookDeliveryAttempt, WebhookDelivery, WebhookCall, StartedAttempt,
  RecoveryResult, FinalizationResult, Evidence, DeliveryStatus, ClaimedDelivery, AttemptOutcome,
}

abbrev pub is_active_attempt : ℕ → ClaimedDelivery → ℕ → WebhookDelivery → Bool
is_active_attempt now claim attempt_number d =
    with_id claim.delivery_id d
    && has_token claim.claim_token d
    && passes d.active_attempt_number (λ n. n == attempt_number)
    && lease_runs now d

abbrev pub same_time : Option ℕ → ℕ → Bool
same_time none t = false
same_time (some u) t = u == t

abbrev pub same_option : Option ℕ → Option ℕ → Bool
same_option none none = true
same_option (some a) (some b) = a == b
same_option _ _ = false

-- The row still stands as `startAttempt` left it.
abbrev pub is_as_started : StartedAttempt → WebhookDelivery → Bool
is_as_started attempt d =
    d.attempt_count == attempt.attempt_number
    && same_time d.active_attempt_started_at attempt.started_at
    && same_time d.active_signature_timestamp attempt.signature_timestamp
    && same_time d.active_current_secret_version attempt.current_secret_version
    && same_option d.active_previous_secret_version attempt.previous_secret_version

abbrev pub duration : ℕ → ℕ → ℕ
duration started_at completed_at = min 30_000 (completed_at - started_at)

unfoldable pub final_status : AttemptOutcome → ℕ → DeliveryStatus
final_status succeeded attempt_number = delivered
final_status retryable_failure attempt_number =
    if ltb attempt_number 7 then retrying else dead_lettered
final_status _ attempt_number = dead_lettered

abbrev pub is_retrying : DeliveryStatus → Bool
is_retrying retrying = true
is_retrying _ = false

abbrev pub is_delivered : DeliveryStatus → Bool
is_delivered delivered = true
is_delivered _ = false

abbrev pub is_dead_lettered : DeliveryStatus → Bool
is_dead_lettered dead_lettered = true
is_dead_lettered _ = false

abbrev pub inactive_row : WebhookDelivery → WebhookDelivery
inactive_row d = record d {
  active_attempt_number = none;
  active_attempt_started_at = none;
  active_current_secret_version = none;
  active_previous_secret_version = none;
  active_signature_timestamp = none;
  claim_token = none;
  lease_expires_at = none;
  locked_at = none;
  locked_by = none;
}

abbrev pub finished : ℕ → DeliveryStatus → Option ℕ → WebhookDelivery → WebhookDelivery
finished completed_at status next_attempt_at d = record (inactive_row d) {
  dead_lettered_at = if is_dead_lettered status then some completed_at else none;
  delivered_at = if is_delivered status then some completed_at else none;
  next_attempt_at = if is_retrying status then next_attempt_at else none;
  status = status;
}

abbrev pub finished_attempt :
    Moment → ClaimedDelivery → StartedAttempt → Evidence → WebhookDelivery → WebhookDeliveryAttempt
finished_attempt m claim attempt evidence row = record {
  id = m.attempt_id claim.delivery_id;
  delivery_id = claim.delivery_id;
  attempt_number = attempt.attempt_number;
  started_at = attempt.started_at;
  completed_at = m.later;
  duration_ms = duration attempt.started_at m.later;
  http_status = evidence.http_status;
  error_code = evidence.error_code;
  outcome = evidence.outcome;
  response_body_sha256 = evidence.response_body_sha256;
  response_body_truncated = evidence.response_body_truncated;
  signature_timestamp = row.active_signature_timestamp;
  current_secret_version = row.active_current_secret_version;
  previous_secret_version = row.active_previous_secret_version;
}

unfoldable pub finalize_locked :
    Moment
    → ClaimedDelivery
    → StartedAttempt
    → Evidence
    → WebhookDelivery
    → WebhookCall FinalizationResult
unfolding final_status create_attempt
finalize_locked m claim attempt evidence row = do
  let status = final_status evidence.outcome attempt.attempt_number
  throw_if (is_retrying status && is_none attempt.next_attempt_at) unclassified
  create_attempt (finished_attempt m claim attempt evidence row)
  modify (
      update_deliveries (with_id claim.delivery_id)
        (finished m.later status attempt.next_attempt_at))
  pure (record { status = status; updated = true })

abbrev pub refused_finalization : FinalizationResult
refused_finalization = record { status = dead_lettered; updated = false }

unfoldable pub finalize_attempt_at :
    ClaimedDelivery → StartedAttempt → Evidence → Moment → WebhookCall FinalizationResult
unfolding finalize_locked
finalize_attempt_at claim attempt evidence m s =
    on_some (find? (is_active_attempt m.now claim attempt.attempt_number) s.deliveries)
      (pure refused_finalization)
      (λ row.
        if is_as_started attempt row
        then finalize_locked m claim attempt evidence row
        else pure refused_finalization)
      s

-- `finalizeAttempt`
unfoldable pub finalize_attempt :
    Conditions → ClaimedDelivery → StartedAttempt → Evidence → WebhookCall FinalizationResult
unfolding finalize_attempt_at with_transaction
finalize_attempt c claim attempt evidence =
    with_transaction c (finalize_attempt_at claim attempt evidence)

abbrev pub has_lapsed : Moment → WebhookDelivery → Bool
has_lapsed m d = is_some d.claim_token && at_most d.lease_expires_at m.now && not (m.held d.id)

unfoldable pub lapsed_deliveries : Moment → ℕ → WebhookTables → List WebhookDelivery
lapsed_deliveries m limit s =
    take limit
      (sort_by (time_before (λ d. d.lease_expires_at)) (filter (has_lapsed m) s.deliveries))

abbrev pub unknown_attempt : Moment → WebhookDelivery → ℕ → ℕ → WebhookDeliveryAttempt
unknown_attempt m row attempt_number started_at =
    let completed_at : ℕ = max started_at (or_else row.lease_expires_at 0) in
    record {
      id = m.attempt_id row.id;
      delivery_id = row.id;
      attempt_number = attempt_number;
      started_at = started_at;
      completed_at = completed_at;
      duration_ms = duration started_at completed_at;
      http_status = none;
      error_code = some lease_expired_unknown;
      outcome = unknown;
      response_body_sha256 = none;
      response_body_truncated = false;
      signature_timestamp = row.active_signature_timestamp;
      current_secret_version = row.active_current_secret_version;
      previous_secret_version = row.active_previous_secret_version;
    }

abbrev pub recovered : ℕ → Bool → WebhookDelivery → WebhookDelivery
recovered completed_at terminal d = record (inactive_row d) {
  dead_lettered_at = if terminal then some completed_at else none;
  next_attempt_at = if terminal then none else d.next_attempt_at;
  status = if terminal then dead_lettered else retrying;
}

abbrev pub count_recovery : Bool → RecoveryResult → RecoveryResult
count_recovery terminal r = record r {
  dead_lettered = r.dead_lettered + (if terminal then 1 else 0);
  recovered_unknown = r.recovered_unknown + 1;
}

unfoldable pub recover_active :
    Moment → WebhookDelivery → ℕ → RecoveryResult → WebhookCall RecoveryResult
unfolding create_attempt
recover_active m row attempt_number counts =
    on_some row.active_attempt_started_at (throw unclassified) (λ started_at.
      let a = unknown_attempt m row attempt_number started_at in
      let terminal = leb 7 attempt_number in
      throw_if (is_none row.active_signature_timestamp || is_none row.active_current_secret_version)
        unclassified
      >>= λ _. create_attempt a >>= λ _.
          modify (update_deliveries (with_id row.id) (recovered a.completed_at terminal))
          >> pure (count_recovery terminal counts))

unfoldable pub recover_row : Moment → WebhookDelivery → RecoveryResult → WebhookCall RecoveryResult
unfolding recover_active clear_claim_by_id
recover_row m row counts =
    on_some row.active_attempt_number
      (clear_claim_by_id row.id
        >> pure (record counts { cleared_unstarted = counts.cleared_unstarted + 1 }))
      (λ attempt_number. recover_active m row attempt_number counts)

-- The loop of `recoverExpired`
unfoldable pub recover_rows :
    Moment → List WebhookDelivery → RecoveryResult → WebhookCall RecoveryResult
unfolding recover_row
recover_rows m [] counts = pure counts
recover_rows m (row ∷ rows) counts = recover_row m row counts >>= recover_rows m rows

abbrev pub nothing_recovered : RecoveryResult
nothing_recovered = record { cleared_unstarted = 0; dead_lettered = 0; recovered_unknown = 0 }

unfoldable pub recover_expired_at : ℕ → Moment → WebhookCall RecoveryResult
unfolding recover_rows lapsed_deliveries
recover_expired_at limit m s = recover_rows m (lapsed_deliveries m limit s) nothing_recovered s

-- `recoverExpired`
unfoldable pub recover_expired : Conditions → ℕ → WebhookCall RecoveryResult
unfolding recover_expired_at with_transaction
recover_expired c limit = do
  throw_if (ltb limit 1 || ltb 4 limit) unclassified
  with_transaction c (recover_expired_at limit)
