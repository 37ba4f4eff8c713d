-- ===== src/Webhooks/Marking.antt =====
-- The changes that the repository makes to a row of `webhook_deliveries`, against the constraints on
-- such rows.
use settle_flow.Eventing.Relay.Service.{idle}
use settle_flow.Webhooks.Finishing.{recovered, is_retrying, finished, final_status}
use settle_flow.Webhooks.Starting.{is_bad_start, dead_inactive, begun}
use settle_flow.Webhooks.Checks.{is_none, delivery_checks, absent_or}
use settle_flow.Common.Text.{Text}
use settle_flow.Common.{ltb, is_some, leb, ◌≤◌, ◌≡◌, ◌+◌, ◌&&◌, ℕ, true, some, false, arith, Option}
use settle_flow.Webhooks.Repository.{unclaimed, is_open, is_due_delivery, claimed, Moment}
use settle_flow.Webhooks.Rows.{
  unknown, succeeded, retryable_failure, non_retryable_failure, WebhookDelivery, DeliveryContext,
  AttemptOutcome,
}

pub claimed-checks :
    (m : Moment) (worker_id : Text) (d : WebhookDelivery)
    → delivery_checks d ≡ true
    → is_due_delivery m d ≡ true
    → delivery_checks (claimed m worker_id d) ≡ true
unfolding delivery_checks
claimed-checks m worker_id d h due = ground arith

pub unclaimed-checks :
    (d : WebhookDelivery)
    → delivery_checks d ≡ true
    → is_none d.active_attempt_number ≡ true
    → delivery_checks (unclaimed d) ≡ true
unfolding delivery_checks
unclaimed-checks d h idle = ground arith

-- An attempt that is not a retry leaves the constraints true: the next count is at least one.
pub dead_inactive-checks :
    (now : ℕ) (d : WebhookDelivery)
    → delivery_checks d ≡ true
    → is_open d.status ≡ true
    → is_none d.active_attempt_number ≡ true
    → delivery_checks (dead_inactive now (d.attempt_count + 1) d) ≡ true
unfolding delivery_checks
dead_inactive-checks now d h open' idle = ground arith

pub begun-checks :
    (m : Moment) (context : DeliveryContext) (selected_previous retry_delay_ms : Option ℕ)
    (d : WebhookDelivery)
    → delivery_checks d ≡ true
    → is_open d.status ≡ true
    → is_none d.active_attempt_number ≡ true
    → is_some d.claim_token ≡ true
    → is_bad_start (d.attempt_count + 1) retry_delay_ms ≡ false
    → 1000 ≤ m.later
    → 1 ≤ context.current_secret.secret_version
    → absent_or selected_previous (λ p. leb 1 p && ltb p context.current_secret.secret_version)
      ≡ true
    → delivery_checks (begun m context (d.attempt_count + 1) selected_previous retry_delay_ms d)
      ≡ true
unfolding delivery_checks
begun-checks m context selected_previous retry_delay_ms d h open' idle held good late v p =
    ground arith

pub finished-checks :
    (completed_at : ℕ) (outcome : AttemptOutcome) (n : ℕ) (next_attempt_at : Option ℕ)
    (d : WebhookDelivery)
    → delivery_checks d ≡ true
    → d.active_attempt_number ≡ some n
    → is_retrying (final_status outcome n) && is_none next_attempt_at ≡ false
    → delivery_checks (finished completed_at (final_status outcome n) next_attempt_at d) ≡ true
unfolding delivery_checks final_status
finished-checks completed_at succeeded n next_attempt_at d h active good = ground arith
finished-checks completed_at retryable_failure n next_attempt_at d h active good = ground arith
finished-checks completed_at non_retryable_failure n next_attempt_at d h active good = ground arith
finished-checks completed_at unknown n next_attempt_at d h active good = ground arith

pub recovered-checks :
    (completed_at n : ℕ) (d : WebhookDelivery)
    → delivery_checks d ≡ true
    → d.active_attempt_number ≡ some n
    → delivery_checks (recovered completed_at (leb 7 n) d) ≡ true
unfolding delivery_checks
recovered-checks completed_at n d h active = ground arith
