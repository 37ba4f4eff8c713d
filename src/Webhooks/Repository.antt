-- ===== src/Webhooks/Repository.antt =====
-- packages/modules/webhooks/src/prisma-webhook-delivery.repository.ts
use settle_flow.Idempotency.Repository.{rethrow_database_error, is_transient}
use settle_flow.Common.Patterns.{is_request_id}
use settle_flow.Webhooks.Checks.{passes, is_none}
use settle_flow.Common.Text.{text_leb, text_eq, Text}
use settle_flow.Common.Errors.{unclassified, Error}
use settle_flow.Webhooks.Rows.{
  retrying, pending, WebhookTables, WebhookDelivery, WebhookCall, DeliveryStatus, ClaimedDelivery,
}
use settle_flow.Common.{
  or_else, ◌==◌, ltb, leb, if◌then◌else◌, ◌||◌, ◌+◌, ◌&&◌, ℕ, zero, true, take, suc, sort_by, some,
  not, none, map, filter, false, count_if, any, Option, List, Bool,
}
use settle_flow.Common.Action.{Result, ◌>>◌, transaction, throw_if, ok, modify, err, Action}

-- What the database decides when a transaction runs: the clock as it is read first and later, the
-- rows that others hold locked, the tokens of claims and the identifiers of attempts, by delivery.
pub record Moment : Type 0 where
  pub now : ℕ
  pub later : ℕ
  pub held : Text → Bool
  pub token : Text → Text
  pub attempt_id : Text → Text

-- The attempts at a transaction: whether the database can be reached afterwards, and the error with
-- which it aborts an attempt, if any.
pub record Conditions : Type 0 where
  pub connected : Bool
  pub fault : ℕ → Option Error
  pub moment : ℕ → Moment

abbrev pub lease_duration_ms : ℕ
lease_duration_ms = 30_000

abbrev pub retry_attempts : ℕ
retry_attempts = 3

module _ {S A : Type 0} where
  abbrev pub attempt_transaction : Option Error → Action S A → Action S A
  attempt_transaction (some e) operation s = (err e, s)
  attempt_transaction none operation s = transaction operation s

  -- What follows an attempt: it returns, or it is made again, or its error is thrown.
  abbrev pub retry_or_return : Conditions → ℕ → Action S A → Result A × S → Result A × S
  retry_or_return c attempt again (ok a, s) = (ok a, s)
  retry_or_return c attempt again (err e, s) =
      if is_transient e && ltb attempt retry_attempts
      then again s
      else (err (rethrow_database_error c.connected e), s)

  -- The loop of `withTransaction`, with the rounds that are left.
  unfoldable pub with_transaction_from : Conditions → (Moment → Action S A) → ℕ → ℕ → Action S A
  with_transaction_from c operation zero attempt s = (err unclassified, s)
  with_transaction_from c operation (suc rounds) attempt s =
      retry_or_return c attempt (with_transaction_from c operation rounds (attempt + 1))
        (attempt_transaction (c.fault attempt) (operation (c.moment attempt)) s)

  unfoldable pub with_transaction : Conditions → (Moment → Action S A) → Action S A
  unfolding with_transaction_from
  with_transaction c operation = with_transaction_from c operation retry_attempts 1

abbrev pub is_open : DeliveryStatus → Bool
is_open pending = true
is_open retrying = true
is_open _ = false

abbrev pub at_most : Option ℕ → ℕ → Bool
at_most t now = passes t (λ n. leb n now)

abbrev pub has_token : Text → WebhookDelivery → Bool
has_token token d = elim d.claim_token [ none ↦ false | some t ↦ text_eq t token ]

abbrev pub lease_runs : ℕ → WebhookDelivery → Bool
lease_runs now d = passes d.lease_expires_at (λ e. ltb now e)

-- `ORDER BY` a time and the identifier; rows without the time are filtered out before.
abbrev pub time_before : (WebhookDelivery → Option ℕ) → WebhookDelivery → WebhookDelivery → Bool
time_before time d e =
    ltb (or_else (time d) 0) (or_else (time e) 0)
    || (or_else (time d) 0 == or_else (time e) 0 && text_leb d.id e.id)

abbrev pub is_due_delivery : Moment → WebhookDelivery → Bool
is_due_delivery m d =
    is_open d.status
    && at_most d.next_attempt_at m.now
    && is_none d.claim_token
    && not (m.held d.id)

abbrev pub with_id : Text → WebhookDelivery → Bool
with_id id d = text_eq d.id id

-- `UPDATE … WHERE`
abbrev pub update_deliveries :
    (WebhookDelivery → Bool) → (WebhookDelivery → WebhookDelivery) → WebhookTables → WebhookTables
update_deliveries p f s = record s { deliveries = map (λ d. if p d then f d else d) s.deliveries }

abbrev pub claimed : Moment → Text → WebhookDelivery → WebhookDelivery
claimed m worker_id d = record d {
  locked_by = some worker_id;
  claim_token = some (m.token d.id);
  locked_at = some m.now;
  lease_expires_at = some (m.now + lease_duration_ms);
}

abbrev pub claim_of : Moment → WebhookDelivery → ClaimedDelivery
claim_of m d = record {
  attempt_count = d.attempt_count;
  claim_token = m.token d.id;
  delivery_id = d.id;
  endpoint_id = d.endpoint_id;
  event_id = d.event_id;
  merchant_id = d.merchant_id;
  public_id = d.public_id;
}

unfoldable pub due_deliveries : Moment → ℕ → WebhookTables → List WebhookDelivery
due_deliveries m batch_size s =
    take batch_size
      (sort_by (time_before (λ d. d.next_attempt_at)) (filter (is_due_delivery m) s.deliveries))

abbrev pub is_among : List WebhookDelivery → WebhookDelivery → Bool
is_among ds d = any (λ c. text_eq c.id d.id) ds

unfoldable pub claim_due_at : Text → ℕ → Moment → WebhookCall (List ClaimedDelivery)
unfolding due_deliveries
claim_due_at worker_id batch_size m s =
    let chosen = due_deliveries m batch_size s in
    (
      ok (map (claim_of m) (filter (is_among chosen) s.deliveries)),
      update_deliveries (is_among chosen) (claimed m worker_id) s,
    )

-- `claimDue`
unfoldable pub claim_due : Conditions → Text → ℕ → WebhookCall (List ClaimedDelivery)
unfolding claim_due_at with_transaction
claim_due c worker_id batch_size = do
  throw_if (not (is_request_id worker_id) || ltb batch_size 1 || ltb 4 batch_size) unclassified
  with_transaction c (claim_due_at worker_id batch_size)

abbrev pub unclaimed : WebhookDelivery → WebhookDelivery
unclaimed d = record d {
  locked_by = none;
  claim_token = none;
  locked_at = none;
  lease_expires_at = none;
}

abbrev pub is_clearable : ClaimedDelivery → WebhookDelivery → Bool
is_clearable claim d =
    with_id claim.delivery_id d && has_token claim.claim_token d && is_none d.active_attempt_number

-- `clearClaim`
unfoldable pub clear_claim : ClaimedDelivery → WebhookCall Bool
clear_claim claim s = (
  ok (count_if (is_clearable claim) s.deliveries == 1),
  update_deliveries (is_clearable claim) unclaimed s,
)

-- `clearClaimById`
unfoldable pub clear_claim_by_id : Text → WebhookCall (Unit {0})
clear_claim_by_id id =
    modify (update_deliveries (λ d. with_id id d && is_none d.active_attempt_number) unclaimed)

-- `releaseUnstarted`
unfoldable pub release_unstarted : Conditions → ClaimedDelivery → WebhookCall Bool
unfolding clear_claim with_transaction
release_unstarted c claim = with_transaction c (λ _. clear_claim claim)
