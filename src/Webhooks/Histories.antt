-- ===== src/Webhooks/Histories.antt =====
-- Any sequence of calls of prisma-webhook-delivery.repository.ts, by any workers: each call is one
-- transaction, so that calls at the same time come down to calls one after another.
use settle_flow.Webhooks.Starts.{start_attempt-KeepsBooks}
use settle_flow.Idempotency.Repository.{is_transient}
use settle_flow.Webhooks.Finishes.{recover_expired-KeepsBooks, finalize_attempt-KeepsBooks}
use settle_flow.Webhooks.Attempts.{clear_claim-KeepsBooks, claim_due-KeepsBooks}
use settle_flow.Webhooks.Bookkeeping.{WellKept}
use settle_flow.Webhooks.Starting.{start_attempt_at, is_bad_start, start_attempt}
use settle_flow.Webhooks.Finishing.{
  recover_expired_at, finalize_attempt_at, recover_expired, finalize_attempt,
}
use settle_flow.Common.Text.{Text}
use settle_flow.Common.Action.{◌>>◌, transaction-kept, throw_if, ok, err, Result}
use settle_flow.Common.{
  ltb, Bool-cases, ◌≡◌, ◌+◌, ◌&&◌, zero, true, suc, refl, false, Bool, All, ◌≤◌, ◌∷◌, ℕ, some, none,
  inr, inl, [], Option, List,
}
use settle_flow.Common.Errors.{unclassified, Error}
use settle_flow.Webhooks.Repository.{
  with_transaction_from, retry_or_return, with_transaction, retry_attempts, clear_claim,
  claim_due_at, Moment, attempt_transaction, release_unstarted, claim_due, Conditions,
}
use settle_flow.Webhooks.Rows.{
  WebhookTables, WebhookCall, StartedAttempt, Evidence, DeliveryContext, ClaimedDelivery,
}

-- The calls that change the tables, with their arguments.
pub data Request : Type 0 where
  claim_request : Text → ℕ → Request
  release_request : ClaimedDelivery → Request
  start_request : DeliveryContext → Option ℕ → Request
  finalize_request : ClaimedDelivery → StartedAttempt → Evidence → Request
  recover_request : ℕ → Request

unfoldable pub perform : Conditions → Request → WebhookTables → WebhookTables
perform c (claim_request worker_id batch_size) s = (claim_due c worker_id batch_size s).1
perform c (release_request claim) s = (release_unstarted c claim s).1
perform c (start_request context retry_delay_ms) s = (start_attempt c context retry_delay_ms s).1
perform c (finalize_request claim attempt evidence) s =
    (finalize_attempt c claim attempt evidence s).1
perform c (recover_request limit) s = (recover_expired c limit s).1

pub history : List (Conditions × Request) → WebhookTables → WebhookTables
history [] s = s
history ((c, r) ∷ rs) s = history rs (perform c r s)

-- The clock of the database has passed the first second of its epoch.
abbrev pub ClockRuns : Conditions → Type 0
ClockRuns c = (n : ℕ) → 1000 ≤ (c.moment n).later

attempt-kept :
    {A : Type 0} (P : WebhookTables → Type 0) (fault : Option Error) (op : WebhookCall A)
    (s : WebhookTables)
    → P s
    → P (op s).1
    → P (attempt_transaction fault op s).1
attempt-kept P (some e) op s before after = before
attempt-kept P none op s before after = transaction-kept P op s before after

retry-kept :
    {A : Type 0} (P : WebhookTables → Type 0) (c : Conditions) (attempt : ℕ) (again : WebhookCall A)
    (r : Result A × WebhookTables)
    → P r.1
    → ((t : WebhookTables) → P t → P (again t).1)
    → P (retry_or_return c attempt again r).1
retry-kept P c attempt again (ok a, s) h keep = h
retry-kept P c attempt again (err e, s) h keep =
    elim (Bool-cases (is_transient e && ltb attempt retry_attempts)) [
      | inl retried ↦ rw retried (keep s h)
      | inr final ↦ rw final h
    ]

with_transaction_from-kept :
    {A : Type 0} (P : WebhookTables → Type 0) (c : Conditions) (op : Moment → WebhookCall A)
    (rounds attempt : ℕ) (s : WebhookTables)
    → ((n : ℕ) (t : WebhookTables) → P t → P (op (c.moment n) t).1)
    → P s
    → P (with_transaction_from c op rounds attempt s).1
unfolding with_transaction_from
with_transaction_from-kept P c op zero attempt s keep before = before
with_transaction_from-kept P c op (suc rounds) attempt s keep before =
    retry-kept P c attempt (with_transaction_from c op rounds (attempt + 1)) _
      (attempt-kept P (c.fault attempt) (op (c.moment attempt)) s before (keep attempt s before))
      (λ t h. with_transaction_from-kept P c op rounds (attempt + 1) t keep h)

-- A guard before a transaction.
guarded-kept :
    {A : Type 0} (P : WebhookTables → Type 0) (b : Bool) (e : Error) (c : Conditions)
    (op : Moment → WebhookCall A) (s : WebhookTables)
    → (b ≡ false → (n : ℕ) (t : WebhookTables) → P t → P (op (c.moment n) t).1)
    → P s
    → P ((throw_if b e >> with_transaction c op) s).1
unfolding with_transaction
guarded-kept P true e c op s keep before = before
guarded-kept P false e c op s keep before =
    with_transaction_from-kept P c op retry_attempts 1 s (keep refl) before

module _ (c : Conditions) (s : WebhookTables) (w : WellKept s) where
  pub claim_due-WellKept :
      (worker_id : Text) (batch_size : ℕ) → WellKept (claim_due c worker_id batch_size s).1
  unfolding claim_due with_transaction
  claim_due-WellKept worker_id batch_size =
      guarded-kept WellKept _ unclassified c (claim_due_at worker_id batch_size) s
        (λ good n. claim_due-KeepsBooks worker_id batch_size (c.moment n)) w

  pub release_unstarted-WellKept :
      (claim : ClaimedDelivery) → WellKept (release_unstarted c claim s).1
  unfolding release_unstarted with_transaction
  release_unstarted-WellKept claim =
      with_transaction_from-kept WellKept c (λ _. clear_claim claim) retry_attempts 1 s
        (λ n. clear_claim-KeepsBooks claim (c.moment n)) w

  pub start_attempt-WellKept :
      (context : DeliveryContext) (retry_delay_ms : Option ℕ)
      → ClockRuns c
      → WellKept (start_attempt c context retry_delay_ms s).1
  unfolding start_attempt with_transaction
  start_attempt-WellKept context retry_delay_ms clock =
      guarded-kept WellKept (is_bad_start (context.claim.attempt_count + 1) retry_delay_ms)
        unclassified c (start_attempt_at context retry_delay_ms) s
        (λ good n t. start_attempt-KeepsBooks context retry_delay_ms (c.moment n) t (clock n) good)
        w

  pub finalize_attempt-WellKept :
      (claim : ClaimedDelivery) (attempt : StartedAttempt) (evidence : Evidence)
      → WellKept (finalize_attempt c claim attempt evidence s).1
  unfolding finalize_attempt with_transaction
  finalize_attempt-WellKept claim attempt evidence =
      with_transaction_from-kept WellKept c (finalize_attempt_at claim attempt evidence)
        retry_attempts 1 s (λ n. finalize_attempt-KeepsBooks claim attempt evidence (c.moment n)) w

  pub recover_expired-WellKept : (limit : ℕ) → WellKept (recover_expired c limit s).1
  unfolding recover_expired with_transaction
  recover_expired-WellKept limit =
      guarded-kept WellKept _ unclassified c (recover_expired_at limit) s
        (λ good n. recover_expired-KeepsBooks limit (c.moment n)) w

perform-WellKept :
    (c : Conditions) (r : Request) (s : WebhookTables)
    → ClockRuns c
    → WellKept s
    → WellKept (perform c r s)
unfolding perform
perform-WellKept c (claim_request worker_id n) s clock w = claim_due-WellKept c s w worker_id n
perform-WellKept c (release_request claim) s clock w = release_unstarted-WellKept c s w claim
perform-WellKept c (start_request context delay) s clock w =
    start_attempt-WellKept c s w context delay clock
perform-WellKept c (finalize_request claim attempt evidence) s clock w =
    finalize_attempt-WellKept c s w claim attempt evidence
perform-WellKept c (recover_request limit) s clock w = recover_expired-WellKept c s w limit

-- After any sequence of calls, by any workers, with any arguments, clocks and faults of the database,
-- every delivery meets the constraints of its table, and its count of attempts is the number of its
-- attempts on record and the one that is open, if any. The constraints include that no delivery
-- counts more than seven attempts, and that one which is delivered or dead-lettered has no claim, no
-- open attempt and no further attempt due.
pub history-WellKept :
    (rs : List (Conditions × Request)) (s : WebhookTables)
    → All (λ r. ClockRuns r.0) rs
    → WellKept s
    → WellKept (history rs s)
unfolding history
history-WellKept [] s clocks w = w
history-WellKept ((c, r) ∷ rs) s clocks w =
    history-WellKept rs (perform c r s) clocks.1 (perform-WellKept c r s clocks.0 w)
