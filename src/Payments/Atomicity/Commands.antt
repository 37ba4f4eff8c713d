-- ===== src/Payments/Atomicity/Commands.antt =====
-- `create`, `capture` and `refund` of packages/modules/payments/src/payment-intent.service.ts, when they
-- throw.
use settle_flow.Payments.Atomicity.{
  Keeps, FailsClean, ErrsClean, unkeyed, complete-unwrap-FailsClean, execute_provider-Keeps,
  with_identifiers-FailsClean, bind-FailsClean, acquire-Keeps,
}
use settle_flow.Payments.Repository.{lock_by_public_id, LockedPaymentIntent}
use settle_flow.Payments.Operations.{
  refund_operation, refund_locked, create_operation, error_result, command_error, capture_operation,
  capture_locked, Draws,
}
use settle_flow.Idempotency.Completion.{complete-atomic}
use settle_flow.Payments.Responses.{RefundCommand, CreateCommand, CaptureCommand}
use settle_flow.Common.Text.{text, Text}
use settle_flow.Common.Action.{err, ◌>>=◌, ok}
use settle_flow.Database.Idempotency.{
  replay, acquired, AcquireResult, StoredHttpResponse, IdempotencyOwnership,
}
use settle_flow.Common.Errors.{Error}
use settle_flow.Payments.Service.{
  refund_key, create_key, capture_key, assert_payment_intent_id, refund_acquired,
  is_refund_reference_conflict, is_refund_collision, is_reference_conflict, is_posting_collision,
  is_event_collision, is_create_collision, create_acquired, capture_acquired, acquire_command,
  try_refund, try_create, create, unwrap, try_capture, with_identifiers, execute_provider,
  complete_problem, Environment,
}
use settle_flow.Database.{Database}
use settle_flow.Common.{◌||◌, false, ◌++◌, some, none, Option, ◌≡◌, ℕ, refl, arith}
use settle_flow.Idempotency.Repository.{acquire}

capture_locked-err :
    (c : CaptureCommand) (draws : Draws) (locked : LockedPaymentIntent)
    (response : StoredHttpResponse) (e : Error) (db db1 : Database)
    → ¬ (capture_locked c draws locked db ≡ (ok (response, command_error e), db1))
unfolding capture_locked
capture_locked-err c draws locked response e db db1 h = ground arith

refund_locked-err :
    (c : RefundCommand) (refund_id : Text) (draws : Draws) (locked : LockedPaymentIntent)
    (response : StoredHttpResponse) (e : Error) (db db1 : Database)
    → ¬ (refund_locked c refund_id draws locked db ≡ (ok (response, command_error e), db1))
unfolding refund_locked
refund_locked-err c refund_id draws locked response e db db1 h = ground arith

capture_operation-ErrsClean :
    (c : CaptureCommand) (draws : Draws) → ErrsClean (capture_operation c draws)
unfolding capture_operation error_result
capture_operation-ErrsClean c draws response e db db1 h =
    go (lock_by_public_id draws.clock c.merchant_id c.payment_id db) refl
  where
    go :
        (found : Option LockedPaymentIntent)
        → lock_by_public_id draws.clock c.merchant_id c.payment_id db ≡ found
        → unkeyed db1 ≡ unkeyed db
    go none seen = ground arith
    go (some locked) seen = ground (arith, capture_locked-err c draws locked response e db db1)

refund_operation-ErrsClean :
    (c : RefundCommand) (refund_id : Text) (draws : Draws)
    → ErrsClean (refund_operation c refund_id draws)
unfolding refund_operation error_result
refund_operation-ErrsClean c refund_id draws response e db db1 h =
    go (lock_by_public_id draws.clock c.merchant_id c.payment_id db) refl
  where
    go :
        (found : Option LockedPaymentIntent)
        → lock_by_public_id draws.clock c.merchant_id c.payment_id db ≡ found
        → unkeyed db1 ≡ unkeyed db
    go none seen = ground arith
    go (some locked) seen =
        ground (arith, refund_locked-err c refund_id draws locked response e db db1)

try_capture-FailsClean :
    (env : Environment) (own : IdempotencyOwnership) (c : CaptureCommand) (n : ℕ)
    → FailsClean (try_capture env own c n)
unfolding try_capture
try_capture-FailsClean env own c n =
    complete-unwrap-FailsClean env.options own (env.attempts n)
      (λ k. capture_operation c (env.draws n k)) λ k. capture_operation-ErrsClean c (env.draws n k)

try_refund-FailsClean :
    (env : Environment) (own : IdempotencyOwnership) (c : RefundCommand) (n : ℕ)
    → FailsClean (try_refund env own c n)
unfolding try_refund
try_refund-FailsClean env own c n =
    complete-unwrap-FailsClean env.options own (env.attempts n)
      (λ k. refund_operation c (text "rf_" ++ env.ulid n) (env.draws n k))
      λ k. refund_operation-ErrsClean c (text "rf_" ++ env.ulid n) (env.draws n k)

try_create-FailsClean :
    (env : Environment) (own : IdempotencyOwnership) (c : CreateCommand) (n : ℕ)
    → FailsClean (try_create env own c n)
unfolding try_create
try_create-FailsClean env own c n e db db' h = ground (
  arith,
  complete-atomic env.options own (env.attempts n)
      (λ k.
        create_operation c (text "pi_" ++ env.ulid n) (env.started_at n) (env.event_ulid n)
          (env.draws n k))
      e db db' h,
)

create_acquired-FailsClean :
    (env : Environment) (c : CreateCommand) (acquisition : AcquireResult)
    → FailsClean (create_acquired env c acquisition)
unfolding create_acquired
create_acquired-FailsClean env c (replay stored) = λ e db db1 h. ground arith
create_acquired-FailsClean env c (acquired own) =
    with_identifiers-FailsClean env own c.request_id is_reference_conflict is_create_collision
      (try_create env own c) (try_create-FailsClean env own c) 3 1

capture_acquired-FailsClean :
    (env : Environment) (c : CaptureCommand) (acquisition : AcquireResult)
    → FailsClean (capture_acquired env c acquisition)
unfolding capture_acquired
capture_acquired-FailsClean env c (replay stored) = λ e db db1 h. ground arith
capture_acquired-FailsClean env c (acquired own) =
    bind-FailsClean (execute_provider env own c.request_id)
      (λ _.
        with_identifiers env own c.request_id (λ _. false)
          (λ e. is_event_collision e || is_posting_collision e) (try_capture env own c) 3 1)
      (execute_provider-Keeps env own c.request_id)
      λ _.
        with_identifiers-FailsClean env own c.request_id (λ _. false)
          (λ e. is_event_collision e || is_posting_collision e) (try_capture env own c)
          (try_capture-FailsClean env own c) 3 1

refund_acquired-FailsClean :
    (env : Environment) (c : RefundCommand) (acquisition : AcquireResult)
    → FailsClean (refund_acquired env c acquisition)
unfolding refund_acquired
refund_acquired-FailsClean env c (replay stored) = λ e db db1 h. ground arith
refund_acquired-FailsClean env c (acquired own) =
    bind-FailsClean (execute_provider env own c.request_id)
      (λ _.
        with_identifiers env own c.request_id is_refund_reference_conflict is_refund_collision
          (try_refund env own c) 3 1)
      (execute_provider-Keeps env own c.request_id)
      λ _.
        with_identifiers-FailsClean env own c.request_id is_refund_reference_conflict
          is_refund_collision (try_refund env own c) (try_refund-FailsClean env own c) 3 1

assert_payment_intent_id-Keeps : (id : Text) → Keeps (assert_payment_intent_id id)
assert_payment_intent_id-Keeps id db = refl

-- A failed `create` has changed nothing but the idempotency keys: whatever the error, the drawn
-- identifiers and the faults of the database, no payment intent, refund, ledger row or event is left
-- behind.
pub create-clean :
    (env : Environment) (c : CreateCommand) (e : Error) (db db' : Database)
    → settle_flow.Payments.Service.create env c db ≡ (err e, db')
    → unkeyed db' ≡ unkeyed db
unfolding settle_flow.Payments.Service.create
create-clean env c =
    bind-FailsClean (acquire env.options (create_key env c)) (create_acquired env c)
      (acquire-Keeps env.options (create_key env c)) (create_acquired-FailsClean env c)

-- A failed `capture` has changed nothing but the idempotency keys, also where a declined or a
-- refused command has stored its problem document.
pub capture-clean :
    (env : Environment) (c : CaptureCommand) (e : Error) (db db' : Database)
    → settle_flow.Payments.Service.capture env c db ≡ (err e, db')
    → unkeyed db' ≡ unkeyed db
unfolding settle_flow.Payments.Service.capture
capture-clean env c =
    bind-FailsClean (assert_payment_intent_id c.payment_id)
      (λ _. acquire env.options (capture_key env c) >>= capture_acquired env c)
      (assert_payment_intent_id-Keeps c.payment_id)
      λ _.
        bind-FailsClean (acquire env.options (capture_key env c)) (capture_acquired env c)
          (acquire-Keeps env.options (capture_key env c)) (capture_acquired-FailsClean env c)

-- A failed `refund` has changed nothing but the idempotency keys, also where a declined or a refused
-- command, or one whose external reference is taken, has stored its problem document.
pub refund-clean :
    (env : Environment) (c : RefundCommand) (e : Error) (db db' : Database)
    → settle_flow.Payments.Service.refund env c db ≡ (err e, db')
    → unkeyed db' ≡ unkeyed db
unfolding settle_flow.Payments.Service.refund
refund-clean env c =
    bind-FailsClean (assert_payment_intent_id c.payment_id)
      (λ _. acquire env.options (refund_key env c) >>= refund_acquired env c)
      (assert_payment_intent_id-Keeps c.payment_id)
      λ _.
        bind-FailsClean (acquire env.options (refund_key env c)) (refund_acquired env c)
          (acquire-Keeps env.options (refund_key env c)) (refund_acquired-FailsClean env c)
