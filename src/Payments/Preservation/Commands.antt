-- ===== src/Payments/Preservation/Commands.antt =====
-- `create`, `capture` and `refund` of packages/modules/payments/src/payment-intent.service.ts preserve what
-- their transactions preserve.
use settle_flow.Common.Action.{◌>>=◌, ok}
use settle_flow.Idempotency.Repository.{complete, acquire}
use settle_flow.Common.Text.{text, Text}
use settle_flow.Common.{
  ◌≡◌, ◌||◌, ◌++◌, ℕ, some, refl, none, inr, inl, false, arith, Option-cases, Option,
}
use settle_flow.Payments.Repository.{lock_by_public_id, LockedPaymentIntent}
use settle_flow.Payments.Service.{
  with_identifiers, unwrap, try_refund, try_create, try_capture, refund_key, refund_acquired,
  is_refund_reference_conflict, is_refund_collision, is_reference_conflict, is_posting_collision,
  is_event_collision, is_create_collision, execute_provider, create_key, create_acquired, create,
  capture_key, capture_acquired, assert_payment_intent_id, Environment,
}
use settle_flow.Database.{Database}
use settle_flow.Payments.Operations.{
  refund_operation, refund_locked, refund_error, error_result, create_operation, capture_operation,
  capture_locked, capture_error, Draws, CommandResult, Captured,
}
use settle_flow.Payments.Responses.{RefundCommand, CreateCommand, CaptureCommand}
use settle_flow.Database.Idempotency.{
  replay, acquired, StoredHttpResponse, RefundRepresentation, AcquireResult,
}
use settle_flow.Payments.Atomicity.{unkeyed, acquire-Keeps, execute_provider-Keeps}
use settle_flow.Payments.Preservation.{
  Preserves, PreservesReturning, move, Keeps-Preserves, bind-Preserves, complete-Preserves,
  with_identifiers-Preserves, unwrap-Preserves,
}

module _ (I : Database → Type 0) where
  pub create-Preserves :
      (env : Environment) (c : CreateCommand)
      → ((payment_id : Text) (occurred_at : ℕ) (event_ulid : Text) (draws : Draws)
          → PreservesReturning I (create_operation c payment_id occurred_at event_ulid draws))
      → Preserves I (settle_flow.Payments.Service.create env c)
  unfolding settle_flow.Payments.Service.create create_acquired try_create
  create-Preserves env c each =
      bind-Preserves I (acquire env.options (create_key env c)) (create_acquired env c)
        (Keeps-Preserves I (acquire env.options (create_key env c))
          (acquire-Keeps env.options (create_key env c)))
        go
    where
      go : (acquisition : AcquireResult) → Preserves I (create_acquired env c acquisition)
      go (replay stored) = λ r db db' ran h. move I db db' (ground arith) h
      go (acquired own) =
          with_identifiers-Preserves I env own c.request_id is_reference_conflict
            is_create_collision (try_create env own c)
            (λ n.
              complete-Preserves I env.options own (env.attempts n)
                (λ k.
                  create_operation c (text "pi_" ++ env.ulid n) (env.started_at n)
                    (env.event_ulid n) (env.draws n k))
                λ k.
                  each (text "pi_" ++ env.ulid n) (env.started_at n) (env.event_ulid n)
                    (env.draws n k))
            3 1

  -- What the transaction of a capture does to a locked row that has passed the checks.
  abbrev pub LockedCapturePreserves : CaptureCommand → Type 0
  LockedCapturePreserves c =
      (draws : Draws) (locked : LockedPaymentIntent)
      (a : StoredHttpResponse × CommandResult Captured) (db db' : Database)
      → lock_by_public_id draws.clock c.merchant_id c.payment_id db ≡ some locked
      → capture_error (some locked.payment) c ≡ none
      → capture_locked c draws locked db ≡ (ok a, db')
      → I (unkeyed db)
      → I (unkeyed db')

  capture_operation-Commits :
      (c : CaptureCommand)
      → LockedCapturePreserves c
      → (draws : Draws) → PreservesReturning I (capture_operation c draws)
  unfolding capture_operation error_result
  capture_operation-Commits c each draws a db db' ran h =
      split (lock_by_public_id draws.clock c.merchant_id c.payment_id db) refl
    where
      split :
          (found : Option LockedPaymentIntent)
          → lock_by_public_id draws.clock c.merchant_id c.payment_id db ≡ found
          → I (unkeyed db')
      split none seen = move I db db' (ground arith) h
      split (some locked) seen = elim (Option-cases (capture_error (some locked.payment) c)) [
        | inl passed ↦ each draws locked a db db' seen passed (ground arith) h
        | inr (e, refused) ↦ move I db db' (ground arith) h
      ]

  pub capture-Preserves :
      (env : Environment) (c : CaptureCommand)
      → LockedCapturePreserves c
      → Preserves I (settle_flow.Payments.Service.capture env c)
  unfolding settle_flow.Payments.Service.capture capture_acquired try_capture
  capture-Preserves env c each =
      bind-Preserves I (assert_payment_intent_id c.payment_id)
        (λ _. acquire env.options (capture_key env c) >>= capture_acquired env c)
        (Keeps-Preserves I (assert_payment_intent_id c.payment_id) λ db. refl)
        λ _.
          bind-Preserves I (acquire env.options (capture_key env c)) (capture_acquired env c)
            (Keeps-Preserves I (acquire env.options (capture_key env c))
              (acquire-Keeps env.options (capture_key env c)))
            go
    where
      go : (acquisition : AcquireResult) → Preserves I (capture_acquired env c acquisition)
      go (replay stored) = λ r db db' ran h. move I db db' (ground arith) h
      go (acquired own) =
          bind-Preserves I (execute_provider env own c.request_id)
            (λ _.
              with_identifiers env own c.request_id (λ _. false)
                (λ e. is_event_collision e || is_posting_collision e) (try_capture env own c) 3 1)
            (Keeps-Preserves I (execute_provider env own c.request_id)
              (execute_provider-Keeps env own c.request_id))
            λ _.
              with_identifiers-Preserves I env own c.request_id (λ _. false)
                (λ e. is_event_collision e || is_posting_collision e) (try_capture env own c)
                (λ n.
                  bind-Preserves I
                    (complete env.options own (env.attempts n)
                      λ k. capture_operation c (env.draws n k))
                    unwrap
                    (complete-Preserves I env.options own (env.attempts n)
                      (λ k. capture_operation c (env.draws n k))
                      λ k. capture_operation-Commits c each (env.draws n k))
                    (unwrap-Preserves I))
                3 1

  -- What the transaction of a refund does to a locked row that has passed the checks.
  abbrev pub LockedRefundPreserves : RefundCommand → Type 0
  LockedRefundPreserves c =
      (refund_id : Text) (draws : Draws) (locked : LockedPaymentIntent)
      (a : StoredHttpResponse × CommandResult RefundRepresentation) (db db' : Database)
      → lock_by_public_id draws.clock c.merchant_id c.payment_id db ≡ some locked
      → refund_error (some locked.payment) c ≡ none
      → refund_locked c refund_id draws locked db ≡ (ok a, db')
      → I (unkeyed db)
      → I (unkeyed db')

  refund_operation-Commits :
      (c : RefundCommand)
      → LockedRefundPreserves c
      → (refund_id : Text) (draws : Draws)
      → PreservesReturning I (refund_operation c refund_id draws)
  unfolding refund_operation error_result
  refund_operation-Commits c each refund_id draws a db db' ran h =
      split (lock_by_public_id draws.clock c.merchant_id c.payment_id db) refl
    where
      split :
          (found : Option LockedPaymentIntent)
          → lock_by_public_id draws.clock c.merchant_id c.payment_id db ≡ found
          → I (unkeyed db')
      split none seen = move I db db' (ground arith) h
      split (some locked) seen = elim (Option-cases (refund_error (some locked.payment) c)) [
        | inl passed ↦ each refund_id draws locked a db db' seen passed (ground arith) h
        | inr (e, refused) ↦ move I db db' (ground arith) h
      ]

  pub refund-Preserves :
      (env : Environment) (c : RefundCommand)
      → LockedRefundPreserves c
      → Preserves I (settle_flow.Payments.Service.refund env c)
  unfolding settle_flow.Payments.Service.refund refund_acquired try_refund
  refund-Preserves env c each =
      bind-Preserves I (assert_payment_intent_id c.payment_id)
        (λ _. acquire env.options (refund_key env c) >>= refund_acquired env c)
        (Keeps-Preserves I (assert_payment_intent_id c.payment_id) λ db. refl)
        λ _.
          bind-Preserves I (acquire env.options (refund_key env c)) (refund_acquired env c)
            (Keeps-Preserves I (acquire env.options (refund_key env c))
              (acquire-Keeps env.options (refund_key env c)))
            go
    where
      go : (acquisition : AcquireResult) → Preserves I (refund_acquired env c acquisition)
      go (replay stored) = λ r db db' ran h. move I db db' (ground arith) h
      go (acquired own) =
          bind-Preserves I (execute_provider env own c.request_id)
            (λ _.
              with_identifiers env own c.request_id is_refund_reference_conflict is_refund_collision
                (try_refund env own c) 3 1)
            (Keeps-Preserves I (execute_provider env own c.request_id)
              (execute_provider-Keeps env own c.request_id))
            λ _.
              with_identifiers-Preserves I env own c.request_id is_refund_reference_conflict
                is_refund_collision (try_refund env own c)
                (λ n.
                  bind-Preserves I
                    (complete env.options own (env.attempts n)
                      λ k. refund_operation c (text "rf_" ++ env.ulid n) (env.draws n k))
                    unwrap
                    (complete-Preserves I env.options own (env.attempts n)
                      (λ k. refund_operation c (text "rf_" ++ env.ulid n) (env.draws n k))
                      λ k.
                        refund_operation-Commits c each (text "rf_" ++ env.ulid n) (env.draws n k))
                    (unwrap-Preserves I))
                3 1
