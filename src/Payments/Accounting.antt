-- ===== src/Payments/Accounting.antt =====
-- The ledger under the commands of packages/modules/payments/src/payment-intent.service.ts.
use settle_flow.Eventing.Outbox.{insert_domain_event}
use settle_flow.Common.Text.{Text}
use settle_flow.Payments.Preservation.{PreservesReturning}
use settle_flow.Ledger.Integrity.{assert_ledger_transaction}
use settle_flow.Ledger.Service.{post_refund, post_capture}
use settle_flow.Payments.Repository.{
  set_refunded, set_captured, can_refund, can_capture, apply_refund,
}
use settle_flow.Common.Action.{Result}
use settle_flow.Database.Idempotency.{PaymentIntentRepresentation, RefundRepresentation}
use settle_flow.Database.Ledger.{BusinessType}
use settle_flow.Payments.Atomicity.{unkeyed}
use settle_flow.Payments.Service.{Environment, create}
use settle_flow.Common.{ℕ, true, sym, All, subst, refl, ◌≡◌, arith}
use settle_flow.Payments.Operations.{
  create_operation, Draws, refund_posting, refund_input, capture_posting, Captured,
}
use settle_flow.Database.{Database}
use settle_flow.Payments.Responses.{CreateCommand, RefundCommand, CaptureCommand}
use settle_flow.Payments.Preservation.Commands.{
  create-Preserves, capture-Preserves, refund-Preserves, LockedCapturePreserves,
  LockedRefundPreserves,
}
use settle_flow.Payments.Steps.{
  capture_locked-steps, refund_locked-steps, insert_domain_event-others, create_refund-others,
  update_one-others, CaptureSteps, RefundSteps,
}
use settle_flow.Ledger.Soundness.Commands.{post-IsSound}
use settle_flow.Ledger.Soundness.Invariant.{DistinctIds, IsSound}

-- Soundness reads the tables of the ledger alone.
IsSound-of_same :
    (db db' : Database)
    → db'.ledger_accounts ≡ db.ledger_accounts
    → db'.ledger_transactions ≡ db.ledger_transactions
    → IsSound db
    → IsSound db'
IsSound-of_same db db' accounts transactions s = record {
  checked =
      subst (λ ts. All (λ t. assert_ledger_transaction db'.ledger_accounts ts t ≡ true) ts)
        (sym transactions)
        (subst
          (λ rows.
            All (λ t. assert_ledger_transaction rows db.ledger_transactions t ≡ true)
              db.ledger_transactions)
          (sym accounts) s.checked);
  distinct = subst DistinctIds (sym transactions) s.distinct;
}

capture_locked-IsSound : (c : CaptureCommand) → LockedCapturePreserves IsSound c
unfolding settle_flow.Payments.Repository.capture post_capture
capture_locked-IsSound c draws locked a db db' seen passed ran h =
    let s : CaptureSteps c draws locked db db' = capture_locked-steps c draws locked a db db' ran in
    let row = locked.payment in
    let sound0 : IsSound db = IsSound-of_same (unkeyed db) db refl refl h in
    let sound1 : IsSound s.db1 = subst IsSound (ground (arith, s.posting)) (
      post-IsSound draws.posting (capture_posting c row locked.transaction_time)
        BusinessType.capture db sound0) in
    let others2 : record s.db2 { payment_intents = s.db1.payment_intents } ≡ s.db1 = ground (
      arith,
      s.updating,
      update_one-others (can_capture row) (set_captured row locked.transaction_time) row s.db1,
    ) in
    let others3 : record db' { outbox_events = s.db2.outbox_events } ≡ s.db2 =
      ground (arith, s.telling, insert_domain_event-others draws.event s.event s.db2) in
    IsSound-of_same s.db1 (unkeyed db') (ground arith) (ground arith) sound1

refund_locked-IsSound : (c : RefundCommand) → LockedRefundPreserves IsSound c
unfolding apply_refund post_refund
refund_locked-IsSound c refund_id draws locked a db db' seen passed ran h =
    let s : RefundSteps c refund_id draws locked db db' =
      refund_locked-steps c refund_id draws locked a db db' ran in
    let row = locked.payment in
    let others1 : record s.db1 { refunds = db.refunds } ≡ db = ground (
      arith,
      s.creating,
      create_refund-others (refund_input c refund_id draws.uuid row locked.transaction_time) db,
    ) in
    let sound1 : IsSound s.db1 =
      IsSound-of_same (unkeyed db) s.db1 (ground arith) (ground arith) h in
    let sound2 : IsSound s.db2 = subst IsSound (ground (arith, s.posting)) (
      post-IsSound draws.posting (refund_posting c s.refund.public_id row locked.transaction_time)
        BusinessType.refund s.db1 sound1) in
    let others3 : record s.db3 { payment_intents = s.db2.payment_intents } ≡ s.db2 = ground (
      arith,
      s.updating,
      update_one-others (can_refund row) (set_refunded row c.amount_minor locked.transaction_time)
          row s.db2,
    ) in
    let others4 : record db' { outbox_events = s.db3.outbox_events } ≡ s.db3 =
      ground (arith, s.telling, insert_domain_event-others draws.event s.event s.db3) in
    IsSound-of_same s.db2 (unkeyed db') (ground arith) (ground arith) sound2

create_operation-IsSound :
    (c : CreateCommand) (payment_id : Text) (occurred_at : ℕ) (event_ulid : Text) (draws : Draws)
    → PreservesReturning IsSound (create_operation c payment_id occurred_at event_ulid draws)
unfolding create_operation settle_flow.Payments.Repository.create insert_domain_event
create_operation-IsSound c payment_id occurred_at event_ulid draws a db db' ran h =
    IsSound-of_same (unkeyed db) (unkeyed db') (ground arith) (ground arith) h

-- A sound ledger stays sound under `create` of a payment intent, whatever it answers.
pub create-IsSound :
    (env : Environment) (c : CreateCommand) (r : Result PaymentIntentRepresentation)
    (db db' : Database)
    → settle_flow.Payments.Service.create env c db ≡ (r, db')
    → IsSound db
    → IsSound db'
create-IsSound env c r db db' ran h = IsSound-of_same (unkeyed db') db' refl refl (
    create-Preserves IsSound env c (create_operation-IsSound c) r db db' ran
      (IsSound-of_same db (unkeyed db) refl refl h))

-- A sound ledger stays sound under `capture` of a payment intent, whatever it answers.
pub capture-IsSound :
    (env : Environment) (c : CaptureCommand) (r : Result Captured) (db db' : Database)
    → settle_flow.Payments.Service.capture env c db ≡ (r, db')
    → IsSound db
    → IsSound db'
capture-IsSound env c r db db' ran h = IsSound-of_same (unkeyed db') db' refl refl (
    capture-Preserves IsSound env c (capture_locked-IsSound c) r db db' ran
      (IsSound-of_same db (unkeyed db) refl refl h))

-- A sound ledger stays sound under `refund` of a payment intent, whatever it answers.
pub refund-IsSound :
    (env : Environment) (c : RefundCommand) (r : Result RefundRepresentation) (db db' : Database)
    → settle_flow.Payments.Service.refund env c db ≡ (r, db')
    → IsSound db
    → IsSound db'
refund-IsSound env c r db db' ran h = IsSound-of_same (unkeyed db') db' refl refl (
    refund-Preserves IsSound env c (refund_locked-IsSound c) r db db' ran
      (IsSound-of_same db (unkeyed db) refl refl h))
