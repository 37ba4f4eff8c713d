-- ===== src/Payments/Refunds/Commands.antt =====
-- `create`, `capture` and `refund` of packages/modules/payments/src/payment-intent.service.ts and the sums of the
-- refund rows.
use settle_flow.Payments.Refunds.Rows.{
  RefundsAgree-of_same, updated-RefundsAgree, added-RefundsAgree,
}
use settle_flow.Eventing.Outbox.{insert_domain_event}
use settle_flow.Common.Action.{Result}
use settle_flow.Database.Idempotency.{RefundRepresentation, PaymentIntentRepresentation}
use settle_flow.Payments.Service.{create, Environment}
use settle_flow.Database.Payments.{Refund, PaymentIntent}
use settle_flow.Payments.Atomicity.{unkeyed}
use settle_flow.Common.Text.{Text, text_eq}
use settle_flow.Ledger.Service.{post_refund, post_capture}
use settle_flow.Payments.Operations.{
  create_operation, Draws, Captured, refund_posting, refund_input, capture_posting,
}
use settle_flow.Payments.Repository.{
  new_payment_intent, CreatePaymentIntent, set_refunded, refund_row, find_by_public_id,
  create_refund, can_refund, apply_refund, update_where, set_captured, can_capture,
}
use settle_flow.Database.{Database}
use settle_flow.Payments.Responses.{CreateCommand, RefundCommand, CaptureCommand}
use settle_flow.Database.Ledger.{BusinessType}
use settle_flow.Common.{
  ◌+◌, ℕ, ◌∷◌, ◌++◌, some, false, [], All-both, All-append, ◌≡◌, ◌∙◌, true, sym, subst, refl, map,
  arith, ap, any, All-map, All,
}
use settle_flow.Payments.Refunds.{
  total_refunded-refunded, found_id, RefundsAgree, total_refunded, only_id, update_one-rows,
}
use settle_flow.Payments.Preservation.Commands.{
  create-Preserves, capture-Preserves, refund-Preserves, LockedCapturePreserves,
  LockedRefundPreserves,
}
use settle_flow.Payments.Preservation.{PreservesReturning}
use settle_flow.Payments.Projection.{lock_find}
use settle_flow.Payments.Steps.{
  CaptureSteps, RefundSteps, capture_locked-steps, refund_locked-steps, post-others,
  insert_domain_event-others, update_one-others,
}

capture_locked-RefundsAgree : (c : CaptureCommand) → LockedCapturePreserves RefundsAgree c
unfolding settle_flow.Payments.Repository.capture post_capture
capture_locked-RefundsAgree c draws locked a db db' seen passed ran h =
    let s : CaptureSteps c draws locked db db' = capture_locked-steps c draws locked a db db' ran in
    let row = locked.payment in
    let passes = can_capture row in
    let change = set_captured row locked.transaction_time in
    let others1 : record s.db1 { ledger_transactions = db.ledger_transactions } ≡ db = ground (
      arith,
      s.posting,
      post-others draws.posting (capture_posting c row locked.transaction_time) BusinessType.capture
          db,
    ) in
    let others2 : record s.db2 { payment_intents = s.db1.payment_intents } ≡ s.db1 =
      ground (arith, s.updating, update_one-others passes change row s.db1) in
    let others3 : record db' { outbox_events = s.db2.outbox_events } ≡ s.db2 =
      ground (arith, s.telling, insert_domain_event-others draws.event s.event s.db2) in
    let before : RefundsAgree s.db2 =
      updated-RefundsAgree s.db2 passes change s.db1.payment_intents (λ p. refl)
        (update_one-rows passes change row s.updated s.db1 s.db2 s.updating)
        (RefundsAgree-of_same (unkeyed db) s.db1 (ground arith) (ground arith) h).distinct
        (subst (All _) (ground arith)
          (RefundsAgree-of_same (unkeyed db) s.db1 (ground arith) (ground arith) h).known)
        (All-map (λ p. total_refunded p.id s.db1.refunds ≡ p.refunded_amount_minor) _
          s.db1.payment_intents
          (λ p old. (
            λ hit.
                subst (λ rs. total_refunded p.id rs ≡ p.refunded_amount_minor) (ground arith) old,
            λ miss.
                subst (λ rs. total_refunded p.id rs ≡ p.refunded_amount_minor) (ground arith) old,
          ))
          (RefundsAgree-of_same (unkeyed db) s.db1 (ground arith) (ground arith) h).totals) in
    RefundsAgree-of_same s.db2 (unkeyed db') (ground arith) (ground arith) before

refund_locked-RefundsAgree : (c : RefundCommand) → LockedRefundPreserves RefundsAgree c
unfolding apply_refund post_refund create_refund find_by_public_id
refund_locked-RefundsAgree c refund_id draws locked a db db' seen passed ran h =
    let s : RefundSteps c refund_id draws locked db db' =
      refund_locked-steps c refund_id draws locked a db db' ran in
    let row = locked.payment in
    let passes = can_refund row in
    let change = set_refunded row c.amount_minor locked.transaction_time in
    let new : Refund =
      refund_row (refund_input c refund_id draws.uuid row locked.transaction_time) in
    let added : s.db1 ≡ record db { refunds = db.refunds ++ (new ∷ []) } =
      ground (arith, s.creating) in
    let others2 : record s.db2 { ledger_transactions = s.db1.ledger_transactions } ≡ s.db1 =
      ground (
        arith,
        s.posting,
        post-others draws.posting (refund_posting c s.refund.public_id row locked.transaction_time)
            BusinessType.refund s.db1,
      ) in
    let others3 : record s.db3 { payment_intents = s.db2.payment_intents } ≡ s.db2 =
      ground (arith, s.updating, update_one-others passes change row s.db2) in
    let others4 : record db' { outbox_events = s.db3.outbox_events } ≡ s.db3 =
      ground (arith, s.telling, insert_domain_event-others draws.event s.event s.db3) in
    let found : find_by_public_id c.merchant_id c.payment_id db ≡ some row =
      lock_find draws.clock c.merchant_id c.payment_id locked db seen in
    let rows : s.db3.payment_intents ≡ map (update_where passes change) db.payment_intents =
      update_one-rows passes change row s.updated s.db2 s.db3 s.updating
      ∙ ap (map (update_where passes change)) (ground arith) in
    let refunds : s.db3.refunds ≡ db.refunds ++ (new ∷ []) = ground arith in
    let after : RefundsAgree s.db3 =
      updated-RefundsAgree s.db3 passes change db.payment_intents (λ p. refl) rows h.distinct
        (subst (All _) (sym refunds) (
          All-append _ db.refunds (new ∷ []) h.known (found_id _ db.payment_intents row found, tt)))
        (All-map _ _ db.payment_intents
          (λ p both.
            subst
              (λ rs.
                (passes p ≡ true
                  → total_refunded p.id rs ≡ p.refunded_amount_minor + c.amount_minor)
                × (passes p ≡ false → total_refunded p.id rs ≡ p.refunded_amount_minor))
              (sym refunds)
              (total_refunded-refunded row p c new db.refunds passed refl refl both.0 both.1))
          (All-both _ _ db.payment_intents (only_id _ db.payment_intents row h.distinct found)
            h.totals)) in
    RefundsAgree-of_same s.db3 (unkeyed db') (ground arith) (ground arith) after

create_operation-RefundsAgree :
    (c : CreateCommand) (payment_id : Text) (occurred_at : ℕ) (event_ulid : Text) (draws : Draws)
    → PreservesReturning RefundsAgree (create_operation c payment_id occurred_at event_ulid draws)
unfolding create_operation settle_flow.Payments.Repository.create insert_domain_event
create_operation-RefundsAgree c payment_id occurred_at event_ulid draws a db db' ran h =
    let input : CreatePaymentIntent = record {
      amount_minor = c.amount_minor;
      currency = c.currency;
      external_ref = c.external_ref;
      merchant_id = c.merchant_id;
      public_id = payment_id;
    } in
    let row : PaymentIntent = new_payment_intent draws.uuid draws.clock input in
    let rows : db'.payment_intents ≡ db.payment_intents ++ (row ∷ []) = ground arith in
    let fresh : any (λ p. text_eq p.id draws.uuid) db.payment_intents ≡ false = ground arith in
    RefundsAgree-of_same
      (record (unkeyed db) { payment_intents = db.payment_intents ++ (row ∷ []) }) (unkeyed db')
      rows (ground arith) (added-RefundsAgree (unkeyed db) row fresh refl h)

-- `create` keeps the refunds in agreement with the payment intents, whatever it answers: the
-- identifiers stay different, every refund is one of an intent, and the refunds of each intent add up
-- to its refunded amount.
pub create-RefundsAgree :
    (env : Environment) (c : CreateCommand) (r : Result PaymentIntentRepresentation)
    (db db' : Database)
    → settle_flow.Payments.Service.create env c db ≡ (r, db')
    → RefundsAgree db
    → RefundsAgree db'
create-RefundsAgree env c r db db' ran h = RefundsAgree-of_same (unkeyed db') db' refl refl (
    create-Preserves RefundsAgree env c (create_operation-RefundsAgree c) r db db' ran
      (RefundsAgree-of_same db (unkeyed db) refl refl h))

-- `capture` keeps the refunds in agreement with the payment intents, whatever it answers.
pub capture-RefundsAgree :
    (env : Environment) (c : CaptureCommand) (r : Result Captured) (db db' : Database)
    → settle_flow.Payments.Service.capture env c db ≡ (r, db')
    → RefundsAgree db
    → RefundsAgree db'
capture-RefundsAgree env c r db db' ran h = RefundsAgree-of_same (unkeyed db') db' refl refl (
    capture-Preserves RefundsAgree env c (capture_locked-RefundsAgree c) r db db' ran
      (RefundsAgree-of_same db (unkeyed db) refl refl h))

-- `refund` keeps the refunds in agreement with the payment intents, whatever it answers: with the new
-- refund, too, the refunds of each intent add up to its refunded amount.
pub refund-RefundsAgree :
    (env : Environment) (c : RefundCommand) (r : Result RefundRepresentation) (db db' : Database)
    → settle_flow.Payments.Service.refund env c db ≡ (r, db')
    → RefundsAgree db
    → RefundsAgree db'
refund-RefundsAgree env c r db db' ran h = RefundsAgree-of_same (unkeyed db') db' refl refl (
    refund-Preserves RefundsAgree env c (refund_locked-RefundsAgree c) r db db' ran
      (RefundsAgree-of_same db (unkeyed db) refl refl h))
