-- ===== src/Payments/Projection/Commands.antt =====
-- The commands of packages/modules/payments/src/payment-intent.service.ts and the constraint on the status
-- projection.
use settle_flow.Payments.Preservation.{PreservesReturning}
use settle_flow.Database.Idempotency.{RefundRepresentation, PaymentIntentRepresentation}
use settle_flow.Database.Payments.{PaymentIntent}
use settle_flow.Common.Int.{pos}
use settle_flow.Common.Action.{Result, ok}
use settle_flow.Eventing.Outbox.{insert_domain_event}
use settle_flow.Payments.Service.{Environment, create}
use settle_flow.Payments.Repository.{
  set_refunded, new_payment_intent, can_refund, apply_refund, CreatePaymentIntent, set_captured,
  find_by_public_id, can_capture,
}
use settle_flow.Common.Text.{text_eq, Text}
use settle_flow.Database.Ledger.{BusinessType, capture, LedgerTransaction}
use settle_flow.Ledger.Service.{
  post_refund, post_capture, post, is_bad_money, LedgerMoneyPostingCommand, Generated,
}
use settle_flow.Payments.Operations.{
  refund_posting, refund_input, Captured, create_operation, capture_posting, capture_error, Draws,
}
use settle_flow.Database.{Database}
use settle_flow.Payments.Responses.{RefundCommand, CreateCommand, CaptureCommand}
use settle_flow.Common.{
  ◌∷◌, ◌∙◌, ◌++◌, refl, [], All-append, ◌≡◌, ◌&&◌, ℕ, true, sym, subst, some, ltb, find?-All, arith,
  All,
}
use settle_flow.Payments.Projection.{
  IsProjected, is_projected, update_one-All, lock_find, captured-is_projected, can_capture_self,
  can_refund_self, refunded-is_projected,
}
use settle_flow.Payments.Preservation.Commands.{
  LockedRefundPreserves, LockedCapturePreserves, create-Preserves, capture-Preserves,
  refund-Preserves,
}
use settle_flow.Payments.Steps.{
  RefundSteps, CaptureSteps, capture_locked-steps, refund_locked-steps, post-others,
  insert_domain_event-others, create_refund-others,
}

pub create_operation-IsProjected :
    (c : CreateCommand) (payment_id : Text) (occurred_at : ℕ) (event_ulid : Text) (draws : Draws)
    → PreservesReturning IsProjected (create_operation c payment_id occurred_at event_ulid draws)
unfolding create_operation settle_flow.Payments.Repository.create insert_domain_event is_projected
create_operation-IsProjected c payment_id occurred_at event_ulid draws a db db' ran h =
    let input : CreatePaymentIntent = record {
      amount_minor = c.amount_minor;
      currency = c.currency;
      external_ref = c.external_ref;
      merchant_id = c.merchant_id;
      public_id = payment_id;
    } in
    let row : PaymentIntent = new_payment_intent draws.uuid draws.clock input in
    let rows : db'.payment_intents ≡ db.payment_intents ++ (row ∷ []) = ground arith in
    subst (All (λ p. is_projected p ≡ true)) (sym rows)
      (All-append (λ p. is_projected p ≡ true) db.payment_intents (row ∷ []) h (refl, tt))

post_refund-positive :
    (g : Generated) (c : LedgerMoneyPostingCommand) (n : ℕ) (t : LedgerTransaction)
    (db db' : Database)
    → c.amount_minor ≡ pos n
    → post_refund g c db ≡ (ok t, db')
    → ltb 0 n ≡ true
unfolding post_refund post is_bad_money
post_refund-positive g c n t db db' amount ran = ground arith

pub capture_locked-IsProjected : (c : CaptureCommand) → LockedCapturePreserves IsProjected c
unfolding settle_flow.Payments.Repository.capture find_by_public_id capture_error post_capture
capture_locked-IsProjected c draws locked a db db' seen passed ran h =
    let s : CaptureSteps c draws locked db db' = capture_locked-steps c draws locked a db db' ran in
    let row = locked.payment in
    let found : find_by_public_id c.merchant_id c.payment_id db ≡ some row =
      lock_find draws.clock c.merchant_id c.payment_id locked db seen in
    let old : is_projected row ≡ true =
      find?-All (λ p. is_projected p ≡ true) _ db.payment_intents row h found in
    let rows1 : s.db1.payment_intents ≡ db.payment_intents = ground (
      arith,
      s.posting,
      post-others draws.posting (capture_posting c row locked.transaction_time) capture db,
    ) in
    let rows2 : db'.payment_intents ≡ s.db2.payment_intents =
      ground (arith, s.telling, insert_domain_event-others draws.event s.event s.db2) in
    subst (All (λ p. is_projected p ≡ true)) (sym rows2) (
      update_one-All (λ p. is_projected p ≡ true)
        (λ p. text_eq p.merchant_id c.merchant_id && text_eq p.public_id c.payment_id)
        (can_capture row) (set_captured row locked.transaction_time) row s.updated s.db1 s.db2
        (ground arith) (can_capture_self row old (ground arith))
        (captured-is_projected row locked.transaction_time old (ground arith)) s.updating
        (subst (All (λ p. is_projected p ≡ true)) (sym rows1) h))

pub refund_locked-IsProjected : (c : RefundCommand) → LockedRefundPreserves IsProjected c
unfolding apply_refund find_by_public_id post_refund
refund_locked-IsProjected c refund_id draws locked a db db' seen passed ran h =
    let s : RefundSteps c refund_id draws locked db db' =
      refund_locked-steps c refund_id draws locked a db db' ran in
    let row = locked.payment in
    let found : find_by_public_id c.merchant_id c.payment_id db ≡ some row =
      lock_find draws.clock c.merchant_id c.payment_id locked db seen in
    let old : is_projected row ≡ true =
      find?-All (λ p. is_projected p ≡ true) _ db.payment_intents row h found in
    let positive : ltb 0 c.amount_minor ≡ true =
      post_refund-positive draws.posting
        (refund_posting c s.refund.public_id row locked.transaction_time) c.amount_minor s.posted
        s.db1 s.db2 refl s.posting in
    let rows1 : s.db1.payment_intents ≡ db.payment_intents = ground (
      arith,
      s.creating,
      create_refund-others (refund_input c refund_id draws.uuid row locked.transaction_time) db,
    ) in
    let rows2 : s.db2.payment_intents ≡ s.db1.payment_intents = ground (
      arith,
      s.posting,
      post-others draws.posting (refund_posting c s.refund.public_id row locked.transaction_time)
          BusinessType.refund s.db1,
    ) in
    let rows3 : db'.payment_intents ≡ s.db3.payment_intents =
      ground (arith, s.telling, insert_domain_event-others draws.event s.event s.db3) in
    subst (All (λ p. is_projected p ≡ true)) (sym rows3) (
      update_one-All (λ p. is_projected p ≡ true)
        (λ p. text_eq p.merchant_id c.merchant_id && text_eq p.public_id c.payment_id)
        (can_refund row) (set_refunded row c.amount_minor locked.transaction_time) row s.updated
        s.db2 s.db3 (ground arith) (can_refund_self row c passed)
        (refunded-is_projected row c locked.transaction_time old passed positive) s.updating
        (subst (All (λ p. is_projected p ≡ true)) (sym (rows2 ∙ rows1)) h))

-- `create` keeps the constraint on the status projection true of every payment intent, whatever it
-- answers.
pub create-IsProjected :
    (env : Environment) (c : CreateCommand) (r : Result PaymentIntentRepresentation)
    (db db' : Database)
    → settle_flow.Payments.Service.create env c db ≡ (r, db')
    → IsProjected db
    → IsProjected db'
create-IsProjected env c = create-Preserves IsProjected env c (create_operation-IsProjected c)

-- `capture` keeps the constraint on the status projection true of every payment intent, whatever it
-- answers.
pub capture-IsProjected :
    (env : Environment) (c : CaptureCommand) (r : Result Captured) (db db' : Database)
    → settle_flow.Payments.Service.capture env c db ≡ (r, db')
    → IsProjected db
    → IsProjected db'
capture-IsProjected env c = capture-Preserves IsProjected env c (capture_locked-IsProjected c)

-- `refund` keeps the constraint on the status projection true of every payment intent, whatever it
-- answers: no refunded amount exceeds the captured one, and a fully refunded intent is marked so.
pub refund-IsProjected :
    (env : Environment) (c : RefundCommand) (r : Result RefundRepresentation) (db db' : Database)
    → settle_flow.Payments.Service.refund env c db ≡ (r, db')
    → IsProjected db
    → IsProjected db'
refund-IsProjected env c = refund-Preserves IsProjected env c (refund_locked-IsProjected c)
