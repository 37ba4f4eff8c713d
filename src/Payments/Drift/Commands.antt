-- ===== src/Payments/Drift/Commands.antt =====
-- The commands of packages/modules/payments/src/payment-intent.service.ts leave the drift as it was.
use settle_flow.Eventing.Outbox.{insert_domain_event}
use settle_flow.Payments.Preservation.{PreservesReturning}
use settle_flow.Ledger.Balance.{balance}
use settle_flow.Common.Action.{Result}
use settle_flow.Database.Idempotency.{PaymentIntentRepresentation, RefundRepresentation}
use settle_flow.Payments.Service.{create, Environment}
use settle_flow.Ledger.Service.{post_refund, post_capture}
use settle_flow.Common.Int.{◌-ℤ◌, ◌+ℤ◌, ℤ, pos}
use settle_flow.Database.Payments.{PaymentIntent, status_eq, created}
use settle_flow.Payments.Operations.{
  create_operation, Draws, refund_posting, refund_input, Captured, capture_posting, capture_error,
}
use settle_flow.Payments.Repository.{
  new_payment_intent, CreatePaymentIntent, set_refunded, create_refund, can_refund, apply_refund,
  update_where, set_captured, find_by_public_id, can_capture,
}
use settle_flow.Common.{
  ◌∷◌, ◌++◌, ℕ, [], ◌∙◌, refl, ap, only_pass, ◌≡◌, ◌&&◌, true, subst, some, map, if◌then◌else◌,
  find?-All, count_if, arith,
}
use settle_flow.Common.Text.{text_eq, Text}
use settle_flow.Database.{Database}
use settle_flow.Payments.Responses.{CreateCommand, RefundCommand, CaptureCommand}
use settle_flow.Database.Ledger.{merchant_payable, currency_eq, Currency, BusinessType}
use settle_flow.Payments.Drift.{
  worth-new, owed-append, level-refund, level-capture, drift, owed, worth, owed-update, offset,
  update_one-count, found_in_merchant,
}
use settle_flow.Payments.Projection.{
  IsProjected, is_projected, can_capture_self, can_refund_self, lock_find,
}
use settle_flow.Payments.Projection.Commands.{
  create_operation-IsProjected, capture_locked-IsProjected, refund_locked-IsProjected,
}
use settle_flow.Payments.Preservation.Commands.{
  create-Preserves, capture-Preserves, refund-Preserves, LockedCapturePreserves,
  LockedRefundPreserves,
}
use settle_flow.Payments.Refunds.{update_one-rows}
use settle_flow.Payments.Steps.{
  CaptureSteps, RefundSteps, capture_locked-steps, refund_locked-steps, post-others,
  insert_domain_event-others, create_refund-others, update_one-others,
}
use settle_flow.Ledger.Effects.{post_capture-balance, post_refund-balance}

module _ (m : Text) (cur : Currency) (k : ℤ) where
  Steady : Database → Type 0
  Steady db = IsProjected db × (drift m cur db ≡ k)

  capture_locked-Steady : (c : CaptureCommand) → LockedCapturePreserves Steady c
  unfolding Steady drift settle_flow.Payments.Repository.capture post_capture find_by_public_id
      capture_error is_projected
  capture_locked-Steady c draws locked a db db' seen passed ran h =
      let s : CaptureSteps c draws locked db db' =
        capture_locked-steps c draws locked a db db' ran in
      let row = locked.payment in
      let passes = can_capture row in
      let change = set_captured row locked.transaction_time in
      let others1 : record s.db1 { ledger_transactions = db.ledger_transactions } ≡ db = ground (
        arith,
        s.posting,
        post-others draws.posting (capture_posting c row locked.transaction_time)
            BusinessType.capture db,
      ) in
      let others2 : record s.db2 { payment_intents = s.db1.payment_intents } ≡ s.db1 =
        ground (arith, s.updating, update_one-others passes change row s.db1) in
      let others3 : record db' { outbox_events = s.db2.outbox_events } ≡ s.db2 =
        ground (arith, s.telling, insert_domain_event-others draws.event s.event s.db2) in
      let same1 : s.db1.payment_intents ≡ db.payment_intents = ground arith in
      let found : find_by_public_id c.merchant_id c.payment_id db ≡ some row =
        lock_find draws.clock c.merchant_id c.payment_id locked db seen in
      let old : is_projected row ≡ true =
        find?-All (λ p. is_projected p ≡ true) _ db.payment_intents row h.0 found in
      let created_row : status_eq row.payment_status created ≡ true = ground arith in
      let one : count_if passes db.payment_intents ≡ 1 =
        subst (λ rows. count_if passes rows ≡ 1) same1
          (update_one-count passes change row s.updated s.db1 s.db2 s.updating) in
      let moved = owed-update m cur passes change row db.payment_intents one (
        only_pass passes _ db.payment_intents row one (can_capture_self row old created_row)
          found) in
      let rows : db'.payment_intents ≡ map (update_where passes change) db.payment_intents =
        (let same2 : db'.payment_intents ≡ s.db2.payment_intents = ground arith in
          same2
          ∙ update_one-rows passes change row s.updated s.db1 s.db2 s.updating
          ∙ ap (map (update_where passes change)) same1) in
      let posted =
        post_capture-balance draws.posting (capture_posting c row locked.transaction_time) db
          s.posting m cur merchant_payable in
      let books : db'.ledger_transactions ≡ s.db1.ledger_transactions = ground arith in
      let level : worth m cur (change row)
            +ℤ (if text_eq c.merchant_id m && currency_eq row.currency cur
                then pos 0 -ℤ pos c.amount_minor
                else pos 0)
          ≡ worth m cur row =
        level-capture m cur row locked.transaction_time c.merchant_id c.amount_minor
          (found_in_merchant c.merchant_id c.payment_id row db found) (ground arith)
          (ground arith) in
      (
        capture_locked-IsProjected c draws locked a db db' seen passed ran h.0,
        offset (balance m cur merchant_payable db.ledger_transactions)
              (balance m cur merchant_payable db'.ledger_transactions)
              (owed m cur db.payment_intents) (owed m cur db'.payment_intents) _ (worth m cur row)
              (worth m cur (change row)) (ap (balance m cur merchant_payable) books ∙ posted)
              (ap (λ ps. owed m cur ps +ℤ worth m cur row) rows ∙ moved) level
            ∙ h.1,
      )

  refund_locked-Steady : (c : RefundCommand) → LockedRefundPreserves Steady c
  unfolding Steady drift apply_refund post_refund create_refund find_by_public_id
  refund_locked-Steady c refund_id draws locked a db db' seen passed ran h =
      let s : RefundSteps c refund_id draws locked db db' =
        refund_locked-steps c refund_id draws locked a db db' ran in
      let row = locked.payment in
      let passes = can_refund row in
      let change = set_refunded row c.amount_minor locked.transaction_time in
      let others1 : record s.db1 { refunds = db.refunds } ≡ db = ground (
        arith,
        s.creating,
        create_refund-others (refund_input c refund_id draws.uuid row locked.transaction_time) db,
      ) in
      let others2 : record s.db2 { ledger_transactions = s.db1.ledger_transactions } ≡ s.db1 =
        ground (
          arith,
          s.posting,
          post-others draws.posting
              (refund_posting c s.refund.public_id row locked.transaction_time) BusinessType.refund
              s.db1,
        ) in
      let others3 : record s.db3 { payment_intents = s.db2.payment_intents } ≡ s.db2 =
        ground (arith, s.updating, update_one-others passes change row s.db2) in
      let others4 : record db' { outbox_events = s.db3.outbox_events } ≡ s.db3 =
        ground (arith, s.telling, insert_domain_event-others draws.event s.event s.db3) in
      let same2 : s.db2.payment_intents ≡ db.payment_intents = ground arith in
      let found : find_by_public_id c.merchant_id c.payment_id db ≡ some row =
        lock_find draws.clock c.merchant_id c.payment_id locked db seen in
      let one : count_if passes db.payment_intents ≡ 1 =
        subst (λ rows. count_if passes rows ≡ 1) same2
          (update_one-count passes change row s.updated s.db2 s.db3 s.updating) in
      let effect : ℤ =
        if text_eq c.merchant_id m && currency_eq row.currency cur
        then pos 0 -ℤ (pos 0 -ℤ pos c.amount_minor)
        else pos 0 in
      let moved =
        owed-update m cur passes change row db.payment_intents one
          (only_pass passes _ db.payment_intents row one (can_refund_self row c passed) found) in
      let rows : db'.payment_intents ≡ map (update_where passes change) db.payment_intents =
        (let same3 : db'.payment_intents ≡ s.db3.payment_intents = ground arith in
          same3
          ∙ update_one-rows passes change row s.updated s.db2 s.db3 s.updating
          ∙ ap (map (update_where passes change)) same2) in
      let posted =
        post_refund-balance draws.posting
          (refund_posting c s.refund.public_id row locked.transaction_time) s.db1 s.posting m cur
          merchant_payable in
      let books : db'.ledger_transactions ≡ s.db2.ledger_transactions = ground arith in
      let before : s.db1.ledger_transactions ≡ db.ledger_transactions = ground arith in
      let level =
        level-refund m cur row locked.transaction_time c.merchant_id c.amount_minor
          (found_in_merchant c.merchant_id c.payment_id row db found) in
      (
        refund_locked-IsProjected c refund_id draws locked a db db' seen passed ran h.0,
        offset (balance m cur merchant_payable db.ledger_transactions)
              (balance m cur merchant_payable db'.ledger_transactions)
              (owed m cur db.payment_intents) (owed m cur db'.payment_intents) _ (worth m cur row)
              (worth m cur (change row))
              (ap (balance m cur merchant_payable) books
                ∙ posted
                ∙ ap (λ ts. balance m cur merchant_payable ts +ℤ effect) before)
              (ap (λ ps. owed m cur ps +ℤ worth m cur row) rows ∙ moved) level
            ∙ h.1,
      )

-- A new intent is worth nothing, and nothing is posted for it.
create_operation-Steady :
    (m : Text) (cur : Currency) (k : ℤ) (c : CreateCommand) (payment_id : Text) (occurred_at : ℕ)
    (event_ulid : Text) (draws : Draws)
    → PreservesReturning
        (Steady m cur k)
        (create_operation c payment_id occurred_at event_ulid draws)
unfolding Steady drift create_operation settle_flow.Payments.Repository.create insert_domain_event
create_operation-Steady m cur k c payment_id occurred_at event_ulid draws a db db' ran h =
    let input : CreatePaymentIntent = record {
      amount_minor = c.amount_minor;
      currency = c.currency;
      external_ref = c.external_ref;
      merchant_id = c.merchant_id;
      public_id = payment_id;
    } in
    let row : PaymentIntent = new_payment_intent draws.uuid draws.clock input in
    let rows : db'.payment_intents ≡ db.payment_intents ++ (row ∷ []) = ground arith in
    let ledger : db'.ledger_transactions ≡ db.ledger_transactions = ground arith in
    (
      create_operation-IsProjected c payment_id occurred_at event_ulid draws a db db' ran h.0,
      ap (λ ts. balance m cur merchant_payable ts +ℤ owed m cur db'.payment_intents) ledger
          ∙ ap (λ ps. balance m cur merchant_payable db.ledger_transactions +ℤ owed m cur ps) rows
          ∙ ap (λ o. balance m cur merchant_payable db.ledger_transactions +ℤ o)
              (owed-append m cur db.payment_intents row (worth-new m cur row refl refl))
          ∙ h.1,
    )

-- `create` leaves the drift as it was.
pub create-drift :
    (m : Text) (cur : Currency) (env : Environment) (c : CreateCommand)
    (r : Result PaymentIntentRepresentation) (db db' : Database)
    → settle_flow.Payments.Service.create env c db ≡ (r, db')
    → IsProjected db
    → drift m cur db' ≡ drift m cur db
unfolding Steady drift
create-drift m cur env c r db db' ran h =
    (create-Preserves (Steady m cur (drift m cur db)) env c
      (create_operation-Steady m cur (drift m cur db) c) r db db' ran (h, refl)).1

-- `capture` moves the ledger and the payment intents together: where the intents meet the constraint on
-- their status, what the ledger owes any merchant in a currency and what the merchant's intents say
-- (captured less refunded) differ by as much after it as before, whatever it answers.
pub capture-drift :
    (m : Text) (cur : Currency) (env : Environment) (c : CaptureCommand) (r : Result Captured)
    (db db' : Database)
    → settle_flow.Payments.Service.capture env c db ≡ (r, db')
    → IsProjected db
    → drift m cur db' ≡ drift m cur db
unfolding Steady drift
capture-drift m cur env c r db db' ran h =
    (capture-Preserves (Steady m cur (drift m cur db)) env c
      (capture_locked-Steady m cur (drift m cur db) c) r db db' ran (h, refl)).1

-- `refund` moves the ledger and the payment intents together: where the intents meet the constraint on
-- their status, what the ledger owes any merchant in a currency and what the merchant's intents say
-- differ by as much after it as before, whatever it answers.
pub refund-drift :
    (m : Text) (cur : Currency) (env : Environment) (c : RefundCommand)
    (r : Result RefundRepresentation) (db db' : Database)
    → settle_flow.Payments.Service.refund env c db ≡ (r, db')
    → IsProjected db
    → drift m cur db' ≡ drift m cur db
unfolding Steady drift
refund-drift m cur env c r db db' ran h =
    (refund-Preserves (Steady m cur (drift m cur db)) env c
      (refund_locked-Steady m cur (drift m cur db) c) r db db' ran (h, refl)).1
