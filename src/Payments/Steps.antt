-- ===== src/Payments/Steps.antt =====
-- The statements of the transactions of packages/modules/payments/src/payment-intent.service.ts, one by
-- one, and the tables that each leaves alone.
use settle_flow.Database.Eventing.{payment_refunded, payment_captured}
use settle_flow.Ledger.Repository.{create_posting}
use settle_flow.Common.Text.{Text}
use settle_flow.Common.Action.{ok, err, Result}
use settle_flow.Database.Idempotency.{StoredHttpResponse, RefundRepresentation}
use settle_flow.Database.Payments.{Refund, PaymentIntent}
use settle_flow.Eventing.Outbox.{
  insert_domain_event, create_payment_event, PaymentEvent, GeneratedEvent,
}
use settle_flow.Ledger.Service.{
  post_refund, post_capture, post, LedgerMoneyPostingCommand, Generated,
}
use settle_flow.Database.{Database}
use settle_flow.Payments.Repository.{
  update_one, create_refund, apply_refund, LockedPaymentIntent, CreateRefund,
}
use settle_flow.Payments.Operations.{
  refund_posting, refund_locked, refund_input, capture_posting, capture_locked, Draws,
  CommandResult, Captured,
}
use settle_flow.Payments.Responses.{RefundCommand, CaptureCommand}
use settle_flow.Database.Ledger.{LedgerTransaction, BusinessType}
use settle_flow.Common.{◌≡◌, refl, arith, Bool}

-- The statements of a capture that commits.
pub record CaptureSteps (c : CaptureCommand) (draws : Draws) (locked : LockedPaymentIntent)
    (db db' : Database) : Type 0 where
  pub posted : LedgerTransaction
  pub updated : PaymentIntent
  pub event : PaymentEvent
  pub db1 : Database
  pub db2 : Database
  pub posting :
      post_capture draws.posting (capture_posting c locked.payment locked.transaction_time) db
      ≡ (ok posted, db1)
  pub updating :
      settle_flow.Payments.Repository.capture locked.payment locked.transaction_time db1
      ≡ (ok updated, db2)
  pub telling : insert_domain_event draws.event event db2 ≡ (ok tt, db')

pub capture_locked-steps :
    (c : CaptureCommand) (draws : Draws) (locked : LockedPaymentIntent)
    (a : StoredHttpResponse × CommandResult Captured) (db db' : Database)
    → capture_locked c draws locked db ≡ (ok a, db')
    → CaptureSteps c draws locked db db'
unfolding capture_locked
capture_locked-steps c draws locked a db db' h =
    go (post_capture draws.posting (capture_posting c locked.payment locked.transaction_time) db).0
      (post_capture draws.posting (capture_posting c locked.payment locked.transaction_time) db).1
      refl
  where
    go2 :
        (posted : LedgerTransaction) (db1 : Database)
        → post_capture draws.posting (capture_posting c locked.payment locked.transaction_time) db
          ≡ (ok posted, db1)
        → (s : Result PaymentIntent) (db2 : Database)
        → settle_flow.Payments.Repository.capture locked.payment locked.transaction_time db1
          ≡ (s, db2)
        → CaptureSteps c draws locked db db'
    go2 posted db1 ran (err e) db2 ran1 = absurd (ground arith)
    go2 posted db1 ran (ok u) db2 ran1 = record {
      posted = posted;
      updated = u;
      event =
          create_payment_event draws.event c.merchant_id u.public_id c.request_id
            (payment_captured u.captured_amount_minor u.currency locked.transaction_time
              posted.public_id)
            locked.transaction_time;
      db1 = db1;
      db2 = db2;
      posting = ran;
      updating = ran1;
      telling = ground arith;
    }

    go :
        (r : Result LedgerTransaction) (db1 : Database)
        → post_capture draws.posting (capture_posting c locked.payment locked.transaction_time) db
          ≡ (r, db1)
        → CaptureSteps c draws locked db db'
    go (err e) db1 ran = absurd (ground arith)
    go (ok posted) db1 ran =
        go2 posted db1 ran
          (settle_flow.Payments.Repository.capture locked.payment locked.transaction_time db1).0
          (settle_flow.Payments.Repository.capture locked.payment locked.transaction_time db1).1
          refl

-- The statements of a refund that commits.
pub record RefundSteps (c : RefundCommand) (refund_id : Text) (draws : Draws)
    (locked : LockedPaymentIntent) (db db' : Database) : Type 0 where
  pub refund : Refund
  pub posted : LedgerTransaction
  pub updated : PaymentIntent
  pub event : PaymentEvent
  pub db1 : Database
  pub db2 : Database
  pub db3 : Database
  pub creating :
      create_refund (refund_input c refund_id draws.uuid locked.payment locked.transaction_time) db
      ≡ (ok refund, db1)
  pub posting :
      post_refund draws.posting
        (refund_posting c refund.public_id locked.payment locked.transaction_time)
        db1
      ≡ (ok posted, db2)
  pub updating :
      apply_refund locked.payment c.amount_minor locked.transaction_time db2 ≡ (ok updated, db3)
  pub telling : insert_domain_event draws.event event db3 ≡ (ok tt, db')

pub refund_locked-steps :
    (c : RefundCommand) (refund_id : Text) (draws : Draws) (locked : LockedPaymentIntent)
    (a : StoredHttpResponse × CommandResult RefundRepresentation) (db db' : Database)
    → refund_locked c refund_id draws locked db ≡ (ok a, db')
    → RefundSteps c refund_id draws locked db db'
unfolding refund_locked
refund_locked-steps c refund_id draws locked a db db' h =
    go
      (create_refund (refund_input c refund_id draws.uuid locked.payment locked.transaction_time)
        db).0
      (create_refund (refund_input c refund_id draws.uuid locked.payment locked.transaction_time)
        db).1
      refl
  where
    go3 :
        (row : Refund) (db1 : Database)
        → create_refund
            (refund_input c refund_id draws.uuid locked.payment locked.transaction_time)
            db
          ≡ (ok row, db1)
        → (posted : LedgerTransaction) (db2 : Database)
        → post_refund draws.posting
            (refund_posting c row.public_id locked.payment locked.transaction_time)
            db1
          ≡ (ok posted, db2)
        → (s : Result PaymentIntent) (db3 : Database)
        → apply_refund locked.payment c.amount_minor locked.transaction_time db2 ≡ (s, db3)
        → RefundSteps c refund_id draws locked db db'
    go3 row db1 ran posted db2 ran1 (err e) db3 ran2 = absurd (ground arith)
    go3 row db1 ran posted db2 ran1 (ok u) db3 ran2 = record {
      refund = row;
      posted = posted;
      updated = u;
      event =
          create_payment_event draws.event c.merchant_id u.public_id c.request_id
            (payment_refunded row.public_id c.amount_minor u.currency u.refunded_amount_minor
              posted.public_id)
            locked.transaction_time;
      db1 = db1;
      db2 = db2;
      db3 = db3;
      creating = ran;
      posting = ran1;
      updating = ran2;
      telling = ground arith;
    }

    go2 :
        (row : Refund) (db1 : Database)
        → create_refund
            (refund_input c refund_id draws.uuid locked.payment locked.transaction_time)
            db
          ≡ (ok row, db1)
        → (s : Result LedgerTransaction) (db2 : Database)
        → post_refund draws.posting
            (refund_posting c row.public_id locked.payment locked.transaction_time)
            db1
          ≡ (s, db2)
        → RefundSteps c refund_id draws locked db db'
    go2 row db1 ran (err e) db2 ran1 = absurd (ground arith)
    go2 row db1 ran (ok posted) db2 ran1 =
        go3 row db1 ran posted db2 ran1
          (apply_refund locked.payment c.amount_minor locked.transaction_time db2).0
          (apply_refund locked.payment c.amount_minor locked.transaction_time db2).1 refl

    go :
        (s : Result Refund) (db1 : Database)
        → create_refund
            (refund_input c refund_id draws.uuid locked.payment locked.transaction_time)
            db
          ≡ (s, db1)
        → RefundSteps c refund_id draws locked db db'
    go (err e) db1 ran = absurd (ground arith)
    go (ok row) db1 ran =
        go2 row db1 ran
          (post_refund draws.posting
            (refund_posting c row.public_id locked.payment locked.transaction_time) db1).0
          (post_refund draws.posting
            (refund_posting c row.public_id locked.payment locked.transaction_time) db1).1
          refl

-- A posting writes to the table of the ledger's transactions alone.
pub post-others :
    (g : Generated) (c : LedgerMoneyPostingCommand) (b : BusinessType) (db : Database)
    → record (post g c b db).1 { ledger_transactions = db.ledger_transactions } ≡ db
unfolding post create_posting
post-others g c b db = ground arith

pub insert_domain_event-others :
    (g : GeneratedEvent) (e : PaymentEvent) (db : Database)
    → record (insert_domain_event g e db).1 { outbox_events = db.outbox_events } ≡ db
unfolding insert_domain_event
insert_domain_event-others g e db = ground arith

pub create_refund-others :
    (c : CreateRefund) (db : Database) → record (create_refund c db).1 { refunds = db.refunds } ≡ db
unfolding create_refund
create_refund-others c db = ground arith

pub update_one-others :
    (passes : PaymentIntent → Bool) (change : PaymentIntent → PaymentIntent)
    (intent : PaymentIntent) (db : Database)
    → record (update_one passes change intent db).1 { payment_intents = db.payment_intents } ≡ db
unfolding update_one
update_one-others passes change intent db = ground arith
