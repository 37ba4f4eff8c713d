-- ===== src/Payments/Histories.antt =====
-- Any sequence of the commands of packages/modules/payments/src/payment-intent.service.ts, each with
-- its own environment. A command reads and writes the intents, the refunds, the ledger and the outbox
-- in one transaction that has locked the row of the intent.
use settle_flow.Payments.Atomicity.{unkeyed}
use settle_flow.Payments.Drift.{drift}
use settle_flow.Payments.Drift.Commands.{refund-drift, create-drift, capture-drift}
use settle_flow.Payments.Atomicity.Commands.{refund-clean, create-clean, capture-clean}
use settle_flow.Payments.Refunds.Commands.{
  refund-RefundsAgree, create-RefundsAgree, capture-RefundsAgree,
}
use settle_flow.Payments.Accounting.{refund-IsSound, create-IsSound, capture-IsSound}
use settle_flow.Payments.Projection.Commands.{
  refund-IsProjected, create-IsProjected, capture-IsProjected,
}
use settle_flow.Common.Text.{Text}
use settle_flow.Common.Action.{ok, err, Result}
use settle_flow.Payments.Refunds.{RefundsAgree}
use settle_flow.Common.{◌≡◌, ◌∷◌, ◌∙◌, some, refl, none, arith, [], Option, List}
use settle_flow.Ledger.Soundness.Invariant.{IsSound}
use settle_flow.Payments.Projection.{IsProjected}
use settle_flow.Common.Errors.{Error}
use settle_flow.Payments.Service.{create, Environment}
use settle_flow.Database.{Database}
use settle_flow.Database.Ledger.{Currency}
use settle_flow.Payments.Responses.{RefundCommand, CreateCommand, CaptureCommand}

pub data PaymentCommand : Type 0 where
  create_with : CreateCommand → PaymentCommand
  capture_with : CaptureCommand → PaymentCommand
  refund_with : RefundCommand → PaymentCommand

abbrev error_of : {A : Type 0} → Result A → Option Error
error_of (ok a) = none
error_of (err e) = some e

-- What a command leaves behind, and the error that it answers with, if any.
unfoldable pub perform : Environment → PaymentCommand → Database → Database
perform env (create_with c) db = (settle_flow.Payments.Service.create env c db).1
perform env (capture_with c) db = (settle_flow.Payments.Service.capture env c db).1
perform env (refund_with c) db = (settle_flow.Payments.Service.refund env c db).1

unfoldable pub failure : Environment → PaymentCommand → Database → Option Error
failure env (create_with c) db = error_of (settle_flow.Payments.Service.create env c db).0
failure env (capture_with c) db = error_of (settle_flow.Payments.Service.capture env c db).0
failure env (refund_with c) db = error_of (settle_flow.Payments.Service.refund env c db).0

unfoldable pub history : List (Environment × PaymentCommand) → Database → Database
history [] db = db
history ((env, x) ∷ xs) db = history xs (perform env x db)

-- What every command keeps, every history keeps.
history-kept :
    (P : Database → Type 0) (xs : List (Environment × PaymentCommand)) (db : Database)
    → ((env : Environment) (x : PaymentCommand) (d : Database) → P d → P (perform env x d))
    → P db
    → P (history xs db)
unfolding history
history-kept P [] db keep h = h
history-kept P ((env, x) ∷ xs) db keep h =
    history-kept P xs (perform env x db) keep (keep env x db h)

perform-IsProjected :
    (env : Environment) (x : PaymentCommand) (db : Database)
    → IsProjected db
    → IsProjected (perform env x db)
unfolding perform
perform-IsProjected env (create_with c) db = create-IsProjected env c _ db _ refl
perform-IsProjected env (capture_with c) db = capture-IsProjected env c _ db _ refl
perform-IsProjected env (refund_with c) db = refund-IsProjected env c _ db _ refl

perform-RefundsAgree :
    (env : Environment) (x : PaymentCommand) (db : Database)
    → RefundsAgree db
    → RefundsAgree (perform env x db)
unfolding perform
perform-RefundsAgree env (create_with c) db = create-RefundsAgree env c _ db _ refl
perform-RefundsAgree env (capture_with c) db = capture-RefundsAgree env c _ db _ refl
perform-RefundsAgree env (refund_with c) db = refund-RefundsAgree env c _ db _ refl

perform-IsSound :
    (env : Environment) (x : PaymentCommand) (db : Database)
    → IsSound db
    → IsSound (perform env x db)
unfolding perform
perform-IsSound env (create_with c) db = create-IsSound env c _ db _ refl
perform-IsSound env (capture_with c) db = capture-IsSound env c _ db _ refl
perform-IsSound env (refund_with c) db = refund-IsSound env c _ db _ refl

perform-drift :
    (m : Text) (cur : Currency) (env : Environment) (x : PaymentCommand) (db : Database)
    → IsProjected db
    → drift m cur (perform env x db) ≡ drift m cur db
unfolding perform
perform-drift m cur env (create_with c) db = create-drift m cur env c _ db _ refl
perform-drift m cur env (capture_with c) db = capture-drift m cur env c _ db _ refl
perform-drift m cur env (refund_with c) db = refund-drift m cur env c _ db _ refl

-- After any sequence of creates, captures and refunds, whatever each answers, every payment intent
-- meets the constraint of its table on the status: the status, the captured and the refunded amount and
-- the time of the capture belong together.
pub history-IsProjected :
    (xs : List (Environment × PaymentCommand)) (db : Database)
    → IsProjected db
    → IsProjected (history xs db)
history-IsProjected xs db = history-kept IsProjected xs db perform-IsProjected

-- After any sequence of creates, captures and refunds, whatever each answers, the identifiers of the
-- intents are different, every refund is one of an intent, and the refunds of each intent add up to its
-- refunded amount.
pub history-RefundsAgree :
    (xs : List (Environment × PaymentCommand)) (db : Database)
    → RefundsAgree db
    → RefundsAgree (history xs db)
history-RefundsAgree xs db = history-kept RefundsAgree xs db perform-RefundsAgree

-- A sound ledger is sound after any sequence of creates, captures and refunds, whatever each answers:
-- every transaction passes the check of the trigger, and no two share an identifier.
pub history-IsSound :
    (xs : List (Environment × PaymentCommand)) (db : Database)
    → IsSound db
    → IsSound (history xs db)
history-IsSound xs db = history-kept IsSound xs db perform-IsSound

-- Any sequence of creates, captures and refunds moves the ledger and the payment intents together:
-- where the intents meet the constraint on their status, what the ledger owes any merchant in a
-- currency and what the merchant's intents say (captured less refunded) differ by as much after it as
-- before, whatever each command answers.
pub history-drift :
    (m : Text) (cur : Currency) (xs : List (Environment × PaymentCommand)) (db : Database)
    → IsProjected db
    → drift m cur (history xs db) ≡ drift m cur db
unfolding history
history-drift m cur [] db h = refl
history-drift m cur ((env, x) ∷ xs) db h =
    history-drift m cur xs (perform env x db) (perform-IsProjected env x db h)
    ∙ perform-drift m cur env x db h

failed_is :
    {A : Type 0} (r : Result A × Database) (e : Error) → error_of r.0 ≡ some e → r ≡ (err e, r.1)
failed_is (ok a, db) e with_error = absurd (ground arith)
failed_is (err f, db) e with_error = ground arith

-- A command that fails has changed nothing but the idempotency keys: whatever the error, the drawn
-- identifiers, the answer of the provider and the faults of the database, no payment intent, refund,
-- ledger row or event is left behind or changed, also where a refused command has stored its problem
-- document.
pub failed-clean :
    (env : Environment) (x : PaymentCommand) (e : Error) (db : Database)
    → failure env x db ≡ some e
    → unkeyed (perform env x db) ≡ unkeyed db
unfolding perform failure
failed-clean env (create_with c) e db with_error =
    create-clean env c e db _ (failed_is _ e with_error)
failed-clean env (capture_with c) e db with_error =
    capture-clean env c e db _ (failed_is _ e with_error)
failed-clean env (refund_with c) e db with_error =
    refund-clean env c e db _ (failed_is _ e with_error)
