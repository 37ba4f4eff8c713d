-- ===== src/Payments/Atomicity.antt =====
-- Failed commands of packages/modules/payments/src/payment-intent.service.ts change nothing but the
-- idempotency keys.
pub mod Commands
use settle_flow.Database.Ledger.{capture}
use settle_flow.Payments.Repository.{lock_by_public_id, LockedPaymentIntent}
use settle_flow.Payments.Operations.{
  refund_operation, refund_locked, create_operation, command_ok, CommandResult, error_result,
  command_error, capture_operation, capture_locked, Draws,
}
use settle_flow.Ledger.Service.{from_result}
use settle_flow.Idempotency.Completion.{Commits, complete-atomic, complete-Commits}
use settle_flow.Payments.Responses.{RefundCommand, CreateCommand, CaptureCommand, command_problem}
use settle_flow.Common.Text.{text, Text}
use settle_flow.Common.Action.{pure, ◌>>◌, ◌>>=◌, ok, err, Result}
use settle_flow.Database.Idempotency.{StoredHttpResponse, IdempotencyOwnership, IdempotencyKey}
use settle_flow.Common.Errors.{provider_declined, payment, Error}
use settle_flow.Payments.Service.{
  try_refund, try_create, create, unwrap, try_capture, with_identifiers, execute_provider,
  complete_problem, Environment,
}
use settle_flow.Database.{Database, Call}
use settle_flow.Common.{
  ◌∷◌, ◌++◌, some, none, find?, Option, ◌≡◌, ◌∙◌, ◌+◌, ℕ, zero, sym, suc, refl, arith, [], Bool,
}
use settle_flow.Idempotency.Repository.{
  new_key, in_scope, complete, acquire_row, acquire, RepositoryOptions, Attempt, AcquireCommand,
}

-- The database without its idempotency keys.
abbrev pub unkeyed : Database → Database
unkeyed db = record db { idempotency_keys = [] }

-- A call that changes nothing but the idempotency keys, whatever it answers.
abbrev pub Keeps : {A : Type 0} → Call A → Type 0
Keeps m = (db : Database) → unkeyed (m db).1 ≡ unkeyed db

-- A call that changes nothing but the idempotency keys when it throws.
abbrev pub FailsClean : {A : Type 0} → Call A → Type 0
FailsClean m = (e : Error) (db db' : Database) → m db ≡ (err e, db') → unkeyed db' ≡ unkeyed db

acquire_row-Keeps :
    (o : RepositoryOptions) (c : AcquireCommand) (row : IdempotencyKey)
    → Keeps (acquire_row o c row)
unfolding acquire_row
acquire_row-Keeps o c row db = ground arith

pub acquire-Keeps : (o : RepositoryOptions) (c : AcquireCommand) → Keeps (acquire o c)
unfolding acquire
acquire-Keeps o c db = go (find? (in_scope c) db.idempotency_keys) refl
  where
    go :
        (found : Option IdempotencyKey)
        → find? (in_scope c) db.idempotency_keys ≡ found
        → unkeyed (acquire o c db).1 ≡ unkeyed db
    go (some row) seen = ground (arith, acquire_row-Keeps o c row db)
    go none seen =
        let kept : unkeyed
              (acquire_row o c (new_key o c)
                (record db { idempotency_keys = db.idempotency_keys ++ (new_key o c ∷ []) })).1
            ≡ unkeyed db =
          acquire_row-Keeps o c (new_key o c)
            (record db { idempotency_keys = db.idempotency_keys ++ (new_key o c ∷ []) }) in
        ground (arith, kept)

module _ {T : Type 0} (o : RepositoryOptions) (own : IdempotencyOwnership) (env : ℕ → Attempt)
    (operation : ℕ → Call (StoredHttpResponse × T)) where
  pub complete-Keeps : ((k : ℕ) → Keeps (operation k)) → Keeps (complete o own env operation)
  complete-Keeps keeps db =
      go (complete o own env operation db).0 (complete o own env operation db).1 refl
    where
      go :
          (r : Result T) (db' : Database)
          → complete o own env operation db ≡ (r, db')
          → unkeyed db' ≡ unkeyed db
      go (err e) db' ran = ground (arith, complete-atomic o own env operation e db db' ran)
      go (ok value) db' ran =
          let (n, low, high, commits) = complete-Commits o own env operation value db db' ran in
          let (response, db1, locked, step, one, final) = commits in
          let same : unkeyed db1 ≡ unkeyed db = ground (arith, step, keeps n db) in
          ground (arith, final, same)

pub complete_problem-Keeps :
    (env : Environment) (own : IdempotencyOwnership) (e : Error) (request_id : Text)
    → Keeps (complete_problem env own e request_id)
unfolding complete_problem
complete_problem-Keeps env own e request_id =
    complete-Keeps env.options own env.problem_attempts
      (λ _. do stored ← from_result (command_problem e request_id); pure (stored, tt))
      λ k db. ground arith

pub execute_provider-Keeps :
    (env : Environment) (own : IdempotencyOwnership) (request_id : Text)
    → Keeps (execute_provider env own request_id)
unfolding execute_provider
execute_provider-Keeps env own request_id db =
    ground (arith, complete_problem-Keeps env own (payment provider_declined) request_id db)

module _ {T : Type 0} (env : Environment) (own : IdempotencyOwnership) (request_id : Text)
    (stores collides : Error → Bool) (run : ℕ → Call T) (clean : (n : ℕ) → FailsClean (run n)) where
  pub with_identifiers-FailsClean :
      (rounds attempt : ℕ)
      → FailsClean (with_identifiers env own request_id stores collides run rounds attempt)
  unfolding with_identifiers
  with_identifiers-FailsClean zero attempt e db db' h = ground arith
  with_identifiers-FailsClean (suc rounds) attempt e db db' h =
      go (run attempt db).0 (run attempt db).1 refl
        (with_identifiers-FailsClean rounds (attempt + 1))
    where
      go :
          (r : Result T) (db1 : Database)
          → run attempt db ≡ (r, db1)
          → FailsClean
              (with_identifiers env own request_id stores collides run rounds (attempt + 1))
          → unkeyed db' ≡ unkeyed db
      go (ok value) db1 ran ih = absurd (ground arith)
      go (err f) db1 ran ih =
          let same : unkeyed db1 ≡ unkeyed db = clean attempt f db db1 ran in
          ground (arith, complete_problem-Keeps env own f request_id db1, ih e db1 db')

-- An operation that answers with an error result has written nothing.
abbrev pub ErrsClean : {T : Type 0} → Call (StoredHttpResponse × CommandResult T) → Type 0
ErrsClean operation =
    (response : StoredHttpResponse) (e : Error) (db db1 : Database)
    → operation db ≡ (ok (response, command_error e), db1)
    → unkeyed db1 ≡ unkeyed db

module _ {T : Type 0} (o : RepositoryOptions) (own : IdempotencyOwnership) (env : ℕ → Attempt)
    (operation : ℕ → Call (StoredHttpResponse × CommandResult T)) where
  pub complete-unwrap-FailsClean :
      ((k : ℕ) → ErrsClean (operation k)) → FailsClean (complete o own env operation >>= unwrap)
  unfolding unwrap
  complete-unwrap-FailsClean clean e db db' h =
      go (complete o own env operation db).0 (complete o own env operation db).1 refl
    where
      go :
          (r : Result (CommandResult T)) (db1 : Database)
          → complete o own env operation db ≡ (r, db1)
          → unkeyed db' ≡ unkeyed db
      go (err f) db1 ran = ground (arith, complete-atomic o own env operation f db db1 ran)
      go (ok (command_ok value)) db1 ran = absurd (ground arith)
      go (ok (command_error f)) db1 ran =
          let (n, low, high, commits) =
            complete-Commits o own env operation (command_error f) db db1 ran in
          let (response, db2, locked, step, one, final) = commits in
          ground (arith, final, clean n response f db db2 step)

module _ {A B : Type 0} (m : Call A) (k : A → Call B) where
  pub bind-FailsClean : Keeps m → ((a : A) → FailsClean (k a)) → FailsClean (m >>= k)
  bind-FailsClean keeps clean e db db' h = go (m db).0 (m db).1 refl
    where
      go : (r : Result A) (db1 : Database) → m db ≡ (r, db1) → unkeyed db' ≡ unkeyed db
      go (err f) db1 ran = ground (arith, keeps db)
      go (ok a) db1 ran = ground (arith, keeps db, clean a e db1 db')
