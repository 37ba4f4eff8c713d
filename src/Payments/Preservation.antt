-- ===== src/Payments/Preservation.antt =====
-- Invariants through the commands of packages/modules/payments/src/payment-intent.service.ts: what the
-- transactions of a command preserve, the command preserves, whatever it answers.
pub mod Commands
use settle_flow.Idempotency.Completion.{complete-atomic, complete-Commits}
use settle_flow.Common.Text.{text, Text}
use settle_flow.Common.Action.{◌>>=◌, ok, err, Result}
use settle_flow.Common.Errors.{Error}
use settle_flow.Payments.Service.{
  with_identifiers, unwrap, try_create, is_reference_conflict, is_create_collision, create_key,
  create_acquired, create, Environment,
}
use settle_flow.Payments.Responses.{CreateCommand}
use settle_flow.Payments.Operations.{
  create_operation, command_ok, command_error, Draws, CommandResult,
}
use settle_flow.Database.{Database, Call}
use settle_flow.Common.{
  ◌≡◌, ◌+◌, ◌++◌, ◌&&◌, ℕ, zero, suc, subst, refl, ltb, inr, inl, arith, Bool-cases, Bool,
}
use settle_flow.Idempotency.Repository.{complete, acquire, RepositoryOptions, Attempt}
use settle_flow.Database.Idempotency.{
  replay, acquired, StoredHttpResponse, IdempotencyOwnership, AcquireResult,
}
use settle_flow.Payments.Atomicity.{unkeyed, Keeps, acquire-Keeps, complete_problem-Keeps}

-- `I` holds of the database that a call leaves behind, if it holds before; it does not read the
-- idempotency keys.
abbrev pub Preserves : (Database → Type 0) → {A : Type 0} → Call A → Type 0
Preserves I {A} m =
    (r : Result A) (db db' : Database) → m db ≡ (r, db') → I (unkeyed db) → I (unkeyed db')

-- The same where the call returns: one that throws is rolled back.
abbrev pub PreservesReturning : (Database → Type 0) → {A : Type 0} → Call A → Type 0
PreservesReturning I {A} m =
    (a : A) (db db' : Database) → m db ≡ (ok a, db') → I (unkeyed db) → I (unkeyed db')

module _ (I : Database → Type 0) where
  pub move : (db db' : Database) → unkeyed db ≡ unkeyed db' → I (unkeyed db) → I (unkeyed db')
  move db db' same = subst I same

  pub Keeps-Preserves : {A : Type 0} (m : Call A) → Keeps m → Preserves I m
  Keeps-Preserves m keeps r db db' ran h = move db db' (ground (arith, keeps db)) h

  pub bind-Preserves :
      {A B : Type 0} (m : Call A) (k : A → Call B)
      → Preserves I m
      → ((a : A) → Preserves I (k a))
      → Preserves I (m >>= k)
  bind-Preserves {A} {B} m k first rest r db db' ran h = go (m db).0 (m db).1 refl
    where
      go : (s : Result A) (db1 : Database) → m db ≡ (s, db1) → I (unkeyed db')
      go (err f) db1 ran1 = first (err f) db db' (ground arith) h
      go (ok a) db1 ran1 = rest a r db1 db' (ground arith) (first (ok a) db db1 ran1 h)

  pub complete-Preserves :
      {T : Type 0} (o : RepositoryOptions) (own : IdempotencyOwnership) (env : ℕ → Attempt)
      (operation : ℕ → Call (StoredHttpResponse × T))
      → ((k : ℕ) → PreservesReturning I (operation k))
      → Preserves I (complete o own env operation)
  complete-Preserves o own env operation each (err e) db db' ran h =
      move db db' (ground (arith, complete-atomic o own env operation e db db' ran)) h
  complete-Preserves o own env operation each (ok value) db db' ran h =
      let (n, low, high, commits) = complete-Commits o own env operation value db db' ran in
      let (response, db1, locked, step, one, final) = commits in
      move db1 db' (ground (arith, final)) (each n (response, value) db db1 step h)

  module _ {T : Type 0} (env : Environment) (own : IdempotencyOwnership) (request_id : Text)
      (stores collides : Error → Bool) (run : ℕ → Call T)
      (each : (n : ℕ) → Preserves I (run n)) where
    pub with_identifiers-Preserves :
        (rounds attempt : ℕ)
        → Preserves I (with_identifiers env own request_id stores collides run rounds attempt)
    unfolding with_identifiers
    with_identifiers-Preserves zero attempt r db db' ran h = move db db' (ground arith) h
    with_identifiers-Preserves (suc rounds) attempt r db db' ran h =
        go (run attempt db).0 (run attempt db).1 refl
          (with_identifiers-Preserves rounds (attempt + 1))
      where
        go :
            (s : Result T) (db1 : Database)
            → run attempt db ≡ (s, db1)
            → Preserves I
                (with_identifiers env own request_id stores collides run rounds (attempt + 1))
            → I (unkeyed db')
        go (ok value) db1 ran1 ih =
            move db1 db' (ground arith) (each attempt (ok value) db db1 ran1 h)
        go (err f) db1 ran1 ih = elim (Bool-cases (stores f)) [
          | inl stored ↦
              move db1 db' (ground (arith, complete_problem-Keeps env own f request_id db1))
                (each attempt (err f) db db1 ran1 h)
          | inr not_stored ↦ elim (Bool-cases (collides f && ltb attempt 3)) [
            | inl again ↦ ih r db1 db' (ground arith) (each attempt (err f) db db1 ran1 h)
            | inr last ↦ move db1 db' (ground arith) (each attempt (err f) db db1 ran1 h)
          ]
        ]

  pub unwrap-Preserves : {T : Type 0} (result : CommandResult T) → Preserves I (unwrap result)
  unfolding unwrap
  unwrap-Preserves (command_error e) r db db' ran h = move db db' (ground arith) h
  unwrap-Preserves (command_ok v) r db db' ran h = move db db' (ground arith) h
