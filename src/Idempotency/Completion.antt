-- ===== src/Idempotency/Completion.antt =====
-- `complete` of packages/modules/idempotency/src/prisma-idempotency.repository.ts runs the operation
-- and records its response in one transaction, once.
use settle_flow.Common.{◌≤◌, ◌≡◌, ◌<◌, ◌+◌, ℕ, zero, true, suc, refl, map, count_if, arith, any}
use settle_flow.Common.Action.{ok, err, Result}
use settle_flow.Database.Idempotency.{StoredHttpResponse, IdempotencyOwnership}
use settle_flow.Common.Errors.{Error}
use settle_flow.Database.{Database, Call}
use settle_flow.Idempotency.Repository.{
  complete, complete_from, complete_once, max_transaction_attempts, is_locked_by, complete_key,
  RepositoryOptions, Attempt,
}

module _ {T : Type 0} (o : RepositoryOptions) (own : IdempotencyOwnership) (env : ℕ → Attempt)
    (operation : ℕ → Call (StoredHttpResponse × T)) where
  -- How an attempt that returns has ended: the operation has returned, on a locked key, and what
  -- it wrote is committed together with its response.
  abbrev pub Commits : ℕ → T → Database → Database → Type 0
  Commits k value db db' =
      (response : StoredHttpResponse) × (db1 : Database) × (any (is_locked_by own)
          db.idempotency_keys
        ≡ true)
      × (operation k db ≡ (ok (response, value), db1))
      × (count_if (is_locked_by own) db1.idempotency_keys ≡ 1)
      × (db' ≡ record db1 {
        idempotency_keys =
            map
              (complete_key own response (env k).completed_at
                ((env k).completed_at + o.replay_duration_ms))
              db1.idempotency_keys;
      })

  pub complete_once-Commits :
      (k : ℕ) (value : T) (db db' : Database)
      → complete_once o own (env k) (operation k) db ≡ (ok value, db')
      → Commits k value db db'
  unfolding complete_once
  complete_once-Commits k value db db' h = go (operation k db).0 (operation k db).1 refl
    where
      go :
          (r : Result (StoredHttpResponse × T)) (db1 : Database)
          → operation k db ≡ (r, db1)
          → Commits k value db db'
      go (err e) db1 ran = absurd (ground arith)
      go (ok (response, v)) db1 ran =
          (response, db1, ground arith, ground arith, ground arith, ground arith)

  pub complete_once-atomic :
      (k : ℕ) (e : Error) (db db' : Database)
      → complete_once o own (env k) (operation k) db ≡ (err e, db')
      → db' ≡ db
  unfolding complete_once
  complete_once-atomic k e db db' h = ground arith

  complete_from-atomic :
      (rounds k : ℕ) (e : Error) (db db' : Database)
      → complete_from o own env operation rounds k db ≡ (err e, db')
      → db' ≡ db
  unfolding complete_from
  complete_from-atomic zero k e db db' h = ground arith
  complete_from-atomic (suc rounds) k e db db' h =
      go (complete_once o own (env k) (operation k) db).0
        (complete_once o own (env k) (operation k) db).1 refl
        (complete_from-atomic rounds (k + 1) e)
    where
      go :
          (r : Result T) (db1 : Database)
          → complete_once o own (env k) (operation k) db ≡ (r, db1)
          → ((d d' : Database)
              → complete_from o own env operation rounds (k + 1) d ≡ (err e, d')
              → d' ≡ d)
          → db' ≡ db
      go (ok value) db1 ran ih = absurd (ground arith)
      go (err f) db1 ran ih = ground (arith, complete_once-atomic k f db db1 ran, ih db1 db')

  -- A completion that fails has changed nothing, neither the key nor what the operation wrote.
  pub complete-atomic :
      (e : Error) (db db' : Database) → complete o own env operation db ≡ (err e, db') → db' ≡ db
  unfolding complete
  complete-atomic e db db' = complete_from-atomic max_transaction_attempts 1 e db db'

  complete_from-Commits :
      (rounds k : ℕ) (value : T) (db db' : Database)
      → complete_from o own env operation rounds k db ≡ (ok value, db')
      → (n : ℕ) × (k ≤ n) × (n < k + rounds) × Commits n value db db'
  unfolding complete_from
  complete_from-Commits zero k value db db' h = absurd (ground arith)
  complete_from-Commits (suc rounds) k value db db' h =
      go (complete_once o own (env k) (operation k) db).0
        (complete_once o own (env k) (operation k) db).1 refl
        (complete_from-Commits rounds (k + 1) value)
    where
      go :
          (r : Result T) (db1 : Database)
          → complete_once o own (env k) (operation k) db ≡ (r, db1)
          → ((d d' : Database)
              → complete_from o own env operation rounds (k + 1) d ≡ (ok value, d')
              → (n : ℕ) × (k + 1 ≤ n) × (n < k + 1 + rounds) × Commits n value d d')
          → (n : ℕ) × (k ≤ n) × (n < k + suc rounds) × Commits n value db db'
      go (ok v) db1 ran ih =
          (k, omega arith, omega arith, complete_once-Commits k value db db' (ground arith))
      go (err f) db1 ran ih =
          let same : db1 ≡ db = complete_once-atomic k f db db1 ran in
          let (n, low, high, commits) = ih db db' (ground arith) in
          (n, omega arith, omega arith, commits)

  pub complete-Commits :
      (value : T) (db db' : Database)
      → complete o own env operation db ≡ (ok value, db')
      → (n : ℕ) × (1 ≤ n) × (n ≤ 3) × Commits n value db db'
  unfolding complete
  complete-Commits value db db' h =
      let (n, low, high, commits) =
        complete_from-Commits max_transaction_attempts 1 value db db' h in
      (n, low, omega arith, commits)
