-- ===== src/Idempotency/Repository.antt =====
-- packages/modules/idempotency/src/prisma-idempotency.repository.ts. The SHA-256 hashes and random
-- identifiers that idempotency.service.ts adds are part of the command; the method is always POST.
use settle_flow.Common.Text.{text_eq, Text}
use settle_flow.Common.Action.{
  throw, gets, pure, ◌>>◌, ◌>>=◌, transaction, throw_if, ok, modify, err, Result,
}
use settle_flow.Common.Errors.{
  unavailable_database, ownership_lost, unclassified, serialization_failure, transient_database,
  idempotency, database, IdempotencyError, Error,
}
use settle_flow.Database.{Call}
use settle_flow.Common.{
  ◌∷◌, ◌==◌, ◌+◌, ◌++◌, ◌&&◌, ℕ, zero, true, suc, some, not, none, map, ltb, leb, if◌then◌else◌,
  find?, false, count_if, any, [], Option, List, Bool,
}
use settle_flow.Database.Idempotency.{
  settlement_runs_route, replay, refunds_route, reconciliation_imports_route, payment_intents_route,
  in_progress, completed, capture_route, acquired, StoredHttpResponse, Route, IdempotencyOwnership,
  IdempotencyKey, AcquireResult,
}

pub record RepositoryOptions : Type 0 where
  pub lease_duration_ms : ℕ
  pub replay_duration_ms : ℕ

-- `HashedIdempotencyAcquireCommand`
pub record AcquireCommand : Type 0 where
  pub key_hash : List ℕ
  pub merchant_id : Text
  pub now : ℕ
  pub normalized_route : Route
  pub owner_token : Text
  pub record_id : Text
  pub request_hash : List ℕ

abbrev pub route_eq : Route → Route → Bool
route_eq payment_intents_route payment_intents_route = true
route_eq capture_route capture_route = true
route_eq refunds_route refunds_route = true
route_eq reconciliation_imports_route reconciliation_imports_route = true
route_eq settlement_runs_route settlement_runs_route = true
route_eq _ _ = false

-- The unique index `idempotency_keys_scope_key`
abbrev pub in_scope : AcquireCommand → IdempotencyKey → Bool
in_scope c k =
    text_eq k.merchant_id c.merchant_id
    && route_eq k.normalized_route c.normalized_route
    && text_eq k.key_hash c.key_hash

abbrev pub is_in_progress : IdempotencyKey → Bool
is_in_progress k = elim k.state [ completed ↦ false | in_progress ↦ true ]

abbrev pub is_owned_by : Text → IdempotencyKey → Bool
is_owned_by token k = elim k.owner_token [ none ↦ false | some t ↦ text_eq t token ]

-- `lease_expires_at <= now`, which a missing lease does not pass
abbrev pub is_expired : ℕ → Option ℕ → Bool
is_expired now none = false
is_expired now (some t) = leb t now

abbrev pub is_running : ℕ → Option ℕ → Bool
is_running now none = false
is_running now (some t) = ltb now t

unfoldable pub new_key : RepositoryOptions → AcquireCommand → IdempotencyKey
new_key o c = record {
  id = c.record_id;
  merchant_id = c.merchant_id;
  normalized_route = c.normalized_route;
  key_hash = c.key_hash;
  request_hash = c.request_hash;
  state = in_progress;
  owner_token = some c.owner_token;
  lease_expires_at = some (c.now + o.lease_duration_ms);
  response = none;
  response_expires_at = none;
  updated_at = c.now;
}

abbrev pub can_take_over : AcquireCommand → IdempotencyKey → IdempotencyKey → Bool
can_take_over c row k =
    text_eq k.id row.id && is_in_progress k && is_expired c.now k.lease_expires_at

abbrev pub take_over :
    RepositoryOptions → AcquireCommand → IdempotencyKey → IdempotencyKey → IdempotencyKey
take_over o c row k =
    if can_take_over c row k
    then record k {
      owner_token = some c.owner_token;
      lease_expires_at = some (c.now + o.lease_duration_ms);
      updated_at = c.now;
    }
    else k

abbrev pub ownership : AcquireCommand → IdempotencyKey → AcquireResult
ownership c row = acquired (record { owner_token = c.owner_token; record_id = row.id })

-- What `acquire` answers on a completed key.
unfoldable pub replay_of : ℕ → IdempotencyKey → Result AcquireResult
replay_of now row = elim row.response [
  | none ↦ err (idempotency IdempotencyError.key_expired)
  | some r ↦ elim row.response_expires_at [
    | none ↦ err (idempotency IdempotencyError.key_expired)
    | some t ↦ if leb t now then err (idempotency IdempotencyError.key_expired) else ok (replay r)
  ]
]

-- `acquire`, once the statement has returned the row that stands under the key.
unfoldable pub acquire_row :
    RepositoryOptions → AcquireCommand → IdempotencyKey → Call AcquireResult
acquire_row o c row db =
    if not (text_eq row.request_hash c.request_hash)
    then (err (idempotency IdempotencyError.key_reused), db)
    else if not (is_in_progress row)
    then (replay_of c.now row, db)
    else if is_owned_by c.owner_token row
    then (ok (ownership c row), db)
    else if is_running c.now row.lease_expires_at
    then (err (idempotency IdempotencyError.request_in_progress), db)
    else if any (can_take_over c row) db.idempotency_keys
    then (
      ok (ownership c row),
      record db { idempotency_keys = map (take_over o c row) db.idempotency_keys },
    )
    else (err (idempotency IdempotencyError.request_in_progress), db)

-- `INSERT … ON CONFLICT … DO UPDATE … RETURNING`, in its transaction.
unfoldable pub acquire : RepositoryOptions → AcquireCommand → Call AcquireResult
unfolding new_key
acquire o c db = elim (find? (in_scope c) db.idempotency_keys) [
  | some row ↦ acquire_row o c row db
  | none ↦
      if any (λ k. text_eq k.id c.record_id) db.idempotency_keys
      then (err database, db)
      else acquire_row o c (new_key o c)
          (record db { idempotency_keys = db.idempotency_keys ++ (new_key o c ∷ []) })
]

abbrev pub max_transaction_attempts : ℕ
max_transaction_attempts = 3

abbrev pub is_transient : Error → Bool
is_transient serialization_failure = true
is_transient transient_database = true
is_transient _ = false

-- `WHERE "id" = … AND "owner_token" = … AND "state" = 'in_progress'`
abbrev pub is_locked_by : IdempotencyOwnership → IdempotencyKey → Bool
is_locked_by own k = text_eq k.id own.record_id && is_owned_by own.owner_token k && is_in_progress k

abbrev pub complete_key :
    IdempotencyOwnership → StoredHttpResponse → ℕ → ℕ → IdempotencyKey → IdempotencyKey
complete_key own response completed_at expires_at k =
    if is_locked_by own k
    then record k {
      state = completed;
      owner_token = none;
      lease_expires_at = none;
      response = some response;
      response_expires_at = some expires_at;
      updated_at = completed_at;
    }
    else k

-- What the environment does in the n-th attempt at a transaction: the clock at the end of the
-- operation, the error with which the database may abort the transaction, and whether the
-- database can be reached when an error is passed on.
pub record Attempt : Type 0 where
  pub completed_at : ℕ
  pub fault : Option Error
  pub connected : Bool

-- `rethrowDatabaseError` of packages/infrastructure/src/prisma-database.ts
abbrev pub rethrow_database_error : Bool → Error → Error
rethrow_database_error connected e = if connected then e else unavailable_database

abbrev pub is_ownership_lost : Error → Bool
is_ownership_lost (idempotency ownership_lost) = true
is_ownership_lost _ = false

abbrev pub raise : Option Error → Call (Unit {0})
raise none = pure tt
raise (some e) = throw e

module _ {T : Type 0} where
  -- The body of one transaction of `complete`.
  unfoldable pub complete_once :
      RepositoryOptions → IdempotencyOwnership → Attempt → Call (StoredHttpResponse × T) → Call T
  complete_once o own a operation = transaction (do
    locked ← gets (λ db. any (is_locked_by own) db.idempotency_keys)
    throw_if (not locked) (idempotency ownership_lost)
    (response, value) ← operation
    updated ← gets (λ db. count_if (is_locked_by own) db.idempotency_keys)
    modify λ db. record db {
      idempotency_keys =
          map (complete_key own response a.completed_at (a.completed_at + o.replay_duration_ms))
            db.idempotency_keys;
    }
    throw_if (not (updated == 1)) (idempotency ownership_lost)
    raise a.fault
    pure value)

  -- The loop of `complete`, with the rounds that are left and the number of the attempt.
  unfoldable pub complete_from :
      RepositoryOptions
      → IdempotencyOwnership
      → (ℕ → Attempt)
      → (ℕ → Call (StoredHttpResponse × T))
      → ℕ
      → ℕ
      → Call T
  complete_from o own env operation zero attempt db = (err unclassified, db)
  complete_from o own env operation (suc rounds) attempt db =
      let (r, db') = complete_once o own (env attempt) (operation attempt) db in
      elim r [
        | ok value ↦ (ok value, db')
        | err e ↦
            if is_transient e && ltb attempt max_transaction_attempts
            then complete_from o own env operation rounds (attempt + 1) db'
            else (
              err (
                  if is_ownership_lost e
                  then e
                  else rethrow_database_error (env attempt).connected e),
              db',
            )
      ]

  unfoldable pub complete :
      RepositoryOptions
      → IdempotencyOwnership
      → (ℕ → Attempt)
      → (ℕ → Call (StoredHttpResponse × T))
      → Call T
  unfolding complete_from
  complete o own env operation = complete_from o own env operation max_transaction_attempts 1
