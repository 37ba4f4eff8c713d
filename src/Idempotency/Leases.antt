-- ===== src/Idempotency/Leases.antt =====
-- The lease of a key that is in progress: it keeps others out until it runs out; then another
-- request takes the key over, and the first one can no longer complete it.
use settle_flow.Idempotency.Replay.{complete_unlocked}
use settle_flow.Common.Text.{text_eq_ne, text_eq_refl, text_eq}
use settle_flow.Common.Errors.{request_in_progress, ownership_lost, idempotency}
use settle_flow.Common.Action.{Result, ok, err}
use settle_flow.Common.{
  true, sym, refl, map, ◌≤◌, ◌≢◌, ◌≡◌, ◌∷◌, ◌<◌, ◌+◌, ◌++◌, ℕ, some, none, find?, false, arith, any,
  [], List,
}
use settle_flow.Database.Idempotency.{
  settlement_runs_route, refunds_route, reconciliation_imports_route, payment_intents_route,
  capture_route, Route, AcquireResult, acquired, StoredHttpResponse, IdempotencyKey,
}
use settle_flow.Database.{Database, Call}
use settle_flow.Idempotency.Repository.{
  take_over, route_eq, ownership, is_locked_by, can_take_over, new_key, in_scope, complete,
  acquire_row, acquire, RepositoryOptions, Attempt, AcquireCommand,
}

abbrev pub SameRequest : AcquireCommand → AcquireCommand → Type 0
SameRequest c d =
    (d.merchant_id ≡ c.merchant_id)
    × (d.normalized_route ≡ c.normalized_route)
    × (d.key_hash ≡ c.key_hash)
    × (d.request_hash ≡ c.request_hash)

-- The first request under a key gets it.
pub acquire_first :
    (o : RepositoryOptions) (c : AcquireCommand) (db : Database)
    → find? (in_scope c) db.idempotency_keys ≡ none
    → any (λ k. text_eq k.id c.record_id) db.idempotency_keys ≡ false
    → acquire o c db ≡ (
      ok (acquired (record { owner_token = c.owner_token; record_id = c.record_id })),
      record db { idempotency_keys = db.idempotency_keys ++ (new_key o c ∷ []) },
    )
unfolding acquire acquire_row
acquire_first o c db free fresh =
    ground (arith, text_eq_refl c.request_hash, text_eq_refl c.owner_token)

route_eq_refl : (r : Route) → route_eq r r ≡ true
route_eq_refl payment_intents_route = refl
route_eq_refl capture_route = refl
route_eq_refl refunds_route = refl
route_eq_refl reconciliation_imports_route = refl
route_eq_refl settlement_runs_route = refl

in_scope-eq :
    (c d : AcquireCommand) → SameRequest c d → (k : IdempotencyKey) → in_scope d k ≡ in_scope c k
in_scope-eq c d same k = rw (same.0, same.1, same.2)

in_scope-new_key : (o : RepositoryOptions) (c : AcquireCommand) → in_scope c (new_key o c) ≡ true
unfolding new_key
in_scope-new_key o c =
    rw (text_eq_refl c.merchant_id, route_eq_refl c.normalized_route, text_eq_refl c.key_hash)

in_scope-same :
    (o : RepositoryOptions) (c d : AcquireCommand) (keys : List IdempotencyKey)
    → SameRequest c d
    → find? (in_scope c) keys ≡ none
    → find? (in_scope d) (keys ++ (new_key o c ∷ [])) ≡ some (new_key o c)
in_scope-same o c d [] same free =
    ground (arith, in_scope-eq c d same (new_key o c), in_scope-new_key o c)
in_scope-same o c d (k ∷ keys) same free =
    ground (arith, in_scope-eq c d same k, in_scope-same o c d keys same)

-- `acquire` on a key that another one holds under a running lease, and on one whose lease is over.
acquire_running :
    (o : RepositoryOptions) (c d : AcquireCommand) (db : Database)
    → find? (in_scope d) db.idempotency_keys ≡ some (new_key o c)
    → text_eq c.request_hash d.request_hash ≡ true
    → text_eq c.owner_token d.owner_token ≡ false
    → d.now < c.now + o.lease_duration_ms
    → acquire o d db ≡ (err (idempotency request_in_progress), db)
unfolding acquire acquire_row new_key
acquire_running o c d db found h other early = ground arith

acquire_expired :
    (o : RepositoryOptions) (c d : AcquireCommand) (db : Database)
    → find? (in_scope d) db.idempotency_keys ≡ some (new_key o c)
    → text_eq c.request_hash d.request_hash ≡ true
    → text_eq c.owner_token d.owner_token ≡ false
    → c.now + o.lease_duration_ms ≤ d.now
    → any (can_take_over d (new_key o c)) db.idempotency_keys ≡ true
    → acquire o d db ≡ (
      ok (ownership d (new_key o c)),
      record db { idempotency_keys = map (take_over o d (new_key o c)) db.idempotency_keys },
    )
unfolding acquire acquire_row new_key
acquire_expired o c d db found h other late able = ground arith

can_take_over-new_key :
    (o : RepositoryOptions) (c d : AcquireCommand) (keys : List IdempotencyKey)
    → c.now + o.lease_duration_ms ≤ d.now
    → any (can_take_over d (new_key o c)) (keys ++ (new_key o c ∷ [])) ≡ true
unfolding new_key
can_take_over-new_key o c d [] late = ground (arith, text_eq_refl c.record_id)
can_take_over-new_key o c d (k ∷ keys) late = ground (arith, can_take_over-new_key o c d keys late)

-- After the takeover nothing is locked by the first owner.
taken-over_unlocked :
    (o : RepositoryOptions) (c d : AcquireCommand) (keys : List IdempotencyKey)
    → any (λ k. text_eq k.id c.record_id) keys ≡ false
    → text_eq d.owner_token c.owner_token ≡ false
    → c.now + o.lease_duration_ms ≤ d.now
    → any
        (is_locked_by (record { owner_token = c.owner_token; record_id = c.record_id }))
        (map (take_over o d (new_key o c)) (keys ++ (new_key o c ∷ [])))
      ≡ false
unfolding new_key
taken-over_unlocked o c d [] fresh other late = ground (arith, text_eq_refl c.record_id)
taken-over_unlocked o c d (k ∷ keys) fresh other late =
    ground (arith, taken-over_unlocked o c d keys)

-- While the lease of the first request runs, the same request by anyone else is told that it is in
-- progress, and nothing changes.
pub lease_excludes :
    (o : RepositoryOptions) (c d : AcquireCommand) (db : Database)
    → find? (in_scope c) db.idempotency_keys ≡ none
    → any (λ k. text_eq k.id c.record_id) db.idempotency_keys ≡ false
    → SameRequest c d
    → d.owner_token ≢ c.owner_token
    → d.now < c.now + o.lease_duration_ms
    → let db' = (acquire o c db).1 in acquire o d db' ≡ (err (idempotency request_in_progress), db')
lease_excludes o c d db free fresh same other early = rw (acquire_first o c db free fresh) (
    acquire_running o c d _ (in_scope-same o c d db.idempotency_keys same free)
      (rw same.3 (text_eq_refl c.request_hash))
      (text_eq_ne c.owner_token d.owner_token (λ e. other (sym e))) early)

new_key_id :
    (o : RepositoryOptions) (c d : AcquireCommand)
    → ◌≡◌ {A = Result AcquireResult}
        (ok (ownership d (new_key o c)))
        (ok (acquired (record { owner_token = d.owner_token; record_id = c.record_id })))
unfolding new_key
new_key_id o c d = refl

-- Once the lease has run out the same request by another takes the key over, and then the first
-- one's completion is refused and runs nothing.
pub lease_taken_over :
    {T : Type 0} (o : RepositoryOptions) (c d : AcquireCommand) (db : Database) (env : ℕ → Attempt)
    (operation : ℕ → Call (StoredHttpResponse × T))
    → find? (in_scope c) db.idempotency_keys ≡ none
    → any (λ k. text_eq k.id c.record_id) db.idempotency_keys ≡ false
    → SameRequest c d
    → d.owner_token ≢ c.owner_token
    → c.now + o.lease_duration_ms ≤ d.now
    → let db' = (acquire o d (acquire o c db).1).1 in
      ((acquire o d (acquire o c db).1).0
        ≡ ok (acquired (record { owner_token = d.owner_token; record_id = c.record_id })))
      × (complete o
            (record { owner_token = c.owner_token; record_id = c.record_id })
            env
            operation
            db'
          ≡ (err (idempotency ownership_lost), db'))
lease_taken_over o c d db env operation free fresh same other late =
    rw
      (
        acquire_first o c db free fresh,
        acquire_expired o c d
            (record db { idempotency_keys = db.idempotency_keys ++ (new_key o c ∷ []) })
            (in_scope-same o c d db.idempotency_keys same free)
            (rw same.3 (text_eq_refl c.request_hash))
            (text_eq_ne c.owner_token d.owner_token (λ e. other (sym e))) late
            (can_take_over-new_key o c d db.idempotency_keys late),
      )
      (
        new_key_id o c d,
        complete_unlocked o _ env operation _ (
            taken-over_unlocked o c d db.idempotency_keys fresh
              (text_eq_ne d.owner_token c.owner_token other) late),
      )
