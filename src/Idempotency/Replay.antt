-- ===== src/Idempotency/Replay.antt =====
-- After a completion: the key answers with the stored response, and nobody completes it again.
use settle_flow.Idempotency.Completion.{complete-Commits}
use settle_flow.Idempotency.Repository.{complete, complete_once}
use settle_flow.Common.Text.{text_eq}
use settle_flow.Common.Errors.{ownership_lost, key_reused, key_expired, idempotency}
use settle_flow.Common.Action.{ok, err, Result}
use settle_flow.Database.{Database, Call}
use settle_flow.Common.{
  ◌∙◌, sym, subst, find?-map, ap, ◌≡◌, ◌∷◌, ◌+◌, ℕ, true, some, refl, map, leb, inr, inl,
  if◌then◌else◌, find?, false, arith, any, [], List, Bool-cases,
}
use settle_flow.Database.Idempotency.{
  replay, StoredHttpResponse, IdempotencyOwnership, IdempotencyKey, AcquireResult,
}
use settle_flow.Idempotency.Repository.{
  replay_of, acquire_row, complete_once, complete, is_locked_by, in_scope, complete_key, acquire,
  RepositoryOptions, Attempt, AcquireCommand,
}

any-locked-complete_key :
    (own : IdempotencyOwnership) (r : StoredHttpResponse) (t u : ℕ) (keys : List IdempotencyKey)
    → any (is_locked_by own) (map (complete_key own r t u) keys) ≡ false
any-locked-complete_key own r t u [] = refl
any-locked-complete_key own r t u (k ∷ keys) =
    ground (arith, any-locked-complete_key own r t u keys)

complete_once_unlocked :
    {T : Type 0} (o : RepositoryOptions) (own : IdempotencyOwnership) (a : Attempt)
    (operation : Call (StoredHttpResponse × T)) (db : Database)
    → any (is_locked_by own) db.idempotency_keys ≡ false
    → complete_once o own a operation db ≡ (err (idempotency ownership_lost), db)
unfolding complete_once
complete_once_unlocked o own a operation db h = ground arith

-- Whoever does not hold the lock of a key is refused, and nothing runs.
pub complete_unlocked :
    {T : Type 0} (o : RepositoryOptions) (own : IdempotencyOwnership) (env : ℕ → Attempt)
    (operation : ℕ → Call (StoredHttpResponse × T)) (db : Database)
    → any (is_locked_by own) db.idempotency_keys ≡ false
    → complete o own env operation db ≡ (err (idempotency ownership_lost), db)
unfolding complete
complete_unlocked o own env operation db h =
    ground (arith, complete_once_unlocked o own (env 1) (operation 1) db h)

-- After a completion no other one succeeds under the same ownership, whatever its operation is.
pub complete_twice :
    {T U : Type 0} (o : RepositoryOptions) (own : IdempotencyOwnership) (env env' : ℕ → Attempt)
    (operation : ℕ → Call (StoredHttpResponse × T)) (again : ℕ → Call (StoredHttpResponse × U))
    (value : T) (db db' : Database)
    → complete o own env operation db ≡ (ok value, db')
    → complete o own env' again db' ≡ (err (idempotency ownership_lost), db')
complete_twice o own env env' operation again value db db' h =
    let (n, low, high, commits) = complete-Commits o own env operation value db db' h in
    let (r, db1, locked, ran, counted, after) = commits in
    rw after (
      complete_unlocked o own env' again _
        (any-locked-complete_key own r (env n).completed_at _ db1.idempotency_keys))

in_scope-complete_key :
    (c : AcquireCommand) (own : IdempotencyOwnership) (r : StoredHttpResponse) (t u : ℕ)
    (k : IdempotencyKey)
    → in_scope c (complete_key own r t u k) ≡ in_scope c k
in_scope-complete_key c own r t u k = elim (Bool-cases (is_locked_by own k)) [
  | inl yes_locked ↦ rw yes_locked
  | inr not_locked ↦ rw not_locked
]

-- What `acquire` answers on a key with a stored response.
abbrev pub replayed : AcquireCommand → List ℕ → StoredHttpResponse → ℕ → Result AcquireResult
replayed c request_hash response expires_at =
    if text_eq request_hash c.request_hash
    then if leb expires_at c.now then err (idempotency key_expired) else ok (replay response)
    else err (idempotency key_reused)

acquire_completed :
    (o : RepositoryOptions) (c : AcquireCommand) (own : IdempotencyOwnership)
    (r : StoredHttpResponse) (t u : ℕ) (row : IdempotencyKey) (db : Database)
    → find? (in_scope c) db.idempotency_keys ≡ some (complete_key own r t u row)
    → is_locked_by own row ≡ true
    → acquire o c db ≡ (replayed c row.request_hash r u, db)
unfolding acquire acquire_row replay_of
acquire_completed o c own r t u row db found held = ground arith

-- After a completion by the holder of a key, `acquire` on the key's scope runs nothing: it answers
-- with the stored response, which is the one that the operation gave, until that expires, refuses
-- the key from then on, and refuses at any time a request with another hash. The operation is taken
-- to leave the keys alone.
pub acquire_after_complete :
    {T : Type 0} (o : RepositoryOptions) (own : IdempotencyOwnership) (env : ℕ → Attempt)
    (operation : ℕ → Call (StoredHttpResponse × T)) (value : T) (db db' : Database)
    (c : AcquireCommand) (row : IdempotencyKey)
    → ((k : ℕ) (d : Database) → (operation k d).1.idempotency_keys ≡ d.idempotency_keys)
    → complete o own env operation db ≡ (ok value, db')
    → find? (in_scope c) db.idempotency_keys ≡ some row
    → is_locked_by own row ≡ true
    → (n : ℕ) × (response : StoredHttpResponse) × ((operation n db).0 ≡ ok (response, value))
      × (acquire o c db' ≡ (
        replayed c row.request_hash response ((env n).completed_at + o.replay_duration_ms),
        db',
      ))
acquire_after_complete o own env operation value db db' c row keeps h found held =
    let (n, low, high, commits) = complete-Commits o own env operation value db db' h in
    let (r, db1, locked, ran, counted, after) = commits in
    (
      n,
      r,
      ground arith,
      acquire_completed o c own r (env n).completed_at _ row db'
          (rw after (
            find?-map (in_scope c) (complete_key own r (env n).completed_at _) db1.idempotency_keys
              row (in_scope-complete_key c own r (env n).completed_at _)
              (kept n r db1 ran (keeps n db))))
          held,
    )
  where
    kept :
        (n : ℕ) (r : StoredHttpResponse) (db1 : Database)
        → operation n db ≡ (ok (r, value), db1)
        → (operation n db).1.idempotency_keys ≡ db.idempotency_keys
        → find? (in_scope c) db1.idempotency_keys ≡ some row
    kept n r db1 ran keep =
        subst (λ keys. find? (in_scope c) keys ≡ some row)
          (sym keep ∙ ap (λ e. e.1.idempotency_keys) ran) found
