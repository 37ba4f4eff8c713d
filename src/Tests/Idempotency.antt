-- ===== src/Tests/Idempotency.antt =====
-- The theorems on the idempotency keys at concrete inputs.
use settle_flow.Common.Text.{text_eq, text}
use settle_flow.Common.Errors.{
  unclassified, transient_database, request_in_progress, ownership_lost, idempotency,
}
use settle_flow.Common.Action.{pure, throw, ◌>>◌, ok, modify, err}
use settle_flow.Common.{
  ◌≢◌, ◌≡◌, ◌∷◌, ◌==◌, ◌+◌, ℕ, true, some, refl, none, if◌then◌else◌, arith, [],
}
use settle_flow.Database.Idempotency.{
  problem_body, capture_route, application_problem_json, acquired, StoredHttpResponse,
  IdempotencyOwnership,
}
use settle_flow.Database.{Database, Call}
use settle_flow.Idempotency.Repository.{
  new_key, complete_once, complete_from, complete, acquire_row, acquire, RepositoryOptions, Attempt,
  AcquireCommand,
}
use settle_flow.Tests.Data.{merchant, nothing}
use settle_flow.Idempotency.Completion.{complete-atomic}
use settle_flow.Idempotency.Replay.{complete_twice, acquire_after_complete, replayed}
use settle_flow.Idempotency.Leases.{acquire_first, lease_excludes, lease_taken_over}

abbrev options : RepositoryOptions
options = record { lease_duration_ms = 30000; replay_duration_ms = 86400000 }

abbrev first : AcquireCommand
first = record {
  key_hash = 1 ∷ 2 ∷ [];
  merchant_id = merchant;
  now = 1000;
  normalized_route = capture_route;
  owner_token = text "owner 1";
  record_id = text "key 1";
  request_hash = 7 ∷ [];
}

abbrev second : ℕ → AcquireCommand
second now = record first { now = now; owner_token = text "owner 2"; record_id = text "key 2" }

abbrev own : IdempotencyOwnership
own = record { owner_token = text "owner 1"; record_id = text "key 1" }

abbrev held : Database
held = (acquire options first nothing).1

-- The first attempt meets a transient error of the database.
abbrev faults : ℕ → Attempt
faults n = record {
  completed_at = 1500;
  fault = if n == 1 then some transient_database else none;
  connected = true;
}

abbrev answer : StoredHttpResponse
answer = record {
  body = problem_body (text "conflict") (text "req-1") 409;
  content_type = application_problem_json;
  result_reference = none;
  status = 409;
}

abbrev operation : ℕ → Call (StoredHttpResponse × ℕ)
operation n = pure (answer, 5)

abbrev failing : ℕ → Call (StoredHttpResponse × ℕ)
failing n = modify (λ db. record db { refunds = [] }) >> throw unclassified

abbrev finished : Database
finished = (complete options own faults operation held).1

different : text "owner 2" ≢ text "owner 1"
different same = absurd (ground arith)

acquire_first_example :
    acquire options first nothing
    ≡ (ok (acquired own), record nothing { idempotency_keys = new_key options first ∷ [] })
acquire_first_example = acquire_first options first nothing refl refl

lease_excludes_example :
    acquire options (second 20000) held ≡ (err (idempotency request_in_progress), held)
unfolding text_eq
lease_excludes_example =
    lease_excludes options first (second 20000) nothing refl refl (refl, refl, refl, refl) different
      (omega arith)

lease_taken_over_example :
    let db' = (acquire options (second 31000) held).1 in
    ((acquire options (second 31000) held).0
      ≡ ok (acquired (record { owner_token = text "owner 2"; record_id = text "key 1" })))
    × (complete options own faults operation db' ≡ (err (idempotency ownership_lost), db'))
lease_taken_over_example =
    lease_taken_over options first (second 31000) nothing faults operation refl refl
      (refl, refl, refl, refl) different (omega arith)

complete-atomic_example : (complete options own faults failing held).1 ≡ held
unfolding complete complete_from complete_once acquire acquire_row new_key text_eq
complete-atomic_example =
    complete-atomic options own faults failing unclassified held
      (complete options own faults failing held).1 refl

complete_twice_example :
    complete options own faults operation finished ≡ (err (idempotency ownership_lost), finished)
unfolding complete complete_from complete_once acquire acquire_row new_key text_eq
complete_twice_example =
    complete_twice options own faults faults operation operation 5 held finished refl

acquire_after_complete_example :
    (n : ℕ) × (response : StoredHttpResponse) × ((operation n held).0 ≡ ok (response, 5))
    × (acquire options (second 90000) finished ≡ (
      replayed (second 90000) (7 ∷ []) response ((faults n).completed_at + 86400000),
      finished,
    ))
unfolding complete complete_from complete_once acquire acquire_row new_key text_eq
acquire_after_complete_example =
    acquire_after_complete options own faults operation 5 held finished (second 90000)
      (new_key options first) (λ k d. refl) refl refl refl
