-- ===== src/Payments/Service.antt =====
-- packages/modules/payments/src/payment-intent.service.ts: the commands on payment intents. The
-- observer is told of the outcome and cannot change it; it is left out.
use settle_flow.Common.Patterns.{is_public_id}
use settle_flow.Ledger.Service.{from_result}
use settle_flow.Payments.Repository.{find_by_public_id}
use settle_flow.Common.Action.{or_throw, gets, throw, pure, ◌>>◌, ◌>>=◌, throw_if, ok, err}
use settle_flow.Common.Text.{text, Text}
use settle_flow.Database.Idempotency.{
  AcquireResult, replay, refunds_route, payment_intents_route, capture_route, acquired, Route,
  RefundRepresentation, PaymentIntentRepresentation, IdempotencyOwnership,
}
use settle_flow.Common.Errors.{
  refund_identifier_collision, refund_external_reference_conflict, provider_unavailable,
  provider_declined, payment_identifier_collision, payment, ledger, intent_not_found,
  identifier_generation_exhausted, external_reference_conflict, eventing,
  event_identifier_collision, PaymentError, LedgerError, Error,
}
use settle_flow.Payments.Operations.{
  refund_operation, create_operation, command_ok, command_error, capture_operation, Draws,
  CommandResult, Captured,
}
use settle_flow.Payments.Responses.{
  to_representation, replay_refund, replay_create, replay_capture, refund_request, create_request,
  command_problem, capture_request, RefundCommand, CreateCommand, CaptureCommand, CanonicalRequest,
}
use settle_flow.Database.{Call}
use settle_flow.Common.{
  ◌||◌, ◌+◌, ◌++◌, ℕ, zero, true, suc, some, not, none, ltb, if◌then◌else◌, false, Option, List,
  Bool,
}
use settle_flow.Idempotency.Repository.{
  complete, acquire, RepositoryOptions, Attempt, AcquireCommand,
}

pub data ProviderOutcome : Type 0 where
  approved declined : ProviderOutcome

-- What the world outside gives a command: the clock, identifiers, the hash functions of
-- packages/modules/idempotency/src/idempotency.service.ts, the answer of the provider, `none` if the
-- call fails, and the fate of the transactions. The first number is the attempt of the command, the
-- second the attempt of its transaction.
pub record Environment : Type 0 where
  pub options : RepositoryOptions
  pub now : ℕ
  pub key_hash : Text → List ℕ
  pub request_hash : CanonicalRequest → List ℕ
  pub owner_token : Text
  pub record_id : Text
  pub provider : Option ProviderOutcome
  pub started_at : ℕ → ℕ
  pub ulid : ℕ → Text
  pub event_ulid : ℕ → Text
  pub draws : ℕ → ℕ → Draws
  pub attempts : ℕ → ℕ → Attempt
  pub problem_attempts : ℕ → Attempt

abbrev pub max_identifier_attempts : ℕ
max_identifier_attempts = 3

unfoldable pub acquire_command :
    Environment → Text → Text → Route → CanonicalRequest → AcquireCommand
acquire_command env merchant_id key route request = record {
  key_hash = env.key_hash key;
  merchant_id = merchant_id;
  now = env.now;
  normalized_route = route;
  owner_token = env.owner_token;
  record_id = env.record_id;
  request_hash = env.request_hash request;
}

abbrev pub create_key : Environment → CreateCommand → AcquireCommand
create_key env c =
    acquire_command env c.merchant_id c.idempotency_key payment_intents_route
      (create_request c.external_ref c.amount_minor c.currency)

abbrev pub capture_key : Environment → CaptureCommand → AcquireCommand
capture_key env c =
    acquire_command env c.merchant_id c.idempotency_key capture_route
      (capture_request c.payment_id c.amount_minor c.currency)

abbrev pub refund_key : Environment → RefundCommand → AcquireCommand
refund_key env c =
    acquire_command env c.merchant_id c.idempotency_key refunds_route
      (refund_request c.payment_id c.external_ref c.amount_minor c.currency)

-- `assertValidPaymentIntentId` of packages/modules/payments/src/payment-intent.validation.ts
abbrev pub assert_payment_intent_id : Text → Call (Unit {0})
assert_payment_intent_id id =
    throw_if (not (is_public_id (text "pi_") id)) (payment PaymentError.invalid_request)

-- `completeProblem`
unfoldable pub complete_problem :
    Environment → IdempotencyOwnership → Error → Text → Call (Unit {0})
complete_problem env own e request_id =
    complete env.options own env.problem_attempts
      λ _. do stored ← from_result (command_problem e request_id); pure (stored, tt)

-- `executeProvider`
unfoldable pub execute_provider : Environment → IdempotencyOwnership → Text → Call (Unit {0})
execute_provider env own request_id = elim env.provider [
  | none ↦ throw (payment provider_unavailable)
  | some outcome ↦ elim outcome [
    | approved ↦ pure tt
    | declined ↦ do
      complete_problem env own (payment provider_declined) request_id
      throw (payment provider_declined)
  ]
]

-- `unwrap`
unfoldable pub unwrap : {T : Type 0} → CommandResult T → Call T
unwrap (command_error e) = throw e
unwrap (command_ok value) = pure value

-- The errors that another identifier may avoid.
abbrev pub is_event_collision : Error → Bool
is_event_collision (eventing event_identifier_collision) = true
is_event_collision _ = false

abbrev pub is_posting_collision : Error → Bool
is_posting_collision (ledger LedgerError.identifier_collision) = true
is_posting_collision _ = false

abbrev pub is_create_collision : Error → Bool
is_create_collision (payment payment_identifier_collision) = true
is_create_collision e = is_event_collision e

abbrev pub is_refund_collision : Error → Bool
is_refund_collision (payment refund_identifier_collision) = true
is_refund_collision e = is_event_collision e || is_posting_collision e

abbrev pub is_reference_conflict : Error → Bool
is_reference_conflict (payment external_reference_conflict) = true
is_reference_conflict _ = false

abbrev pub is_refund_reference_conflict : Error → Bool
is_refund_reference_conflict (payment refund_external_reference_conflict) = true
is_refund_reference_conflict _ = false

-- The loop that the three commands share, with the rounds that are left and the number of the
-- attempt: an error that `stores` holds for is stored as the response.
unfoldable pub with_identifiers :
    {T : Type 0}
    → Environment
    → IdempotencyOwnership
    → Text
    → (Error → Bool)
    → (Error → Bool)
    → (ℕ → Call T)
    → ℕ
    → ℕ
    → Call T
with_identifiers env own request_id stores collides run zero attempt db =
    (err (payment identifier_generation_exhausted), db)
with_identifiers env own request_id stores collides run (suc rounds) attempt db =
    let (r, db') = run attempt db in
    elim r [
      | ok value ↦ (ok value, db')
      | err e ↦
          if stores e
          then (complete_problem env own e request_id >> throw e) db'
          else if collides e
          then (if ltb attempt max_identifier_attempts
              then with_identifiers env own request_id stores collides run rounds (attempt + 1) db'
              else (err (payment identifier_generation_exhausted), db'))
          else (err e, db')
    ]

-- The transaction of one attempt.
unfoldable pub try_create :
    Environment → IdempotencyOwnership → CreateCommand → ℕ → Call PaymentIntentRepresentation
try_create env own c n = complete env.options own (env.attempts n) λ k.
    create_operation c (text "pi_" ++ env.ulid n) (env.started_at n) (env.event_ulid n)
      (env.draws n k)

-- `create`, once the key is acquired.
unfoldable pub create_acquired :
    Environment → CreateCommand → AcquireResult → Call PaymentIntentRepresentation
create_acquired env c acquisition = elim acquisition [
  | replay stored ↦ from_result (replay_create stored)
  | acquired own ↦
      with_identifiers env own c.request_id is_reference_conflict is_create_collision
        (try_create env own c) max_identifier_attempts 1
]

unfoldable pub create : Environment → CreateCommand → Call PaymentIntentRepresentation
create env c = do
  acquisition ← acquire env.options (create_key env c)
  create_acquired env c acquisition

unfoldable pub try_capture : Environment → IdempotencyOwnership → CaptureCommand → ℕ → Call Captured
try_capture env own c n = do
  result ← complete env.options own (env.attempts n) λ k. capture_operation c (env.draws n k)
  unwrap result

-- `capture`, once the key is acquired.
unfoldable pub capture_acquired : Environment → CaptureCommand → AcquireResult → Call Captured
capture_acquired env c acquisition = elim acquisition [
  | replay stored ↦ from_result (replay_capture stored)
  | acquired own ↦ do
    execute_provider env own c.request_id
    with_identifiers env own c.request_id (λ _. false)
        (λ e. is_event_collision e || is_posting_collision e) (try_capture env own c)
        max_identifier_attempts 1
]

unfoldable pub capture : Environment → CaptureCommand → Call Captured
capture env c = do
  assert_payment_intent_id c.payment_id
  acquisition ← acquire env.options (capture_key env c)
  capture_acquired env c acquisition

unfoldable pub try_refund :
    Environment → IdempotencyOwnership → RefundCommand → ℕ → Call RefundRepresentation
try_refund env own c n = do
  result ←
      complete env.options own (env.attempts n)
        λ k. refund_operation c (text "rf_" ++ env.ulid n) (env.draws n k)
  unwrap result

-- `refund`, once the key is acquired.
unfoldable pub refund_acquired :
    Environment → RefundCommand → AcquireResult → Call RefundRepresentation
refund_acquired env c acquisition = elim acquisition [
  | replay stored ↦ from_result (replay_refund stored)
  | acquired own ↦ do
    execute_provider env own c.request_id
    with_identifiers env own c.request_id is_refund_reference_conflict is_refund_collision
        (try_refund env own c) max_identifier_attempts 1
]

unfoldable pub refund : Environment → RefundCommand → Call RefundRepresentation
refund env c = do
  assert_payment_intent_id c.payment_id
  acquisition ← acquire env.options (refund_key env c)
  refund_acquired env c acquisition

unfoldable pub get : Text → Text → Call PaymentIntentRepresentation
get merchant_id public_id = do
  assert_payment_intent_id public_id
  found ← gets (find_by_public_id merchant_id public_id)
  row ← or_throw found (payment intent_not_found)
  pure (to_representation row)
