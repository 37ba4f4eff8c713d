-- ===== src/Eventing/Relay/Service.antt =====
-- A round of the relay: packages/modules/eventing/src/outbox-relay.service.ts. The broker's
-- publisher is a parameter.
use settle_flow.Common.Action.{pure, ◌>>=◌}
use settle_flow.Common.Int.{ℤ, pos}
use settle_flow.Common.Text.{text_eq, Text}
use settle_flow.Eventing.Retry.{calculate_full_jitter_backoff, Sample}
use settle_flow.Eventing.Relay.Repository.{
  published, retry, finalize, claim_pending, OutboxFinalization, ClaimedOutboxEvent, ClaimMoment,
}
use settle_flow.Database.{Call}
use settle_flow.Common.{
  ◌∷◌, ◌-◌, ◌+◌, ◌++◌, ℕ, true, some, not, none, map, ltb, length, if◌then◌else◌, filter, false,
  count_if, any, [], Option, List, Bool,
}

-- `OutboxPublishFailureCode`
pub data FailureCode : Type 0 where
  channel_backpressure_timeout confirm_nack confirm_timeout event_contract_invalid : FailureCode
  mandatory_return publisher_unavailable : FailureCode

abbrev pub failure_code_eq : FailureCode → FailureCode → Bool
failure_code_eq channel_backpressure_timeout channel_backpressure_timeout = true
failure_code_eq confirm_nack confirm_nack = true
failure_code_eq confirm_timeout confirm_timeout = true
failure_code_eq event_contract_invalid event_contract_invalid = true
failure_code_eq mandatory_return mandatory_return = true
failure_code_eq publisher_unavailable publisher_unavailable = true
failure_code_eq _ _ = false

-- `OutboxPublishOutcome['kind']`
pub data OutcomeKind : Type 0 where
  confirmed : OutcomeKind
  failed : FailureCode → OutcomeKind

pub record PublishOutcome : Type 0 where
  pub event_id : Text
  pub kind : OutcomeKind

-- `OutboxPublisher`, as it answers in one round
pub record OutboxPublisher : Type 0 where
  pub ensure_ready : Bool
  pub publish_batch : List ClaimedOutboxEvent → List PublishOutcome
  pub is_ready : Bool

-- `OutboxRelayOptions` and `PrismaOutboxRelayRepositoryOptions`
pub record OutboxRelayOptions : Type 0 where
  pub batch_size : ℕ
  pub retry_base_ms : ℕ
  pub retry_max_ms : ℕ
  pub lease_duration_ms : ℕ

-- What a round meets: the moments of its two transactions, and what `random` returns for an event.
pub record RelayRound : Type 0 where
  pub claim : ClaimMoment
  pub finalized_at : ℕ
  pub draw : ClaimedOutboxEvent → Sample

pub record RelayRunResult : Type 0 where
  pub claimed : ℕ
  pub ownership_lost : ℤ
  pub published : ℕ
  pub publisher_ready : Bool
  pub retry_scheduled : ℕ

-- `OutboxRelaySignal`
pub data RelaySignal : Type 0 where
  publish_confirmed publish_returned : ℕ → RelaySignal
  retry_scheduled : ℕ → (FailureCode → ℕ) → RelaySignal

abbrev pub is_confirmed : OutcomeKind → Bool
is_confirmed confirmed = true
is_confirmed (failed _) = false

abbrev pub is_failed_with : FailureCode → OutcomeKind → Bool
is_failed_with code confirmed = false
is_failed_with code (failed c) = failure_code_eq c code

-- `outcomesByEventId.get`: of several outcomes of an event a `Map` keeps the last.
unfoldable pub outcome_of : List PublishOutcome → Text → Option OutcomeKind
outcome_of [] event_id = none
outcome_of (o ∷ os) event_id = elim (outcome_of os event_id) [
  | some kind ↦ some kind
  | none ↦ if text_eq o.event_id event_id then some o.kind else none
]

abbrev pub is_confirmed_in : List PublishOutcome → Text → Bool
is_confirmed_in outcomes event_id = elim (outcome_of outcomes event_id) [
  | some kind ↦ is_confirmed kind
  | none ↦ false
]

unfoldable pub missing_outcomes : List PublishOutcome → List ClaimedOutboxEvent → ℕ
missing_outcomes outcomes claimed =
    length (filter (λ e. not (any (λ o. text_eq o.event_id e.event_id) outcomes)) claimed)

unfoldable pub failure_counts : List PublishOutcome → List ClaimedOutboxEvent → FailureCode → ℕ
unfolding missing_outcomes
failure_counts outcomes claimed code =
    count_if (λ o. is_failed_with code o.kind) outcomes
    + (if failure_code_eq code publisher_unavailable then missing_outcomes outcomes claimed else 0)

abbrev pub finalization_of :
    OutboxRelayOptions → RelayRound → List PublishOutcome → ClaimedOutboxEvent → OutboxFinalization
finalization_of o round outcomes e =
    if is_confirmed_in outcomes e.event_id
    then published e.id e.event_id
    else retry e.id e.event_id (
        calculate_full_jitter_backoff e.attempt_count o.retry_base_ms o.retry_max_ms (round.draw e))

abbrev pub is_published : OutboxFinalization → Bool
is_published (published _ _) = true
is_published (retry _ _ _) = false

abbrev signal_if : ℕ → RelaySignal → List RelaySignal
signal_if count signal = if ltb 0 count then signal ∷ [] else []

unfoldable pub relay_signals : List PublishOutcome → List ClaimedOutboxEvent → ℕ → List RelaySignal
unfolding failure_counts
relay_signals outcomes claimed retried =
    let confirmed_count = length (filter (λ o. is_confirmed o.kind) outcomes) in
    let returned_count = failure_counts outcomes claimed mandatory_return in
    signal_if confirmed_count (publish_confirmed confirmed_count)
    ++ (signal_if returned_count (publish_returned returned_count)
        ++ signal_if retried (retry_scheduled retried (failure_counts outcomes claimed)))

unfoldable pub publish_claimed :
    OutboxRelayOptions
    → RelayRound
    → OutboxPublisher
    → Text
    → List ClaimedOutboxEvent
    → Call (RelayRunResult × List RelaySignal)
unfolding relay_signals
publish_claimed o round publisher worker_id claimed = do
  let outcomes = publisher.publish_batch claimed
  let finalizations = map (finalization_of o round outcomes) claimed
  finalized ← finalize round.finalized_at worker_id finalizations
  let published_count = length (filter is_published finalizations)
  let retried = length finalizations - published_count
  pure (
    record {
      claimed = length claimed;
      ownership_lost = finalized.ownership_lost;
      published = published_count;
      publisher_ready = publisher.is_ready;
      retry_scheduled = retried;
    },
    relay_signals outcomes claimed retried,
  )

abbrev pub idle : Bool → RelayRunResult × List RelaySignal
idle ready = (
  record {
    claimed = 0;
    ownership_lost = pos 0;
    published = 0;
    publisher_ready = ready;
    retry_scheduled = 0;
  },
  [],
)

unfoldable pub publish_if_any :
    OutboxRelayOptions
    → RelayRound
    → OutboxPublisher
    → Text
    → List ClaimedOutboxEvent
    → Call (RelayRunResult × List RelaySignal)
publish_if_any o round publisher worker_id [] = pure (idle true)
publish_if_any o round publisher worker_id (e ∷ es) =
    publish_claimed o round publisher worker_id (e ∷ es)

-- `runOnce`
unfoldable pub run_once :
    OutboxRelayOptions
    → RelayRound
    → OutboxPublisher
    → Text
    → Call (RelayRunResult × List RelaySignal)
unfolding publish_if_any
run_once o round publisher worker_id =
    if not publisher.ensure_ready
    then pure (idle false)
    else claim_pending o.lease_duration_ms round.claim
        (record { batch_size = o.batch_size; worker_id = worker_id })
      >>= publish_if_any o round publisher worker_id
