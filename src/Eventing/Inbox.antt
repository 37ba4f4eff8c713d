-- ===== src/Eventing/Inbox.antt =====
-- The inbox: packages/modules/eventing/src/inbox.service.ts and prisma-inbox.repository.ts. The state is
-- the table of the messages that are done with, and what the effects work on, which is not that table.
-- The sleep between two attempts changes nothing; the checks on the clock that the database returns are
-- true of the model.
use settle_flow.Idempotency.Repository.{rethrow_database_error}
use settle_flow.Common.Text.{text_eq, text, split, Text}
use settle_flow.Common.Errors.{
  unclassified, transaction_retry_exhausted, serialization_failure, inbox_message_conflict,
  eventing, Error,
}
use settle_flow.Common.{
  if◌then◌else◌, ◌==◌, ◌∷◌, ◌+◌, ◌++◌, ◌&&◌, ℕ, zero, true, suc, some, not, none, find?, false, any,
  [], Option, List, Bool,
}
use settle_flow.Common.Action.{
  pure, throw, ◌>>◌, ◌>>=◌, transaction, throw_if, ok, err, Result, Action,
}
pub mod Handling
pub mod Deduplication

-- A row of `inbox_messages`.
pub record InboxMessage : Type 0 where
  pub consumer_name : Text
  pub message_id : Text
  pub event_type : Text
  pub schema_version : ℕ
  pub payload_sha256 : List ℕ
  pub correlation_id : Text
  pub received_at : ℕ
  pub completed_at : ℕ

-- What the inbox reads of a message that has been validated: its event, then the message itself.
pub record InboxEvent : Type 0 where
  pub event_id : Text
  pub event_type : Text
  pub request_id : Text
  pub payload_sha256 : List ℕ
  pub schema_version : ℕ

abbrev pub InboxState : Type 0 → Type 0
InboxState D = List InboxMessage × D

pub data Reservation : Type 0 where
  reserved : Reservation
  existing : InboxMessage → Reservation

-- The primary key
abbrev pub has_message_key : Text → Text → InboxMessage → Bool
has_message_key consumer_name message_id row =
    text_eq row.consumer_name consumer_name && text_eq row.message_id message_id

-- `INSERT … ON CONFLICT DO NOTHING`, and the row that was there
unfoldable pub reserve : {D : Type 0} → InboxMessage → Action (InboxState D) Reservation
reserve input (rows, d) =
    if any (has_message_key input.consumer_name input.message_id) rows
    then (
      elim (find? (has_message_key input.consumer_name input.message_id) rows) [
        | none ↦ err unclassified
        | some record' ↦ ok (existing record')
      ],
      (rows, d),
    )
    else (ok reserved, (rows ++ (input ∷ []), d))

-- What a transaction is given: the clock of the database, and what the effect draws in it, as
-- `randomUUID` and the generator of ULIDs return it one after the other.
pub record InboxContext : Type 0 where
  pub processed_at : ℕ
  pub uuid : ℕ → Text
  pub ulid : ℕ → Text

-- An attempt: its context, the error with which the database aborts the transaction, if any, and
-- whether the database can be reached after an error.
pub record InboxAttempt : Type 0 where
  pub context : InboxContext
  pub fault : Option Error
  pub connected : Bool

module _ {S A : Type 0} where
  abbrev pub rethrown : Bool → Result A × S → Result A × S
  rethrown connected (ok a, s) = (ok a, s)
  rethrown connected (err e, s) = (err (rethrow_database_error connected e), s)

  abbrev pub aborted_or : Option Error → Action S A → Action S A
  aborted_or (some e) operation s = (err e, s)
  aborted_or none operation s = transaction operation s

  -- `withSerializableTransaction`
  unfoldable pub with_serializable_transaction :
      InboxAttempt → (InboxContext → Action S A) → Action S A
  with_serializable_transaction a operation s =
      rethrown a.connected (aborted_or a.fault (operation a.context) s)

pub data InboxResult (T : Type 0) : Type 0 where
  duplicate : InboxResult T
  processed : T → InboxResult T

-- `40001`, `40P01`, `P2034`
abbrev pub is_retryable : Error → Bool
is_retryable serialization_failure = true
is_retryable _ = false

-- The n-th part of an event type; JavaScript writes a missing one as `undefined`.
abbrev part : ℕ → List Text → Text
part n [] = text "undefined"
part zero (p ∷ ps) = p
part (suc n) (p ∷ ps) = part n ps

-- `consumerName`
unfoldable pub consumer_name_of : InboxEvent → Text
unfolding split
consumer_name_of m =
    let parts = split b'.' m.event_type in
    text "webhook-projection."
    ++ part 0 parts
    ++ text "-"
    ++ part 1 parts
    ++ text "."
    ++ part 2 parts

abbrev pub is_same_message : Text → InboxEvent → InboxMessage → Bool
is_same_message consumer_name m row =
    text_eq row.consumer_name consumer_name
    && text_eq row.message_id m.event_id
    && text_eq row.event_type m.event_type
    && row.schema_version == m.schema_version
    && text_eq row.correlation_id m.request_id
    && text_eq row.payload_sha256 m.payload_sha256

abbrev pub inbox_row : Text → InboxEvent → ℕ → InboxMessage
inbox_row consumer_name m processed_at = record {
  consumer_name = consumer_name;
  message_id = m.event_id;
  event_type = m.event_type;
  schema_version = m.schema_version;
  payload_sha256 = m.payload_sha256;
  correlation_id = m.request_id;
  received_at = processed_at;
  completed_at = processed_at;
}

module _ {D T : Type 0} where
  -- The effect works on what is not the inbox.
  abbrev pub run_effect : Action D T → Action (InboxState D) (InboxResult T)
  run_effect effect (rows, d) =
      let (r, d') = effect d in (elim r [ ok v ↦ ok (processed v) | err e ↦ err e ], (rows, d'))

  abbrev pub handle_reservation :
      Text → InboxEvent → Action D T → Reservation → Action (InboxState D) (InboxResult T)
  handle_reservation consumer_name m effect reserved = run_effect effect
  handle_reservation consumer_name m effect (existing row) = do
    throw_if (not (is_same_message consumer_name m row)) (eventing inbox_message_conflict)
    pure duplicate

  -- The body of the transaction
  unfoldable pub handle_once :
      Text
      → InboxEvent
      → (InboxContext → Action D T)
      → InboxContext
      → Action (InboxState D) (InboxResult T)
  unfolding reserve
  handle_once consumer_name m effect context = do
    reservation ← reserve (inbox_row consumer_name m context.processed_at)
    handle_reservation consumer_name m (effect context) reservation

  -- What follows an attempt: its result, its error, the end of the attempts, or another one.
  abbrev pub next_attempt :
      ℕ
      → ℕ
      → Action (InboxState D) (InboxResult T)
      → Result (InboxResult T) × InboxState D
      → Result (InboxResult T) × InboxState D
  next_attempt max_attempts attempt again (ok v, s) = (ok v, s)
  next_attempt max_attempts attempt again (err e, s) =
      if not (is_retryable e)
      then (err e, s)
      else if attempt == max_attempts
      then (err (eventing transaction_retry_exhausted), s)
      else again s

  -- The loop from an attempt on, with the number of attempts that are left.
  unfoldable pub process_from :
      ℕ
      → (ℕ → InboxAttempt)
      → Text
      → InboxEvent
      → (InboxContext → Action D T)
      → ℕ
      → ℕ
      → Action (InboxState D) (InboxResult T)
  unfolding handle_once with_serializable_transaction
  process_from max_attempts env consumer_name m effect zero attempt s =
      (err (eventing transaction_retry_exhausted), s)
  process_from max_attempts env consumer_name m effect (suc rounds) attempt s =
      next_attempt max_attempts attempt
        (process_from max_attempts env consumer_name m effect rounds (attempt + 1))
        (with_serializable_transaction (env attempt) (handle_once consumer_name m effect) s)

  -- `processForConsumer`
  unfoldable pub process_for_consumer :
      ℕ
      → (ℕ → InboxAttempt)
      → Text
      → InboxEvent
      → (InboxContext → Action D T)
      → Action (InboxState D) (InboxResult T)
  unfolding process_from
  process_for_consumer max_attempts env consumer_name m effect =
      process_from max_attempts env consumer_name m effect max_attempts 1

  unfoldable pub process :
      ℕ
      → (ℕ → InboxAttempt)
      → InboxEvent
      → (InboxContext → Action D T)
      → Action (InboxState D) (InboxResult T)
  unfolding process_for_consumer consumer_name_of
  process max_attempts env m = process_for_consumer max_attempts env (consumer_name_of m) m
