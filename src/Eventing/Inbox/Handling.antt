-- ===== src/Eventing/Inbox/Handling.antt =====
-- What a call of the inbox may do to its state (inbox.service.ts), and how often it tries.
use settle_flow.Idempotency.Repository.{rethrow_database_error}
use settle_flow.Common.Text.{Text}
use settle_flow.Eventing.Inbox.{
  InboxContext, handle_reservation, reserved, existing, Reservation, has_message_key, next_attempt,
  aborted_or, rethrown, with_serializable_transaction, handle_once, process_for_consumer,
  process_from, reserve, processed, is_same_message, is_retryable, inbox_row, duplicate, InboxState,
  InboxResult, InboxMessage, InboxEvent, InboxAttempt,
}
use settle_flow.Common.Errors.{
  unclassified, transaction_retry_exhausted, inbox_message_conflict, eventing, Error,
}
use settle_flow.Common.{
  ◌∙◌, ◌==◌, Bool-cases, ◌≡◌, ◌∷◌, ◌+◌, ◌++◌, ℕ, zero, true, suc, some, refl, none, inr, inl, find?,
  false, any, [], Option, List, Bool,
}
use settle_flow.Common.Action.{
  transaction_runs, continue_with, commit_or_restore, bind_runs, transaction, ok, err, Result,
  Action,
}

-- A call fails and leaves everything as it was; or the message is on record and nothing changes; or it
-- is not, the effect has succeeded, and what it did is committed together with the new record.
pub data IsHandled {D T : Type 0} (consumer : Text) (m : InboxEvent)
    (effect : InboxContext → Action D T) (s : InboxState D)
    (r : Result (InboxResult T) × InboxState D) : Type 0 where
  left_alone : (e : Error) → r ≡ (err e, s) → IsHandled consumer m effect s r
  found_done :
      (row : InboxMessage)
      → find? (has_message_key consumer m.event_id) s.0 ≡ some row
      → is_same_message consumer m row ≡ true
      → r ≡ (ok duplicate, s)
      → IsHandled consumer m effect s r
  first_time :
      (t : InboxContext) (v : T) (d : D)
      → any (has_message_key consumer m.event_id) s.0 ≡ false
      → effect t s.1 ≡ (ok v, d)
      → r ≡ (ok (processed v), (s.0 ++ (inbox_row consumer m t.processed_at ∷ []), d))
      → IsHandled consumer m effect s r

module _ {D T : Type 0} (consumer : Text) (m : InboxEvent)
    (effect : InboxContext → Action D T) where
  reserve_new :
      (t : InboxContext) (rows : List InboxMessage) (d : D)
      → any (has_message_key consumer m.event_id) rows ≡ false
      → reserve (inbox_row consumer m t.processed_at) (rows, d)
        ≡ (ok reserved, (rows ++ (inbox_row consumer m t.processed_at ∷ []), d))
  unfolding reserve
  reserve_new t rows d new = rw new refl

  reserve_known :
      (t : InboxContext) (rows : List InboxMessage) (d : D) (row : InboxMessage)
      → any (has_message_key consumer m.event_id) rows ≡ true
      → find? (has_message_key consumer m.event_id) rows ≡ some row
      → reserve (inbox_row consumer m t.processed_at) (rows, d) ≡ (ok (existing row), (rows, d))
  unfolding reserve
  reserve_known t rows d row there seen = rw (there, seen) refl

  reserve_hidden :
      (t : InboxContext) (rows : List InboxMessage) (d : D)
      → any (has_message_key consumer m.event_id) rows ≡ true
      → find? (has_message_key consumer m.event_id) rows ≡ none
      → reserve (inbox_row consumer m t.processed_at) (rows, d) ≡ (err unclassified, (rows, d))
  unfolding reserve
  reserve_hidden t rows d there seen = rw (there, seen) refl

  -- The transaction, by what its reservation answers.
  after_reserving :
      (t : InboxContext) (s : InboxState D) (r : Result Reservation × InboxState D)
      (r' : Result (InboxResult T) × InboxState D)
      → reserve (inbox_row consumer m t.processed_at) s ≡ r
      → continue_with (handle_reservation consumer m (effect t)) r ≡ r'
      → transaction (handle_once consumer m effect t) s ≡ commit_or_restore s r'
  unfolding handle_once
  after_reserving t s r r' answers goes_on =
      transaction_runs (handle_once consumer m effect t) s r' (
        bind_runs (reserve (inbox_row consumer m t.processed_at))
          (handle_reservation consumer m (effect t)) s r answers
        ∙ goes_on)

  effect_runs :
      (t : InboxContext) (rows : List InboxMessage) (d d' : D) (r : Result T)
      → any (has_message_key consumer m.event_id) rows ≡ false
      → effect t d ≡ (r, d')
      → IsHandled consumer m effect
          (rows, d)
          (transaction (handle_once consumer m effect t) (rows, d))
  effect_runs t rows d d' (ok v) new ran = first_time t v d' new ran (
      after_reserving t (rows, d) _
        (ok (processed v), (rows ++ (inbox_row consumer m t.processed_at ∷ []), d'))
        (reserve_new t rows d new) (rw ran refl))
  effect_runs t rows d d' (err e) new ran = left_alone e (
      after_reserving t (rows, d) _
        (err e, (rows ++ (inbox_row consumer m t.processed_at ∷ []), d')) (reserve_new t rows d new)
        (rw ran refl))

  on_record :
      (t : InboxContext) (rows : List InboxMessage) (d : D) (found : Option InboxMessage)
      → any (has_message_key consumer m.event_id) rows ≡ true
      → find? (has_message_key consumer m.event_id) rows ≡ found
      → IsHandled consumer m effect
          (rows, d)
          (transaction (handle_once consumer m effect t) (rows, d))
  on_record t rows d none there seen =
      left_alone unclassified
        (after_reserving t (rows, d) _ _ (reserve_hidden t rows d there seen) refl)
  on_record t rows d (some row) there seen = elim (Bool-cases (is_same_message consumer m row)) [
    | inl same ↦ found_done row seen same (
        after_reserving t (rows, d) _ (ok duplicate, (rows, d))
          (reserve_known t rows d row there seen) (rw same refl))
    | inr other ↦ left_alone (eventing inbox_message_conflict) (
        after_reserving t (rows, d) _ (err (eventing inbox_message_conflict), (rows, d))
          (reserve_known t rows d row there seen) (rw other refl))
  ]

  body-IsHandled :
      (t : InboxContext) (s : InboxState D)
      → IsHandled consumer m effect s (transaction (handle_once consumer m effect t) s)
  body-IsHandled t (rows, d) = elim (Bool-cases (any (has_message_key consumer m.event_id) rows)) [
    | inl there ↦ on_record t rows d (find? (has_message_key consumer m.event_id) rows) there refl
    | inr new ↦ effect_runs t rows d (effect t d).1 (effect t d).0 new refl
  ]

  rethrown-IsHandled :
      (connected : Bool) (s : InboxState D) (r : Result (InboxResult T) × InboxState D)
      → IsHandled consumer m effect s r
      → IsHandled consumer m effect s (rethrown connected r)
  rethrown-IsHandled b s r (left_alone e is) = left_alone (rethrow_database_error b e) (rw is refl)
  rethrown-IsHandled b s r (found_done row seen same is) = found_done row seen same (rw is refl)
  rethrown-IsHandled b s r (first_time t v d new ran is) = first_time t v d new ran (rw is refl)

  aborted_or-IsHandled :
      (fault : Option Error) (t : InboxContext) (s : InboxState D)
      → IsHandled consumer m effect s (aborted_or fault (handle_once consumer m effect t) s)
  aborted_or-IsHandled (some e) t s = left_alone e refl
  aborted_or-IsHandled none t s = body-IsHandled t s

  attempt-IsHandled :
      (a : InboxAttempt) (s : InboxState D)
      → IsHandled consumer m effect s
          (with_serializable_transaction a (handle_once consumer m effect) s)
  unfolding with_serializable_transaction
  attempt-IsHandled a s =
      rethrown-IsHandled a.connected s _ (aborted_or-IsHandled a.fault a.context s)

  module _ (max_attempts : ℕ) (env : ℕ → InboxAttempt) where
    next_attempt-IsHandled :
        (attempt : ℕ) (again : Action (InboxState D) (InboxResult T)) (s : InboxState D)
        (r : Result (InboxResult T) × InboxState D)
        → IsHandled consumer m effect s r
        → IsHandled consumer m effect s (again s)
        → IsHandled consumer m effect s (next_attempt max_attempts attempt again r)
    next_attempt-IsHandled attempt again s r (left_alone e is) later =
        rw is (elim (Bool-cases (is_retryable e)) [
          | inr final ↦ rw final (left_alone e refl)
          | inl retried ↦ rw retried (elim (Bool-cases (attempt == max_attempts)) [
            | inl last ↦ rw last (left_alone (eventing transaction_retry_exhausted) refl)
            | inr more ↦ rw more later
          ])
        ])
    next_attempt-IsHandled attempt again s r (found_done row seen same is) later =
        found_done row seen same (rw is refl)
    next_attempt-IsHandled attempt again s r (first_time t v d new ran is) later =
        first_time t v d new ran (rw is refl)

    process_from-IsHandled :
        (rounds attempt : ℕ) (s : InboxState D)
        → IsHandled consumer m effect s
            (process_from max_attempts env consumer m effect rounds attempt s)
    unfolding process_from
    process_from-IsHandled zero attempt s = left_alone (eventing transaction_retry_exhausted) refl
    process_from-IsHandled (suc rounds) attempt s =
        next_attempt-IsHandled attempt _ s _ (attempt-IsHandled (env attempt) s)
          (process_from-IsHandled rounds (attempt + 1) s)

    -- However often the database aborts it and whatever the effect does, a call of the inbox does one of
    -- three things: it fails and leaves the inbox and all the effect works on as they were; or it answers
    -- that the message is a duplicate, changes nothing, and the same message is on record; or the message
    -- was not on record, the effect ran on the state as it was and succeeded, and what it did is committed
    -- together with the record of the message.
    pub process-IsHandled :
        (s : InboxState D)
        → IsHandled consumer m effect s (process_for_consumer max_attempts env consumer m effect s)
    unfolding process_for_consumer
    process-IsHandled = process_from-IsHandled max_attempts 1
