-- ===== src/Eventing/Inbox/Deduplication.antt =====
-- A sequence of messages, with as many repetitions as the broker makes, through the inbox
-- (inbox.service.ts).
use settle_flow.Common.Text.{text_eq, eq_of_text_eq, Text}
use settle_flow.Eventing.Inbox.Handling.{
  first_time, found_done, left_alone, process-IsHandled, IsHandled,
}
use settle_flow.Eventing.Inbox.{
  InboxContext, process_for_consumer, processed, inbox_row, has_message_key, InboxState,
  InboxResult, InboxMessage, InboxEvent, InboxAttempt,
}
use settle_flow.Common.{
  if◌then◌else◌, Bool-cases, ◌≤◌, ◌≡◌, ◌∷◌, ◌+◌, ◌++◌, ◌&&◌, ℕ, true, subst, refl, inr, inl, false,
  count_if-append, count_if, arith, any, [], List, Bool,
}
use settle_flow.Common.Action.{ok, Result, Action}

-- A message that reaches a consumer, with what the database gives each attempt to handle it.
pub record Arrival : Type 0 where
  pub consumer : Text
  pub message : InboxEvent
  pub attempts : ℕ → InboxAttempt

module _ {D T : Type 0} (max_attempts : ℕ)
    (effect : Text → InboxEvent → InboxContext → Action D T) where
  unfoldable pub receive : Arrival → Action (InboxState D) (InboxResult T)
  receive a =
      process_for_consumer max_attempts a.attempts a.consumer a.message
        (effect a.consumer a.message)

  abbrev pub has_processed : Result (InboxResult T) → Bool
  has_processed (ok (processed v)) = true
  has_processed _ = false

  abbrev pub gain : Text → Text → Arrival → Result (InboxResult T) → ℕ
  gain consumer id a r =
      if text_eq a.consumer consumer && text_eq a.message.event_id id && has_processed r
      then 1
      else 0

  -- How often the effect of a message on a consumer is committed.
  unfoldable pub times_processed : Text → Text → List Arrival → InboxState D → ℕ
  unfolding receive
  times_processed consumer id [] s = 0
  times_processed consumer id (a ∷ xs) s =
      gain consumer id a (receive a s).0 + times_processed consumer id xs (receive a s).1

  count_of_none :
      (consumer id : Text) (rows : List InboxMessage)
      → any (has_message_key consumer id) rows ≡ false
      → count_if (has_message_key consumer id) rows ≡ 0
  count_of_none consumer id [] new = refl
  count_of_none consumer id (row ∷ rows) new = ground (arith, count_of_none consumer id rows)

  -- A new record is counted with the effect that it goes with.
  gain-new :
      (consumer id : Text) (a : Arrival) (t : InboxContext) (v : T) (rows : List InboxMessage)
      → any (has_message_key a.consumer a.message.event_id) rows ≡ false
      → count_if (has_message_key consumer id) rows ≤ 1
      → (gain consumer id a (ok (processed v)) + count_if (has_message_key consumer id) rows
          ≡ count_if
              (has_message_key consumer id)
              (rows ++ (inbox_row a.consumer a.message t.processed_at ∷ [])))
        × (count_if
              (has_message_key consumer id)
              (rows ++ (inbox_row a.consumer a.message t.processed_at ∷ []))
            ≤ 1)
  gain-new consumer id a t v rows new once =
      let row = inbox_row a.consumer a.message t.processed_at in
      let added = count_if-append (has_message_key consumer id) rows (row ∷ []) in
      elim (Bool-cases (has_message_key consumer id row)) [
        | inl hit ↦
            let same_consumer : a.consumer ≡ consumer =
              eq_of_text_eq a.consumer consumer (ground arith) in
            let same_id : a.message.event_id ≡ id =
              eq_of_text_eq a.message.event_id id (ground arith) in
            let zero_before : count_if (has_message_key consumer id) rows ≡ 0 =
              count_of_none consumer id rows (
                subst (λ c. any (has_message_key c id) rows ≡ false) same_consumer
                  (subst (λ i. any (has_message_key a.consumer i) rows ≡ false) same_id new)) in
            (ground arith, ground arith)
        | inr miss ↦ (ground arith, ground arith)
      ]

  receive_once :
      (consumer id : Text) (a : Arrival) (s : InboxState D)
      (r : Result (InboxResult T) × InboxState D)
      → IsHandled a.consumer a.message (effect a.consumer a.message) s r
      → count_if (has_message_key consumer id) s.0 ≤ 1
      → (gain consumer id a r.0 + count_if (has_message_key consumer id) s.0
          ≡ count_if (has_message_key consumer id) r.1.0)
        × (count_if (has_message_key consumer id) r.1.0 ≤ 1)
  receive_once consumer id a s r (left_alone e is) once = rw is (ground arith, once)
  receive_once consumer id a s r (found_done row seen same is) once = rw is (ground arith, once)
  receive_once consumer id a s r (first_time t v d new ran is) once =
      rw is (gain-new consumer id a t v s.0 new once)

  -- Whatever messages arrive, in whatever order and however often each, and whatever the database
  -- aborts: where the inbox has at most one record of a message for a consumer, the effect of the message
  -- on the consumer is committed at most once, and never where there is a record already.
  pub processed_once :
      (consumer id : Text) (xs : List Arrival) (s : InboxState D)
      → count_if (has_message_key consumer id) s.0 ≤ 1
      → times_processed consumer id xs s + count_if (has_message_key consumer id) s.0 ≤ 1
  unfolding times_processed receive
  processed_once consumer id [] s once = omega arith
  processed_once consumer id (a ∷ xs) s once =
      let step =
        receive_once consumer id a s (receive a s)
          (process-IsHandled a.consumer a.message (effect a.consumer a.message) max_attempts
            a.attempts s)
          once in
      let rest = processed_once consumer id xs (receive a s).1 step.1 in
      let kept = step.0 in omega arith
