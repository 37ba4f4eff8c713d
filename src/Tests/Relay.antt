-- ===== src/Tests/Relay.antt =====
-- The relay of the outbox at two events.
use settle_flow.Eventing.Relay.Drain.{drain_publishes, run_rounds, is_pending}
use settle_flow.Database.Ledger.{etb}
use settle_flow.Tests.Data.{nothing}
use settle_flow.Eventing.Relay.Claims.{claim_excludes}
use settle_flow.Eventing.Retry.{scaled, calculate_full_jitter_backoff}
use settle_flow.Common.Text.{text_leb, text_eq_refl, text_eq, text, Text}
use settle_flow.Eventing.Relay.Service.{
  run_once, publish_if_any, publish_claimed, outcome_of, is_confirmed_in, confirmed, RelayRound,
  OutboxRelayOptions, OutboxPublisher,
}
use settle_flow.Database.Eventing.{payment_created, OutboxEvent}
use settle_flow.Database.{Database}
use settle_flow.Eventing.Relay.Repository.{
  to_claimed, is_due, is_before, finalize_rows, finalize, claim_rows, claim_pending, candidates,
  ClaimedOutboxEvent, ClaimPendingInput,
}
use settle_flow.Common.{
  Bool-cases, ◌⊎◌, ◌≡◌, ◌∷◌, ◌+◌, ℕ, true, sym, sort_by, some, refl, none, map, inr, inl, false,
  count_if, arith, ap, any, [], List, All,
}
use settle_flow.Eventing.Relay.Rows.{OneRowPerId}
use mathlib.Core.List.{Memᴰ}

abbrev event_row : Text → Text → ℕ → OutboxEvent
event_row id event_id available_at = record {
  id = id;
  event_id = event_id;
  merchant_id = text "mrc";
  aggregate_id = text "pi";
  occurred_at = 5;
  request_id = text "req";
  payload = payment_created 700 etb;
  attempt_count = 0;
  available_at = available_at;
  locked_by = none;
  lease_expires_at = none;
  published_at = none;
}

abbrev first_event : OutboxEvent
first_event = event_row (text "a") (text "evt_a") 10

abbrev second_event : OutboxEvent
second_event = event_row (text "b") (text "evt_b") 20

abbrev outbox : Database
outbox = record nothing { outbox_events = first_event ∷ second_event ∷ [] }

abbrev relay_options : OutboxRelayOptions
relay_options = record {
  batch_size = 1;
  retry_base_ms = 100;
  retry_max_ms = 1_000;
  lease_duration_ms = 30;
}

abbrev round_at : ℕ → RelayRound
round_at now = record {
  claim = record { now = now; held = λ _. false };
  finalized_at = now + 2;
  draw = λ _. record { numerator = 1; denominator = 2 };
}

abbrev confirming : OutboxPublisher
confirming = record {
  ensure_ready = true;
  publish_batch =
      map (λ (c : ClaimedOutboxEvent). record { event_id = c.event_id; kind = confirmed });
  is_ready = true;
}

abbrev refusing : OutboxPublisher
refusing = record confirming { publish_batch = λ _. [] }

abbrev worker : Text
worker = text "w1"

code_of : Text → ℕ
code_of [] = 0
code_of (c ∷ _) = c

keyed : OneRowPerId outbox.outbox_events
unfolding code_of
keyed = (
  (λ _. refl, (λ h. absurd (ground (arith, ap code_of h)), tt)),
  ((λ h. absurd (ground (arith, ap code_of h)), (λ _. refl, tt)), tt),
)

-- The refused event is put off to 17 + 50.
run_refused :
    (run_once relay_options (round_at 15) refusing worker outbox).1.outbox_events
    ≡ record first_event { available_at = 67; attempt_count = 1 } ∷ second_event ∷ []
unfolding run_once claim_pending claim_rows candidates sort_by is_due is_before text_eq text_leb
    publish_if_any publish_claimed finalize finalize_rows outcome_of calculate_full_jitter_backoff
    scaled
run_refused = refl

only_confirmed :
    (cs : List ClaimedOutboxEvent) (id : Text)
    → (outcome_of (confirming.publish_batch cs) id ≡ none)
      ⊎ (outcome_of (confirming.publish_batch cs) id ≡ some confirmed)
unfolding outcome_of
only_confirmed [] id = inl refl
only_confirmed (c ∷ cs) id = elim (Bool-cases (text_eq c.event_id id)) [
  | inl hit ↦ inr (ground (arith, only_confirmed cs id))
  | inr miss ↦ ground (arith, only_confirmed cs id)
]

confirms_each :
    (cs : List ClaimedOutboxEvent) (c : ClaimedOutboxEvent)
    → Memᴰ c cs
    → is_confirmed_in (confirming.publish_batch cs) c.event_id ≡ true
unfolding outcome_of
confirms_each [] c m = elim m [ ]
confirms_each (d ∷ cs) c (Memᴰ.head e) =
    let same : d.event_id ≡ c.event_id = ap (λ (x : ClaimedOutboxEvent). x.event_id) (sym e) in
    rw (← same) (ground (arith, only_confirmed cs d.event_id, text_eq_refl d.event_id))
confirms_each (d ∷ cs) c (Memᴰ.tail m) =
    ground (arith, only_confirmed cs c.event_id, confirms_each cs c m)

drain_publishes_example :
    count_if is_pending
      (run_rounds relay_options confirming worker
        (round_at 25 ∷ round_at 30 ∷ [])
        outbox).outbox_events
    ≡ 0
unfolding is_due
drain_publishes_example =
    drain_publishes relay_options confirming worker 20 (omega arith) (refl, confirms_each)
      (round_at 25 ∷ round_at 30 ∷ []) outbox
      ((omega arith, λ _. refl), ((omega arith, λ _. refl), tt)) keyed (λ _. refl, (λ _. refl, tt))
      (omega arith)

abbrev input_of : Text → ClaimPendingInput
input_of worker_id = record { batch_size = 1; worker_id = worker_id }

abbrev claimed_first : List ClaimedOutboxEvent
claimed_first = to_claimed (record first_event { attempt_count = 1 }) ∷ []

abbrev claimed_second : List ClaimedOutboxEvent
claimed_second = to_claimed (record second_event { attempt_count = 1 }) ∷ []

claim_excludes_example :
    All (λ d. any (λ c. text_eq c.id d.id) claimed_first ≡ false) claimed_second
unfolding claim_pending claim_rows candidates sort_by is_due is_before text_eq text_leb
claim_excludes_example =
    claim_excludes 30 (round_at 25).claim (round_at 40).claim (input_of worker)
      (input_of (text "w2")) outbox claimed_first claimed_second (omega arith) refl refl
