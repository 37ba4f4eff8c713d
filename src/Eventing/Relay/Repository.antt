-- ===== src/Eventing/Relay/Repository.antt =====
-- Claiming events under a lease and settling what became of them:
-- packages/modules/eventing/src/prisma-outbox-relay.repository.ts. The columns `locked_at` and
-- `updated_at` are written only; the type of an event goes with its payload.
use settle_flow.Common.Int.{ℤ, sub_ℕ, pos}
use settle_flow.Common.Action.{ok}
use settle_flow.Common.Text.{text_leb, text_eq, Text}
use settle_flow.Database.Eventing.{Payload, OutboxEvent}
use settle_flow.Database.{Call}
use settle_flow.Common.{
  sort_by, take, ◌∷◌, ◌||◌, ◌==◌, ◌+◌, ◌&&◌, ℕ, true, some, not, none, map, ltb, length, leb,
  is_some, if◌then◌else◌, filter, false, count_if, any, [], Option, List, Bool,
}

pub record ClaimedOutboxEvent : Type 0 where
  pub id : Text
  pub event_id : Text
  pub merchant_id : Text
  pub aggregate_id : Text
  pub occurred_at : ℕ
  pub request_id : Text
  pub payload : Payload
  pub attempt_count : ℕ

pub record ClaimPendingInput : Type 0 where
  pub batch_size : ℕ
  pub worker_id : Text

-- What the database decides when a claim runs: its clock, and the rows that other transactions hold
-- locked, which `SKIP LOCKED` passes over.
pub record ClaimMoment : Type 0 where
  pub now : ℕ
  pub held : Text → Bool

abbrev pub is_over : ℕ → Option ℕ → Bool
is_over now none = true
is_over now (some expires_at) = leb expires_at now

unfoldable pub is_due : ℕ → OutboxEvent → Bool
is_due now e =
    not (is_some e.published_at) && leb e.available_at now && is_over now e.lease_expires_at

-- `ORDER BY outbox."available_at", outbox."id"`
unfoldable pub is_before : OutboxEvent → OutboxEvent → Bool
is_before e f =
    ltb e.available_at f.available_at || (e.available_at == f.available_at && text_leb e.id f.id)

unfoldable pub candidates : ClaimMoment → ℕ → List OutboxEvent → List OutboxEvent
unfolding is_due is_before
candidates moment batch_size rows =
    take batch_size
      (sort_by is_before (filter (λ e. is_due moment.now e && not (moment.held e.id)) rows))

abbrev pub lease : ℕ → ℕ → Text → OutboxEvent → OutboxEvent
lease lease_duration_ms now worker_id e = record e {
  locked_by = some worker_id;
  lease_expires_at = some (now + lease_duration_ms);
  attempt_count = e.attempt_count + 1;
}

abbrev pub is_chosen : List OutboxEvent → OutboxEvent → Bool
is_chosen chosen e = any (λ c. text_eq c.id e.id) chosen

abbrev pub to_claimed : OutboxEvent → ClaimedOutboxEvent
to_claimed e = record {
  id = e.id;
  event_id = e.event_id;
  merchant_id = e.merchant_id;
  aggregate_id = e.aggregate_id;
  occurred_at = e.occurred_at;
  request_id = e.request_id;
  payload = e.payload;
  attempt_count = e.attempt_count;
}

unfoldable pub claim_rows :
    ℕ → ClaimMoment → ClaimPendingInput → List OutboxEvent → List OutboxEvent
unfolding candidates
claim_rows lease_duration_ms moment input rows =
    map
      (λ e.
        if is_chosen (candidates moment input.batch_size rows) e
        then lease lease_duration_ms moment.now input.worker_id e
        else e)
      rows

-- `claimPending`
unfoldable pub claim_pending : ℕ → ClaimMoment → ClaimPendingInput → Call (List ClaimedOutboxEvent)
unfolding claim_rows
claim_pending lease_duration_ms moment input db =
    let rows = claim_rows lease_duration_ms moment input db.outbox_events in
    let chosen = candidates moment input.batch_size db.outbox_events in
    (ok (map to_claimed (filter (is_chosen chosen) rows)), record db { outbox_events = rows })

-- `OutboxFinalization`, with the identifiers of the row and of the event
pub data OutboxFinalization : Type 0 where
  published : Text → Text → OutboxFinalization
  retry : Text → Text → ℕ → OutboxFinalization

-- `locked_by = …`
abbrev pub is_locked : Text → OutboxEvent → Bool
is_locked worker_id e = elim e.locked_by [ none ↦ false | some w ↦ text_eq w worker_id ]

abbrev pub is_held_by : Text → Text → Text → OutboxEvent → Bool
is_held_by worker_id id event_id e =
    text_eq e.id id
    && text_eq e.event_id event_id
    && not (is_some e.published_at)
    && is_locked worker_id e

abbrev pub touches : Text → OutboxFinalization → OutboxEvent → Bool
touches worker_id (published id event_id) = is_held_by worker_id id event_id
touches worker_id (retry id event_id _) = is_held_by worker_id id event_id

abbrev pub settled : ℕ → OutboxFinalization → OutboxEvent → OutboxEvent
settled now (published _ _) e = record e {
  published_at = some now;
  locked_by = none;
  lease_expires_at = none;
}
settled now (retry _ _ retry_delay_ms) e = record e {
  available_at = now + retry_delay_ms;
  locked_by = none;
  lease_expires_at = none;
}

abbrev pub finalize_row : ℕ → Text → OutboxFinalization → OutboxEvent → OutboxEvent
finalize_row now worker_id f e = if touches worker_id f e then settled now f e else e

-- The loop over the finalizations, with the count of the rows that it has updated.
unfoldable pub finalize_rows :
    ℕ → Text → List OutboxFinalization → ℕ → List OutboxEvent → ℕ × List OutboxEvent
finalize_rows now worker_id [] updated rows = (updated, rows)
finalize_rows now worker_id (f ∷ fs) updated rows =
    finalize_rows now worker_id fs (updated + count_if (touches worker_id f) rows)
      (map (finalize_row now worker_id f) rows)

pub record FinalizeOutboxResult : Type 0 where
  pub ownership_lost : ℤ
  pub updated : ℕ

-- `finalize`
unfoldable pub finalize : ℕ → Text → List OutboxFinalization → Call FinalizeOutboxResult
unfolding finalize_rows
finalize now worker_id [] db = (ok (record { ownership_lost = pos 0; updated = 0 }), db)
finalize now worker_id (f ∷ fs) db =
    let (updated, rows) = finalize_rows now worker_id (f ∷ fs) 0 db.outbox_events in
    (
      ok (record { ownership_lost = sub_ℕ (length (f ∷ fs)) updated; updated = updated }),
      record db { outbox_events = rows },
    )
