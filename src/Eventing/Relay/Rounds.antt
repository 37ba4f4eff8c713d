-- ===== src/Eventing/Relay/Rounds.antt =====
-- A round of the relay against what it promises (outbox-relay.service.ts).
use settle_flow.Eventing.Relay.Rows.{round_row, OneRowPerId}
use settle_flow.Database.{Database}
use settle_flow.Eventing.Relay.Finalizations.{map_same, map-map, finalize_rows-map, finalize_all}
use settle_flow.Common.Text.{Text}
use settle_flow.Eventing.Relay.Service.{
  run_once, publish_if_any, publish_claimed, OutboxPublisher, finalization_of, RelayRound,
  OutboxRelayOptions,
}
use settle_flow.Database.Eventing.{OutboxEvent}
use settle_flow.Eventing.Relay.Repository.{
  finalize, claim_rows, claim_pending, to_claimed, is_chosen, candidates, ClaimedOutboxEvent,
}
use settle_flow.Common.{◌∷◌, [], ◌≡◌, ◌∙◌, true, map, filter, arith, ap, List}

-- The events that the claim of a round takes from the database.
unfoldable pub claimed_in :
    OutboxRelayOptions → RelayRound → Text → Database → List ClaimedOutboxEvent
claimed_in o round worker_id db = map to_claimed (
    filter (is_chosen (candidates round.claim o.batch_size db.outbox_events)) (
      claim_rows o.lease_duration_ms round.claim
        (record { batch_size = o.batch_size; worker_id = worker_id }) db.outbox_events))

publish_if_any_events :
    (o : OutboxRelayOptions) (round : RelayRound) (publisher : OutboxPublisher) (worker_id : Text)
    (claimed : List ClaimedOutboxEvent) (db : Database)
    → (publish_if_any o round publisher worker_id claimed db).1 ≡ record db {
      outbox_events =
          map
            (finalize_all round.finalized_at worker_id
              (map (finalization_of o round (publisher.publish_batch claimed)) claimed))
            db.outbox_events;
    }
unfolding publish_if_any publish_claimed finalize
publish_if_any_events o round publisher worker_id [] db =
    ap (λ (rows : List OutboxEvent). record db { outbox_events = rows }) (map_same db.outbox_events)
publish_if_any_events o round publisher worker_id (c ∷ cs) db =
    ap (λ (rows : List OutboxEvent). record db { outbox_events = rows })
      (finalize_rows-map round.finalized_at worker_id
        (map (finalization_of o round (publisher.publish_batch (c ∷ cs))) (c ∷ cs)) 0
        db.outbox_events)

run_once_claims :
    (o : OutboxRelayOptions) (round : RelayRound) (publisher : OutboxPublisher) (worker_id : Text)
    (db : Database)
    → publisher.ensure_ready ≡ true
    → (run_once o round publisher worker_id db).1
      ≡ (publish_if_any o round publisher worker_id (claimed_in o round worker_id db) (record db {
        outbox_events =
            claim_rows o.lease_duration_ms round.claim
              (record { batch_size = o.batch_size; worker_id = worker_id })
              db.outbox_events;
      })).1
unfolding run_once claim_pending claimed_in
run_once_claims o round publisher worker_id db ready = ground arith

pub run_once_ready :
    (o : OutboxRelayOptions) (round : RelayRound) (publisher : OutboxPublisher) (worker_id : Text)
    (db : Database) (keyed : OneRowPerId db.outbox_events)
    → publisher.ensure_ready ≡ true
    → (run_once o round publisher worker_id db).1 ≡ record db {
      outbox_events =
          map
            (round_row o round worker_id db.outbox_events keyed
              (publisher.publish_batch (claimed_in o round worker_id db)))
            db.outbox_events;
    }
unfolding claimed_in claim_rows
run_once_ready o round publisher worker_id db keyed ready =
    run_once_claims o round publisher worker_id db ready
    ∙ (publish_if_any_events o round publisher worker_id (claimed_in o round worker_id db) _
        ∙ ap (λ (rows : List OutboxEvent). record db { outbox_events = rows })
            (map-map _ _ db.outbox_events))
