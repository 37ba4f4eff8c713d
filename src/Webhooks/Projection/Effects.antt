-- ===== src/Webhooks/Projection/Effects.antt =====
-- What the handling of an event may do to the inbox and the tables of the webhooks
-- (payment-created-webhook-projection.service.ts).
use settle_flow.Webhooks.Projection.Outcomes.{IsFresh}
use settle_flow.Common.Action.{ok, err, Result}
use settle_flow.Eventing.Inbox.{
  processed, inbox_row, has_message_key, duplicate, consumer_name_of, InboxState, InboxResult,
}
use settle_flow.Common.Errors.{Error}
use settle_flow.Webhooks.Projection.{
  Handling, projection_input, inbox_event, has_event_id, find_eligible_endpoint_ids, event_type_of,
  event_matches, ProjectionResult, DomainMessage,
}
use settle_flow.Webhooks.Rows.{WebhookTables, WebhookEvent, WebhookDelivery}
use settle_flow.Common.{
  ◌≡◌, ◌∷◌, ◌++◌, ℕ, true, some, none, map, length, find?, false, any, [], List, All,
}

-- Handling fails and changes nothing; or the message is on record; or only the message is new, and its
-- event stands in the tables with the same content; or both are new, and the event is written with one
-- delivery for each endpoint of the merchant that is active and subscribed to it.
pub data Projects (m : DomainMessage) (s : InboxState WebhookTables)
    (r : Result (InboxResult ProjectionResult) × InboxState WebhookTables) : Type 0 where
  nothing_done : (e : Error) → r ≡ (err e, s) → Projects m s r
  seen_before :
      any (has_message_key (consumer_name_of (inbox_event m)) m.event_id) s.0 ≡ true
      → r ≡ (ok duplicate, s)
      → Projects m s r
  recorded_alone :
      (now : ℕ) (event : WebhookEvent)
      → find? (has_event_id m.event_id) s.1.events ≡ some event
      → event_matches event m ≡ true
      → r ≡ (
        ok (processed (record { already_projected = true; delivery_count = 0 })),
        (s.0 ++ (inbox_row (consumer_name_of (inbox_event m)) (inbox_event m) now ∷ []), s.1),
      )
      → Projects m s r
  projected_now :
      (now : ℕ) (added : List WebhookDelivery)
      → find? (has_event_id m.event_id) s.1.events ≡ none
      → map (λ d. d.endpoint_id) added
        ≡ find_eligible_endpoint_ids m.merchant_id (event_type_of m.body) s.1.endpoints
      → All (IsFresh m now) added
      → r ≡ (
        ok (processed (record { already_projected = false; delivery_count = length added })),
        (
          s.0 ++ (inbox_row (consumer_name_of (inbox_event m)) (inbox_event m) now ∷ []),
          record s.1 {
            events = s.1.events ++ (projection_input m now ∷ []);
            deliveries = s.1.deliveries ++ added;
          },
        ),
      )
      → Projects m s r
