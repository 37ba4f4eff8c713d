-- ===== src/Webhooks/Projection.antt =====
-- From an event to the deliveries of it: `project` and `handle` of
-- payment-created-webhook-projection.service.ts, and prisma-webhook-projection.repository.ts, of
-- packages/modules/webhooks/src.
use settle_flow.Webhooks.Messages.{
  projection_input, inbox_event, event_type_of, event_matches, DomainMessage,
}
use settle_flow.Payments.Refunds.{ids}
use settle_flow.Database.Idempotency.{completed}
use settle_flow.Database.Payments.{refunded, created, captured}
use settle_flow.Webhooks.Checks.{passes}
use settle_flow.Common.Text.{text_leb, text_eq, text, Text}
use settle_flow.Eventing.Inbox.{
  process, InboxState, InboxResult, InboxEvent, InboxContext, InboxAttempt,
}
use settle_flow.Common.Errors.{
  webhook, event_projection_conflict, delivery_identifier_exhausted, delivery_identifier_collision,
  database, Error,
}
use settle_flow.Webhooks.Rows.{
  pending, WebhookTables, WebhookEvent, WebhookEndpoint, WebhookDelivery, WebhookCall,
  DeliveryStatus,
}
use settle_flow.Common.{
  ltb, ◌==◌, if◌then◌else◌, ◌∷◌, ◌||◌, ◌+◌, ◌++◌, ◌&&◌, ℕ, zero, true, suc, sort_by, some, not,
  none, map, length, find?, filter, false, any, [], Option, List, Bool,
}
use settle_flow.Common.Action.{pure, ◌>>◌, ◌>>=◌, throw_if, on_some, ok, err, Result, Action}
pub mod Outcomes
pub mod Effects

abbrev pub has_event_id : Text → WebhookEvent → Bool
has_event_id event_id e = text_eq e.event_id event_id

-- `findEligibleEndpointIds`
abbrev pub is_eligible : Text → Text → WebhookEndpoint → Bool
is_eligible merchant_id event_type e =
    text_eq e.merchant_id merchant_id && e.is_active && any (text_eq event_type) e.subscriptions

unfoldable pub find_eligible_endpoint_ids : Text → Text → List WebhookEndpoint → List Text
find_eligible_endpoint_ids merchant_id event_type endpoints =
    map (λ e. e.id)
      (sort_by (λ e f. text_leb e.id f.id) (filter (is_eligible merchant_id event_type) endpoints))

-- The row of a delivery as it is inserted, for the n-th endpoint
abbrev pub new_delivery : DomainMessage → InboxContext → ℕ → Text → WebhookDelivery
new_delivery m context n endpoint_id = record {
  id = context.uuid n;
  public_id = text "whd_" ++ context.ulid n;
  merchant_id = m.merchant_id;
  endpoint_id = endpoint_id;
  event_id = m.event_id;
  status = DeliveryStatus.pending;
  attempt_count = 0;
  next_attempt_at = some context.processed_at;
  locked_by = none;
  claim_token = none;
  locked_at = none;
  lease_expires_at = none;
  active_attempt_number = none;
  active_attempt_started_at = none;
  active_signature_timestamp = none;
  active_current_secret_version = none;
  active_previous_secret_version = none;
  delivered_at = none;
  dead_lettered_at = none;
}

unfoldable pub new_deliveries : DomainMessage → InboxContext → ℕ → List Text → List WebhookDelivery
new_deliveries m context n [] = []
new_deliveries m context n (endpoint_id ∷ ids) =
    new_delivery m context n endpoint_id ∷ new_deliveries m context (n + 1) ids

-- `create`: the constraint on the order of the times and the primary key of the event
abbrev pub insert_event : WebhookEvent → WebhookCall (Unit {0})
insert_event e s =
    if ltb e.projected_at e.occurred_at || any (has_event_id e.event_id) s.events
    then (err database, s)
    else (ok tt, record s { events = s.events ++ (e ∷ []) })

-- The primary key, and the indexes on the public identifier and on the endpoint with the event
unfoldable pub delivery_error : WebhookDelivery → List WebhookDelivery → Option Error
delivery_error d ds =
    if any (λ x. text_eq x.id d.id) ds
    then some database
    else if any (λ x. text_eq x.public_id d.public_id) ds
    then some (webhook delivery_identifier_collision)
    else if any (λ x. text_eq x.endpoint_id d.endpoint_id && text_eq x.event_id d.event_id) ds
    then some database
    else none

-- Rows one after the other, on the rows that are there
unfoldable pub insert_deliveries :
    List WebhookDelivery → List WebhookDelivery → Result (List WebhookDelivery)
unfolding delivery_error
insert_deliveries [] ds = ok ds
insert_deliveries (d ∷ more) ds =
    let rest = insert_deliveries more (ds ++ (d ∷ [])) in
    elim (delivery_error d ds) [ some e ↦ err e | none ↦ rest ]

abbrev pub with_deliveries :
    WebhookTables → Result (List WebhookDelivery) → Result (Unit {0}) × WebhookTables
with_deliveries s (ok ds) = (ok tt, record s { deliveries = ds })
with_deliveries s (err e) = (err e, s)

unfoldable pub create_projection : WebhookEvent → List WebhookDelivery → WebhookCall (Unit {0})
unfolding insert_deliveries
create_projection event added = do
  insert_event event
  λ s. with_deliveries s (insert_deliveries added s.deliveries)

-- `WebhookProjectionResult`
pub record ProjectionResult : Type 0 where
  pub already_projected : Bool
  pub delivery_count : ℕ

unfoldable pub project_new : DomainMessage → InboxContext → WebhookCall ProjectionResult
unfolding create_projection new_deliveries find_eligible_endpoint_ids
project_new m context s =
    let ids = find_eligible_endpoint_ids m.merchant_id (event_type_of m.body) s.endpoints in
    let added = new_deliveries m context 0 ids in
    (create_projection (projection_input m context.processed_at) added
        >> pure (record { already_projected = false; delivery_count = length added }))
      s

-- `project`
unfoldable pub project : DomainMessage → InboxContext → WebhookCall ProjectionResult
unfolding project_new event_matches
project m context s =
    on_some (find? (has_event_id m.event_id) s.events) (project_new m context)
      (λ row.
        throw_if (not (event_matches row m)) (webhook event_projection_conflict)
        >> pure (record { already_projected = true; delivery_count = 0 }))
      s

abbrev pub max_identifier_attempts : ℕ
max_identifier_attempts = 3

abbrev pub is_collision : Error → Bool
is_collision (webhook delivery_identifier_collision) = true
is_collision _ = false

abbrev pub Handling : Type 0
Handling = Action (InboxState WebhookTables) (InboxResult ProjectionResult)

-- What follows an attempt: its result, its error, the end of the attempts, or another one.
abbrev pub next_handling :
    ℕ
    → Handling
    → Result (InboxResult ProjectionResult) × InboxState WebhookTables
    → Result (InboxResult ProjectionResult) × InboxState WebhookTables
next_handling attempt again (ok v, s) = (ok v, s)
next_handling attempt again (err e, s) =
    if not (is_collision e)
    then (err e, s)
    else if ltb attempt max_identifier_attempts
    then again s
    else (err (webhook delivery_identifier_exhausted), s)

unfoldable pub handle_from : ℕ → (ℕ → ℕ → InboxAttempt) → DomainMessage → ℕ → ℕ → Handling
unfolding process project
handle_from retries env m zero attempt s = (err (webhook delivery_identifier_exhausted), s)
handle_from retries env m (suc rounds) attempt s =
    next_handling attempt (handle_from retries env m rounds (attempt + 1))
      (process retries (env attempt) (inbox_event m) (project m) s)

-- `handle`; the first number is that of the attempts at a transaction (`retryAttempts`)
unfoldable pub handle : ℕ → (ℕ → ℕ → InboxAttempt) → DomainMessage → Handling
unfolding handle_from
handle retries env m = handle_from retries env m max_identifier_attempts 1
