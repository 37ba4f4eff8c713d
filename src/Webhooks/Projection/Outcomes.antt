-- ===== src/Webhooks/Projection/Outcomes.antt =====
-- What the projection of an event writes (payment-created-webhook-projection.service.ts).
use settle_flow.Payments.Refunds.{ids}
use settle_flow.Webhooks.Checks.{delivery_checks}
use mathlib.Core.List.{append_assoc, append-nil}
use settle_flow.Common.Text.{Text}
use settle_flow.Common.Action.{pure, continue_with, bind_runs, ok, err, Result}
use settle_flow.Eventing.Inbox.{InboxContext}
use settle_flow.Common.Errors.{webhook, event_projection_conflict, database, Error}
use settle_flow.Webhooks.Projection.{
  project, with_deliveries, project_new, insert_event, create_projection, projection_input,
  new_deliveries, insert_deliveries, has_event_id, find_eligible_endpoint_ids, event_type_of,
  event_matches, ProjectionResult, DomainMessage,
}
use settle_flow.Webhooks.Rows.{WebhookTables, WebhookEvent, WebhookDelivery, DeliveryStatus}
use settle_flow.Common.{
  Bool-cases, inr, inl, Option, ltb, ◌∙◌, ◌||◌, ◌≡◌, ◌∷◌, ◌+◌, ◌++◌, ℕ, true, some, refl, none, map,
  length, find?, false, arith, ap, any, [], List, All,
}

-- A delivery as it starts: of this event, open, without an attempt, due at once.
pub record IsFresh (m : DomainMessage) (now : ℕ) (d : WebhookDelivery) : Type 0 where
  pub of_event : d.event_id ≡ m.event_id
  pub of_merchant : d.merchant_id ≡ m.merchant_id
  pub is_pending : d.status ≡ DeliveryStatus.pending
  pub unattempted : d.attempt_count ≡ 0
  pub due : d.next_attempt_at ≡ some now
  pub checked : delivery_checks d ≡ true

insert_deliveries-appends :
    (added ds ds' : List WebhookDelivery) → insert_deliveries added ds ≡ ok ds' → ds' ≡ ds ++ added
unfolding insert_deliveries
insert_deliveries-appends [] ds ds' ran = ground (arith, append-nil ds)
insert_deliveries-appends (d ∷ more) ds ds' ran =
    ground
      (arith, insert_deliveries-appends more (ds ++ (d ∷ [])) ds', append_assoc ds (d ∷ []) more)

new_deliveries-endpoints :
    (m : DomainMessage) (context : InboxContext) (n : ℕ) (ids : List Text)
    → map (λ d. d.endpoint_id) (new_deliveries m context n ids) ≡ ids
unfolding new_deliveries
new_deliveries-endpoints m context n [] = refl
new_deliveries-endpoints m context n (i ∷ ids) =
    ap (λ xs. i ∷ xs) (new_deliveries-endpoints m context (n + 1) ids)

new_deliveries-IsFresh :
    (m : DomainMessage) (context : InboxContext) (n : ℕ) (ids : List Text)
    → All (IsFresh m context.processed_at) (new_deliveries m context n ids)
unfolding new_deliveries delivery_checks
new_deliveries-IsFresh m context n [] = tt
new_deliveries-IsFresh m context n (i ∷ ids) = (
  record {
    of_event = refl;
    of_merchant = refl;
    is_pending = refl;
    unattempted = refl;
    due = refl;
    checked = refl;
  },
  new_deliveries-IsFresh m context (n + 1) ids,
)

-- What the projection of an event answers and leaves behind.
pub data Outcome (m : DomainMessage) (now : ℕ) (s : WebhookTables)
    (r : Result ProjectionResult × WebhookTables) : Type 0 where
  refused : (e : Error) (s' : WebhookTables) → r ≡ (err e, s') → Outcome m now s r
  same_event :
      (event : WebhookEvent)
      → find? (has_event_id m.event_id) s.events ≡ some event
      → event_matches event m ≡ true
      → r ≡ (ok (record { already_projected = true; delivery_count = 0 }), s)
      → Outcome m now s r
  written :
      (added : List WebhookDelivery)
      → find? (has_event_id m.event_id) s.events ≡ none
      → map (λ d. d.endpoint_id) added
        ≡ find_eligible_endpoint_ids m.merchant_id (event_type_of m.body) s.endpoints
      → All (IsFresh m now) added
      → r ≡ (
        ok (record { already_projected = false; delivery_count = length added }),
        record s {
          events = s.events ++ (projection_input m now ∷ []);
          deliveries = s.deliveries ++ added;
        },
      )
      → Outcome m now s r

module _ (m : DomainMessage) (context : InboxContext) (s : WebhookTables) where
  abbrev event : WebhookEvent
  event = projection_input m context.processed_at

  abbrev with_event : WebhookTables
  with_event = record s { events = s.events ++ (event ∷ []) }

  abbrev endpoint_ids : List Text
  endpoint_ids = find_eligible_endpoint_ids m.merchant_id (event_type_of m.body) s.endpoints

  abbrev fresh : List WebhookDelivery
  fresh = new_deliveries m context 0 endpoint_ids

  created_with :
      (r : Result (Unit {0}) × WebhookTables)
      → create_projection event fresh s ≡ r
      → project_new m context s
        ≡ continue_with
            (λ _. pure (record { already_projected = false; delivery_count = length fresh }))
            r
  unfolding project_new
  created_with r ran =
      bind_runs (create_projection event fresh)
        (λ _. pure (record { already_projected = false; delivery_count = length fresh })) s r ran

  create_refused :
      (ltb event.projected_at event.occurred_at || any (has_event_id event.event_id) s.events)
        ≡ true
      → create_projection event fresh s ≡ (err database, s)
  unfolding create_projection
  create_refused taken =
      bind_runs (insert_event event)
        (λ _ t. with_deliveries t (insert_deliveries fresh t.deliveries)) s (err database, s)
        (rw taken refl)

  create_inserts :
      (r : Result (List WebhookDelivery))
      → (ltb event.projected_at event.occurred_at || any (has_event_id event.event_id) s.events)
        ≡ false
      → insert_deliveries fresh s.deliveries ≡ r
      → create_projection event fresh s ≡ with_deliveries with_event r
  unfolding create_projection
  create_inserts r free ran =
      bind_runs (insert_event event)
        (λ _ t. with_deliveries t (insert_deliveries fresh t.deliveries)) s (ok tt, with_event)
        (rw free refl)
      ∙ ap (with_deliveries with_event) ran

  inserted-Outcome :
      (r : Result (List WebhookDelivery))
      → find? (has_event_id m.event_id) s.events ≡ none
      → (ltb event.projected_at event.occurred_at || any (has_event_id event.event_id) s.events)
        ≡ false
      → insert_deliveries fresh s.deliveries ≡ r
      → Outcome m context.processed_at s (project_new m context s)
  inserted-Outcome (err e) unseen free ran =
      refused e with_event (created_with (err e, with_event) (create_inserts (err e) free ran))
  inserted-Outcome (ok ds) unseen free ran =
      let appended : ds ≡ s.deliveries ++ fresh =
        insert_deliveries-appends fresh s.deliveries ds ran in
      written fresh unseen (new_deliveries-endpoints m context 0 endpoint_ids)
        (new_deliveries-IsFresh m context 0 endpoint_ids)
        (created_with (ok tt, record with_event { deliveries = ds })
            (create_inserts (ok ds) free ran)
          ∙ ap
              (λ xs. (
                ok (record { already_projected = false; delivery_count = length fresh }),
                record with_event { deliveries = xs },
              ))
              appended)

  new-Outcome :
      find? (has_event_id m.event_id) s.events ≡ none
      → Outcome m context.processed_at s (project_new m context s)
  new-Outcome unseen =
      elim (Bool-cases
        (ltb event.projected_at event.occurred_at || any (has_event_id event.event_id) s.events)) [
          | inl taken ↦ refused database s (created_with (err database, s) (create_refused taken))
          | inr free ↦ inserted-Outcome (insert_deliveries fresh s.deliveries) unseen free refl
        ]

  project_by :
      (found : Option WebhookEvent)
      → find? (has_event_id m.event_id) s.events ≡ found
      → Outcome m context.processed_at s (project m context s)
  unfolding project
  project_by none unseen = rw unseen (new-Outcome unseen)
  project_by (some row) seen = rw seen (elim (Bool-cases (event_matches row m)) [
    | inl same ↦ rw same (same_event row seen same refl)
    | inr other ↦ rw other (refused (webhook event_projection_conflict) s refl)
  ])

  pub project-Outcome : Outcome m context.processed_at s (project m context s)
  project-Outcome = project_by (find? (has_event_id m.event_id) s.events) refl
