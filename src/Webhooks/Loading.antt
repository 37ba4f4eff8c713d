-- ===== src/Webhooks/Loading.antt =====
-- `loadContext` of prisma-webhook-delivery.repository.ts (packages/modules/webhooks/src): what a claim needs.
use settle_flow.Common.Errors.{unclassified}
use settle_flow.Idempotency.Repository.{rethrow_database_error}
use settle_flow.Webhooks.Starting.{is_previous, is_current}
use settle_flow.Common.Text.{text_eq, text, Text}
use settle_flow.Common.Action.{throw, pure, ◌>>◌, ◌>>=◌, throw_if, on_some, ok, err, Result}
use settle_flow.Webhooks.Repository.{with_id, has_token}
use settle_flow.Webhooks.Rows.{
  WebhookSecret, WebhookEvent, WebhookEndpoint, WebhookCall, DeliveryContext, ClaimedDelivery,
}
use settle_flow.Common.{
  ltb, ◌==◌, if◌then◌else◌, ◌||◌, ◌&&◌, sort_by, some, not, none, find?, filter, Option, List, Bool,
}

abbrev pub is_known_event : Text → Bool
is_known_event t =
    text_eq t (text "payment.created.v1")
    || text_eq t (text "payment.captured.v1")
    || text_eq t (text "payment.refunded.v1")
    || text_eq t (text "settlement.finalized.v1")
    || text_eq t (text "reconciliation.completed.v1")

-- `toSecret`; the lifecycle is one of the two that the query asks for.
abbrev pub to_secret : WebhookSecret → Result WebhookSecret
to_secret x = if text_eq x.algorithm (text "aes-256-gcm") then ok x else err unclassified

-- The secrets of an endpoint, the latest version first
unfoldable pub live_secrets : Text → List WebhookSecret → List WebhookSecret
live_secrets endpoint_id secrets =
    sort_by (λ x y. ltb y.secret_version x.secret_version)
      (filter
        (λ x.
          text_eq x.endpoint_id endpoint_id && (is_current x.lifecycle || is_previous x.lifecycle))
        secrets)

abbrev pub to_secret_option : Option WebhookSecret → Result (Option WebhookSecret)
to_secret_option none = ok none
to_secret_option (some x) = elim (to_secret x) [ ok y ↦ ok (some y) | err e ↦ err e ]

abbrev pub lift : {A : Type 0} → Result A → WebhookCall A
lift r s = (r, s)

unfoldable pub context_of :
    ClaimedDelivery → WebhookEndpoint → WebhookEvent → WebhookCall (Option DeliveryContext)
unfolding live_secrets
context_of claim endpoint event s =
    let secrets = live_secrets endpoint.id s.secrets in
    (throw_if (not (is_known_event event.event_type && event.schema_version == 1)) unclassified
        >> on_some (find? (λ x. is_current x.lifecycle) secrets) (throw unclassified)
            (λ current_row. lift (to_secret current_row) >>= λ current_secret.
              lift (to_secret_option (find? (λ x. is_previous x.lifecycle) secrets))
              >>= λ previous_secret. pure (
                  some (record {
                    body = event.payload_bytes;
                    claim = claim;
                    current_secret = current_secret;
                    endpoint_is_active = endpoint.is_active;
                    event_type = event.event_type;
                    normalized_url = endpoint.normalized_url;
                    previous_secret = previous_secret;
                  }))))
      s

abbrev pub mapped_error : {A : Type 0} → Bool → WebhookCall A → WebhookCall A
mapped_error connected op s =
    let (r, s') = op s in
    elim r [ ok a ↦ (ok a, s') | err e ↦ (err (rethrow_database_error connected e), s') ]

-- The query of `loadContext`; its joins find the endpoint and the event by their foreign keys.
unfoldable pub find_context : ClaimedDelivery → WebhookCall (Option DeliveryContext)
unfolding context_of
find_context claim s =
    on_some (find? (λ d. with_id claim.delivery_id d && has_token claim.claim_token d) s.deliveries)
      (pure none)
      (λ d. on_some (find? (λ e. text_eq e.id d.endpoint_id) s.endpoints) (pure none) (λ endpoint.
        on_some (find? (λ e. text_eq e.event_id d.event_id) s.events) (pure none)
          (context_of claim endpoint)))
      s

-- `loadContext`
unfoldable pub load_context : Bool → ClaimedDelivery → WebhookCall (Option DeliveryContext)
unfolding find_context
load_context connected claim = mapped_error connected (find_context claim)
