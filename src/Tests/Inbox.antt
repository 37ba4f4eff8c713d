-- ===== src/Tests/Inbox.antt =====
-- An event that arrives twice, with an endpoint that is subscribed to it.
use settle_flow.Tests.Data.{ulid}
use settle_flow.Common.Text.{text_leb, text_eq, split, text}
use settle_flow.Common.Errors.{serialization_failure}
use settle_flow.Webhooks.Projection.{
  project_new, project, new_deliveries, insert_deliveries, handle_from, find_eligible_endpoint_ids,
  delivery_error, create_projection, handle,
}
use settle_flow.Common.{
  sort_by, ◌==◌, if◌then◌else◌, ◌≤◌, ◌≡◌, ◌∷◌, ◌+◌, ◌++◌, ℕ, true, some, refl, none, map, false,
  arith, [],
}
use settle_flow.Webhooks.Rows.{WebhookTables, WebhookEndpoint}
use settle_flow.Eventing.Inbox.Handling.{process-IsHandled, IsHandled}
use settle_flow.Eventing.Inbox.{
  handle_once, process_from, process, with_serializable_transaction, reserve, consumer_name_of,
  process_for_consumer, inbox_row, duplicate, InboxState, InboxContext, InboxAttempt,
}
use settle_flow.Webhooks.Messages.{event_matches, inbox_event, DomainMessage, EventBody}
use settle_flow.Eventing.Inbox.Deduplication.{processed_once, times_processed, Arrival}
use settle_flow.Common.Action.{ok, Action}

abbrev pub message : DomainMessage
message = record {
  event_id = text "evt_" ++ ulid;
  merchant_id = text "m";
  occurred_at = 500;
  request_id = text "req-1";
  body = EventBody.payment_created (text "pi_1") (text "ETB") 2500;
  payload_bytes = text "{}";
  payload_sha256 = text "sha";
}

abbrev attempt : ℕ → InboxAttempt
attempt n = record {
  context = record {
    processed_at = 1000 + n;
    uuid = λ k. text "row " ++ (n ∷ k ∷ []);
    ulid = λ k. n ∷ k ∷ [];
  };
  fault = none;
  connected = true;
}

-- The database aborts the first attempt.
abbrev attempts : ℕ → InboxAttempt
attempts n = record (attempt n) { fault = if n == 1 then some serialization_failure else none }

abbrev endpoint : WebhookEndpoint
endpoint = record {
  id = text "e";
  merchant_id = text "m";
  is_active = true;
  normalized_url = text "https://m.example/";
  subscriptions = text "payment.created.v1" ∷ [];
}

abbrev unprojected : WebhookTables
unprojected = record {
  deliveries = [];
  attempts = [];
  endpoints =
      record endpoint { id = text "f" } ∷ endpoint ∷ record endpoint { is_active = false } ∷ [];
  secrets = [];
  events = [];
}

abbrev start : InboxState WebhookTables
start = ([], unprojected)

abbrev projected : InboxState WebhookTables
projected = (handle 3 (λ k. attempts) message start).1

-- Both active endpoints get a delivery, in the order of their identifiers; a second time nothing is done.
two_deliveries : map (λ d. d.endpoint_id) projected.1.deliveries ≡ text "e" ∷ text "f" ∷ []
unfolding handle handle_from process process_for_consumer process_from with_serializable_transaction
    handle_once reserve consumer_name_of split project project_new event_matches create_projection
    insert_deliveries delivery_error new_deliveries find_eligible_endpoint_ids text_eq text_leb
    sort_by
two_deliveries = refl

second_time : handle 3 (λ k. attempts) message projected ≡ (ok duplicate, projected)
unfolding handle handle_from process process_for_consumer process_from with_serializable_transaction
    handle_once reserve consumer_name_of split project project_new event_matches create_projection
    insert_deliveries delivery_error new_deliveries find_eligible_endpoint_ids text_eq text_leb
    sort_by
second_time = refl

-- An effect that counts its runs.
abbrev counting : InboxContext → Action ℕ ℕ
counting context n = (ok n, n + 1)

process-IsHandled_example :
    IsHandled
      (text "c")
      (inbox_event message)
      counting
      ([], 5)
      (process_for_consumer 3 attempts (text "c") (inbox_event message) counting ([], 5))
process-IsHandled_example =
    process-IsHandled (text "c") (inbox_event message) counting 3 attempts ([], 5)

abbrev recorded : InboxState ℕ
recorded = (inbox_row (text "c") (inbox_event message) 1002 ∷ [], 6)

abbrev arrival : Arrival
arrival = record { consumer = text "c"; message = inbox_event message; attempts = attempts }

processed_once_example :
    times_processed 3
        (λ c m. counting)
        (text "c")
        (text "evt_" ++ ulid)
        (arrival ∷ arrival ∷ [])
        ([], 5)
      + 0
    ≤ 1
processed_once_example =
    processed_once 3 (λ c m. counting) (text "c") (text "evt_" ++ ulid) (arrival ∷ arrival ∷ [])
      ([], 5) (omega arith)
