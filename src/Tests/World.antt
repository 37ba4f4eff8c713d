-- ===== src/Tests/World.antt =====
-- The environments and the commands of the runs of payments, and the databases that they leave behind.
use settle_flow.Database.Ledger.{etb}
use settle_flow.Common.{◌∷◌, ◌+◌, ◌++◌, ℕ, true, some, none, []}
use settle_flow.Common.Text.{text, Text}
use settle_flow.Payments.Service.{
  with_identifiers, unwrap, try_refund, try_create, try_capture, refund_acquired, execute_provider,
  create_acquired, create, complete_problem, capture_acquired, approved, acquire_command,
  Environment,
}
use settle_flow.Database.{Database}
use settle_flow.Payments.Responses.{RefundCommand, CreateCommand, CaptureCommand}
use settle_flow.Tests.Data.{merchant, books, ulid}

-- An environment for the n-th command.
abbrev pub world : ℕ → Environment
world n = record {
  options = record { lease_duration_ms = 30000; replay_duration_ms = 86400000 };
  now = 1000 + n;
  key_hash = λ key. key;
  request_hash = λ _. n ∷ [];
  owner_token = text "owner " ++ (n ∷ []);
  record_id = text "key " ++ (n ∷ []);
  provider = some approved;
  started_at = λ _. 1000 + n;
  ulid = λ k. ulid ++ (48 + n) ∷ (48 + k) ∷ [];
  event_ulid = λ k. ulid ++ (48 + n) ∷ (48 + k) ∷ [];
  draws = λ k j. record {
    clock = 1000 + n;
    uuid = text "row " ++ (n ∷ k ∷ j ∷ []);
    posting = record { ulid = n ∷ k ∷ j ∷ []; uuid = n ∷ k ∷ j ∷ []; posted_at = 1000 + n };
    event = record { uuid = n ∷ k ∷ j ∷ []; ulid = n ∷ k ∷ j ∷ []; available_at = 1000 + n };
  };
  attempts = λ k j. record { completed_at = 1000 + n; fault = none; connected = true };
  problem_attempts = λ j. record { completed_at = 1000 + n; fault = none; connected = true };
}

abbrev pub intent_id : Text
intent_id = text "pi_" ++ ulid

abbrev pub creating : CreateCommand
creating = record {
  amount_minor = 2500;
  currency = etb;
  external_ref = text "order 1";
  idempotency_key = text "k";
  merchant_id = merchant;
  request_id = text "req-1";
}

abbrev pub capturing : CaptureCommand
capturing = record {
  amount_minor = 2500;
  currency = etb;
  idempotency_key = text "k";
  merchant_id = merchant;
  payment_id = intent_id;
  request_id = text "req-2";
}

abbrev pub refunding : ℕ → RefundCommand
refunding amount = record {
  amount_minor = amount;
  currency = etb;
  external_ref = text "refund 1";
  idempotency_key = text "k";
  merchant_id = merchant;
  payment_id = intent_id;
  request_id = text "req-3";
}

abbrev pub fixed_ulid : Environment → Environment
fixed_ulid env = record env { ulid = λ _. ulid }

abbrev pub created_books : Database
created_books = (settle_flow.Payments.Service.create (fixed_ulid (world 1)) creating books).1

abbrev pub captured_books : Database
captured_books = (settle_flow.Payments.Service.capture (world 2) capturing created_books).1

abbrev pub refunded_books : Database
refunded_books = (settle_flow.Payments.Service.refund (world 3) (refunding 700) captured_books).1

abbrev pub too_much : RefundCommand
too_much = record (refunding 1801) { idempotency_key = text "k2" }
