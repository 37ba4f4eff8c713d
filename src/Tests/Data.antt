-- ===== src/Tests/Data.antt =====
-- The inputs of the runs.
use settle_flow.Common.Int.{pos}
use settle_flow.Database.Ledger.{etb}
use settle_flow.Ledger.Provisioning.{accounts_of}
use settle_flow.Common.{◌∷◌, ◌+◌, ◌++◌, ℕ, some, []}
use settle_flow.Common.Text.{text, Text}
use settle_flow.Ledger.Service.{
  ltx, ReverseLedgerTransactionCommand, LedgerSettlementPostingCommand, LedgerMoneyPostingCommand,
  Generated,
}
use settle_flow.Database.{Database}

abbrev pub merchant : Text
merchant = text "0b5e7c1a-92d4-4f6b-8a3e-5c1d2e3f4a5b"

abbrev pub ulid : Text
ulid = text "01J9Z3K8QW5T6V7X8Y9ZABCDEF"

abbrev pub ulid2 : Text
ulid2 = text "01J9Z3K8QW5T6V7X8Y9ZABCDEG"

abbrev pub nothing : Database
nothing = record {
  ledger_accounts = [];
  ledger_transactions = [];
  payment_intents = [];
  refunds = [];
  idempotency_keys = [];
  outbox_events = [];
}

abbrev pub account_ids : ℕ → Text
account_ids n = text "account " ++ (48 + n) ∷ []

abbrev pub books : Database
books = record nothing { ledger_accounts = accounts_of account_ids merchant }

abbrev pub generated : Generated
generated = record { ulid = ulid; uuid = text "t1"; posted_at = 1000 }

abbrev pub generated2 : Generated
generated2 = record { ulid = ulid2; uuid = text "t2"; posted_at = 2000 }

abbrev pub money : LedgerMoneyPostingCommand
money = record {
  amount_minor = pos 2500;
  business_reference = text "pi_1";
  currency = etb;
  merchant_id = merchant;
  occurred_at = some 900;
  request_id = text "req-1";
}

abbrev pub settled : LedgerSettlementPostingCommand
settled = record {
  business_reference = text "st_1";
  currency = etb;
  fee_minor = pos 50;
  gross_minor = pos 2000;
  merchant_id = merchant;
  net_minor = pos 1950;
  occurred_at = some 950;
  request_id = text "req-2";
}

abbrev pub undo : ReverseLedgerTransactionCommand
undo = record {
  business_reference = text "undo_1";
  merchant_id = merchant;
  occurred_at = some 990;
  original_public_id = ltx ulid;
  request_id = text "req-3";
}
