-- ===== src/Ledger/Provisioning.antt =====
-- Opening the accounts of a merchant: `provisionAccounts` of
-- packages/modules/ledger/src/ledger.service.ts and prisma-ledger.repository.ts.
use settle_flow.Common.Action.{pure, gets, ◌>>◌, ◌>>=◌, throw_if, modify}
use settle_flow.Common.Patterns.{is_uuid}
use settle_flow.Ledger.Repository.{account_rows}
use settle_flow.Common.Text.{text_eq, Text}
use settle_flow.Common.Errors.{ledger, LedgerError}
use settle_flow.Database.{Database, Call}
use settle_flow.Common.{
  ◌∷◌, ◌||◌, ◌==◌, ◌++◌, ◌&&◌, ℕ, true, some, not, none, length, if◌then◌else◌, find?, any, [],
  List, Bool,
}
use settle_flow.Database.Ledger.{
  usd, side_eq, settlement_clearing, provider_clearing, merchant_payable, fee_revenue, etb, debit,
  currency_eq, credit, code_eq, Side, LedgerAccount, Currency, AccountCode,
}

abbrev pub new_account : Text → Text → Currency → AccountCode → Side → LedgerAccount
new_account merchant_id id currency code normal_side = record {
  id = id;
  merchant_id = merchant_id;
  code = code;
  currency = currency;
  normal_side = normal_side;
}

-- The rows that the service asks for: `CURRENCIES` times `ACCOUNT_DEFINITIONS`, with the UUIDs that
-- it draws.
abbrev pub accounts_of : (ℕ → Text) → Text → List LedgerAccount
accounts_of uuid m =
    new_account m (uuid 0) etb provider_clearing debit
    ∷ new_account m (uuid 1) etb merchant_payable credit
    ∷ new_account m (uuid 2) etb fee_revenue credit
    ∷ new_account m (uuid 3) etb settlement_clearing credit
    ∷ new_account m (uuid 4) usd provider_clearing debit
    ∷ new_account m (uuid 5) usd merchant_payable credit
    ∷ new_account m (uuid 6) usd fee_revenue credit
    ∷ new_account m (uuid 7) usd settlement_clearing credit
    ∷ []

abbrev pub same_account : LedgerAccount → LedgerAccount → Bool
same_account a b =
    currency_eq a.currency b.currency
    && code_eq a.code b.code
    && text_eq a.merchant_id b.merchant_id

-- `createMany` with `skipDuplicates`
unfoldable pub create_missing : List LedgerAccount → List LedgerAccount → List LedgerAccount
create_missing [] table = table
create_missing (a ∷ new) table =
    create_missing new (if any (same_account a) table then table else table ++ (a ∷ []))

-- An account of the table whose normal side is not the one that was asked for.
abbrev pub differs : List LedgerAccount → LedgerAccount → Bool
differs accounts row =
    elim (find? (λ a. code_eq a.code row.code && currency_eq a.currency row.currency) accounts) [
      | none ↦ true
      | some a ↦ not (side_eq a.normal_side row.normal_side)
    ]

unfoldable pub provision_accounts : (ℕ → Text) → Text → Call (List LedgerAccount)
provision_accounts uuid merchant_id = do
  throw_if (not (is_uuid merchant_id)) (ledger LedgerError.invalid_command)
  let accounts = accounts_of uuid merchant_id
  modify λ db. record db { ledger_accounts = create_missing accounts db.ledger_accounts }
  rows ← gets (account_rows merchant_id)
  throw_if (not (length rows == 8) || any (differs accounts) rows)
      (ledger LedgerError.accounts_not_provisioned)
  pure rows
