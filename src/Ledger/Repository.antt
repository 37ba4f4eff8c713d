-- ===== src/Ledger/Repository.antt =====
-- The ledger's repository (packages/modules/ledger/src/prisma-ledger.repository.ts) with the
-- unique indexes and checks of its tables. A statement that fails aborts the database's
-- transaction, so a posting makes its checks first and then writes its rows at once.
use settle_flow.Common.{
  ℕ, Bool, false, ◌&&◌, ◌||◌, not, List, [], ◌∷◌, ◌++◌, Option, none, some, ◌==◌, if◌then◌else◌,
  length, any, filter, find?, count_if, is_some,
}
use settle_flow.Common.Text.{Text, text_eq}
use settle_flow.Common.Errors.{ledger, LedgerError, Error}
use settle_flow.Common.Action.{pure, throw}
use settle_flow.Database.{Database, Call}
use settle_flow.Database.Ledger.{
  Currency, currency_eq, AccountCode, code_eq, fee_revenue, merchant_payable, provider_clearing,
  settlement_clearing, BusinessType, business_type_eq, reversal, Side, side_eq, credit, debit, Date,
  LedgerAccount, LedgerEntry, LedgerTransaction,
}
use settle_flow.Ledger.Posting.{is_bad_amount}

pub record CreateLedgerPosting : Type 0 where
  pub business_reference : Text
  pub business_type : BusinessType
  pub currency : Currency
  pub entries : List LedgerEntry
  pub id : Text
  pub merchant_id : Text
  pub occurred_at : Date
  pub public_id : Text
  pub request_id : Text
  pub reversal_of_id : Option Text

abbrev pub account_rows : Text → Database → List LedgerAccount
account_rows merchant db = filter (λ a. text_eq a.merchant_id merchant) db.ledger_accounts

abbrev pub expected_side : AccountCode → Side
expected_side provider_clearing = debit
expected_side _ = credit

abbrev pub all_codes : List AccountCode
all_codes = fee_revenue ∷ merchant_payable ∷ provider_clearing ∷ settlement_clearing ∷ []

-- `accountIds.has(code)`
unfoldable pub has_code : List LedgerAccount → Currency → AccountCode → Bool
has_code rows currency c = any (λ a. currency_eq a.currency currency && code_eq a.code c) rows

-- The guard at the head of `createPosting`.
unfoldable pub lacks_accounts : List LedgerAccount → Currency → List LedgerEntry → Bool
unfolding has_code
lacks_accounts rows currency entries =
    not (length rows == 8)
    || any (λ a. not (side_eq a.normal_side (expected_side a.code))) rows
    || not (count_if (has_code rows currency) all_codes == 4)
    || any (λ e. not (has_code rows currency e.account_code)) entries

abbrev pub same_reversal : Option Text → Option Text → Bool
same_reversal (some a) (some b) = text_eq a b
same_reversal _ _ = false

-- Two entries of one transaction with one `entry_seq`.
abbrev pub repeats_seq : List LedgerEntry → Bool
repeats_seq [] = false
repeats_seq (e ∷ es) = any (λ f. f.entry_seq == e.entry_seq) es || repeats_seq es

abbrev pub posted_row : CreateLedgerPosting → ℕ → LedgerTransaction
posted_row input posted_at = record {
  id = input.id;
  public_id = input.public_id;
  merchant_id = input.merchant_id;
  currency = input.currency;
  business_type = input.business_type;
  business_reference = input.business_reference;
  reversal_of_id = input.reversal_of_id;
  request_id = input.request_id;
  occurred_at = input.occurred_at;
  posted_at = posted_at;
  entries = input.entries;
}

abbrev pub shape_matches : CreateLedgerPosting → Bool
shape_matches input =
    if business_type_eq input.business_type reversal
    then is_some input.reversal_of_id
    else not (is_some input.reversal_of_id)

-- The checks of `ledger_transactions` on a new row, in the order in which the database makes them.
unfoldable pub insert_error : CreateLedgerPosting → List LedgerTransaction → Option Error
insert_error input rows =
    if not (shape_matches input)
    then some Error.database
    else if any (λ t. text_eq t.id input.id) rows
    then some Error.database
    else if any (λ t. text_eq t.public_id input.public_id) rows
    then some (ledger LedgerError.identifier_collision)
    else if any
        (λ t.
          text_eq t.merchant_id input.merchant_id
          && business_type_eq t.business_type input.business_type
          && text_eq t.business_reference input.business_reference)
        rows
    then some (ledger LedgerError.business_reference_conflict)
    else if any (λ t. same_reversal t.reversal_of_id input.reversal_of_id) rows
    then some (ledger LedgerError.reversal_conflict)
    else if any (λ e. is_bad_amount e.amount_minor) input.entries
    then some (ledger LedgerError.invariant_violation)
    else if repeats_seq input.entries
    then some Error.database
    else none

unfoldable pub create_posting : CreateLedgerPosting → ℕ → Call LedgerTransaction
create_posting input posted_at db =
    if lacks_accounts (account_rows input.merchant_id db) input.currency input.entries
    then throw (ledger LedgerError.accounts_not_provisioned) db
    else elim (insert_error input db.ledger_transactions) [
      | some e ↦ throw e db
      | none ↦
          let row : LedgerTransaction = posted_row input posted_at in
          pure row (record db { ledger_transactions = db.ledger_transactions ++ (row ∷ []) })
    ]

-- Every row of the model is posted.
unfoldable pub find_posted_for_reversal : Text → Text → Database → Option LedgerTransaction
find_posted_for_reversal merchant public_id db =
    find? (λ t. text_eq t.merchant_id merchant && text_eq t.public_id public_id)
      db.ledger_transactions
