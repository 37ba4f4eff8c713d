-- ===== src/Ledger/Service.antt =====
-- The ledger's service (packages/modules/ledger/src/ledger.service.ts). What the identifier
-- generators and the database's clock give for a call is its first argument. The observer is told
-- of the outcome and cannot change it; it is left out.
use settle_flow.Common.{
  List, ℕ, Bool, ◌||◌, not, ◌++◌, none, some, ltb, if◌then◌else◌, length, is_some,
}
use settle_flow.Common.Text.{Text, text, text_eq}
use settle_flow.Common.Int.{ℤ, pos, ◌+ℤ◌, ltb_ℤ, eqb_ℤ}
use settle_flow.Common.Patterns.{
  is_uuid, is_request_id, is_public_id, trim, contains_control_character,
}
use settle_flow.Common.Errors.{ledger, LedgerError}
use settle_flow.Common.Action.{Result, throw_if, gets, or_throw, ◌>>=◌, ◌>>◌}
use settle_flow.Database.{Call}
use settle_flow.Database.Ledger.{
  LedgerEntry, Currency, BusinessType, business_type_eq, capture, refund, reversal, settlement,
  Date, LedgerTransaction,
}
use settle_flow.Ledger.Posting.{
  max_ledger_amount, build_capture_entries, build_refund_entries, build_settlement_entries,
  build_reversal_entries,
}
use settle_flow.Ledger.Repository.{CreateLedgerPosting, create_posting, find_posted_for_reversal}

pub record LedgerMoneyPostingCommand : Type 0 where
  pub amount_minor : ℤ
  pub business_reference : Text
  pub currency : Currency
  pub merchant_id : Text
  pub occurred_at : Date
  pub request_id : Text

pub record LedgerSettlementPostingCommand : Type 0 where
  pub business_reference : Text
  pub currency : Currency
  pub fee_minor : ℤ
  pub gross_minor : ℤ
  pub merchant_id : Text
  pub net_minor : ℤ
  pub occurred_at : Date
  pub request_id : Text

pub record ReverseLedgerTransactionCommand : Type 0 where
  pub business_reference : Text
  pub merchant_id : Text
  pub occurred_at : Date
  pub original_public_id : Text
  pub request_id : Text

-- The ULID, the UUID of the row and `transaction_timestamp()`.
pub record Generated : Type 0 where
  pub ulid : Text
  pub uuid : Text
  pub posted_at : ℕ

-- `assertCommonCommand` throws where this is true.
unfoldable pub is_bad_common : Text → Text → Date → Text → Bool
is_bad_common merchant_id business_reference occurred_at request_id =
    not (is_uuid merchant_id)
    || ltb (length business_reference) 1
    || ltb 255 (length business_reference)
    || not (text_eq (trim business_reference) business_reference)
    || contains_control_character business_reference
    || not (is_request_id request_id)
    || not (is_some occurred_at)

-- `assertMoneyCommand` throws where this is true; the type leaves no other currency.
unfoldable pub is_bad_money : LedgerMoneyPostingCommand → Bool
is_bad_money c =
    is_bad_common c.merchant_id c.business_reference c.occurred_at c.request_id
    || ltb_ℤ c.amount_minor (pos 1)
    || ltb_ℤ max_ledger_amount c.amount_minor

-- The guard of `postSettlement`.
unfoldable pub is_bad_settlement : LedgerSettlementPostingCommand → Bool
is_bad_settlement c =
    is_bad_common c.merchant_id c.business_reference c.occurred_at c.request_id
    || ltb_ℤ c.gross_minor (pos 1)
    || ltb_ℤ max_ledger_amount c.gross_minor
    || ltb_ℤ c.fee_minor (pos 0)
    || ltb_ℤ c.net_minor (pos 1)
    || not (eqb_ℤ c.gross_minor (c.fee_minor +ℤ c.net_minor))

abbrev pub from_result : {A : Type 0} → Result A → Call A
from_result r db = (r, db)

abbrev pub ltx : Text → Text
ltx ulid = text "ltx_" ++ ulid

-- The row that `post` asks for.
abbrev pub money_input :
    Generated → LedgerMoneyPostingCommand → BusinessType → List LedgerEntry → CreateLedgerPosting
money_input g c business_type entries = record {
  business_reference = c.business_reference;
  business_type = business_type;
  currency = c.currency;
  entries = entries;
  id = g.uuid;
  merchant_id = c.merchant_id;
  occurred_at = c.occurred_at;
  public_id = ltx g.ulid;
  request_id = c.request_id;
  reversal_of_id = none;
}

unfoldable pub post : Generated → LedgerMoneyPostingCommand → BusinessType → Call LedgerTransaction
post g c business_type = do
  throw_if (is_bad_money c) (ledger LedgerError.invalid_command)
  entries ← from_result (
      if business_type_eq business_type capture
      then build_capture_entries c.amount_minor c.currency
      else build_refund_entries c.amount_minor c.currency)
  create_posting (money_input g c business_type entries) g.posted_at

unfoldable pub post_capture : Generated → LedgerMoneyPostingCommand → Call LedgerTransaction
post_capture g c = post g c capture

unfoldable pub post_refund : Generated → LedgerMoneyPostingCommand → Call LedgerTransaction
post_refund g c = post g c refund

-- The row that `postSettlement` asks for.
abbrev pub settlement_input :
    Generated → LedgerSettlementPostingCommand → List LedgerEntry → CreateLedgerPosting
settlement_input g c entries = record {
  business_reference = c.business_reference;
  business_type = settlement;
  currency = c.currency;
  entries = entries;
  id = g.uuid;
  merchant_id = c.merchant_id;
  occurred_at = c.occurred_at;
  public_id = ltx g.ulid;
  request_id = c.request_id;
  reversal_of_id = none;
}

unfoldable pub post_settlement : Generated → LedgerSettlementPostingCommand → Call LedgerTransaction
post_settlement g c = do
  throw_if (is_bad_settlement c) (ledger LedgerError.invalid_command)
  entries ← from_result (build_settlement_entries c.gross_minor c.fee_minor c.net_minor c.currency)
  create_posting (settlement_input g c entries) g.posted_at

-- The row that `reverse` asks for.
abbrev pub reversal_input :
    Generated
    → ReverseLedgerTransactionCommand
    → LedgerTransaction
    → List LedgerEntry
    → CreateLedgerPosting
reversal_input g c original entries = record {
  business_reference = c.business_reference;
  business_type = reversal;
  currency = original.currency;
  entries = entries;
  id = g.uuid;
  merchant_id = c.merchant_id;
  occurred_at = c.occurred_at;
  public_id = ltx g.ulid;
  request_id = c.request_id;
  reversal_of_id = some original.id;
}

-- `reverse`, once it has the row of the original.
unfoldable pub reverse_original :
    Generated → ReverseLedgerTransactionCommand → LedgerTransaction → Call LedgerTransaction
reverse_original g c original = do
  throw_if (business_type_eq original.business_type reversal) (ledger LedgerError.reversal_conflict)
  entries ← from_result (build_reversal_entries original.entries)
  create_posting (reversal_input g c original entries) g.posted_at

unfoldable pub reverse : Generated → ReverseLedgerTransactionCommand → Call LedgerTransaction
reverse g c = do
  throw_if (is_bad_common c.merchant_id c.business_reference c.occurred_at c.request_id)
      (ledger LedgerError.invalid_command)
  throw_if (not (is_public_id (text "ltx_") c.original_public_id))
      (ledger LedgerError.invalid_command)
  found ← gets (find_posted_for_reversal c.merchant_id c.original_public_id)
  original ← or_throw found (ledger LedgerError.transaction_not_found)
  reverse_original g c original
