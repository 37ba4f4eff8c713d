-- ===== src/Ledger/Integrity.antt =====
-- The integrity trigger of the ledger tables, `settleflow_assert_ledger_transaction`, which the
-- database runs on each new transaction before it commits, with the chart of eight accounts
-- (prisma/migrations/20260802180000_immutable_double_entry_ledger_foundation/migration.sql and
-- 20260803090000_settlement_ledger_extension/migration.sql).
use settle_flow.Common.{
  Bool, true, false, ◌&&◌, not, List, [], ◌∷◌, Option, none, some, ◌==◌, leb, if◌then◌else◌, length,
  any, all, find?, count_if,
}
use settle_flow.Common.Text.{Text, text_eq}
use settle_flow.Common.Int.{ℤ, pos, ◌+ℤ◌, eqb_ℤ}
use settle_flow.Database.Ledger.{
  Currency, currency_eq, code_eq, business_type_eq, Side, side_eq, reversal, credit, debit,
  LedgerAccount, LedgerEntry, LedgerTransaction,
}

-- `sum("amount_minor") FILTER (WHERE "side" = …)`
unfoldable pub side_total : Side → List LedgerEntry → ℤ
side_total s [] = pos 0
side_total s (e ∷ es) =
    if side_eq e.side s then e.amount_minor +ℤ side_total s es else side_total s es

abbrev pub has_account : List LedgerAccount → Text → Currency → LedgerEntry → Bool
has_account accounts merchant currency e =
    any
      (λ a.
        text_eq a.merchant_id merchant
        && currency_eq a.currency currency
        && code_eq a.code e.account_code)
      accounts

abbrev pub inverts : LedgerEntry → LedgerEntry → Bool
inverts e o =
    o.entry_seq == e.entry_seq
    && code_eq o.account_code e.account_code
    && eqb_ℤ o.amount_minor e.amount_minor
    && currency_eq o.currency e.currency
    && not (side_eq o.side e.side)

-- The part of the trigger that every transaction must pass.
unfoldable pub is_consistent : List LedgerAccount → LedgerTransaction → Bool
is_consistent accounts t =
    (count_if (λ a. text_eq a.merchant_id t.merchant_id) accounts == 8)
    && leb 2 (length t.entries)
    && all
        (λ e. currency_eq e.currency t.currency && has_account accounts t.merchant_id t.currency e)
        t.entries
    && eqb_ℤ (side_total debit t.entries) (side_total credit t.entries)

-- The part for the original `o` of a reversal `t`.
unfoldable pub is_exact_reversal : LedgerTransaction → LedgerTransaction → Bool
is_exact_reversal t o =
    not (business_type_eq o.business_type reversal)
    && text_eq o.merchant_id t.merchant_id
    && currency_eq o.currency t.currency
    && (length o.entries == length t.entries)
    && all (λ e. any (inverts e) o.entries) t.entries

unfoldable pub find_by_id : Text → List LedgerTransaction → Option LedgerTransaction
find_by_id id = find? λ t. text_eq t.id id

unfoldable pub reverses : List LedgerTransaction → LedgerTransaction → Option Text → Bool
unfolding is_exact_reversal find_by_id
reverses transactions t none = false
reverses transactions t (some id) = elim (find_by_id id transactions) [
  | none ↦ false
  | some o ↦ is_exact_reversal t o
]

unfoldable pub assert_ledger_transaction :
    List LedgerAccount → List LedgerTransaction → LedgerTransaction → Bool
unfolding is_consistent reverses
assert_ledger_transaction accounts transactions t =
    is_consistent accounts t
    && (if business_type_eq t.business_type reversal
        then reverses transactions t t.reversal_of_id
        else true)
