-- ===== src/Ledger/Posting.antt =====
-- The entries of each kind of transaction (packages/modules/ledger/src/ledger-posting.ts).
use settle_flow.Common.{Bool, ◌||◌, not, List, [], ◌∷◌, ◌++◌, map, if◌then◌else◌, ltb, length}
use settle_flow.Common.Int.{ℤ, pos, ◌+ℤ◌, ltb_ℤ, eqb_ℤ}
use settle_flow.Common.Errors.{ledger, LedgerError}
use settle_flow.Common.Action.{Result, ok, err}
use settle_flow.Database.Ledger.{
  Currency, fee_revenue, merchant_payable, provider_clearing, settlement_clearing, Side, credit,
  debit, LedgerEntry,
}

-- `Number.MAX_SAFE_INTEGER` as a bigint
abbrev pub max_ledger_amount : ℤ
max_ledger_amount = pos 9_007_199_254_740_991

-- `assertAmount` throws where this is true.
unfoldable pub is_bad_amount : ℤ → Bool
is_bad_amount a = ltb_ℤ a (pos 1) || ltb_ℤ max_ledger_amount a

unfoldable pub build_capture_entries : ℤ → Currency → Result (List LedgerEntry)
build_capture_entries amount_minor currency =
    if is_bad_amount amount_minor
    then err (ledger LedgerError.invalid_command)
    else ok (
        record {
          account_code = provider_clearing;
          amount_minor = amount_minor;
          currency = currency;
          entry_seq = 1;
          side = debit;
        }
        ∷ record {
          account_code = merchant_payable;
          amount_minor = amount_minor;
          currency = currency;
          entry_seq = 2;
          side = credit;
        }
        ∷ [])

unfoldable pub build_refund_entries : ℤ → Currency → Result (List LedgerEntry)
build_refund_entries amount_minor currency =
    if is_bad_amount amount_minor
    then err (ledger LedgerError.invalid_command)
    else ok (
        record {
          account_code = merchant_payable;
          amount_minor = amount_minor;
          currency = currency;
          entry_seq = 1;
          side = debit;
        }
        ∷ record {
          account_code = provider_clearing;
          amount_minor = amount_minor;
          currency = currency;
          entry_seq = 2;
          side = credit;
        }
        ∷ [])

abbrev fee_entry : ℤ → Currency → LedgerEntry
fee_entry fee_minor currency = record {
  account_code = fee_revenue;
  amount_minor = fee_minor;
  currency = currency;
  entry_seq = 2;
  side = credit;
}

unfoldable pub build_settlement_entries : ℤ → ℤ → ℤ → Currency → Result (List LedgerEntry)
build_settlement_entries gross_minor fee_minor net_minor currency =
    if is_bad_amount gross_minor || is_bad_amount net_minor
    then err (ledger LedgerError.invalid_command)
    else if ltb_ℤ fee_minor (pos 0)
        || ltb_ℤ max_ledger_amount fee_minor
        || not (eqb_ℤ gross_minor (fee_minor +ℤ net_minor))
    then err (ledger LedgerError.invalid_command)
    else ok (
        record {
          account_code = merchant_payable;
          amount_minor = gross_minor;
          currency = currency;
          entry_seq = 1;
          side = debit;
        }
          ∷ (if eqb_ℤ fee_minor (pos 0) then [] else fee_entry fee_minor currency ∷ [])
        ++ (record {
          account_code = settlement_clearing;
          amount_minor = net_minor;
          currency = currency;
          entry_seq = if eqb_ℤ fee_minor (pos 0) then 2 else 3;
          side = credit;
        }
            ∷ []))

abbrev pub flip_side : Side → Side
flip_side debit = credit
flip_side credit = debit

abbrev pub reverse_entry : LedgerEntry → LedgerEntry
reverse_entry entry = record entry { side = flip_side entry.side }

unfoldable pub build_reversal_entries : List LedgerEntry → Result (List LedgerEntry)
build_reversal_entries entries =
    if ltb (length entries) 2
    then err (ledger LedgerError.invalid_command)
    else ok (map reverse_entry entries)
