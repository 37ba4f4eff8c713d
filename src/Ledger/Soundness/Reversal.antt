-- ===== src/Ledger/Soundness/Reversal.antt =====
-- `reverse` of packages/modules/ledger/src/ledger.service.ts keeps the stored ledger sound.
use settle_flow.Common.{all_left, arith}
use settle_flow.Common.Int.{eqb_ℤ_eq}
use settle_flow.Database.{Database}
use settle_flow.Database.Ledger.{currency_eq, LedgerTransaction}
use settle_flow.Ledger.Integrity.{has_account, assert_ledger_transaction}
use settle_flow.Ledger.Soundness.Entries.{IsWellFormed}
use settle_flow.Ledger.Soundness.Invariant.{Passes}

-- What the trigger has checked of a stored transaction.
pub IsWellFormed-of_Passes :
    (db : Database) (t : LedgerTransaction) → Passes db t → IsWellFormed t.currency t.entries
unfolding assert_ledger_transaction
IsWellFormed-of_Passes db t h = record {
  two = ground arith;
  same_currency =
      all_left (λ e. currency_eq e.currency t.currency)
        (has_account db.ledger_accounts t.merchant_id t.currency) t.entries (ground arith);
  balanced = eqb_ℤ_eq _ _ (ground arith);
}
