-- ===== src/Ledger/Soundness/Entries.antt =====
-- What the builders of ledger-posting.ts promise of the entries.
use settle_flow.Common.{◌≡◌, refl, ◌≤◌, true, List, [], ◌∷◌, map, arith, length, all, length-map}
use settle_flow.Common.Int.{ℤ, ◌+ℤ◌}
use settle_flow.Common.Action.{ok}
use settle_flow.Database.Ledger.{Currency, etb, usd, currency_eq, LedgerEntry, credit, debit}
use settle_flow.Ledger.Posting.{
  is_bad_amount, build_capture_entries, build_refund_entries, build_settlement_entries,
  build_reversal_entries, reverse_entry,
}
use settle_flow.Ledger.Integrity.{side_total}

-- At least two entries, all in one currency, whose debits and credits are equal.
pub record IsWellFormed (c : Currency) (es : List LedgerEntry) : Type 0 where
  pub two : 2 ≤ length es
  pub same_currency : all (λ e. currency_eq e.currency c) es ≡ true
  pub balanced : side_total debit es ≡ side_total credit es

pub build_capture_entries-IsWellFormed :
    (a : ℤ) (c : Currency) (es : List LedgerEntry)
    → build_capture_entries a c ≡ ok es
    → IsWellFormed c es
unfolding build_capture_entries side_total
build_capture_entries-IsWellFormed a etb es h = ground arith
build_capture_entries-IsWellFormed a usd es h = ground arith

pub build_refund_entries-IsWellFormed :
    (a : ℤ) (c : Currency) (es : List LedgerEntry)
    → build_refund_entries a c ≡ ok es
    → IsWellFormed c es
unfolding build_refund_entries side_total
build_refund_entries-IsWellFormed a etb es h = ground arith
build_refund_entries-IsWellFormed a usd es h = ground arith

pub build_settlement_entries-IsWellFormed :
    (g f n : ℤ) (c : Currency) (es : List LedgerEntry)
    → build_settlement_entries g f n c ≡ ok es
    → IsWellFormed c es
unfolding build_settlement_entries side_total is_bad_amount ◌+ℤ◌
build_settlement_entries-IsWellFormed g f n etb es h = ground arith
build_settlement_entries-IsWellFormed g f n usd es h = ground arith

side_total-reverse :
    (es : List LedgerEntry)
    → (side_total debit (map reverse_entry es) ≡ side_total credit es)
      × (side_total credit (map reverse_entry es) ≡ side_total debit es)
unfolding side_total
side_total-reverse [] = (refl, refl)
side_total-reverse (e ∷ es) = ground (arith, side_total-reverse es)

same_currency-reverse :
    (c : Currency) (es : List LedgerEntry)
    → all (λ e. currency_eq e.currency c) (map reverse_entry es)
      ≡ all (λ e. currency_eq e.currency c) es
same_currency-reverse c [] = refl
same_currency-reverse c (e ∷ es) = ground (arith, same_currency-reverse c es)

pub build_reversal_entries-IsWellFormed :
    (c : Currency) (es : List LedgerEntry) {rs : List LedgerEntry}
    → IsWellFormed c es
    → build_reversal_entries es ≡ ok rs
    → IsWellFormed c rs
unfolding build_reversal_entries
build_reversal_entries-IsWellFormed c es h e =
    ground (arith, length-map reverse_entry es, side_total-reverse es, same_currency-reverse c es)
