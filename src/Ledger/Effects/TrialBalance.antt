-- ===== src/Ledger/Effects/TrialBalance.antt =====
-- The trial balance of a sound ledger.
use settle_flow.Ledger.Integrity.{side_total}
use settle_flow.Common.Int.{◌+ℤ◌, ℤ, pos, int_laws}
use settle_flow.Ledger.Balance.{total_net-sides, total_net, belongs, balance}
use settle_flow.Common.Text.{Text}
use settle_flow.Ledger.Soundness.Reversal.{IsWellFormed-of_Passes}
use settle_flow.Ledger.Soundness.Invariant.{Passes, IsSound}
use settle_flow.Database.{Database}
use settle_flow.Database.Ledger.{
  settlement_clearing, provider_clearing, merchant_payable, fee_revenue, debit, credit,
  LedgerTransaction, LedgerEntry, Currency,
}
use settle_flow.Common.{◌≡◌, ◌∷◌, true, if◌then◌else◌, false, [], List, Bool, All-map, All}

abbrev pub total_balance : Text → Currency → List LedgerTransaction → ℤ
total_balance m c ts =
    balance m c fee_revenue ts
    +ℤ balance m c merchant_payable ts
    +ℤ balance m c provider_clearing ts
    +ℤ balance m c settlement_clearing ts

total_balance-cons :
    (b : Bool) (f m p s f' m' p' s' : ℤ)
    → f +ℤ m +ℤ p +ℤ s ≡ pos 0
    → f' +ℤ m' +ℤ p' +ℤ s' ≡ pos 0
    → (if b then f +ℤ f' else f')
        +ℤ (if b then m +ℤ m' else m')
        +ℤ (if b then p +ℤ p' else p')
        +ℤ (if b then s +ℤ s' else s')
      ≡ pos 0
total_balance-cons true f m p s f' m' p' s' h k = grind (int_laws, h, k)
total_balance-cons false f m p s f' m' p' s' h k = k

total_net-zero :
    (es : List LedgerEntry) → side_total debit es ≡ side_total credit es → total_net es ≡ pos 0
total_net-zero es h = grind (int_laws, total_net-sides es, h)

total_balance-zero :
    (m : Text) (c : Currency) (ts : List LedgerTransaction)
    → All (λ t. side_total debit t.entries ≡ side_total credit t.entries) ts
    → total_balance m c ts ≡ pos 0
unfolding balance
total_balance-zero m c [] h = omega int_laws
total_balance-zero m c (t ∷ ts) h =
    total_balance-cons (belongs m c t) _ _ _ _ _ _ _ _ (total_net-zero t.entries h.0)
      (total_balance-zero m c ts h.1)

-- In a sound ledger the accounts of a merchant in a currency sum to zero.
pub trial_balance :
    (db : Database) (m : Text) (c : Currency)
    → IsSound db
    → total_balance m c db.ledger_transactions ≡ pos 0
trial_balance db m c s = total_balance-zero m c db.ledger_transactions (
    All-map (Passes db) _ db.ledger_transactions (λ t h. (IsWellFormed-of_Passes db t h).balanced)
      s.checked)
