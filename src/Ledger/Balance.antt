-- ===== src/Ledger/Balance.antt =====
-- Account balances, as the entries of packages/modules/ledger/src make them: debits less credits.
use settle_flow.Ledger.Integrity.{side_total}
use settle_flow.Common.{
  ◌≡◌, inl, inr, Bool, ◌&&◌, List, [], ◌∷◌, ◌++◌, map, Bool-cases, if◌then◌else◌,
}
use settle_flow.Common.Text.{Text, text_eq}
use settle_flow.Common.Int.{ℤ, pos, ◌+ℤ◌, ◌-ℤ◌, int_laws}
use settle_flow.Database.Ledger.{
  Currency, currency_eq, AccountCode, code_eq, fee_revenue, merchant_payable, provider_clearing,
  settlement_clearing, credit, debit, Side, side_eq, LedgerEntry, LedgerTransaction,
}
use settle_flow.Ledger.Posting.{reverse_entry, flip_side}

-- A debit counts as positive.
abbrev pub signed : Side → ℤ → ℤ
signed debit a = a
signed credit a = pos 0 -ℤ a

-- The net effect of entries on an account.
unfoldable pub net : AccountCode → List LedgerEntry → ℤ
net code [] = pos 0
net code (e ∷ es) =
    if code_eq e.account_code code then signed e.side e.amount_minor +ℤ net code es else net code es

abbrev pub belongs : Text → Currency → LedgerTransaction → Bool
belongs merchant currency t = text_eq t.merchant_id merchant && currency_eq t.currency currency

unfoldable pub balance : Text → Currency → AccountCode → List LedgerTransaction → ℤ
balance merchant currency code [] = pos 0
balance merchant currency code (t ∷ ts) =
    if belongs merchant currency t
    then net code t.entries +ℤ balance merchant currency code ts
    else balance merchant currency code ts

pub balance-append :
    (m : Text) (c : Currency) (code : AccountCode) (ts : List LedgerTransaction)
    (t : LedgerTransaction)
    → balance m c code (ts ++ (t ∷ []))
      ≡ balance m c code ts +ℤ (if belongs m c t then net code t.entries else pos 0)
unfolding balance
balance-append m c code [] t = grind int_laws
balance-append m c code (u ∷ ts) t = grind (int_laws, balance-append m c code ts t)

signed_flip :
    (s : Side) (a x y : ℤ)
    → x +ℤ y ≡ pos 0
    → (signed (flip_side s) a +ℤ x) +ℤ (signed s a +ℤ y) ≡ pos 0
signed_flip debit a x y h = grind (int_laws, h)
signed_flip credit a x y h = grind (int_laws, h)

-- A reversal undoes the effect on each account.
pub net-reverse :
    (code : AccountCode) (es : List LedgerEntry)
    → net code (map reverse_entry es) +ℤ net code es ≡ pos 0
unfolding net
net-reverse code [] = omega int_laws
net-reverse code (e ∷ es) = elim (Bool-cases (code_eq e.account_code code)) [
  | inl hit ↦ rw hit (signed_flip e.side e.amount_minor _ _ (net-reverse code es))
  | inr miss ↦ rw miss (net-reverse code es)
]

-- All the accounts together.
abbrev pub total_net : List LedgerEntry → ℤ
total_net es =
    net fee_revenue es
    +ℤ net merchant_payable es
    +ℤ net provider_clearing es
    +ℤ net settlement_clearing es

total_net-cons :
    (c : AccountCode) (s : Side) (a f m p t : ℤ)
    → (if code_eq c fee_revenue then signed s a +ℤ f else f)
        +ℤ (if code_eq c merchant_payable then signed s a +ℤ m else m)
        +ℤ (if code_eq c provider_clearing then signed s a +ℤ p else p)
        +ℤ (if code_eq c settlement_clearing then signed s a +ℤ t else t)
      ≡ signed s a +ℤ (f +ℤ m +ℤ p +ℤ t)
total_net-cons fee_revenue s a f m p t = omega int_laws
total_net-cons merchant_payable s a f m p t = omega int_laws
total_net-cons provider_clearing s a f m p t = omega int_laws
total_net-cons settlement_clearing s a f m p t = omega int_laws

sides-cons :
    (s : Side) (a n c d : ℤ)
    → n +ℤ c ≡ d
    → (signed s a +ℤ n) +ℤ (if side_eq s credit then a +ℤ c else c)
      ≡ (if side_eq s debit then a +ℤ d else d)
sides-cons debit a n c d h = grind (int_laws, h)
sides-cons credit a n c d h = grind (int_laws, h)

pub total_net-sides :
    (es : List LedgerEntry) → total_net es +ℤ side_total credit es ≡ side_total debit es
unfolding net side_total
total_net-sides [] = omega int_laws
total_net-sides (e ∷ es) =
    rw
      (total_net-cons e.account_code e.side e.amount_minor (net fee_revenue es)
        (net merchant_payable es) (net provider_clearing es) (net settlement_clearing es))
      (sides-cons e.side e.amount_minor _ _ _ (total_net-sides es))
