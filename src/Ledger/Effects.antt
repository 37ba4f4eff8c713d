-- ===== src/Ledger/Effects.antt =====
-- What each command of the ledger's service does to the account balances.
pub mod Settlement
pub mod Reversal
pub mod TrialBalance
use settle_flow.Ledger.Soundness.Insertion.{create_posting_added, create_posting_guards}
use settle_flow.Ledger.Posting.{build_refund_entries, build_capture_entries}
use settle_flow.Common.{◌≡◌, inl, inr, ◌&&◌, List, [], ◌∷◌, ◌++◌, arith, if◌then◌else◌}
use settle_flow.Common.Text.{Text, text_eq}
use settle_flow.Common.Int.{ℤ, pos, ◌+ℤ◌, ◌-ℤ◌, int_laws}
use settle_flow.Common.Action.{Result-cases, ok}
use settle_flow.Database.{Database}
use settle_flow.Database.Ledger.{
  refund, business_type_eq, BusinessType, Currency, currency_eq, AccountCode, fee_revenue,
  merchant_payable, provider_clearing, settlement_clearing, LedgerEntry, LedgerTransaction, capture,
}
use settle_flow.Ledger.Service.{
  post_refund, post_capture, LedgerMoneyPostingCommand, Generated, post, money_input,
}
use settle_flow.Ledger.Repository.{create_posting, posted_row}
use settle_flow.Ledger.Balance.{net, balance, balance-append}

-- What a call that returned has added.
pub post_added :
    (g : Generated) (c : LedgerMoneyPostingCommand) (b : BusinessType) (db : Database)
    {t : LedgerTransaction} {db' : Database}
    → post g c b db ≡ (ok t, db')
    → (es : List LedgerEntry) × ((if business_type_eq b capture
          then build_capture_entries c.amount_minor c.currency
          else build_refund_entries c.amount_minor c.currency)
        ≡ ok es)
      × (t ≡ posted_row (money_input g c b es) g.posted_at)
      × (db' ≡ record db { ledger_transactions = db.ledger_transactions ++ (t ∷ []) })
unfolding post
post_added g c b db {t} {db'} h =
    elim (Result-cases (
      if business_type_eq b capture
      then build_capture_entries c.amount_minor c.currency
      else build_refund_entries c.amount_minor c.currency)) [
        | inl (e, refused) ↦ absurd (ground arith)
        | inr (es, built) ↦
            let made : create_posting (money_input g c b es) g.posted_at db ≡ (ok t, db') =
              ground arith in
            (
              es,
              built,
              (create_posting_guards _ g.posted_at db made).0,
              create_posting_added _ g.posted_at db made,
            )
      ]

-- What a capture moves: the provider owes the amount, and it is owed to the merchant.
abbrev pub capture_effect : ℤ → AccountCode → ℤ
capture_effect a provider_clearing = a
capture_effect a merchant_payable = pos 0 -ℤ a
capture_effect a _ = pos 0

abbrev pub refund_effect : ℤ → AccountCode → ℤ
refund_effect a code = pos 0 -ℤ capture_effect a code

net-capture :
    (a : ℤ) (cur : Currency) (es : List LedgerEntry) (code : AccountCode)
    → build_capture_entries a cur ≡ ok es
    → net code es ≡ capture_effect a code
unfolding build_capture_entries net
net-capture a cur es fee_revenue h = grind int_laws
net-capture a cur es merchant_payable h = grind int_laws
net-capture a cur es provider_clearing h = grind int_laws
net-capture a cur es settlement_clearing h = grind int_laws

net-refund :
    (a : ℤ) (cur : Currency) (es : List LedgerEntry) (code : AccountCode)
    → build_refund_entries a cur ≡ ok es
    → net code es ≡ refund_effect a code
unfolding build_refund_entries net
net-refund a cur es fee_revenue h = grind int_laws
net-refund a cur es merchant_payable h = grind int_laws
net-refund a cur es provider_clearing h = grind int_laws
net-refund a cur es settlement_clearing h = grind int_laws

-- A posted capture changes the balances of its merchant and currency by what it moves, and no other.
pub post_capture-balance :
    (g : Generated) (c : LedgerMoneyPostingCommand) (db : Database) {t : LedgerTransaction}
    {db' : Database}
    → post_capture g c db ≡ (ok t, db')
    → (m : Text) (cur : Currency) (code : AccountCode)
    → balance m cur code db'.ledger_transactions
      ≡ balance m cur code db.ledger_transactions
        +ℤ (if text_eq c.merchant_id m && currency_eq c.currency cur
            then capture_effect c.amount_minor code
            else pos 0)
unfolding post_capture
post_capture-balance g c db h m cur code =
    let (es, built, row, grown) = post_added g c capture db h in
    rw (grown, row, balance-append, net-capture c.amount_minor c.currency es code built)

-- A posted refund changes the balances of its merchant and currency by the opposite of what a capture
-- moves, and no other.
pub post_refund-balance :
    (g : Generated) (c : LedgerMoneyPostingCommand) (db : Database) {t : LedgerTransaction}
    {db' : Database}
    → post_refund g c db ≡ (ok t, db')
    → (m : Text) (cur : Currency) (code : AccountCode)
    → balance m cur code db'.ledger_transactions
      ≡ balance m cur code db.ledger_transactions
        +ℤ (if text_eq c.merchant_id m && currency_eq c.currency cur
            then refund_effect c.amount_minor code
            else pos 0)
unfolding post_refund
post_refund-balance g c db h m cur code =
    let (es, built, row, grown) = post_added g c refund db h in
    rw (grown, row, balance-append, net-refund c.amount_minor c.currency es code built)
