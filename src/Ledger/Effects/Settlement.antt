-- ===== src/Ledger/Effects/Settlement.antt =====
-- What the posting of a settlement does to the account balances.
use settle_flow.Ledger.Soundness.Insertion.{create_posting_guards, create_posting_added}
use settle_flow.Ledger.Repository.{posted_row, create_posting}
use settle_flow.Common.Text.{text_eq, Text}
use settle_flow.Common.Action.{ok, Result-cases}
use settle_flow.Database.{Database}
use settle_flow.Database.Ledger.{
  settlement_clearing, provider_clearing, merchant_payable, fee_revenue, currency_eq, LedgerEntry,
  LedgerTransaction, Currency, AccountCode,
}
use settle_flow.Ledger.Balance.{balance-append, balance, net}
use settle_flow.Ledger.Posting.{build_settlement_entries}
use settle_flow.Ledger.Service.{
  settlement_input, LedgerSettlementPostingCommand, post_settlement, Generated,
}
use settle_flow.Common.Int.{int_laws, ◌+ℤ◌, ◌-ℤ◌, pos, ℤ}
use settle_flow.Common.{◌∷◌, ◌++◌, ◌&&◌, if◌then◌else◌, [], List, ◌≡◌, inl, inr, arith}

-- The merchant is paid out the gross, which splits into the fee and the net amount in transit.
abbrev pub settlement_effect : ℤ → ℤ → ℤ → AccountCode → ℤ
settlement_effect gross fee net_amount merchant_payable = gross
settlement_effect gross fee net_amount fee_revenue = pos 0 -ℤ fee
settlement_effect gross fee net_amount settlement_clearing = pos 0 -ℤ net_amount
settlement_effect gross fee net_amount provider_clearing = pos 0

net-settlement :
    (g f n : ℤ) (cur : Currency) (es : List LedgerEntry) (code : AccountCode)
    → build_settlement_entries g f n cur ≡ ok es
    → net code es ≡ settlement_effect g f n code
unfolding build_settlement_entries net
net-settlement g f n cur es fee_revenue h = grind int_laws
net-settlement g f n cur es merchant_payable h = grind int_laws
net-settlement g f n cur es provider_clearing h = grind int_laws
net-settlement g f n cur es settlement_clearing h = grind int_laws

pub settlement_added :
    (g : Generated) (c : LedgerSettlementPostingCommand) (db : Database) {t : LedgerTransaction}
    {db' : Database}
    → post_settlement g c db ≡ (ok t, db')
    → (es : List LedgerEntry) × (build_settlement_entries c.gross_minor c.fee_minor c.net_minor
          c.currency
        ≡ ok es)
      × (t ≡ posted_row (settlement_input g c es) g.posted_at)
      × (db' ≡ record db { ledger_transactions = db.ledger_transactions ++ (t ∷ []) })
unfolding post_settlement
settlement_added g c db {t} {db'} h =
    elim (Result-cases
      (build_settlement_entries c.gross_minor c.fee_minor c.net_minor c.currency)) [
        | inl (e, refused) ↦ absurd (ground arith)
        | inr (es, built) ↦
            let made : create_posting (settlement_input g c es) g.posted_at db ≡ (ok t, db') =
              ground arith in
            (
              es,
              built,
              (create_posting_guards _ g.posted_at db made).0,
              create_posting_added _ g.posted_at db made,
            )
      ]

-- A posted settlement pays the gross out of what is owed to the merchant, and splits it.
pub post_settlement-balance :
    (g : Generated) (c : LedgerSettlementPostingCommand) (db : Database) {t : LedgerTransaction}
    {db' : Database}
    → post_settlement g c db ≡ (ok t, db')
    → (m : Text) (cur : Currency) (code : AccountCode)
    → balance m cur code db'.ledger_transactions
      ≡ balance m cur code db.ledger_transactions
        +ℤ (if text_eq c.merchant_id m && currency_eq c.currency cur
            then settlement_effect c.gross_minor c.fee_minor c.net_minor code
            else pos 0)
post_settlement-balance g c db h m cur code =
    let (es, built, row, grown) = settlement_added g c db h in
    rw (
      grown,
      row,
      balance-append,
      net-settlement c.gross_minor c.fee_minor c.net_minor c.currency es code built,
    )
