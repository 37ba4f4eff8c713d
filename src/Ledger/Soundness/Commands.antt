-- ===== src/Ledger/Soundness/Commands.antt =====
-- The commands of the ledger's service keep the stored ledger sound.
use settle_flow.Common.{
  ℕ, ◌≡◌, refl, inl, inr, true, List, [], ◌∷◌, ◌++◌, none, arith, if◌then◌else◌, Bool-cases,
  Option-cases,
}
use settle_flow.Common.Int.{ℤ}
use settle_flow.Common.Action.{ok, Result-cases}
use settle_flow.Database.{Database}
use settle_flow.Database.Ledger.{
  Currency, BusinessType, business_type_eq, capture, refund, reversal, settlement, LedgerEntry,
  LedgerTransaction,
}
use settle_flow.Ledger.Posting.{
  build_capture_entries, build_refund_entries, build_settlement_entries,
}
use settle_flow.Ledger.Integrity.{reverses, assert_ledger_transaction}
use settle_flow.Ledger.Repository.{
  CreateLedgerPosting, create_posting, posted_row, insert_error, lacks_accounts, account_rows,
}
use settle_flow.Ledger.Service.{
  Generated, LedgerMoneyPostingCommand, LedgerSettlementPostingCommand, post, post_settlement,
  is_bad_money, is_bad_settlement,
}
use settle_flow.Ledger.Soundness.Entries.{
  IsWellFormed, build_capture_entries-IsWellFormed, build_refund_entries-IsWellFormed,
  build_settlement_entries-IsWellFormed,
}
use settle_flow.Ledger.Soundness.Insertion.{create_posting-is_consistent, insert_error-fresh}
use settle_flow.Ledger.Soundness.Invariant.{IsSound, IsSound-append}

-- A posting keeps the ledger sound if its row would pass the part of the trigger that is about
-- reversals.
pub create_posting-IsSound :
    (input : CreateLedgerPosting) (p : ℕ) (db : Database)
    → IsSound db
    → IsWellFormed input.currency input.entries
    → (insert_error input db.ledger_transactions ≡ none
        → let row : LedgerTransaction = posted_row input p in
          (if business_type_eq input.business_type reversal
            then reverses (db.ledger_transactions ++ (row ∷ [])) row input.reversal_of_id
            else true)
          ≡ true)
    → IsSound (create_posting input p db).1
unfolding create_posting assert_ledger_transaction
create_posting-IsSound input p db s w target =
    elim (Bool-cases
      (lacks_accounts (account_rows input.merchant_id db) input.currency input.entries)) [
        | inl missing ↦ rw missing s
        | inr present ↦
            rw present (elim (Option-cases (insert_error input db.ledger_transactions)) [
              | inl fine ↦ rw fine (
                  IsSound-append db (posted_row input p) s
                    (insert_error-fresh input db.ledger_transactions fine)
                    (rw (create_posting-is_consistent input p db present w) (target fine)))
              | inr (e, refused) ↦ rw refused s
            ])
      ]

-- A row with no original is no reversal.
plain_target :
    (input : CreateLedgerPosting) (p : ℕ) (rows : List LedgerTransaction)
    → input.reversal_of_id ≡ none
    → insert_error input rows ≡ none
    → let row : LedgerTransaction = posted_row input p in
      (if business_type_eq input.business_type reversal
        then reverses (rows ++ (row ∷ [])) row input.reversal_of_id
        else true)
      ≡ true
unfolding insert_error
plain_target input p rows plain h = ground arith

-- The entries of a capture or of any other posting of money.
money_entries-IsWellFormed :
    (b : BusinessType) (a : ℤ) (c : Currency) (es : List LedgerEntry)
    → (if business_type_eq b capture then build_capture_entries a c else build_refund_entries a c)
      ≡ ok es
    → IsWellFormed c es
money_entries-IsWellFormed capture a c es h = build_capture_entries-IsWellFormed a c es h
money_entries-IsWellFormed refund a c es h = build_refund_entries-IsWellFormed a c es h
money_entries-IsWellFormed reversal a c es h = build_refund_entries-IsWellFormed a c es h
money_entries-IsWellFormed settlement a c es h = build_refund_entries-IsWellFormed a c es h

-- A sound ledger, in which every transaction passes the trigger and no two rows have the same id,
-- stays sound under `post`, whatever the command, its kind and the outcome are.
pub post-IsSound :
    (g : Generated) (c : LedgerMoneyPostingCommand) (b : BusinessType) (db : Database)
    → IsSound db
    → IsSound (post g c b db).1
unfolding post
post-IsSound g c b db s = elim (Bool-cases (is_bad_money c)) [
  | inl bad ↦ rw bad s
  | inr fine ↦
      rw fine
        (elim (Result-cases (
          if business_type_eq b capture
          then build_capture_entries c.amount_minor c.currency
          else build_refund_entries c.amount_minor c.currency)) [
            | inl (e, refused) ↦ rw refused s
            | inr (es, built) ↦ rw built (
                create_posting-IsSound _ g.posted_at db s
                  (money_entries-IsWellFormed b c.amount_minor c.currency es built)
                  (plain_target _ g.posted_at db.ledger_transactions refl))
          ])
]

-- A sound ledger stays sound under `postSettlement`, whatever the command and the outcome are.
pub post_settlement-IsSound :
    (g : Generated) (c : LedgerSettlementPostingCommand) (db : Database)
    → IsSound db
    → IsSound (post_settlement g c db).1
unfolding post_settlement
post_settlement-IsSound g c db s = elim (Bool-cases (is_bad_settlement c)) [
  | inl bad ↦ rw bad s
  | inr fine ↦
      rw fine
        (elim (Result-cases
          (build_settlement_entries c.gross_minor c.fee_minor c.net_minor c.currency)) [
            | inl (e, refused) ↦ rw refused s
            | inr (es, built) ↦ rw built (
                create_posting-IsSound _ g.posted_at db s
                  (build_settlement_entries-IsWellFormed c.gross_minor c.fee_minor c.net_minor
                    c.currency es built)
                  (plain_target _ g.posted_at db.ledger_transactions refl))
          ])
]
