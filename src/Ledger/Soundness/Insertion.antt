-- ===== src/Ledger/Soundness/Insertion.antt =====
-- What `createPosting` has done when it returns: one new row at the end of the table, which has an
-- id of its own and whose entries name accounts of the merchant.
use settle_flow.Common.{
  ℕ, ◌≡◌, true, false, List, [], ◌∷◌, ◌++◌, none, arith, any, filter, length-filter, all_of_not-any,
}
use settle_flow.Common.Text.{Text, text_eq}
use settle_flow.Common.Action.{Result, ok, err}
use settle_flow.Database.{Database}
use settle_flow.Database.Ledger.{
  Currency, currency_eq, LedgerAccount, LedgerEntry, LedgerTransaction,
}
use settle_flow.Ledger.Integrity.{is_consistent, has_account}
use settle_flow.Ledger.Repository.{
  CreateLedgerPosting, account_rows, has_code, lacks_accounts, insert_error, posted_row,
  create_posting,
}
use settle_flow.Ledger.Soundness.Entries.{IsWellFormed}

-- How a call on the ledger that began at `db` ends: an error has written nothing, and a result is
-- the row that it has added.
abbrev pub Ends : Database → Result LedgerTransaction × Database → Type 0
Ends db (err _, db') = db' ≡ db
Ends db (ok t, db') = db' ≡ record db { ledger_transactions = db.ledger_transactions ++ (t ∷ []) }

pub create_posting-Ends :
    (input : CreateLedgerPosting) (p : ℕ) (db : Database) → Ends db (create_posting input p db)
unfolding create_posting
create_posting-Ends input p db = ground arith

-- The guards that a returned posting has passed.
pub create_posting_guards :
    (input : CreateLedgerPosting) (p : ℕ) (db : Database) {t : LedgerTransaction} {db' : Database}
    → create_posting input p db ≡ (ok t, db')
    → (t ≡ posted_row input p)
      × (lacks_accounts (account_rows input.merchant_id db) input.currency input.entries ≡ false)
      × (insert_error input db.ledger_transactions ≡ none)
unfolding create_posting
create_posting_guards input p db h = ground arith

has_account-of_code :
    (accounts : List LedgerAccount) (m : Text) (c : Currency) (e : LedgerEntry)
    → has_code (filter (λ a. text_eq a.merchant_id m) accounts) c e.account_code ≡ true
    → has_account accounts m c e ≡ true
unfolding has_code
has_account-of_code [] m c e h = h
has_account-of_code (a ∷ accounts) m c e h = ground (arith, has_account-of_code accounts m c e)

-- A row with well-formed entries passes the first part of the trigger.
pub create_posting-is_consistent :
    (input : CreateLedgerPosting) (p : ℕ) (db : Database)
    → lacks_accounts (account_rows input.merchant_id db) input.currency input.entries ≡ false
    → IsWellFormed input.currency input.entries
    → is_consistent db.ledger_accounts (posted_row input p) ≡ true
unfolding lacks_accounts is_consistent
create_posting-is_consistent input p db h w = ground (
  arith,
  length-filter (λ a. text_eq a.merchant_id input.merchant_id) db.ledger_accounts,
  all_of_not-any (λ e. currency_eq e.currency input.currency)
      (λ e. has_code (account_rows input.merchant_id db) input.currency e.account_code)
      (has_account db.ledger_accounts input.merchant_id input.currency) input.entries
      (has_account-of_code db.ledger_accounts input.merchant_id input.currency) w.same_currency,
)

-- A new row has an id of its own.
pub insert_error-fresh :
    (input : CreateLedgerPosting) (rows : List LedgerTransaction)
    → insert_error input rows ≡ none
    → any (λ t. text_eq t.id input.id) rows ≡ false
unfolding insert_error
insert_error-fresh input rows h = ground arith

pub create_posting_added :
    (input : CreateLedgerPosting) (p : ℕ) (db : Database) {t : LedgerTransaction} {db' : Database}
    → create_posting input p db ≡ (ok t, db')
    → db' ≡ record db { ledger_transactions = db.ledger_transactions ++ (t ∷ []) }
unfolding create_posting
create_posting_added input p db h = ground arith
