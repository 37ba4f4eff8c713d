-- ===== src/Ledger/Effects/Reversal.antt =====
-- A reversal takes back the whole effect of its original, and there is one reversal at most.
use settle_flow.Ledger.Soundness.Insertion.{create_posting_guards, create_posting_added, Ends}
use settle_flow.Common.Int.{ℤ, int_laws, ◌+ℤ◌, pos}
use settle_flow.Common.Action.{Result-cases, ok, err}
use settle_flow.Ledger.Repository.{
  same_reversal, insert_error, CreateLedgerPosting, find_posted_for_reversal, create_posting,
}
use settle_flow.Ledger.Balance.{net-reverse, balance-append, net, belongs, balance}
use settle_flow.Common.Text.{text_eq_refl, text_eq, eq_of_text_eq, Text}
use settle_flow.Common.Errors.{Error}
use settle_flow.Database.Ledger.{
  reversal, business_type_eq, Currency, AccountCode, LedgerTransaction,
}
use settle_flow.Ledger.Posting.{reverse_entry, build_reversal_entries}
use settle_flow.Database.{Database}
use settle_flow.Ledger.Service.{
  reversal_input, ReverseLedgerTransactionCommand, reverse_original, Generated, reverse,
}
use settle_flow.Common.{
  ap, find?-append, find?, ◌∷◌, ◌++◌, ◌&&◌, true, sym, none, find?-pass, any, [], List, Bool, some,
  map, if◌then◌else◌, false, Option-cases, ◌≡◌, inl, inr, arith,
}

pub reversal_added :
    (g : Generated) (c : ReverseLedgerTransactionCommand) (db : Database) {t : LedgerTransaction}
    {db' : Database}
    → reverse g c db ≡ (ok t, db')
    → (o : LedgerTransaction) × (find_posted_for_reversal c.merchant_id c.original_public_id db
        ≡ some o)
      × (business_type_eq o.business_type reversal ≡ false)
      × (create_posting (reversal_input g c o (map reverse_entry o.entries)) g.posted_at db
          ≡ (ok t, db'))
unfolding reverse reverse_original build_reversal_entries
reversal_added g c db {t} {db'} h =
    elim (Option-cases (find_posted_for_reversal c.merchant_id c.original_public_id db)) [
      | inl missing ↦ absurd (ground arith)
      | inr (o, found) ↦ (o, found, ground arith, ground arith)
    ]

taken_back :
    (b : Bool) (x r n : ℤ)
    → r +ℤ n ≡ pos 0
    → x +ℤ (if b then r else pos 0) +ℤ (if b then n else pos 0) ≡ x
taken_back true x r n h = grind (int_laws, h)
taken_back false x r n h = omega int_laws

found_merchant :
    (m p : Text) (db : Database) (o : LedgerTransaction)
    → find_posted_for_reversal m p db ≡ some o
    → m ≡ o.merchant_id
unfolding find_posted_for_reversal
found_merchant m p db o h =
    let passed : text_eq o.merchant_id m && text_eq o.public_id p ≡ true =
      find?-pass (λ t. text_eq t.merchant_id m && text_eq t.public_id p) db.ledger_transactions o
        h in
    sym (eq_of_text_eq o.merchant_id m (ground arith))

-- A posted reversal belongs to its original's merchant and currency, and on every account of
-- theirs it takes back what the original did; no other balance changes.
pub reverse-balance :
    (g : Generated) (c : ReverseLedgerTransactionCommand) (db : Database) {t : LedgerTransaction}
    {db' : Database}
    → reverse g c db ≡ (ok t, db')
    → (o : LedgerTransaction) × (find_posted_for_reversal c.merchant_id c.original_public_id db
        ≡ some o)
      × ((m : Text) (cur : Currency) (code : AccountCode)
          → balance m cur code db'.ledger_transactions
              +ℤ (if belongs m cur o then net code o.entries else pos 0)
            ≡ balance m cur code db.ledger_transactions)
reverse-balance g c db h =
    let (o, found, direct, made) = reversal_added g c db h in
    (
      o,
      found,
      λ m cur code.
          rw
            (
              create_posting_added _ g.posted_at db made,
              (create_posting_guards _ g.posted_at db made).0,
              balance-append,
              found_merchant c.merchant_id c.original_public_id db o found,
            )
            (taken_back (belongs m cur o) _ _ _ (net-reverse code o.entries)),
    )

-- A call of `reverse` that fails has written nothing.
pub reverse-Ends :
    (g : Generated) (c : ReverseLedgerTransactionCommand) (db : Database) → Ends db (reverse g c db)
unfolding reverse reverse_original create_posting
reverse-Ends g c db = ground arith

any-last :
    {A : Type 0} (p : A → Bool) (xs : List A) (x : A) → p x ≡ true → any p (xs ++ (x ∷ [])) ≡ true
any-last p [] x h = ground arith
any-last p (y ∷ xs) x h = ground (arith, any-last p xs x h)

insert_error-reversed :
    (input : CreateLedgerPosting) (rows : List LedgerTransaction)
    → insert_error input rows ≡ none
    → any (λ t. same_reversal t.reversal_of_id input.reversal_of_id) rows ≡ false
unfolding insert_error
insert_error-reversed input rows h = ground arith

-- A table that holds a reversal of `o` has no room for another.
no_room :
    (p : LedgerTransaction → Bool) (ts ts' : List LedgerTransaction) (t o o' : LedgerTransaction)
    → find? p ts ≡ some o
    → ts' ≡ ts ++ (t ∷ [])
    → t.reversal_of_id ≡ some o.id
    → find? p ts' ≡ some o'
    → any (λ u. same_reversal u.reversal_of_id (some o'.id)) ts' ≡ false
    → ⊥
no_room p ts ts' t o o' found grown reversed found' free =
    let same : o ≡ o' = ground (arith, find?-append p ts (t ∷ []) o found) in
    let room : any (λ u. same_reversal u.reversal_of_id (some o.id)) (ts ++ (t ∷ [])) ≡ false =
      rw (same, ← grown) free in
    ground (
      arith,
      room,
      any-last (λ u. same_reversal u.reversal_of_id (some o.id)) ts t
          (rw reversed (text_eq_refl o.id)),
    )

-- A second reversal cannot return.
not_again :
    (g g' : Generated) (c c' : ReverseLedgerTransactionCommand) (db db' db'' : Database)
    (t t' : LedgerTransaction)
    → reverse g c db ≡ (ok t, db')
    → c'.merchant_id ≡ c.merchant_id
    → c'.original_public_id ≡ c.original_public_id
    → reverse g' c' db' ≡ (ok t', db'')
    → ⊥
unfolding find_posted_for_reversal
not_again g g' c c' db db' db'' t t' h m p h' =
    let (o, found, direct, made) = reversal_added g c db h in
    let (o', found', direct', made') = reversal_added g' c' db' h' in
    let grown = create_posting_added _ g.posted_at db made in
    let row = (create_posting_guards _ g.posted_at db made).0 in
    let free = insert_error-reversed _ _ (create_posting_guards _ g'.posted_at db' made').2 in
    no_room (λ u. text_eq u.merchant_id c.merchant_id && text_eq u.public_id c.original_public_id)
      db.ledger_transactions db'.ledger_transactions t o o' found
      (ap (λ d. d.ledger_transactions) grown) (ap (λ u. u.reversal_of_id) row)
      (rw (← m, ← p) found') free

-- Once a transaction has been reversed, reversing it again is refused, whatever the command's
-- reference and identifiers: the database is left as it was.
pub reverse_twice :
    (g g' : Generated) (c c' : ReverseLedgerTransactionCommand) (db : Database)
    {t : LedgerTransaction} {db' : Database}
    → reverse g c db ≡ (ok t, db')
    → c'.merchant_id ≡ c.merchant_id
    → c'.original_public_id ≡ c.original_public_id
    → (e : Error) × (reverse g' c' db' ≡ (err e, db'))
reverse_twice g g' c c' db {t} {db'} h same_merchant same_original =
    elim (Result-cases (reverse g' c' db').0) [
      | inl (e, refused) ↦ (e, ground (arith, reverse-Ends g' c' db'))
      | inr (t', done) ↦ absurd (
          not_again g g' c c' db db' (reverse g' c' db').1 t t' h same_merchant same_original
            (ground arith))
    ]
