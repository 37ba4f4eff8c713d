-- ===== src/Ledger/Soundness/Invariant.antt =====
-- The invariant of the stored ledger: every transaction passes the integrity trigger, and no two
-- have one id.
use settle_flow.Common.{
  ◌≡◌, refl, inl, inr, Bool, true, false, List, [], ◌∷◌, ◌++◌, map, Option, none, some, arith,
  Bool-cases, Option-cases, any, all, find?, All, All-append, All-map, find?-append,
  find?-none_of_any, all-any-map, subst,
}
use settle_flow.Common.Text.{Text, text_eq, text_eq_refl, text_eq_comm, eq_of_text_eq}
use settle_flow.Database.{Database}
use settle_flow.Database.Ledger.{LedgerAccount, LedgerEntry, LedgerTransaction}
use settle_flow.Ledger.Posting.{reverse_entry}
use settle_flow.Ledger.Integrity.{inverts, find_by_id, reverses, assert_ledger_transaction}

abbrev pub DistinctIds : List LedgerTransaction → Type 0
DistinctIds [] = Unit
DistinctIds (t ∷ ts) = (any (λ u. text_eq u.id t.id) ts ≡ false) × DistinctIds ts

abbrev pub Passes : Database → LedgerTransaction → Type 0
Passes db t = assert_ledger_transaction db.ledger_accounts db.ledger_transactions t ≡ true

pub record IsSound (db : Database) : Type 0 where
  pub checked : All (Passes db) db.ledger_transactions
  pub distinct : DistinctIds db.ledger_transactions

any-append_one :
    (u t : LedgerTransaction) (ts : List LedgerTransaction)
    → any (λ v. text_eq v.id u.id) ts ≡ false
    → text_eq t.id u.id ≡ false
    → any (λ v. text_eq v.id u.id) (ts ++ (t ∷ [])) ≡ false
any-append_one u t [] h k = ground arith
any-append_one u t (v ∷ ts) h k = ground (arith, any-append_one u t ts)

pub DistinctIds-append :
    (t : LedgerTransaction) (ts : List LedgerTransaction)
    → DistinctIds ts
    → any (λ u. text_eq u.id t.id) ts ≡ false
    → DistinctIds (ts ++ (t ∷ []))
DistinctIds-append t [] d h = (refl, tt)
DistinctIds-append t (u ∷ ts) d h = (
  any-append_one u t ts d.0 (ground (arith, text_eq_comm t.id u.id)),
  DistinctIds-append t ts d.1 (ground arith),
)

find_by_id_later :
    (u t : LedgerTransaction) (ts : List LedgerTransaction)
    → any (λ v. text_eq v.id u.id) ts ≡ false
    → find_by_id t.id ts ≡ some t
    → find_by_id t.id (u ∷ ts) ≡ some t
unfolding find_by_id
find_by_id_later u t ts h k = elim (Bool-cases (text_eq u.id t.id)) [
  | inl hit ↦
      let none_there : find? (λ v. text_eq v.id t.id) ts ≡ none =
        subst (λ i. find? (λ v. text_eq v.id i) ts ≡ none) (eq_of_text_eq u.id t.id hit)
          (find?-none_of_any (λ v. text_eq v.id u.id) ts h) in
      ground arith
  | inr miss ↦ ground arith
]

-- A row that is found by any test is the one that is found by its id.
pub find_by_id_of_find? :
    (p : LedgerTransaction → Bool) (ts : List LedgerTransaction) (t : LedgerTransaction)
    → DistinctIds ts
    → find? p ts ≡ some t
    → find_by_id t.id ts ≡ some t
unfolding find_by_id
find_by_id_of_find? p [] t d h = cc
find_by_id_of_find? p (u ∷ ts) t d h = elim (Bool-cases (p u)) [
  | inl hit ↦ ground (arith, text_eq_refl u.id)
  | inr miss ↦ find_by_id_later u t ts d.0 (find_by_id_of_find? p ts t d.1 (ground arith))
]

reverses-append :
    (ts : List LedgerTransaction) (new t : LedgerTransaction) (o : Option Text)
    → reverses ts t o ≡ true
    → reverses (ts ++ (new ∷ [])) t o ≡ true
unfolding reverses
reverses-append ts new t none h = h
reverses-append ts new t (some id) h = elim (Option-cases (find_by_id id ts)) [
  | inl missing ↦ ground arith
  | inr (o, found) ↦ ground (arith, find?-append (λ v. text_eq v.id id) ts (new ∷ []) o found)
]

-- A transaction that has passed the trigger passes it when the table has grown.
pub Passes-append :
    (accounts : List LedgerAccount) (ts : List LedgerTransaction) (new t : LedgerTransaction)
    → assert_ledger_transaction accounts ts t ≡ true
    → assert_ledger_transaction accounts (ts ++ (new ∷ [])) t ≡ true
unfolding assert_ledger_transaction
Passes-append accounts ts new t h = ground (arith, reverses-append ts new t t.reversal_of_id)

inverts-reverse : (e : LedgerEntry) → inverts (reverse_entry e) e ≡ true
inverts-reverse e = ground arith

-- The entries that `buildReversalEntries` makes invert the original ones exactly.
pub all-inverts-reverse :
    (es : List LedgerEntry) → all (λ e. any (inverts e) es) (map reverse_entry es) ≡ true
all-inverts-reverse es = all-any-map inverts reverse_entry es inverts-reverse

-- A row with a new id that passes the trigger keeps the ledger sound.
pub IsSound-append :
    (db : Database) (t : LedgerTransaction)
    → IsSound db
    → any (λ u. text_eq u.id t.id) db.ledger_transactions ≡ false
    → assert_ledger_transaction db.ledger_accounts (db.ledger_transactions ++ (t ∷ [])) t ≡ true
    → IsSound (record db { ledger_transactions = db.ledger_transactions ++ (t ∷ []) })
IsSound-append db t s fresh passes = record {
  checked =
      All-append _ db.ledger_transactions (t ∷ [])
        (All-map (Passes db) _ db.ledger_transactions
          (Passes-append db.ledger_accounts db.ledger_transactions t) s.checked)
        (passes, tt);
  distinct = DistinctIds-append t db.ledger_transactions s.distinct fresh;
}
