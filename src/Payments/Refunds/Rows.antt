-- ===== src/Payments/Refunds/Rows.antt =====
-- The agreement of refunds and payment intents, when rows are changed or added.
use settle_flow.Database.Payments.{PaymentIntent}
use settle_flow.Common.Text.{text_eq_comm, Text, text_eq}
use settle_flow.Payments.Repository.{update_where}
use settle_flow.Database.{Database}
use settle_flow.Common.{
  ◌∷◌, ◌++◌, inr, inl, false, [], List, Bool-cases, Bool, All-append, ◌≡◌, ◌∙◌, true, sym, subst,
  refl, map, arith, ap, any, All-map, All-image, All,
}
use settle_flow.Payments.Refunds.{
  RefundsAgree, total_refunded, total_refunded-unknown, ids-update, ids, Distinct,
}

-- The invariant reads two tables.
pub RefundsAgree-of_same :
    (db db' : Database)
    → db'.payment_intents ≡ db.payment_intents
    → db'.refunds ≡ db.refunds
    → RefundsAgree db
    → RefundsAgree db'
RefundsAgree-of_same db db' intents refunds s = record {
  distinct = subst (λ rows. Distinct (ids rows)) (sym intents) s.distinct;
  known =
      subst (λ rs. All (λ r. any (text_eq r.payment_intent_id) (ids db'.payment_intents) ≡ true) rs)
        (sym refunds)
        (subst (λ rows. All (λ r. any (text_eq r.payment_intent_id) (ids rows) ≡ true) db.refunds)
          (sym intents) s.known);
  totals =
      subst (λ rs. All (λ p. total_refunded p.id rs ≡ p.refunded_amount_minor) db'.payment_intents)
        (sym refunds)
        (subst (λ rows. All (λ p. total_refunded p.id db.refunds ≡ p.refunded_amount_minor) rows)
          (sym intents) s.totals);
}

update_where-Keeps :
    (P : PaymentIntent → Type 0) (passes : PaymentIntent → Bool)
    (change : PaymentIntent → PaymentIntent) (p : PaymentIntent)
    → (passes p ≡ true → P (change p))
    → (passes p ≡ false → P p)
    → P (update_where passes change p)
update_where-Keeps P passes change p yes_pass no_pass = elim (Bool-cases (passes p)) [
  | inl hit ↦ rw hit (yes_pass hit)
  | inr miss ↦ rw miss (no_pass miss)
]

-- An update of rows that keeps their identifiers, with the refunds that it has.
pub updated-RefundsAgree :
    (db : Database) (passes : PaymentIntent → Bool) (change : PaymentIntent → PaymentIntent)
    (rows : List PaymentIntent)
    → ((p : PaymentIntent) → (change p).id ≡ p.id)
    → db.payment_intents ≡ map (update_where passes change) rows
    → Distinct (ids rows)
    → All (λ r. any (text_eq r.payment_intent_id) (ids rows) ≡ true) db.refunds
    → All
        (λ p.
          (passes p ≡ true
            → total_refunded (change p).id db.refunds ≡ (change p).refunded_amount_minor)
          × (passes p ≡ false → total_refunded p.id db.refunds ≡ p.refunded_amount_minor))
        rows
    → RefundsAgree db
updated-RefundsAgree db passes change rows same updated distinct known totals = record {
  distinct = subst Distinct (sym same_ids) distinct;
  known =
      subst (λ known_ids. All (λ r. any (text_eq r.payment_intent_id) known_ids ≡ true) db.refunds)
        (sym same_ids) known;
  totals = subst (All Agrees) (sym updated) (
      All-image Agrees (update_where passes change) rows (
        All-map _ (λ p. Agrees (update_where passes change p)) rows
          (λ p both. update_where-Keeps Agrees passes change p both.0 both.1) totals));
}
  where
    Agrees : PaymentIntent → Type 0
    Agrees p = total_refunded p.id db.refunds ≡ p.refunded_amount_minor

    same_ids : ids db.payment_intents ≡ ids rows
    same_ids = ap ids updated ∙ ids-update passes change rows same

ids-append :
    (rows : List PaymentIntent) (row : PaymentIntent)
    → ids (rows ++ (row ∷ [])) ≡ ids rows ++ (row.id ∷ [])
ids-append [] row = refl
ids-append (x ∷ rows) row = ground (arith, ids-append rows row)

Distinct-append :
    (xs : List Text) (y : Text)
    → Distinct xs
    → any (text_eq y) xs ≡ false
    → Distinct (xs ++ (y ∷ []))
Distinct-append [] y distinct fresh = (refl, tt)
Distinct-append (x ∷ xs) y distinct fresh = (
  any-append_one x y xs distinct.0 (ground (arith, text_eq_comm y x)),
  Distinct-append xs y distinct.1 (ground arith),
)
  where
    any-append_one :
        (u v : Text) (ts : List Text)
        → any (text_eq u) ts ≡ false
        → text_eq u v ≡ false
        → any (text_eq u) (ts ++ (v ∷ [])) ≡ false
    any-append_one u v [] none_of apart = ground arith
    any-append_one u v (w ∷ ts) none_of apart = ground (arith, any-append_one u v ts)

fresh_id :
    (i : Text) (rows : List PaymentIntent)
    → any (λ p. text_eq p.id i) rows ≡ false
    → any (text_eq i) (ids rows) ≡ false
fresh_id i [] fresh = refl
fresh_id i (x ∷ rows) fresh = ground (arith, text_eq_comm x.id i, fresh_id i rows)

any-grows : (p : Text → Bool) (xs ys : List Text) → any p xs ≡ true → any p (xs ++ ys) ≡ true
any-grows p [] ys hit = absurd (ground arith)
any-grows p (x ∷ xs) ys hit = ground (arith, any-grows p xs ys)

-- A new intent without refunds.
pub added-RefundsAgree :
    (db : Database) (row : PaymentIntent)
    → any (λ p. text_eq p.id row.id) db.payment_intents ≡ false
    → row.refunded_amount_minor ≡ 0
    → RefundsAgree db
    → RefundsAgree (record db { payment_intents = db.payment_intents ++ (row ∷ []) })
added-RefundsAgree db row fresh none_yet h = record {
  distinct = subst Distinct (sym (ids-append db.payment_intents row)) (
      Distinct-append (ids db.payment_intents) row.id h.distinct
        (fresh_id row.id db.payment_intents fresh));
  known =
      subst (λ xs. All (λ r. any (text_eq r.payment_intent_id) xs ≡ true) db.refunds)
        (sym (ids-append db.payment_intents row))
        (All-map (λ r. any (text_eq r.payment_intent_id) (ids db.payment_intents) ≡ true) _
          db.refunds
          (λ r hit.
            any-grows (text_eq r.payment_intent_id) (ids db.payment_intents) (row.id ∷ []) hit)
          h.known);
  totals =
      All-append (λ p. total_refunded p.id db.refunds ≡ p.refunded_amount_minor) db.payment_intents
        (row ∷ []) h.totals
        (
          total_refunded-unknown row.id (ids db.payment_intents) db.refunds
                (fresh_id row.id db.payment_intents fresh) h.known
              ∙ sym none_yet,
          tt,
        );
}
