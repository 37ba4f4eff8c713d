-- ===== src/Payments/Refunds.antt =====
-- The refund rows and the refunded amounts of the payment intents
-- (packages/modules/payments/src/prisma-payment-intent.repository.ts).
use settle_flow.Payments.Operations.{refund_error}
use settle_flow.Payments.Projection.{can_refund_self}
use settle_flow.Payments.Responses.{RefundCommand}
use settle_flow.Payments.Repository.{can_refund, update_where, update_one}
use settle_flow.Common.Action.{ok}
use settle_flow.Common.Text.{text_eq_refl, text_eq_comm, text_eq, eq_of_text_eq, Text}
use settle_flow.Database.Payments.{Refund, PaymentIntent}
use settle_flow.Database.{Database}
use settle_flow.Common.{
  sym, none, find?-All, All-map, ◌≡◌, ◌∷◌, ◌+◌, ◌++◌, ℕ, true, subst, some, refl, map, inr, inl,
  if◌then◌else◌, find?, false, arith, any, [], List, Bool-cases, Bool, All,
}
pub mod Rows
pub mod Commands

-- What the refunds of an intent add up to.
unfoldable pub total_refunded : Text → List Refund → ℕ
total_refunded id [] = 0
total_refunded id (r ∷ rs) =
    if text_eq r.payment_intent_id id
    then r.amount_minor + total_refunded id rs
    else total_refunded id rs

abbrev pub ids : List PaymentIntent → List Text
ids = map λ p. p.id

abbrev pub Distinct : List Text → Type 0
Distinct [] = Unit
Distinct (x ∷ xs) = (any (text_eq x) xs ≡ false) × Distinct xs

-- The intents have different identifiers, every refund is one of an intent, and the refunds of each
-- intent add up to its refunded amount.
pub record RefundsAgree (db : Database) : Type 0 where
  pub distinct : Distinct (ids db.payment_intents)
  pub known :
      All (λ r. any (text_eq r.payment_intent_id) (ids db.payment_intents) ≡ true) db.refunds
  pub totals :
      All (λ p. total_refunded p.id db.refunds ≡ p.refunded_amount_minor) db.payment_intents

pub total_refunded-append :
    (id : Text) (rs : List Refund) (r : Refund)
    → total_refunded id (rs ++ (r ∷ []))
      ≡ total_refunded id rs + (if text_eq r.payment_intent_id id then r.amount_minor else 0)
unfolding total_refunded
total_refunded-append id [] r = ground arith
total_refunded-append id (s ∷ rs) r = ground (arith, total_refunded-append id rs r)

pub total_refunded-unknown :
    (id : Text) (known : List Text) (rs : List Refund)
    → any (text_eq id) known ≡ false
    → All (λ r. any (text_eq r.payment_intent_id) known ≡ true) rs
    → total_refunded id rs ≡ 0
unfolding total_refunded
total_refunded-unknown id known [] fresh all_known = refl
total_refunded-unknown id known (r ∷ rs) fresh all_known =
    elim (Bool-cases (text_eq r.payment_intent_id id)) [
      | inl same ↦ absurd (
          let hit : any (text_eq id) known ≡ true =
            subst (λ i. any (text_eq i) known ≡ true) (eq_of_text_eq r.payment_intent_id id same)
              all_known.0 in
          ground arith)
      | inr other ↦ ground (arith, total_refunded-unknown id known rs fresh all_known.1)
    ]

no_id :
    (i : Text) (rows : List PaymentIntent)
    → any (text_eq i) (ids rows) ≡ false
    → All (λ x. text_eq i x.id ≡ false) rows
no_id i [] none_of = tt
no_id i (x ∷ rows) none_of = (ground arith, no_id i rows (ground arith))

-- The row that is found is the only one with its identifier.
pub only_id :
    (q : PaymentIntent → Bool) (rows : List PaymentIntent) (row : PaymentIntent)
    → Distinct (ids rows)
    → find? q rows ≡ some row
    → All (λ x. text_eq row.id x.id ≡ true → x ≡ row) rows
only_id q [] row distinct found = tt
only_id q (x ∷ rows) row distinct found = elim (Bool-cases (q x)) [
  | inl here ↦ (
    λ same. ground arith,
    All-map (λ y. text_eq x.id y.id ≡ false) (λ y. text_eq row.id y.id ≡ true → y ≡ row) rows
        (λ y other same. absurd (ground arith)) (no_id x.id rows distinct.0),
  )
  | inr there ↦ (
    λ same.
        let other : text_eq x.id row.id ≡ false =
          find?-All (λ y. text_eq x.id y.id ≡ false) q rows row (no_id x.id rows distinct.0)
            (ground arith) in
        absurd (ground (arith, text_eq_comm x.id row.id)),
    only_id q rows row distinct.1 (ground arith),
  )
]

pub ids-update :
    (passes : PaymentIntent → Bool) (change : PaymentIntent → PaymentIntent)
    (rows : List PaymentIntent)
    → ((p : PaymentIntent) → (change p).id ≡ p.id)
    → ids (map (update_where passes change) rows) ≡ ids rows
ids-update passes change [] same = refl
ids-update passes change (x ∷ rows) same =
    ground (arith, same x, ids-update passes change rows same)

pub update_one-rows :
    (passes : PaymentIntent → Bool) (change : PaymentIntent → PaymentIntent)
    (intent updated : PaymentIntent) (db db' : Database)
    → update_one passes change intent db ≡ (ok updated, db')
    → db'.payment_intents ≡ map (update_where passes change) db.payment_intents
unfolding update_one
update_one-rows passes change intent updated db db' ran = ground arith

pub found_id :
    (q : PaymentIntent → Bool) (rows : List PaymentIntent) (row : PaymentIntent)
    → find? q rows ≡ some row
    → any (text_eq row.id) (ids rows) ≡ true
found_id q [] row found = cc
found_id q (x ∷ rows) row found = elim (Bool-cases (q x)) [
  | inl here ↦ ground (arith, text_eq_refl x.id)
  | inr there ↦ ground (arith, found_id q rows row)
]

-- A refund counts for the row that it is one of.
pub total_refunded-refunded :
    (row p : PaymentIntent) (c : RefundCommand) (new : Refund) (rs : List Refund)
    → refund_error (some row) c ≡ none
    → new.payment_intent_id ≡ row.id
    → new.amount_minor ≡ c.amount_minor
    → (text_eq row.id p.id ≡ true → p ≡ row)
    → total_refunded p.id rs ≡ p.refunded_amount_minor
    → (can_refund row p ≡ true
        → total_refunded p.id (rs ++ (new ∷ [])) ≡ p.refunded_amount_minor + c.amount_minor)
      × (can_refund row p ≡ false
          → total_refunded p.id (rs ++ (new ∷ [])) ≡ p.refunded_amount_minor)
total_refunded-refunded row p c new rs passed of_row amount only old = (
  λ hit.
      let same : text_eq new.payment_intent_id p.id ≡ true =
        ground (arith, of_row, text_eq_comm p.id row.id) in
      ground (arith, amount, old, total_refunded-append p.id rs new),
  λ miss. elim (Bool-cases (text_eq row.id p.id)) [
    | inl same ↦ absurd (
        let passes : can_refund p p ≡ true =
          subst (λ x. can_refund x x ≡ true) (sym (only same)) (can_refund_self row c passed) in
        let passes_row : can_refund row p ≡ true =
          subst (λ x. can_refund x p ≡ true) (only same) passes in
        cc)
    | inr other ↦
        let apart : text_eq new.payment_intent_id p.id ≡ false = ground (arith, of_row) in
        ground (arith, old, total_refunded-append p.id rs new)
  ],
)
