-- ===== src/Settlements/Totals.antt =====
-- The totals of a settlement run of packages/modules/settlements/src/settlement.service.ts.
use settle_flow.Common.Int.{◌+ℤ◌}
use settle_flow.Ledger.Service.{is_bad_settlement, is_bad_common}
use settle_flow.Common.Text.{Text}
use settle_flow.Database.Ledger.{Currency}
use settle_flow.Common.Action.{err, Result, ok}
use settle_flow.Settlements.Plan.{
  total_adjustment, settlement_command, settled_of, plan, settle, plan_items, is_eligible, Settled,
  Locked, item_of, calculate_fee, total_gross, total_fee, minus, max_total, gross_of, bounded_items,
  PaymentFact, Item, FeePolicy,
}
use settle_flow.Common.{
  some, filter, ◌||◌, subst, refl, ltb, leb, inr, inl, false, ap, Bool-cases, ◌≤◌, ◌≡◌, ◌∷◌, ◌<◌,
  ◌+◌, ◌++◌, ℕ, map, arith, [], List, All,
}

pub minus-add : (a b : ℕ) → b ≤ a → minus a b + b ≡ a
minus-add a b h = omega arith

-- An item charges less than its gross amount, and nets the rest.
abbrev pub IsFair : Item → Type 0
IsFair item =
    (item.fee_minor < gross_of item.candidate)
    × (item.net_minor + item.fee_minor ≡ gross_of item.candidate)

item_of-IsFair :
    (policy : FeePolicy) (fact : PaymentFact)
    → leb (gross_of fact) (calculate_fee (gross_of fact) policy) ≡ false
    → IsFair (item_of policy fact)
item_of-IsFair policy fact h =
    (ground arith, minus-add (gross_of fact) (calculate_fee (gross_of fact) policy) (ground arith))

-- What the loop gives, when it does not throw.
pub record IsBounded (gross fee : ℕ) (facts : List PaymentFact) (items : List Item) : Type 0 where
  pub gross_bound : gross + total_gross items ≤ max_total
  pub fee_bound : fee + total_fee items ≤ max_total
  pub fair : All IsFair items
  pub rest : List PaymentFact
  pub prefix : facts ≡ map (λ i. i.candidate) items ++ rest

bounded_items-IsBounded :
    (policy : FeePolicy) (gross fee : ℕ) (facts : List PaymentFact) (items : List Item)
    → gross ≤ max_total
    → fee ≤ max_total
    → bounded_items policy gross fee facts ≡ ok items
    → IsBounded gross fee facts items
unfolding bounded_items total_gross total_fee
bounded_items-IsBounded policy gross fee [] items g f h =
    let same : [] ≡ items = ground arith in
    subst (IsBounded gross fee []) same (record {
      gross_bound = omega arith;
      fee_bound = omega arith;
      fair = tt;
      rest = [];
      prefix = refl;
    })
bounded_items-IsBounded policy gross fee (fact ∷ facts) items g f h =
    elim (Bool-cases (leb (gross_of fact) (calculate_fee (gross_of fact) policy))) [
      | inl dear ↦ absurd (ground arith)
      | inr fair ↦
          elim (Bool-cases (
            ltb max_total (gross + gross_of fact)
            || ltb max_total (fee + calculate_fee (gross_of fact) policy))) [
              | inl full ↦
                  let same : [] ≡ items = ground arith in
                  subst (IsBounded gross fee (fact ∷ facts)) same (record {
                    gross_bound = omega arith;
                    fee_bound = omega arith;
                    fair = tt;
                    rest = fact ∷ facts;
                    prefix = refl;
                  })
              | inr fits ↦
                  go fair fits
                    (bounded_items policy (gross + gross_of fact)
                      (fee + calculate_fee (gross_of fact) policy) facts)
                    refl
                    λ its ran.
                      bounded_items-IsBounded policy (gross + gross_of fact)
                        (fee + calculate_fee (gross_of fact) policy) facts its (ground arith)
                        (ground arith) ran
            ]
    ]
  where
    go :
        leb (gross_of fact) (calculate_fee (gross_of fact) policy) ≡ false
        → (ltb max_total (gross + gross_of fact)
            || ltb max_total (fee + calculate_fee (gross_of fact) policy))
          ≡ false
        → (r : Result (List Item))
        → bounded_items policy
            (gross + gross_of fact)
            (fee + calculate_fee (gross_of fact) policy)
            facts
          ≡ r
        → ((its : List Item)
            → bounded_items policy
                (gross + gross_of fact)
                (fee + calculate_fee (gross_of fact) policy)
                facts
              ≡ ok its
            → IsBounded
                (gross + gross_of fact)
                (fee + calculate_fee (gross_of fact) policy)
                facts
                its)
        → IsBounded gross fee (fact ∷ facts) items
    go fair fits (err e) ran ih = absurd (ground arith)
    go fair fits (ok its) ran ih =
        let b = ih its ran in
        let same : item_of policy fact ∷ its ≡ items = ground arith in
        subst (IsBounded gross fee (fact ∷ facts)) same (record {
          gross_bound = (let low = b.gross_bound in omega arith);
          fee_bound = (let low = b.fee_bound in omega arith);
          fair = (item_of-IsFair policy fact fair, b.fair);
          rest = b.rest;
          prefix = ap (λ fs. fact ∷ fs) b.prefix;
        })

-- What the items pay out.
unfoldable pub total_net : List Item → ℕ
total_net [] = 0
total_net (item ∷ items) = item.net_minor + total_net items

fair_totals :
    (items : List Item) → All IsFair items → total_net items + total_fee items ≡ total_gross items
unfolding total_fee total_gross total_net
fair_totals [] fair = refl
fair_totals (item ∷ items) fair =
    let here = fair.0.1 in let there = fair_totals items fair.1 in omega arith

-- A run that settles: the totals, and the items that they are made of.
pub record IsSettled (currency : Currency) (cutoff_at : ℕ) (locked : Locked) (s : Settled)
    : Type 0 where
  pub whole : s.gross_minor ≡ s.fee_minor + s.net_minor
  pub positive : 1 ≤ s.net_minor
  pub bound : s.gross_minor ≤ max_total
  pub fair : All IsFair s.items
  pub paid : s.net_minor + s.adjustment_minor ≡ total_net s.items
  pub rest : List PaymentFact
  pub prefix :
      filter (is_eligible currency cutoff_at) locked.facts ≡ map (λ i. i.candidate) s.items ++ rest

plan_items-IsSettled :
    (currency : Currency) (cutoff_at : ℕ) (locked : Locked) (items : List Item) (s : Settled)
    → IsBounded 0 0 (filter (is_eligible currency cutoff_at) locked.facts) items
    → plan_items locked (filter (is_eligible currency cutoff_at) locked.facts) items ≡ ok (settle s)
    → IsSettled currency cutoff_at locked s
unfolding plan_items
plan_items-IsSettled currency cutoff_at locked items s b h =
    let candidates = filter (is_eligible currency cutoff_at) locked.facts in
    let more : leb (total_gross items) (total_fee items + total_adjustment locked.adjustments)
        ≡ false =
      ground arith in
    let same : settled_of locked candidates items ≡ s = ground arith in
    let above : total_fee items + total_adjustment locked.adjustments < total_gross items =
      ground arith in
    let first = minus-add (total_gross items) (total_adjustment locked.adjustments) (omega arith) in
    let second =
      minus-add (minus (total_gross items) (total_adjustment locked.adjustments)) (total_fee items)
        (omega arith) in
    let paid = fair_totals items b.fair in
    let bound = b.gross_bound in
    subst (IsSettled currency cutoff_at locked) same (record {
      whole = omega arith;
      positive = omega arith;
      bound = omega arith;
      fair = b.fair;
      paid = omega arith;
      rest = b.rest;
      prefix = b.prefix;
    })

-- A run that settles pays for a prefix of the eligible payments, each of which is charged less than its
-- gross amount; its gross amount is its fee and its net amount together, which is at least one and
-- within the safe integers; and what the items net is the net amount and the adjustments together.
pub plan-IsSettled :
    (currency : Currency) (cutoff_at : ℕ) (locked : Locked) (s : Settled)
    → plan currency cutoff_at locked ≡ ok (settle s)
    → IsSettled currency cutoff_at locked s
unfolding plan
plan-IsSettled currency cutoff_at locked s h =
    go (bounded_items locked.policy 0 0 (filter (is_eligible currency cutoff_at) locked.facts)) refl
  where
    go :
        (r : Result (List Item))
        → bounded_items locked.policy 0 0 (filter (is_eligible currency cutoff_at) locked.facts) ≡ r
        → IsSettled currency cutoff_at locked s
    go (err e) ran = absurd (ground arith)
    go (ok items) ran =
        plan_items-IsSettled currency cutoff_at locked items s
          (bounded_items-IsBounded locked.policy 0 0
            (filter (is_eligible currency cutoff_at) locked.facts) items (omega arith) (omega arith)
            ran)
          (ground arith)

-- The ledger's guard on the amounts of a settlement never refuses what a run asks it to post: where
-- the merchant, the batch and the request pass the check that all commands share, the command passes.
pub plan-is_bad_settlement :
    (currency : Currency) (cutoff_at : ℕ) (locked : Locked) (s : Settled)
    (batch_id merchant_id request_id : Text) (occurred_at : ℕ)
    → plan currency cutoff_at locked ≡ ok (settle s)
    → is_bad_common merchant_id batch_id (some occurred_at) request_id ≡ false
    → is_bad_settlement (settlement_command currency batch_id merchant_id request_id occurred_at s)
      ≡ false
unfolding is_bad_settlement settlement_command ◌+ℤ◌
plan-is_bad_settlement currency cutoff_at locked s batch_id merchant_id request_id occurred_at h
      fine =
    let holds = plan-IsSettled currency cutoff_at locked s h in
    let whole = holds.whole in
    let positive = holds.positive in let bound = holds.bound in ground (arith, fine)
