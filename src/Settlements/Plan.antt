-- ===== src/Settlements/Plan.antt =====
-- What a settlement run computes from the rows that it has locked, up to its posting:
-- packages/modules/settlements/src/settlement.service.ts and settlement-policy.ts. The tables hold
-- captured, refunded and adjustment amounts that are not negative; a difference that may be negative is
-- compared as a sum.
use settle_flow.Common.Errors.{
  fee_policy_invalid, fee_exceeds_gross, settlement_invariant, settlement,
}
use settle_flow.Common.Int.{pos}
use settle_flow.Common.Text.{Text}
use settle_flow.Common.Action.{ok, err, Result}
use settle_flow.Ledger.Service.{LedgerSettlementPostingCommand}
use settle_flow.Database.Ledger.{usd, etb, currency_eq, Currency}
use Prim.Native.Nat.{◌-◌}
use settle_flow.Common.{
  ◌∷◌, ◌||◌, ◌==◌, ◌/◌, ◌+◌, ◌*◌, ◌&&◌, ℕ, some, not, none, ltb, length, leb, if◌then◌else◌, filter,
  false, [], Option, List, Bool,
}

pub record FeePolicy : Type 0 where
  pub basis_points : ℕ
  pub flat_fee_minor : ℕ

-- `PaymentSettlementCandidateFact`
pub record PaymentFact : Type 0 where
  pub available_at : Option ℕ
  pub captured_amount_minor : ℕ
  pub currency : Currency
  pub payment_intent_id : Text
  pub payment_public_id : Text
  pub refunded_amount_minor : ℕ
  pub settlement_position_id : Text

pub record Adjustment : Type 0 where
  pub amount_minor : ℕ
  pub id : Text

pub record Item : Type 0 where
  pub candidate : PaymentFact
  pub fee_minor : ℕ
  pub net_minor : ℕ

-- The rows that a run has locked, with whether there are more of them.
pub record Locked : Type 0 where
  pub policy : FeePolicy
  pub candidate_count : ℕ
  pub facts : List PaymentFact
  pub more_candidates : Bool
  pub adjustments : List Adjustment
  pub more_adjustments : Bool

pub record Settled : Type 0 where
  pub adjustment_minor : ℕ
  pub fee_minor : ℕ
  pub gross_minor : ℕ
  pub items : List Item
  pub more_eligible : Bool
  pub net_minor : ℕ
  pub payment_gross_minor : ℕ

pub data Plan : Type 0 where
  no_eligible_items : Bool → Plan
  settle : Settled → Plan

-- The difference of a larger number and a smaller one
abbrev pub minus : ℕ → ℕ → ℕ
minus a b = a - b

abbrev pub max_total : ℕ
max_total = 9007199254740991

abbrev pub expected_policy : Currency → FeePolicy
expected_policy etb = record { basis_points = 200; flat_fee_minor = 600 }
expected_policy usd = record { basis_points = 200; flat_fee_minor = 25 }

abbrev pub is_expected : FeePolicy → FeePolicy → Bool
is_expected policy expected =
    policy.basis_points == expected.basis_points && policy.flat_fee_minor == expected.flat_fee_minor

-- `calculateFee`, its fee: the division of natural numbers drops the remainder.
unfoldable pub calculate_fee : ℕ → FeePolicy → ℕ
calculate_fee gross_minor policy = policy.flat_fee_minor + gross_minor * policy.basis_points / 10000

-- The filter on the facts
unfoldable pub is_eligible : Currency → ℕ → PaymentFact → Bool
is_eligible currency cutoff_at fact =
    currency_eq fact.currency currency
    && (elim fact.available_at [ none ↦ false | some t ↦ ltb t cutoff_at ])
    && ltb fact.refunded_amount_minor fact.captured_amount_minor

abbrev pub gross_of : PaymentFact → ℕ
gross_of fact = minus fact.captured_amount_minor fact.refunded_amount_minor

abbrev pub item_of : FeePolicy → PaymentFact → Item
item_of policy fact = record {
  candidate = fact;
  fee_minor = calculate_fee (gross_of fact) policy;
  net_minor = minus (gross_of fact) (calculate_fee (gross_of fact) policy);
}

-- The loop over the candidates, with `boundedPaymentGross` and `boundedFee`.
unfoldable pub bounded_items : FeePolicy → ℕ → ℕ → List PaymentFact → Result (List Item)
bounded_items policy bounded_gross bounded_fee [] = ok []
bounded_items policy bounded_gross bounded_fee (fact ∷ facts) =
    let rest =
      bounded_items policy (bounded_gross + gross_of fact)
        (bounded_fee + calculate_fee (gross_of fact) policy) facts in
    if leb (gross_of fact) (calculate_fee (gross_of fact) policy)
    then err (settlement fee_exceeds_gross)
    else if ltb max_total (bounded_gross + gross_of fact)
        || ltb max_total (bounded_fee + calculate_fee (gross_of fact) policy)
    then ok []
    else elim rest [ ok items ↦ ok (item_of policy fact ∷ items) | err e ↦ err e ]

unfoldable pub total_gross : List Item → ℕ
total_gross [] = 0
total_gross (item ∷ items) = gross_of item.candidate + total_gross items

unfoldable pub total_fee : List Item → ℕ
total_fee [] = 0
total_fee (item ∷ items) = item.fee_minor + total_fee items

unfoldable pub total_adjustment : List Adjustment → ℕ
total_adjustment [] = 0
total_adjustment (a ∷ rest) = a.amount_minor + total_adjustment rest

-- The totals that a run posts and stores.
abbrev pub settled_of : Locked → List PaymentFact → List Item → Settled
settled_of locked candidates items = record {
  adjustment_minor = total_adjustment locked.adjustments;
  fee_minor = total_fee items;
  gross_minor = minus (total_gross items) (total_adjustment locked.adjustments);
  items = items;
  more_eligible =
      locked.more_candidates || locked.more_adjustments || ltb (length items) (length candidates);
  net_minor =
      minus (minus (total_gross items) (total_adjustment locked.adjustments)) (total_fee items);
  payment_gross_minor = total_gross items;
}

-- What follows the loop
unfoldable pub plan_items : Locked → List PaymentFact → List Item → Result Plan
plan_items locked candidates items =
    if ltb max_total (total_adjustment locked.adjustments)
    then err (settlement settlement_invariant)
    else if (length items == 0)
        || leb (total_gross items) (total_fee items + total_adjustment locked.adjustments)
    then ok (
        no_eligible_items (
          ltb 0 (length items)
          || ltb 0 (length locked.adjustments)
          || locked.more_candidates
          || locked.more_adjustments))
    else ok (settle (settled_of locked candidates items))

unfoldable pub plan : Currency → ℕ → Locked → Result Plan
plan currency cutoff_at locked =
    if not (is_expected locked.policy (expected_policy currency))
    then err (settlement fee_policy_invalid)
    else if not (length locked.facts == locked.candidate_count)
    then err (settlement settlement_invariant)
    else (let candidates = filter (is_eligible currency cutoff_at) locked.facts in
        elim (bounded_items locked.policy 0 0 candidates) [
          | err e ↦ err e
          | ok items ↦ plan_items locked candidates items
        ])

-- The command that the run posts.
unfoldable pub settlement_command :
    Currency → Text → Text → Text → ℕ → Settled → LedgerSettlementPostingCommand
settlement_command currency batch_id merchant_id request_id occurred_at s = record {
  business_reference = batch_id;
  currency = currency;
  fee_minor = pos s.fee_minor;
  gross_minor = pos s.gross_minor;
  merchant_id = merchant_id;
  net_minor = pos s.net_minor;
  occurred_at = some occurred_at;
  request_id = request_id;
}
