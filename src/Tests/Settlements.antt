-- ===== src/Tests/Settlements.antt =====
-- A settlement run at concrete inputs: of three payments one becomes available too late, and an
-- adjustment is pending.
use settle_flow.Database.Ledger.{usd}
use settle_flow.Ledger.Service.{is_bad_settlement, is_bad_common}
use settle_flow.Common.Patterns.{
  trim, replicate, match_classes, is_uuid, is_space, is_request_id, is_hex, is_digit,
  is_alphanumeric, contains_control_character,
}
use settle_flow.Common.{◌≡◌, ◌∷◌, ◌++◌, ℕ, some, refl, map, filter, false, []}
use settle_flow.Common.Text.{text_eq, text, Text}
use settle_flow.Settlements.Plan.{
  total_gross, total_fee, total_adjustment, settlement_command, settled_of, plan_items, plan,
  item_of, is_eligible, calculate_fee, bounded_items, Settled, PaymentFact, Locked,
}
use settle_flow.Tests.Data.{merchant}
use settle_flow.Settlements.Totals.{IsSettled, plan-IsSettled, plan-is_bad_settlement}

abbrev fact : Text → ℕ → ℕ → ℕ → PaymentFact
fact name available captured_amount refunded_amount = record {
  available_at = some available;
  captured_amount_minor = captured_amount;
  currency = usd;
  payment_intent_id = name;
  payment_public_id = text "pi_" ++ name;
  refunded_amount_minor = refunded_amount;
  settlement_position_id = name;
}

abbrev rows : Locked
rows = record {
  policy = record { basis_points = 200; flat_fee_minor = 25 };
  candidate_count = 3;
  facts = fact (text "a") 10 10000 0 ∷ fact (text "b") 20 5000 1000 ∷ fact (text "c") 90 700 0 ∷ [];
  more_candidates = false;
  adjustments = record { amount_minor = 300; id = text "adj" } ∷ [];
  more_adjustments = false;
}

abbrev payout : Settled
payout =
    settled_of rows (filter (is_eligible usd 50) rows.facts)
      (map (item_of rows.policy) (filter (is_eligible usd 50) rows.facts))

payout_totals : (payout.gross_minor ≡ 13700) × (payout.fee_minor ≡ 330) × (payout.net_minor ≡ 13370)
unfolding calculate_fee is_eligible total_gross total_fee total_adjustment
payout_totals = (refl, refl, refl)

plan-IsSettled_example : IsSettled usd 50 rows payout
unfolding plan plan_items bounded_items calculate_fee is_eligible total_gross total_fee
    total_adjustment
plan-IsSettled_example = plan-IsSettled usd 50 rows payout refl

plan-is_bad_settlement_example :
    is_bad_settlement (settlement_command usd (text "stb_1") merchant (text "req-9") 60 payout)
    ≡ false
unfolding plan plan_items bounded_items calculate_fee is_eligible total_gross total_fee
    total_adjustment is_bad_common is_digit is_hex is_alphanumeric replicate match_classes is_uuid
    is_request_id is_space trim contains_control_character text_eq
plan-is_bad_settlement_example =
    plan-is_bad_settlement usd 50 rows payout (text "stb_1") merchant (text "req-9") 60 refl refl
