-- ===== src/Webhooks/Signature/Decimals.antt =====
-- The digits of a number are read back as the number: the timestamp of a signature
-- (webhook-delivery-signature.ts).
use settle_flow.Common.Patterns.{is_digit}
use settle_flow.Webhooks.Signature.{value_from, is_decimal, digits_from, decimal}
use settle_flow.Common.{
  ◌==◌, Bool-cases, ◌≡◌, ◌∷◌, ◌∙◌, ◌<◌, ◌/◌, ◌+◌, ◌%◌, ℕ, zero, true, suc, refl, inr, inl, arith,
  ap, all, [],
}
use settle_flow.Common.Text.{Text}

value_digits_from :
    (fuel n : ℕ) (rest : Text)
    → n < fuel
    → value_from 0 (digits_from fuel n rest) ≡ value_from n rest
unfolding value_from digits_from
value_digits_from zero n rest enough = absurd (omega arith)
value_digits_from (suc fuel) n rest enough = elim (Bool-cases (n / 10 == 0)) [
  | inl small ↦ rw small (ap (λ v. value_from v rest) (ground arith))
  | inr large ↦ rw large (
      value_digits_from fuel (n / 10) ((b'0' + n % 10) ∷ rest) (ground arith)
      ∙ ap (λ v. value_from v rest) (omega arith))
]

pub value_from-decimal : (n : ℕ) → value_from 0 (decimal n) ≡ n
unfolding decimal value_from
value_from-decimal n = value_digits_from (n + 1) n [] (omega arith)

digits_from-IsDecimal :
    (fuel n : ℕ) (rest : Text)
    → n < fuel
    → 0 < n
    → all is_digit rest ≡ true
    → is_decimal (digits_from fuel n rest) ≡ true
unfolding digits_from is_decimal is_digit
digits_from-IsDecimal zero n rest enough positive good = absurd (omega arith)
digits_from-IsDecimal (suc fuel) n rest enough positive good = elim (Bool-cases (n / 10 == 0)) [
  | inl small ↦ rw small (ground arith)
  | inr large ↦ rw large (
      digits_from-IsDecimal fuel (n / 10) ((b'0' + n % 10) ∷ rest) (ground arith) (ground arith)
        (ground arith))
]

pub decimal-is_decimal : (n : ℕ) → 0 < n → is_decimal (decimal n) ≡ true
unfolding decimal
decimal-is_decimal n positive = digits_from-IsDecimal (n + 1) n [] (omega arith) positive refl
