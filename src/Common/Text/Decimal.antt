-- ===== src/Common/Text/Decimal.antt =====
-- A printed number is made of digits and is read back.
use cpp_data_protection_core.Base.{
  ℕ, zero, suc, ◌+◌, ◌/◌, ◌%◌, ◌^◌, ◌<◌, ◌≡◌, refl, ap, ◌∙◌, arith, true, false, Bool-cases, inl,
  inr, ltb, [], ◌∷◌, Bytes, null,
}
use cpp_data_protection_core.Common.Hex.{all_of}
use cpp_data_protection_core.Common.Text.{is_digit, decimal_loop, decimal, digits_value}
use native.Mathlib.Nat.{pow-suc}

decimal_loop-value :
    (fuel n : ℕ) (out : Bytes)
    → n < 10 ^ fuel
    → digits_value 0 (decimal_loop fuel n out) ≡ digits_value n out
unfolding decimal_loop digits_value
decimal_loop-value zero zero out h = refl
decimal_loop-value zero (suc n) out h = absurd (omega arith)
decimal_loop-value (suc fuel) n out h = elim (Bool-cases (ltb n 10)) [
  | inl one ↦ rw one (ap (λ (t : ℕ). digits_value t out) (omega arith))
  | inr more ↦ rw more (
      decimal_loop-value fuel (n / 10) ((48 + n % 10) ∷ out) (omega (arith, pow-suc 10 fuel))
      ∙ ap (λ (t : ℕ). digits_value t out) (omega arith))
]

decimal_loop-all_of :
    (fuel n : ℕ) (out : Bytes)
    → all_of is_digit out ≡ true
    → all_of is_digit (decimal_loop fuel n out) ≡ true
unfolding decimal_loop all_of
decimal_loop-all_of zero n out h = h
decimal_loop-all_of (suc fuel) n out h =
    ground (arith, decimal_loop-all_of fuel (n / 10) ((48 + n % 10) ∷ out))

decimal_loop-null : (fuel n c : ℕ) (out : Bytes) → null (decimal_loop fuel n (c ∷ out)) ≡ false
unfolding decimal_loop
decimal_loop-null zero n c out = refl
decimal_loop-null (suc fuel) n c out =
    ground (arith, decimal_loop-null fuel (n / 10) (48 + n % 10) (c ∷ out))

-- A printed number is a text of digits, and not empty.
pub decimal-all_of : (n : ℕ) → all_of is_digit (decimal n) ≡ true
unfolding decimal
decimal-all_of n = decimal_loop-all_of 20 n [] (unfold all_of in refl)

pub decimal-null : (n : ℕ) → null (decimal n) ≡ false
unfolding decimal decimal_loop
decimal-null n = ground (arith, decimal_loop-null 19 (n / 10) (48 + n % 10) [])

pub digits_value-decimal : (n : ℕ) → n < 2 ^ 64 → digits_value 0 (decimal n) ≡ n
unfolding decimal digits_value
digits_value-decimal n h = decimal_loop-value 20 n [] (omega arith)
