-- ===== src/Base/Bits.antt =====
-- Laws of `|` and `^` at variables, from the recursion on binary digits that the native
-- operations stand for.
use Prim.Native.Nat.{
  ℕ, zero, suc, ◌+◌, ◌*◌, ◌/◌, ◌%◌, ◌^◌, ◌≤◌, ◌<◌, max, bit_or, bit_xor, digits, bitwise,
  bit_or-bitwise, bit_xor-bitwise, differ,
}
use mathlib.Core.Path.{◌≡◌, refl, ap}
use native.Mathlib.Omega.{arith}
use native.Mathlib.Nat.{pow-suc}

module _ (rest : ℕ → ℕ) (op : ℕ → ℕ → ℕ) where
  -- The recursion takes at most as many steps as its left number, so further fuel changes nothing.
  further_fuel :
      (x y fuel more : ℕ) → x ≤ fuel → x ≤ more → digits rest op more x y ≡ digits rest op fuel x y
  further_fuel (suc x) y (suc fuel) (suc more) h k =
      rw (further_fuel (suc x / 2) (y / 2) fuel more (omega arith) (omega arith))
  further_fuel (suc x) y zero more h k = absurd (omega arith)
  further_fuel (suc x) y (suc fuel) zero h k = absurd (omega arith)
  further_fuel zero y (suc fuel) (suc more) h k = refl
  further_fuel zero y (suc fuel) zero h k = refl
  further_fuel zero y zero (suc more) h k = refl
  further_fuel zero y zero zero h k = refl

  -- The lowest digit, and the digits above it.
  split_digit :
      (x y : ℕ)
      → bitwise rest op (suc x) y ≡ op (suc x % 2) (y % 2) + 2 * bitwise rest op (suc x / 2) (y / 2)
  split_digit x y =
      let above = further_fuel (suc x / 2) (y / 2) (suc x / 2) x (omega arith) (omega arith) in
      omega (arith, above)

pub bit_or_step : (a b : ℕ) → bit_or a b ≡ bit_or (a / 2) (b / 2) * 2 + max (a % 2) (b % 2)
bit_or_step (suc a) b = simp bit_or-bitwise (omega (arith, split_digit (λ t. t) max a b))
bit_or_step zero b = simp bit_or-bitwise (omega arith)

-- One digit of an exclusive or is the sum without its carry.
differ_sum : (x y : ℕ) → x ≤ 1 → y ≤ 1 → differ x y ≡ (x + y) % 2
differ_sum (suc zero) (suc zero) h k = omega arith
differ_sum (suc zero) zero h k = omega arith
differ_sum zero y h k = omega arith
differ_sum (suc (suc x)) y h k = absurd (omega arith)
differ_sum (suc zero) (suc (suc y)) h k = absurd (omega arith)

pub bit_xor_step : (a b : ℕ) → bit_xor a b ≡ bit_xor (a / 2) (b / 2) * 2 + (a + b) % 2
bit_xor_step (suc a) b =
    let lowest = differ_sum (suc a % 2) (b % 2) (omega arith) (omega arith) in
    simp bit_xor-bitwise (omega (arith, lowest, split_digit (λ t. t) differ a b))
bit_xor_step zero b = simp bit_xor-bitwise (omega arith)

pow_suc : (k : ℕ) → 2 ^ suc k ≡ 2 * 2 ^ k
pow_suc k = omega (arith, pow-suc 2 k)

mul-pow_suc : (q k : ℕ) → q * 2 ^ suc k ≡ 2 * (q * 2 ^ k)
mul-pow_suc q k = omega (arith, ap (λ (t : ℕ). q * t) (pow-suc 2 k))

zero-bit_or : (b : ℕ) → bit_or 0 b ≡ b
zero-bit_or b = bit_or-bitwise 0 b

bit_or-zero_below : (n a : ℕ) → a ≤ n → bit_or a 0 ≡ a
bit_or-zero_below n zero h = zero-bit_or 0
bit_or-zero_below zero (suc a) h = absurd (omega arith)
bit_or-zero_below (suc n) (suc a) h =
    omega (arith, bit_or_step (suc a) 0, bit_or-zero_below n (suc a / 2) (omega arith))

-- `low | (high << k)` is a sum when `low` fits `k` bits.
pub bit_or_low : (k low high : ℕ) → low < 2 ^ k → bit_or low (high * 2 ^ k) ≡ low + high * 2 ^ k
bit_or_low zero zero high h = omega (arith, zero-bit_or (high * 2 ^ 0))
bit_or_low zero (suc low) high h = absurd (omega arith)
bit_or_low (suc k) low high h = omega (
  arith,
  bit_or_step low (high * 2 ^ suc k),
  mul-pow_suc high k,
  pow_suc k,
  ap (λ (t : ℕ). bit_or (low / 2) t) (half (high * 2 ^ k) (high * 2 ^ suc k) (mul-pow_suc high k)),
  bit_or_low k (low / 2) high (omega (arith, pow_suc k)),
)
  where
    half : (m n : ℕ) → n ≡ 2 * m → n / 2 ≡ m
    half m n e = omega arith

-- `(high << k) | low`, the other way round.
pub bit_or_high : (k high low : ℕ) → low < 2 ^ k → bit_or (high * 2 ^ k) low ≡ high * 2 ^ k + low
bit_or_high zero high zero h = omega (arith, bit_or-zero_below (high * 1) (high * 1) (omega arith))
bit_or_high zero high (suc low) h = absurd (omega arith)
bit_or_high (suc k) high low h = omega (
  arith,
  bit_or_step (high * 2 ^ suc k) low,
  mul-pow_suc high k,
  pow_suc k,
  ap (λ (t : ℕ). bit_or t (low / 2)) (half (high * 2 ^ k) (high * 2 ^ suc k) (mul-pow_suc high k)),
  bit_or_high k high (low / 2) (omega (arith, pow_suc k)),
)
  where
    half : (m n : ℕ) → n ≡ 2 * m → n / 2 ≡ m
    half m n e = omega arith

-- `^` stays within a width.
pub bit_xor-lt : (k a b : ℕ) → a < 2 ^ k → b < 2 ^ k → bit_xor a b < 2 ^ k
bit_xor-lt zero zero zero p q = omega arith
bit_xor-lt zero zero (suc b) p q = absurd (omega arith)
bit_xor-lt zero (suc a) b p q = absurd (omega arith)
bit_xor-lt (suc k) a b p q = omega (
  arith,
  bit_xor_step a b,
  pow_suc k,
  bit_xor-lt k (a / 2) (b / 2) (omega (arith, pow_suc k)) (omega (arith, pow_suc k)),
)

-- The top bit of one operand alone stays set.
pub bit_xor_top : (k a b : ℕ) → a < 2 ^ k → 2 ^ k ≤ b → b < 2 ^ suc k → 2 ^ k ≤ bit_xor a b
bit_xor_top zero zero b p q r = omega (arith, zero_xor b)
  where
    zero_xor : (b : ℕ) → bit_xor 0 b ≡ b
    zero_xor b = bit_xor-bitwise 0 b
bit_xor_top zero (suc a) b p q r = absurd (omega arith)
bit_xor_top (suc k) a b p q r = omega (
  arith,
  bit_xor_step a b,
  pow_suc k,
  bit_xor_top k (a / 2) (b / 2) (omega (arith, pow_suc k)) (omega (arith, pow_suc k))
      (omega (arith, pow_suc k, pow_suc (suc k))),
)

-- `^` can be cancelled on either side.
pub bit_xor_cancel_right : (k a b c : ℕ) → a < 2 ^ k → b < 2 ^ k → bit_xor a c ≡ bit_xor b c → a ≡ b
bit_xor_cancel_right zero zero zero c p q e = refl
bit_xor_cancel_right zero zero (suc b) c p q e = absurd (omega arith)
bit_xor_cancel_right zero (suc a) b c p q e = absurd (omega arith)
bit_xor_cancel_right (suc k) a b c p q e = omega (
  arith,
  bit_xor_step a c,
  bit_xor_step b c,
  bit_xor_cancel_right k (a / 2) (b / 2) (c / 2) (omega (arith, pow_suc k))
      (omega (arith, pow_suc k)) (omega (arith, bit_xor_step a c, bit_xor_step b c)),
)

pub bit_xor_cancel_left : (k a b c : ℕ) → a < 2 ^ k → b < 2 ^ k → bit_xor c a ≡ bit_xor c b → a ≡ b
bit_xor_cancel_left zero zero zero c p q e = refl
bit_xor_cancel_left zero zero (suc b) c p q e = absurd (omega arith)
bit_xor_cancel_left zero (suc a) b c p q e = absurd (omega arith)
bit_xor_cancel_left (suc k) a b c p q e = omega (
  arith,
  bit_xor_step c a,
  bit_xor_step c b,
  bit_xor_cancel_left k (a / 2) (b / 2) (c / 2) (omega (arith, pow_suc k))
      (omega (arith, pow_suc k)) (omega (arith, bit_xor_step c a, bit_xor_step c b)),
)
