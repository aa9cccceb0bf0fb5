-- ===== src/Manifest/Versions/Names.antt =====
-- The names of commit markers, and the version that is read back from one.
use cpp_data_protection_core.Base.{
  ℕ, zero, suc, ◌+◌, ◌-◌, ◌/◌, ◌%◌, ◌^◌, ◌<◌, ◌≤◌, ◌≡◌, refl, subst, arith, Bool, true, false,
  Bool-cases, inl, inr, ltb, not_ltb→le, not_ltb, ◌==◌, ◌&&◌, [], ◌∷◌, ◌++◌, Bytes, codes, null,
  length, length-append, take, drop, take-append, drop-append, equal,
}
use cpp_data_protection_core.Common.Error.{ok}
use cpp_data_protection_core.Common.Hex.{all_of}
use cpp_data_protection_core.Common.Text.{is_digit, decimal_loop, decimal, digits_value}
use cpp_data_protection_core.Common.Text.Decimal.{
  decimal-all_of, decimal-null, digits_value-decimal,
}
use cpp_data_protection_core.Manifest.Parse.{u64_max, parse_number}
use cpp_data_protection_core.Manifest.Versions.{
  pad, zero_pad_version, version_file_name, commit_name, is_commit_name,
}
use native.Mathlib.Nat.{pow-suc}

length-pad : (n : ℕ) (w : Bytes) → length (pad n w) ≡ n + length w
unfolding pad
length-pad zero w = omega arith
length-pad (suc n) w = omega (arith, length-pad n w)

pad-all_of : (n : ℕ) (w : Bytes) → all_of is_digit w ≡ true → all_of is_digit (pad n w) ≡ true
unfolding pad all_of
pad-all_of zero w h = h
pad-all_of (suc n) w h = pad-all_of n w h

digits_value-pad : (n : ℕ) (w : Bytes) → digits_value 0 (pad n w) ≡ digits_value 0 w
unfolding pad digits_value
digits_value-pad zero w = refl
digits_value-pad (suc n) w = digits_value-pad n w

pad-null : (n : ℕ) (w : Bytes) → null w ≡ false → null (pad n w) ≡ false
unfolding pad
pad-null zero w h = h
pad-null (suc n) w h = refl

-- A number below `10 ^ (k + 1)` is printed in at most `k + 1` digits, and one from there on in more.
length-decimal_loop_le :
    (fuel k n : ℕ) (out : Bytes)
    → n < 10 ^ suc k
    → length (decimal_loop (suc fuel) n out) ≤ suc k + length out
unfolding decimal_loop
length-decimal_loop_le fuel zero n out h = rw (lt→ltb' n h) (omega arith)
  where
    lt→ltb' : (m : ℕ) → m < 10 ^ 1 → ltb m 10 ≡ true
    lt→ltb' m l = ground arith
length-decimal_loop_le zero (suc k) n out h = ground arith
length-decimal_loop_le (suc fuel) (suc k) n out h = elim (Bool-cases (ltb n 10)) [
  | inl one ↦ rw one (omega arith)
  | inr more ↦ rw more (
      omega (
        arith,
        length-decimal_loop_le fuel k (n / 10) ((48 + n % 10) ∷ out)
            (omega (arith, pow-suc 10 (suc k))),
      ))
]

length-decimal_le : (n : ℕ) → n < 1000000 → length (decimal n) ≤ 6
unfolding decimal
length-decimal_le n h = length-decimal_loop_le 19 5 n [] h

length-zero_pad : (n : ℕ) → n < 1000000 → length (zero_pad_version n) ≡ 6
unfolding zero_pad_version
length-zero_pad n h =
    omega (arith, length-pad (6 - length (decimal n)) (decimal n), length-decimal_le n h)

length-decimal_loop_ge :
    (fuel k n : ℕ) (out : Bytes)
    → 10 ^ k ≤ n
    → k ≤ fuel
    → suc k + length out ≤ length (decimal_loop (suc fuel) n out)
unfolding decimal_loop
length-decimal_loop_ge zero zero n out h b = ground arith
length-decimal_loop_ge zero (suc k) n out h b = absurd (omega arith)
length-decimal_loop_ge (suc fuel) zero n out h b = elim (Bool-cases (ltb n 10)) [
  | inl one ↦ rw one (omega arith)
  | inr more ↦ rw more (
      omega (
        arith,
        not_ltb→le n 10 more,
        length-decimal_loop_ge fuel zero (n / 10) ((48 + n % 10) ∷ out)
            (omega (arith, not_ltb→le n 10 more)) (omega arith),
      ))
]
length-decimal_loop_ge (suc fuel) (suc k) n out h b =
    rw (not_ltb n 10 (omega (arith, pow-suc 10 k, pow_pos k))) (
      omega (
        arith,
        length-decimal_loop_ge fuel k (n / 10) ((48 + n % 10) ∷ out) (omega (arith, pow-suc 10 k))
            (omega arith),
      ))
  where
    pow_pos : (k : ℕ) → 1 ≤ 10 ^ k
    pow_pos zero = omega arith
    pow_pos (suc k) = omega (arith, pow-suc 10 k, pow_pos k)

length-decimal_ge : (n : ℕ) → 1000000 ≤ n → 7 ≤ length (decimal n)
unfolding decimal
length-decimal_ge n h = length-decimal_loop_ge 19 6 n [] h (omega arith)

length-zero_pad_ge : (n : ℕ) → 1000000 ≤ n → 7 ≤ length (zero_pad_version n)
unfolding zero_pad_version
length-zero_pad_ge n h =
    omega (arith, length-pad (6 - length (decimal n)) (decimal n), length-decimal_ge n h)

length-commit_name : (n : ℕ) → length (commit_name n) ≡ 15 + length (zero_pad_version n)
unfolding version_file_name
length-commit_name n = omega (arith, length-append (zero_pad_version n) (codes ".commit"))

take-commit_name : (n : ℕ) → n < 1000000 → take 6 (drop 8 (commit_name n)) ≡ zero_pad_version n
unfolding version_file_name
take-commit_name n h =
    subst (λ (t : ℕ). take t (zero_pad_version n ++ codes ".commit") ≡ zero_pad_version n)
      (length-zero_pad n h) (take-append (zero_pad_version n) (codes ".commit"))

drop-commit_name : (n : ℕ) → n < 1000000 → drop 14 (commit_name n) ≡ codes ".commit"
unfolding version_file_name
drop-commit_name n h =
    subst (λ (t : ℕ). drop t (zero_pad_version n ++ codes ".commit") ≡ codes ".commit")
      (length-zero_pad n h) (drop-append (zero_pad_version n) (codes ".commit"))

-- The name of a commit marker with at most six digits passes the tests of the listing.
pub is_commit_name-commit_name : (n : ℕ) → n < 1000000 → is_commit_name (commit_name n) ≡ true
unfolding is_commit_name equal
is_commit_name-commit_name n h =
    let e : length (commit_name n) ≡ 21 =
      omega (arith, length-commit_name n, length-zero_pad n h) in
    let p : take 8 (commit_name n) ≡ codes "version-" = unfold version_file_name in refl in
    rw (p, e, drop-commit_name n h) refl

pub not_is_commit_name : (n : ℕ) → 1000000 ≤ n → is_commit_name (commit_name n) ≡ false
unfolding is_commit_name
not_is_commit_name n h =
    let e : (length (commit_name n) == 21) ≡ false =
      ground (arith, length-commit_name n, length-zero_pad_ge n h) in
    rw e (and_false _ _)
  where
    and_false : (b c : Bool) → (b && false && c) ≡ false
    and_false true c = refl
    and_false false c = refl

parse_number-zero_pad : (n : ℕ) → n < 1000000 → parse_number u64_max (zero_pad_version n) ≡ ok n
unfolding parse_number zero_pad_version
parse_number-zero_pad n h =
    let k = 6 - length (decimal n) in
    let w = decimal n in
    rw (
      pad-null k w (decimal-null n),
      pad-all_of k w (decimal-all_of n),
      digits_value-pad k w,
      digits_value-decimal n (omega arith),
      not_ltb u64_max n (omega arith),
    )

pub parse_number-commit_name :
    (n : ℕ) → n < 1000000 → parse_number u64_max (take 6 (drop 8 (commit_name n))) ≡ ok n
parse_number-commit_name n h = rw (take-commit_name n h) (parse_number-zero_pad n h)
