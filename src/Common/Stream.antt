-- ===== src/Common/Stream.antt =====
-- `std::istringstream` where the program reads words and numbers from it in turn: the characters that
-- are left, or nothing once an extraction has failed. A failed extraction leaves its target.
pub mod Laws
use cpp_data_protection_core.Base.{
  ℕ, ◌+◌, ◌-◌, ◌%◌, ◌^◌, Bool, true, false, ltb, ◌==◌, ◌&&◌, not, Option, none, some, [], ◌∷◌,
  Bytes, null, if◌then◌else◌,
}
use cpp_data_protection_core.Common.Text.{is_space, is_digit, digits_value}

abbrev pub Stream : Type 0
Stream = Option Bytes

unfoldable pub skip_spaces : Bytes → Bytes
skip_spaces [] = []
skip_spaces (c ∷ rest) = if is_space c then skip_spaces rest else c ∷ rest

-- The longest front whose characters pass a test, and what stands behind it.
unfoldable pub span : (ℕ → Bool) → Bytes → Bytes × Bytes
span p [] = ([], [])
span p (c ∷ rest) =
    let (front, back) = span p rest in if p c then (c ∷ front, back) else ([], c ∷ rest)

-- `in >> word`, where `word` held `old`.
unfoldable pub get_word : Bytes → Stream → Bytes × Stream
unfolding skip_spaces span
get_word old none = (old, none)
get_word old (some text) =
    let (word, rest) = span (λ c. not (is_space c)) (skip_spaces text) in
    if null word then (old, none) else (word, some rest)

unfoldable pub sign : Bytes → Bool × Bytes
sign [] = (false, [])
sign (c ∷ rest) =
    if c == b'-' then (true, rest) else if c == b'+' then (false, rest) else (false, c ∷ rest)

-- `in >> number` into an unsigned type of so many bits: a minus sign negates modulo `2 ^ bits`, a number
-- that does not fit fails with the greatest value, and no digits fail with 0.
unfoldable pub get_unsigned : ℕ → Stream → ℕ → ℕ × Stream
unfolding skip_spaces span sign
get_unsigned bits none old = (old, none)
get_unsigned bits (some text) old =
    let (negative, signed) = sign (skip_spaces text) in
    let (digits, rest) = span is_digit signed in
    let n = digits_value 0 digits in
    if null digits
    then (0, none)
    else if ltb (2 ^ bits - 1) n
    then (2 ^ bits - 1, none)
    else if negative
    then ((2 ^ bits - n) % 2 ^ bits, some rest)
    else (n, some rest)

unfoldable pub get_u64 : Stream → ℕ → ℕ × Stream
unfolding get_unsigned
get_u64 = get_unsigned 64

unfoldable pub get_u32 : Stream → ℕ → ℕ × Stream
unfolding get_unsigned
get_u32 = get_unsigned 32

-- `std::getline(in, line)` where only the position afterwards matters.
unfoldable pub skip_rest : Bytes → Bytes
skip_rest [] = []
skip_rest (c ∷ rest) = if c == 10 then rest else skip_rest rest

unfoldable pub skip_line : Stream → Stream
unfolding skip_rest
skip_line none = none
skip_line (some []) = none
skip_line (some (c ∷ rest)) = some (skip_rest (c ∷ rest))
