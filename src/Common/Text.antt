-- ===== src/Common/Text.antt =====
-- What the program uses of the text streams of the C++ library: `out << n`, `in >> word`,
-- `std::getline` and `std::stoull`, on whole texts.
pub mod Laws
pub mod Decimal
use cpp_data_protection_core.Base.{
  ℕ, zero, suc, ◌+◌, ◌-◌, ◌*◌, ◌/◌, ◌%◌, Bool, ◌&&◌, ◌||◌, ltb, leb, ◌==◌, List, [], ◌∷◌, ◌++◌,
  Bytes, null, if◌then◌else◌,
}
use cpp_data_protection_core.Common.Path.{split_at}

-- `std::isspace` and `std::isdigit` in the C locale.
abbrev pub is_space : ℕ → Bool
is_space c = c == b' ' || leb 9 c && leb c 13

abbrev pub is_digit : ℕ → Bool
is_digit c = leb b'0' c && leb c b'9'

-- The digits of `n` in front of `out`, with room for `fuel` digits.
unfoldable pub decimal_loop : ℕ → ℕ → Bytes → Bytes
decimal_loop zero n out = out
decimal_loop (suc fuel) n out =
    let more = decimal_loop fuel (n / 10) ((48 + n % 10) ∷ out) in
    if ltb n 10 then (48 + n) ∷ out else more

-- `out << n` and `std::to_string(n)`: 20 digits are enough for 64 bits.
unfoldable pub decimal : ℕ → Bytes
unfolding decimal_loop
decimal n = decimal_loop 20 n []

-- The number that a text of digits stands for, behind the digits read so far.
unfoldable pub digits_value : ℕ → Bytes → ℕ
digits_value n [] = n
digits_value n (c ∷ rest) = digits_value (n * 10 + (c - 48)) rest

-- The words that `in >> word` extracts one after the other, with `current` read so far.
unfoldable pub words_from : Bytes → Bytes → List Bytes
words_from current [] = if null current then [] else current ∷ []
words_from current (c ∷ rest) =
    let others = words_from [] rest in
    let longer = words_from (current ++ c ∷ []) rest in
    if is_space c then (if null current then others else current ∷ others) else longer

unfoldable pub words : Bytes → List Bytes
unfolding words_from
words text = words_from [] text

-- `line.back() == '\r'`, `line.pop_back()`.
unfoldable pub strip_return : Bytes → Bytes
strip_return [] = []
strip_return (c ∷ []) = if c == 13 then [] else c ∷ []
strip_return (c ∷ d ∷ rest) = c ∷ strip_return (d ∷ rest)

-- `splitLines` from the pieces between the newlines: nothing after the last newline is no line.
unfoldable pub getlines : List Bytes → List Bytes
unfolding strip_return
getlines [] = []
getlines (piece ∷ []) = if null piece then [] else strip_return piece ∷ []
getlines (piece ∷ next ∷ rest) = strip_return piece ∷ getlines (next ∷ rest)

unfoldable pub split_lines : Bytes → List Bytes
unfolding getlines split_at
split_lines text = getlines (split_at 10 text)
