-- ===== src/Common/Hex/Laws.antt =====
-- Decoding inverts encoding, and what the encoders write is made of hex digits.
use cpp_data_protection_core.Base.{
  ltb, ℕ, zero, suc, ◌+◌, ◌*◌, ◌/◌, ◌%◌, ◌^◌, ◌<◌, ◌≡◌, refl, ap, ◌∙◌, arith, bit_or, Bool, true,
  ◌&&◌, ltb, ◌==◌, ==_iff, if◌then◌else◌, [], ◌∷◌, Bytes, IsByte, IsBytes, length,
}
use cpp_data_protection_core.Base.Bits.{bit_or_high}
use cpp_data_protection_core.Common.Error.{Error, ok, ◌>>=◌}
use cpp_data_protection_core.Common.Hex.{
  hex_digit, bytes_to_hex, from_hex, hex_pairs, hex_to_bytes, hex_encode_string, hex_decode_string,
  is_xdigit, all_of, is_sha256_hex,
}

-- A test of every number below a bound, by evaluation.
-- A test on the sixteen values of a digit, one after the other down from `top`.
digits_pass : (ℕ → Bool) → ℕ → Bool
digits_pass test zero = true
digits_pass test (suc top) = digits_pass test top && test top

digits_pass_at :
    (test : ℕ → Bool) (top d : ℕ) → d < top → digits_pass test top ≡ true → test d ≡ true
unfolding digits_pass
digits_pass_at test (suc top) d below every = ground (arith, digits_pass_at test top d)
digits_pass_at test zero d below every = absurd (omega arith)

hex_digit_value : (n : ℕ) → n < 16 → hex_digit n ≡ (if ltb n 10 then 48 + n else 87 + n)
unfolding digits_pass hex_digit
hex_digit_value n h =
    (==_iff _ _).0
      (digits_pass_at (λ n. hex_digit n == (if ltb n 10 then 48 + n else 87 + n)) 16 n h refl)

from_hex-hex_digit : (bad : Error) (n : ℕ) → n < 16 → from_hex bad (hex_digit n) ≡ ok n
unfolding from_hex
from_hex-hex_digit bad n h = rw (hex_digit_value n h) (ground arith)

hex_digit-is_xdigit : (n : ℕ) → n < 16 → is_xdigit (hex_digit n) ≡ true
unfolding digits_pass hex_digit
hex_digit-is_xdigit n h = digits_pass_at (λ n. is_xdigit (hex_digit n)) 16 n h refl

-- The two nibbles of a byte, joined again.
join_nibbles : (b : ℕ) → IsByte b → bit_or (b / 2 ^ 4 % 16 * 2 ^ 4) (b % 16) % 256 ≡ b
join_nibbles b h = omega (arith, bit_or_high 4 (b / 2 ^ 4 % 16) (b % 16) (omega arith))

hex_pairs-byte :
    (bad : Error) (b : ℕ) (rest : Bytes)
    → IsByte b
    → hex_pairs bad (hex_digit (b / 2 ^ 4 % 16) ∷ hex_digit (b % 16) ∷ rest)
      ≡ (do bytes ← hex_pairs bad rest; ok (b ∷ bytes))
unfolding hex_pairs
hex_pairs-byte bad b rest h = rw (
  from_hex-hex_digit bad (b / 2 ^ 4 % 16) (omega arith),
  from_hex-hex_digit bad (b % 16) (omega arith),
  join_nibbles b h,
)

-- Both encoders are one function.
hex_encode_string-bytes_to_hex : (s : Bytes) → hex_encode_string s ≡ bytes_to_hex s
unfolding hex_encode_string bytes_to_hex
hex_encode_string-bytes_to_hex [] = refl
hex_encode_string-bytes_to_hex (c ∷ rest) =
    ap (λ (t : Bytes). hex_digit (c / 2 ^ 4 % 16) ∷ hex_digit (c % 16) ∷ t)
      (hex_encode_string-bytes_to_hex rest)

hex_pairs-nil : (bad : Error) → hex_pairs bad [] ≡ ok []
unfolding hex_pairs
hex_pairs-nil bad = refl

hex_pairs-bytes_to_hex :
    (bad : Error) (s : Bytes) → IsBytes s → hex_pairs bad (bytes_to_hex s) ≡ ok s
unfolding bytes_to_hex
hex_pairs-bytes_to_hex bad [] h = hex_pairs-nil bad
hex_pairs-bytes_to_hex bad (b ∷ s) (hb, h) =
    hex_pairs-byte bad b (bytes_to_hex s) hb ∙ rw (hex_pairs-bytes_to_hex bad s h)

pub length-bytes_to_hex : (s : Bytes) → length (bytes_to_hex s) ≡ 2 * length s
unfolding bytes_to_hex
length-bytes_to_hex [] = omega arith
length-bytes_to_hex (b ∷ s) = omega (arith, length-bytes_to_hex s)

even_length : (s : Bytes) → (length (bytes_to_hex s) % 2 == 0) ≡ true
even_length s = (==_iff _ 0).1 (omega (arith, length-bytes_to_hex s))

-- `hexToBytes` reads back what `bytesToHex` wrote, for every string of bytes.
pub hex_to_bytes-bytes_to_hex : (s : Bytes) → IsBytes s → hex_to_bytes (bytes_to_hex s) ≡ ok s
unfolding hex_to_bytes
hex_to_bytes-bytes_to_hex s h = rw (even_length s) (hex_pairs-bytes_to_hex _ s h)

-- `hexDecodeString` reads back what `hexEncodeString` wrote, for every string of bytes.
pub hex_decode_string-hex_encode_string :
    (s : Bytes) → IsBytes s → hex_decode_string (hex_encode_string s) ≡ ok s
unfolding hex_decode_string
hex_decode_string-hex_encode_string s h =
    rw (hex_encode_string-bytes_to_hex s) (rw (even_length s) (hex_pairs-bytes_to_hex _ s h))

pub bytes_to_hex-all_of : (s : Bytes) → all_of is_xdigit (bytes_to_hex s) ≡ true
unfolding all_of bytes_to_hex
bytes_to_hex-all_of [] = refl
bytes_to_hex-all_of (b ∷ s) =
    rw
      (
        hex_digit-is_xdigit (b / 2 ^ 4 % 16) (omega arith),
        hex_digit-is_xdigit (b % 16) (omega arith),
      )
      (bytes_to_hex-all_of s)

-- The hex form of 32 bytes is what `isSha256Hex` accepts.
pub bytes_to_hex-is_sha256_hex : (s : Bytes) → length s ≡ 32 → is_sha256_hex (bytes_to_hex s) ≡ true
unfolding is_sha256_hex
bytes_to_hex-is_sha256_hex s h =
    rw ((==_iff (length (bytes_to_hex s)) 64).1 (omega (arith, length-bytes_to_hex s)))
      (bytes_to_hex-all_of s)

-- Every character that `hexEncodeString` writes is a hex digit.
pub hex_encode_string-all_of : (s : Bytes) → all_of is_xdigit (hex_encode_string s) ≡ true
hex_encode_string-all_of s = rw (hex_encode_string-bytes_to_hex s) (bytes_to_hex-all_of s)

pub length-hex_encode_string : (s : Bytes) → length (hex_encode_string s) ≡ 2 * length s
length-hex_encode_string s = rw (hex_encode_string-bytes_to_hex s) (length-bytes_to_hex s)

-- A computed test for texts of bytes.
pub all_of-IsBytes : (d : Bytes) → all_of (λ b. ltb b 256) d ≡ true → IsBytes d
unfolding all_of
all_of-IsBytes [] h = tt
all_of-IsBytes (b ∷ d) h = (ground arith, all_of-IsBytes d (ground arith))
