-- ===== src/Common/Hex.antt =====
-- The hex encodings of include/dpc/common/Hash.hpp (`bytesToHex`, `hexToBytes`, `fromHex`,
-- `isSha256Hex`, `requireSha256Hex`) and the same pair for strings of
-- src/core/ManifestStore.cpp (`hexEncodeString`, `hexDecodeString`).
pub mod Laws
use cpp_data_protection_core.Base.{
  ℕ, ◌+◌, ◌-◌, ◌*◌, ◌/◌, ◌%◌, ◌^◌, bit_or, Bool, true, false, not, ◌&&◌, ◌||◌, leb, ◌==◌,
  if◌then◌else◌, List, [], ◌∷◌, ◌++◌, Bytes, codes, get_or, length,
}
use cpp_data_protection_core.Common.Error.{
  Error, Result, ok, err, ◌>>=◌, ◌>>◌, throw_if, hex_odd_length, invalid_hex_character,
  not_sha256_hex, manifest_hex_length, manifest_hex_character,
}

-- `hex[n]` of the table in both encoders.
pub hex_digit : ℕ → ℕ
hex_digit n = get_or (codes "0123456789abcdef") n 0

unfoldable pub bytes_to_hex : Bytes → Bytes
unfolding hex_digit
bytes_to_hex [] = []
bytes_to_hex (b ∷ rest) = hex_digit (b / 2 ^ 4 % 16) ∷ hex_digit (b % 16) ∷ bytes_to_hex rest

-- `fromHex`, and the lambda `nibble`; `bad` is the error that the caller throws.
pub from_hex : Error → ℕ → Result ℕ
from_hex bad c =
    if leb b'0' c && leb c b'9'
    then ok (c - b'0')
    else if leb b'a' c && leb c b'f'
    then ok (10 + c - b'a')
    else if leb b'A' c && leb c b'F'
    then ok (10 + c - b'A')
    else err bad

-- The loop over pairs of digits. Its length is even where it is called.
pub hex_pairs : Error → Bytes → Result Bytes
hex_pairs bad [] = ok []
hex_pairs bad (c ∷ []) = ok []
hex_pairs bad (c ∷ d ∷ rest) = do
  high ← from_hex bad c
  low ← from_hex bad d
  bytes ← hex_pairs bad rest
  ok (bit_or (high * 2 ^ 4) low % 256 ∷ bytes)

unfoldable pub hex_to_bytes : Bytes → Result Bytes
unfolding from_hex hex_pairs
hex_to_bytes hex = do
  throw_if (not (length hex % 2 == 0)) hex_odd_length
  hex_pairs invalid_hex_character hex

unfoldable pub hex_encode_string : Bytes → Bytes
unfolding hex_digit
hex_encode_string [] = []
hex_encode_string (c ∷ rest) =
    hex_digit (c / 2 ^ 4 % 16) ∷ hex_digit (c % 16) ∷ hex_encode_string rest

unfoldable pub hex_decode_string : Bytes → Result Bytes
unfolding from_hex hex_pairs
hex_decode_string value = do
  throw_if (not (length value % 2 == 0)) manifest_hex_length
  hex_pairs manifest_hex_character value

-- `std::isxdigit` in the C locale.
abbrev pub is_xdigit : ℕ → Bool
is_xdigit c = leb b'0' c && leb c b'9' || leb b'a' c && leb c b'f' || leb b'A' c && leb c b'F'

-- `std::all_of`.
unfoldable pub all_of : (ℕ → Bool) → Bytes → Bool
all_of p [] = true
all_of p (c ∷ rest) = p c && all_of p rest

unfoldable pub is_sha256_hex : Bytes → Bool
unfolding all_of
is_sha256_hex value = length value == 64 && all_of is_xdigit value

unfoldable pub require_sha256_hex : Bytes → Result (Unit {0})
unfolding is_sha256_hex
require_sha256_hex value = throw_if (not (is_sha256_hex value)) not_sha256_hex
