-- ===== src/Packet/Session.antt =====
-- `sessionHash`, `shaArrayFromHex` and `shaHexFromArray` of src/network/PacketCodec.cpp.
use cpp_data_protection_core.Base.{
  ℕ, ◌*◌, ◌%◌, ◌^◌, ◌≡◌, refl, bit_xor, not, ◌==◌, [], ◌∷◌, Bytes, IsBytes, length,
}
use cpp_data_protection_core.Common.Error.{Result, ok, ◌>>=◌, ◌>>◌, throw_if, sha_hex_not_32_bytes}
use cpp_data_protection_core.Common.Hex.{bytes_to_hex, hex_to_bytes}
use cpp_data_protection_core.Common.Hex.Laws.{hex_to_bytes-bytes_to_hex}

unfoldable pub session_hash_from : ℕ → Bytes → ℕ
session_hash_from hash [] = hash
session_hash_from hash (c ∷ session_id) =
    session_hash_from (bit_xor hash c * 1099511628211 % 2 ^ 64) session_id

unfoldable pub session_hash : Bytes → ℕ
unfolding session_hash_from
session_hash session_id = session_hash_from 1469598103934665603 session_id

unfoldable pub sha_array_from_hex : Bytes → Result Bytes
sha_array_from_hex hex = do
  bytes ← hex_to_bytes hex
  throw_if (not (length bytes == 32)) sha_hex_not_32_bytes
  ok bytes

unfoldable pub sha_hex_from_array : Bytes → Bytes
sha_hex_from_array bytes = bytes_to_hex bytes

pub sha_array_from_hex-sha_hex_from_array :
    (bytes : Bytes)
    → IsBytes bytes
    → length bytes ≡ 32
    → sha_array_from_hex (sha_hex_from_array bytes) ≡ ok bytes
unfolding sha_array_from_hex sha_hex_from_array
sha_array_from_hex-sha_hex_from_array bytes h l = rw (hex_to_bytes-bytes_to_hex bytes h) (rw l refl)
