-- ===== src/Client/Payload.antt =====
-- `makePutPayload`, `requireNotError` and `parseStatus` of src/network/BackupClient.cpp, and
-- `PreparedChunk` of include/dpc/network/TransferSession.hpp.
pub mod Marker
pub mod Laws
pub mod Status
use cpp_data_protection_core.Base.{
  ℕ, not, ◌==◌, Bool, true, false, none, some, Option, List, [], ◌∷◌, ◌++◌, ltb, suc, zero, Bytes,
  codes, equal, length, if◌then◌else◌,
}
use cpp_data_protection_core.Common.Error.{
  Result, ok, err, ◌>>=◌, ◌>>◌, throw_if, server_error, expected_session_status,
  session_status_payload, out_of_fuel,
}
use cpp_data_protection_core.Common.Hex.{hex_encode_string}
use cpp_data_protection_core.Common.Text.{decimal}
use cpp_data_protection_core.Common.Stream.{Stream, get_word, get_u64}
use cpp_data_protection_core.Common.Map.{assign}
use cpp_data_protection_core.Packet.Codec.{Packet, error_packet, session_status}

pub record PreparedChunk : Type 0 where
  pub global_index : ℕ
  pub relative_path : Bytes
  pub file_size : ℕ
  pub file_mode : ℕ
  pub file_sha256 : Bytes
  pub chunk_index : ℕ
  pub chunk_sha256 : Bytes
  pub raw : Bytes
  pub compressed : Bytes

-- Lines `key << " " << value << "\n"`, in front of what follows them.
unfoldable pub lines_text : List (Bytes × Bytes) → Bytes → Bytes
lines_text [] later = later
lines_text ((key, value) ∷ fields) later = key ++ (b' ' ∷ (value ++ (10 ∷ lines_text fields later)))

abbrev pub put_fields : Bytes → PreparedChunk → List (Bytes × Bytes)
put_fields session_id chunk =
    (codes "session_hex", hex_encode_string session_id)
    ∷ (codes "relative_path_hex", hex_encode_string chunk.relative_path)
    ∷ (codes "file_size", decimal chunk.file_size)
    ∷ (codes "file_mode", decimal chunk.file_mode)
    ∷ (codes "file_sha256", chunk.file_sha256)
    ∷ (codes "chunk_index", decimal chunk.chunk_index)
    ∷ (codes "raw_size", decimal (length chunk.raw))
    ∷ (codes "compressed_size", decimal (length chunk.compressed))
    ∷ []

unfoldable pub make_put_payload : Bytes → PreparedChunk → Bytes
unfolding lines_text
make_put_payload session_id chunk =
    codes "DPC_PUT_V1" ++ (10 ∷ lines_text (put_fields session_id chunk) (10 ∷ chunk.compressed))

unfoldable pub require_not_error : Packet → Result (Unit {0})
require_not_error packet = throw_if (packet.type == error_packet) server_error

-- The body of `while (in >> index >> sha)`, for what the two extractions give.
abbrev pub on_status :
    (ℕ → List (ℕ × Bytes) → Stream → Result (List (ℕ × Bytes)))
    → ℕ
    → List (ℕ × Bytes)
    → Bytes × Stream
    → Result (List (ℕ × Bytes))
on_status loop index out (sha, none) = ok out
on_status loop index out (sha, some rest) = loop index (assign ltb index sha out) (some rest)

-- The loop; each round takes at least two characters.
unfoldable pub read_status : ℕ → ℕ → List (ℕ × Bytes) → Stream → Result (List (ℕ × Bytes))
read_status zero index out in_stream = err out_of_fuel
read_status (suc fuel) index out in_stream =
    let got = get_u64 in_stream index in on_status (read_status fuel) got.0 out (get_word [] got.1)

unfoldable pub status_behind : Bytes × Stream → Bytes → Result (List (ℕ × Bytes))
unfolding read_status
status_behind (header, rest) payload = do
  throw_if (not (equal header (codes "DPC_SESSION_STATUS_V1"))) session_status_payload
  read_status (suc (length payload)) 0 [] rest

unfoldable pub parse_status : Packet → Result (List (ℕ × Bytes))
unfolding require_not_error status_behind
parse_status packet = do
  require_not_error packet
  throw_if (not (packet.type == session_status)) expected_session_status
  status_behind (get_word [] (some packet.payload)) packet.payload
