-- ===== src/Server/Put.antt =====
-- `PutPayload` and `parsePutPayload` of src/network/BackupServer.cpp.
use cpp_data_protection_core.Base.{
  ℕ, ◌%◌, ◌^◌, ◌&&◌, not, ◌==◌, none, some, Option, [], ◌∷◌, Bytes, codes, length, if◌then◌else◌,
}
use cpp_data_protection_core.Common.Error.{
  Result, ok, err, ◌>>=◌, ◌>>◌, throw_if, put_chunk_separator, put_chunk_compressed_size,
}
use cpp_data_protection_core.Common.Hex.{hex_decode_string}
use cpp_data_protection_core.Server.Fields.{Fields, parse_text_fields, field, parse_u64}

pub record PutPayload : Type 0 where
  pub session_id : Bytes
  pub relative_path : Bytes
  pub file_size : ℕ
  pub file_mode : ℕ
  pub file_sha256 : Bytes
  pub chunk_index : ℕ
  pub raw_size : ℕ
  pub compressed_size : ℕ
  pub compressed : Bytes

-- A character in front of what the search finds.
abbrev pub before : ℕ → Option (Bytes × Bytes) → Option (Bytes × Bytes)
before c none = none
before c (some (front, back)) = some (c ∷ front, back)

-- `std::search` for two newlines: what stands in front of the first two, and behind them.
unfoldable pub search_marker : Bytes → Option (Bytes × Bytes)
search_marker [] = none
search_marker (c ∷ []) = none
search_marker (c ∷ d ∷ rest) =
    let later = search_marker (d ∷ rest) in
    if c == 10 && d == 10 then some ([], rest) else before c later

-- The fields of the header, in the order in which the code asks for them.
unfoldable pub put_of : Fields → Bytes → Result PutPayload
unfolding field parse_u64
put_of fields compressed = do
  session_hex ← field fields (codes "session_hex")
  session_id ← hex_decode_string session_hex
  path_hex ← field fields (codes "relative_path_hex")
  relative_path ← hex_decode_string path_hex
  file_size ← parse_u64 fields (codes "file_size")
  file_mode ← parse_u64 fields (codes "file_mode")
  file_sha256 ← field fields (codes "file_sha256")
  chunk_index ← parse_u64 fields (codes "chunk_index")
  raw_size ← parse_u64 fields (codes "raw_size")
  compressed_size ← parse_u64 fields (codes "compressed_size")
  throw_if (not (length compressed == compressed_size)) put_chunk_compressed_size
  ok (record {
    session_id = session_id;
    relative_path = relative_path;
    file_size = file_size;
    file_mode = file_mode % 2 ^ 32;
    file_sha256 = file_sha256;
    chunk_index = chunk_index;
    raw_size = raw_size;
    compressed_size = compressed_size;
    compressed = compressed;
  })

abbrev pub put_parts : Option (Bytes × Bytes) → Result PutPayload
put_parts none = err put_chunk_separator
put_parts (some (header, compressed)) = do
  fields ← parse_text_fields header (codes "DPC_PUT_V1")
  put_of fields compressed

unfoldable pub parse_put_payload : Bytes → Result PutPayload
unfolding search_marker put_of
parse_put_payload payload = put_parts (search_marker payload)
