-- ===== src/Client/Payload/Laws.antt =====
-- What the client writes into a payload is what the server reads from it.
use cpp_data_protection_core.Base.{
  ℕ, ◌%◌, ◌^◌, ◌<◌, ◌≡◌, refl, ap, ◌∙◌, arith, false, not, ◌==◌, ==_refl, some, List, [], ◌∷◌, ◌++◌,
  Bytes, IsBytes, codes, equal_refl, null, length, All,
}
use cpp_data_protection_core.Common.Error.{
  Result, ok, ◌>>=◌, ◌>>◌, throw_if, put_chunk_compressed_size,
}
use cpp_data_protection_core.Common.Hex.{all_of, hex_encode_string, hex_decode_string}
use cpp_data_protection_core.Common.Hex.Laws.{hex_decode_string-hex_encode_string}
use cpp_data_protection_core.Common.Text.Laws.{IsWord, words-word}
use cpp_data_protection_core.Common.Map.{find, assign, same, lt_bytes}
use cpp_data_protection_core.Manifest.Fields.{hex_encode_string-IsWord, decimal-IsWord}
use cpp_data_protection_core.Server.Fields.{
  Fields, fields_of, fields_behind, parse_text_fields, stoull, field, parse_u64,
}
use cpp_data_protection_core.Server.Put.{
  PutPayload, search_marker, put_of, put_parts, parse_put_payload,
}
use cpp_data_protection_core.Client.Payload.{
  PreparedChunk, lines_text, put_fields, make_put_payload,
}
use cpp_data_protection_core.Client.Payload.Marker.{
  words_of, joined, AreWords, words-joined, search_marker-word, search_marker-newline,
  search_marker-lines, stoull-decimal,
}

-- The ranges of the C++ fields, and texts that are words of the payload.
pub record IsPrepared (session_id : Bytes) (chunk : PreparedChunk) : Type 0 where
  pub session_some : null session_id ≡ false
  pub session_bytes : IsBytes session_id
  pub path_some : null chunk.relative_path ≡ false
  pub path_bytes : IsBytes chunk.relative_path
  pub sha_word : IsWord chunk.file_sha256
  pub size_fits : chunk.file_size < 2 ^ 64
  pub mode_fits : chunk.file_mode < 2 ^ 32
  pub index_fits : chunk.chunk_index < 2 ^ 64
  pub raw_fits : length chunk.raw < 2 ^ 64
  pub compressed_fits : length chunk.compressed < 2 ^ 64

-- What the server makes of the payload.
abbrev pub put_payload : Bytes → PreparedChunk → PutPayload
put_payload session_id chunk = record {
  session_id = session_id;
  relative_path = chunk.relative_path;
  file_size = chunk.file_size;
  file_mode = chunk.file_mode;
  file_sha256 = chunk.file_sha256;
  chunk_index = chunk.chunk_index;
  raw_size = length chunk.raw;
  compressed_size = length chunk.compressed;
  compressed = chunk.compressed;
}

-- The fields of a payload, by their names.
put_of-put_fields :
    (session_hex path_hex size mode sha index raw_size compressed_size compressed : Bytes)
    → put_of
        (fields_of
          (words_of (
            (codes "session_hex", session_hex)
            ∷ (codes "relative_path_hex", path_hex)
            ∷ (codes "file_size", size)
            ∷ (codes "file_mode", mode)
            ∷ (codes "file_sha256", sha)
            ∷ (codes "chunk_index", index)
            ∷ (codes "raw_size", raw_size)
            ∷ (codes "compressed_size", compressed_size)
            ∷ []))
          [])
        compressed
      ≡ (do
        session_id ← hex_decode_string session_hex
        relative_path ← hex_decode_string path_hex
        file_size ← stoull size
        file_mode ← stoull mode
        chunk_index ← stoull index
        raw ← stoull raw_size
        stored ← stoull compressed_size
        throw_if (not (length compressed == stored)) put_chunk_compressed_size
        ok (record {
          session_id = session_id;
          relative_path = relative_path;
          file_size = file_size;
          file_mode = file_mode % 2 ^ 32;
          file_sha256 = sha;
          chunk_index = chunk_index;
          raw_size = raw;
          compressed_size = stored;
          compressed = compressed;
        }))
unfolding put_of field parse_u64 find same assign lt_bytes fields_of words_of
put_of-put_fields session_hex path_hex size mode sha index raw_size compressed_size compressed =
    refl

put_fields-AreWords :
    (session_id : Bytes) (chunk : PreparedChunk)
    → IsPrepared session_id chunk
    → All AreWords (put_fields session_id chunk)
unfolding all_of
put_fields-AreWords session_id chunk h = (
  ((refl, refl), hex_encode_string-IsWord session_id h.session_some),
  (
    ((refl, refl), hex_encode_string-IsWord chunk.relative_path h.path_some),
    (
      ((refl, refl), decimal-IsWord chunk.file_size),
      (
        ((refl, refl), decimal-IsWord chunk.file_mode),
        (
          ((refl, refl), h.sha_word),
          (
            ((refl, refl), decimal-IsWord chunk.chunk_index),
            (
              ((refl, refl), decimal-IsWord (length chunk.raw)),
              (((refl, refl), decimal-IsWord (length chunk.compressed)), tt),
            ),
          ),
        ),
      ),
    ),
  ),
)

-- A header in front of lines.
parse_text_fields-joined :
    (header key value : Bytes) (fields : List (Bytes × Bytes))
    → IsWord header
    → All AreWords ((key, value) ∷ fields)
    → parse_text_fields (header ++ (10 ∷ joined key value fields)) header
      ≡ ok (fields_of (words_of ((key, value) ∷ fields)) [])
unfolding parse_text_fields fields_behind words_of
parse_text_fields-joined header key value fields n h =
    rw (words-word header _ 10 n refl, words-joined key value fields h, equal_refl header) refl

search_marker-header :
    (header key value rest : Bytes) (fields : List (Bytes × Bytes))
    → IsWord header
    → All AreWords ((key, value) ∷ fields)
    → search_marker (header ++ (10 ∷ lines_text ((key, value) ∷ fields) (10 ∷ rest)))
      ≡ some (header ++ (10 ∷ joined key value fields), rest)
unfolding lines_text
search_marker-header header key value rest fields n h =
    search_marker-word header _ (10 ∷ joined key value fields) rest n.1 (
      search_marker-newline key (b' ' ∷ (value ++ (10 ∷ lines_text fields (10 ∷ rest))))
        (joined key value fields) rest h.0.0 (search_marker-lines key value fields rest h))

header-IsWord : IsWord (codes "DPC_PUT_V1")
unfolding all_of
header-IsWord = (refl, refl)

make_put_payload-parts :
    (session_id : Bytes) (chunk : PreparedChunk)
    → IsPrepared session_id chunk
    → parse_put_payload (make_put_payload session_id chunk)
      ≡ put_of (fields_of (words_of (put_fields session_id chunk)) []) chunk.compressed
unfolding parse_put_payload make_put_payload
make_put_payload-parts session_id chunk h =
    let all : All AreWords (put_fields session_id chunk) = put_fields-AreWords session_id chunk h in
    ap put_parts (
      search_marker-header (codes "DPC_PUT_V1") (codes "session_hex") (hex_encode_string session_id)
        chunk.compressed _ header-IsWord all)
    ∙ ap (λ (t : Result Fields). t >>= λ fields. put_of fields chunk.compressed)
        (parse_text_fields-joined (codes "DPC_PUT_V1") (codes "session_hex")
          (hex_encode_string session_id) _ header-IsWord all)

mode_fits : (n : ℕ) → n < 2 ^ 32 → (n < 2 ^ 64) × (n % 2 ^ 32 ≡ n)
mode_fits n h = (omega arith, omega arith)

-- The server's `parsePutPayload` reads every field and the compressed bytes, whatever these are,
-- from the payload that `makePutPayload` writes for a session and a chunk within the ranges of the
-- fields.
pub parse_put_payload-make_put_payload :
    (session_id : Bytes) (chunk : PreparedChunk)
    → IsPrepared session_id chunk
    → parse_put_payload (make_put_payload session_id chunk) ≡ ok (put_payload session_id chunk)
parse_put_payload-make_put_payload session_id chunk h =
    make_put_payload-parts session_id chunk h
    ∙ (put_of-put_fields _ _ _ _ _ _ _ _ _
        ∙ rw
            (
              hex_decode_string-hex_encode_string session_id h.session_bytes,
              hex_decode_string-hex_encode_string chunk.relative_path h.path_bytes,
              stoull-decimal chunk.file_size h.size_fits,
              stoull-decimal chunk.file_mode (mode_fits chunk.file_mode h.mode_fits).0,
              stoull-decimal chunk.chunk_index h.index_fits,
              stoull-decimal (length chunk.raw) h.raw_fits,
              stoull-decimal (length chunk.compressed) h.compressed_fits,
              ==_refl (length chunk.compressed),
              (mode_fits chunk.file_mode h.mode_fits).1,
            )
            refl)
