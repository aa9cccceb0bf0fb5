-- ===== src/Manifest/Parse.antt =====
-- `ManifestStore::parse`, `parseNumber` and `rejectExtraTokens`. The `lines` that a function takes
-- are those from the index `i` on, and the ones that it returns those behind what it has read.
use cpp_data_protection_core.Base.{
  ℕ, zero, suc, ◌-◌, ◌^◌, true, false, not, ◌&&◌, ◌||◌, ltb, ◌==◌, List, [], ◌∷◌, Bytes, codes,
  equal, null, length, if◌then◌else◌,
}
use cpp_data_protection_core.Common.Error.{
  Result, ok, err, ◌>>=◌, ◌>>◌, throw_if, out_of_fuel, manifest_number_invalid,
  manifest_number_out_of_range, unexpected_token, manifest_header, manifest_missing_key,
  manifest_expected_key, manifest_chunking_mode, manifest_file_line, manifest_ended_inside_chunks,
  manifest_chunk_line, manifest_missing_end_file, manifest_missing_end,
  manifest_file_count_mismatch, manifest_data_after_end,
}
use cpp_data_protection_core.Common.Hex.{hex_decode_string, all_of, require_sha256_hex}
use cpp_data_protection_core.Common.Types.{
  ChunkRef, FileManifest, Manifest, chunking_mode_from_string,
}
use cpp_data_protection_core.Common.Path.{safe_relative_path}
use cpp_data_protection_core.Common.Text.{is_digit, digits_value, words, split_lines}

abbrev pub u64_max : ℕ
u64_max = 2 ^ 64 - 1

abbrev pub u32_max : ℕ
u32_max = 2 ^ 32 - 1

-- `parseNumber<T>`, by the largest value of `T`. `stoull` throws above 64 bits, with the same text
-- as the test against the limit of `T`, which is at most that.
unfoldable pub parse_number : ℕ → Bytes → Result ℕ
parse_number max_value value = do
  throw_if (null value || not (all_of is_digit value)) manifest_number_invalid
  let parsed = digits_value 0 value
  throw_if (ltb u64_max parsed || ltb max_value parsed) manifest_number_out_of_range
  ok parsed

unfoldable pub reject_extra_tokens : List Bytes → Result (Unit {0})
reject_extra_tokens extra = throw_if (not (null extra)) unexpected_token

-- The words of a line `key value`.
unfoldable pub key_value : Bytes → List Bytes → Result Bytes
unfolding reject_extra_tokens
key_value key (actual ∷ value ∷ extra) = do
  throw_if (not (equal actual key)) manifest_expected_key
  reject_extra_tokens extra
  ok value
key_value key _ = err manifest_expected_key

-- The lambda `consume`.
unfoldable pub consume : Bytes → List Bytes → Result (Bytes × List Bytes)
unfolding key_value
consume key [] = err manifest_missing_key
consume key (text ∷ lines) = do value ← key_value key (words text); ok (value, lines)

-- The words of a CHUNK line.
unfoldable pub parse_chunk : List Bytes → Result ChunkRef
unfolding reject_extra_tokens
parse_chunk
      (tag ∷ chunk_index_text ∷ raw_size_text ∷ compressed_size_text ∷ sha256 ∷ object_hex
        ∷ extra) =
    do
      throw_if (not (equal tag (codes "CHUNK"))) manifest_chunk_line
      chunk_index ← parse_number u64_max chunk_index_text
      raw_size ← parse_number u64_max raw_size_text
      compressed_size ← parse_number u64_max compressed_size_text
      object_path ← hex_decode_string object_hex
      require_sha256_hex sha256
      safe_relative_path object_path
      reject_extra_tokens extra
      ok (record {
        chunk_index = chunk_index;
        raw_size = raw_size;
        compressed_size = compressed_size;
        sha256 = sha256;
        object_path = object_path;
      })
parse_chunk _ = err manifest_chunk_line

-- The loop over `c`, with the chunks that are left.
unfoldable pub parse_chunks : ℕ → List Bytes → Result (List ChunkRef × List Bytes)
unfolding parse_chunk
parse_chunks zero lines = ok ([], lines)
parse_chunks (suc left) [] = err manifest_ended_inside_chunks
parse_chunks (suc left) (text ∷ lines) = do
  chunk ← parse_chunk (words text)
  (chunks, rest) ← parse_chunks left lines
  ok (chunk ∷ chunks, rest)

-- The words of a FILE line, and the number of chunks that it announces.
unfoldable pub parse_file_line : List Bytes → Result (FileManifest × ℕ)
unfolding reject_extra_tokens
parse_file_line
      (tag ∷ rel_hex ∷ file_size_text ∷ file_mode_text ∷ file_sha256 ∷ chunk_count_text ∷ extra) =
    do
      throw_if (not (equal tag (codes "FILE"))) manifest_file_line
      file_size ← parse_number u64_max file_size_text
      file_mode ← parse_number u32_max file_mode_text
      chunk_count ← parse_number u64_max chunk_count_text
      relative_path ← hex_decode_string rel_hex
      safe_relative_path relative_path
      require_sha256_hex file_sha256
      reject_extra_tokens extra
      ok (
        record {
          relative_path = relative_path;
          file_size = file_size;
          file_mode = file_mode;
          file_sha256 = file_sha256;
          chunks = [];
        },
        chunk_count,
      )
parse_file_line _ = err manifest_file_line

-- `if (i >= lines.size() || lines[i++] != "END_FILE")`
unfoldable pub end_file : List Bytes → Result (List Bytes)
end_file [] = err manifest_missing_end_file
end_file (text ∷ lines) = do
  throw_if (not (equal text (codes "END_FILE"))) manifest_missing_end_file
  ok lines

-- One file: its line, its chunks and the end mark.
unfoldable pub parse_file : Bytes → List Bytes → Result (FileManifest × List Bytes)
unfolding parse_file_line parse_chunks end_file
parse_file text lines = do
  (file, chunk_count) ← parse_file_line (words text)
  (chunks, rest) ← parse_chunks chunk_count lines
  rest ← end_file rest
  ok (record file { chunks = chunks }, rest)

-- `while (i < lines.size() && lines[i] != "END")`. A file takes a line at least, so the number of
-- lines is enough fuel.
unfoldable pub parse_files : ℕ → List Bytes → Result (List FileManifest × List Bytes)
unfolding parse_file
parse_files fuel [] = ok ([], [])
parse_files zero (text ∷ lines) =
    if equal text (codes "END") then ok ([], text ∷ lines) else err out_of_fuel
parse_files (suc fuel) (text ∷ lines) = elim (equal text (codes "END")) [
  | true ↦ ok ([], text ∷ lines)
  | false ↦ do
    (file, rest) ← parse_file text lines
    (files, rest) ← parse_files fuel rest
    ok (file ∷ files, rest)
]

-- The tests behind the loop.
unfoldable pub parse_end : List FileManifest → ℕ → List Bytes → Result (Unit {0})
parse_end files expected_files [] = err manifest_missing_end
parse_end files expected_files (text ∷ lines) = do
  throw_if (not (equal text (codes "END"))) manifest_missing_end
  throw_if (not (length files == expected_files)) manifest_file_count_mismatch
  throw_if (not (null lines)) manifest_data_after_end

unfoldable pub parse_header : List Bytes → Result (List Bytes)
parse_header [] = err manifest_header
parse_header (text ∷ lines) = do
  throw_if (not (equal text (codes "DPC_MANIFEST_V1"))) manifest_header
  ok lines

unfoldable pub parse : Bytes → Result Manifest
unfolding consume parse_files parse_end parse_header
parse text = do
  lines ← parse_header (split_lines text)
  (value, lines) ← consume (codes "version") lines
  version ← parse_number u64_max value
  (value, lines) ← consume (codes "created_at") lines
  created_at ← parse_number u64_max value
  (chunking_mode, lines) ← consume (codes "chunking_mode") lines
  throw_if (not (equal chunking_mode (codes "fixed")) && not (equal chunking_mode (codes "cdc")))
      manifest_chunking_mode
  (value, lines) ← consume (codes "source_root_hex") lines
  source_root ← hex_decode_string value
  (value, lines) ← consume (codes "file_count") lines
  expected_files ← parse_number u64_max value
  (value, lines) ← consume (codes "total_input_bytes") lines
  total_input_bytes ← parse_number u64_max value
  (value, lines) ← consume (codes "total_stored_bytes") lines
  total_stored_bytes ← parse_number u64_max value
  (files, lines) ← parse_files (length lines) lines
  parse_end files expected_files lines
  ok (record {
    version = version;
    created_at = created_at;
    chunking_mode = chunking_mode_from_string chunking_mode;
    source_root = source_root;
    total_input_bytes = total_input_bytes;
    total_stored_bytes = total_stored_bytes;
    files = files;
  })
