-- ===== src/Manifest/Fields.antt =====
-- The words of the lines that `serialize` writes, and what each one is read back as.
use cpp_data_protection_core.Base.{
  ℕ, ◌≤◌, ◌<◌, ◌≡◌, refl, arith, true, false, not_ltb, [], ◌∷◌, ◌++◌, Bytes, IsBytes, codes,
  equal_refl, null, length,
}
use cpp_data_protection_core.Common.Error.{ok}
use cpp_data_protection_core.Common.Hex.{
  hex_encode_string, all_of, is_sha256_hex, require_sha256_hex,
}
use cpp_data_protection_core.Common.Hex.Laws.{
  hex_decode_string-hex_encode_string, hex_encode_string-all_of, length-hex_encode_string,
}
use cpp_data_protection_core.Common.Types.{ChunkRef, FileManifest}
use cpp_data_protection_core.Common.Path.{NormalPath, safe_relative_path}
use cpp_data_protection_core.Common.Text.{decimal, words, split_lines}
use cpp_data_protection_core.Common.Text.Decimal.{
  decimal-all_of, decimal-null, digits_value-decimal,
}
use cpp_data_protection_core.Common.Text.Laws.{
  IsWord, words-space, words-last, xdigits-IsWord, digits-IsWord, IsLine, in_line, all_of-IsLine,
  all_of-append, IsWord-in_line, split_lines-line,
}
use cpp_data_protection_core.Manifest.Serialize.{chunk_text, file_text}
use cpp_data_protection_core.Manifest.Parse.{
  u64_max, u32_max, parse_number, parse_chunk, parse_file_line, key_value, consume,
}

pub parse_number-decimal :
    (max_value n : ℕ)
    → max_value ≤ u64_max
    → n ≤ max_value
    → parse_number max_value (decimal n) ≡ ok n
unfolding parse_number
parse_number-decimal max_value n m h = rw (
  decimal-null n,
  decimal-all_of n,
  digits_value-decimal n (omega arith),
  not_ltb u64_max n (omega arith),
  not_ltb max_value n h,
)

pub decimal-IsWord : (n : ℕ) → IsWord (decimal n)
decimal-IsWord n = digits-IsWord (decimal n) (decimal-null n) (decimal-all_of n)

null_of_length : (w : Bytes) → 0 < length w → null w ≡ false
null_of_length [] h = absurd (omega arith)
null_of_length (c ∷ w) h = refl

length_of_null : (w : Bytes) → null w ≡ false → 0 < length w
length_of_null [] h = cc
length_of_null (c ∷ w) h = omega arith

pub hex_encode_string-IsWord : (s : Bytes) → null s ≡ false → IsWord (hex_encode_string s)
hex_encode_string-IsWord s h =
    xdigits-IsWord (hex_encode_string s)
      (null_of_length _ (omega (arith, length-hex_encode_string s, length_of_null s h)))
      (hex_encode_string-all_of s)

pub sha-IsWord : (s : Bytes) → is_sha256_hex s ≡ true → IsWord s
unfolding is_sha256_hex
sha-IsWord [] h = cc
sha-IsWord (c ∷ s) h = xdigits-IsWord (c ∷ s) refl (ground arith)

-- The fields of a chunk reference that the C++ types and `parse` allow.
pub record IsChunkRef (c : ChunkRef) : Type 0 where
  pub index_fits : c.chunk_index ≤ u64_max
  pub raw_fits : c.raw_size ≤ u64_max
  pub compressed_fits : c.compressed_size ≤ u64_max
  pub sha_ok : is_sha256_hex c.sha256 ≡ true
  pub path_bytes : IsBytes c.object_path
  pub safe : NormalPath
  pub path_ok : safe_relative_path c.object_path ≡ ok safe

safe_relative_path-null :
    (v : Bytes) (p : NormalPath) → safe_relative_path v ≡ ok p → null v ≡ false
unfolding safe_relative_path
safe_relative_path-null [] p h = ground arith
safe_relative_path-null (c ∷ v) p h = refl

require_sha256_hex-ok : (s : Bytes) → is_sha256_hex s ≡ true → require_sha256_hex s ≡ ok tt
unfolding require_sha256_hex
require_sha256_hex-ok s h = rw h

module _ (c : ChunkRef) (h : IsChunkRef c) where
  words-chunk_text :
      words (chunk_text c)
      ≡ codes "CHUNK"
        ∷ decimal c.chunk_index
        ∷ decimal c.raw_size
        ∷ decimal c.compressed_size
        ∷ c.sha256
        ∷ hex_encode_string c.object_path
        ∷ []
  unfolding chunk_text
  words-chunk_text = rw (
    words-space (codes "CHUNK") _ (unfold all_of in (refl, refl)),
    words-space (decimal c.chunk_index) _ (decimal-IsWord c.chunk_index),
    words-space (decimal c.raw_size) _ (decimal-IsWord c.raw_size),
    words-space (decimal c.compressed_size) _ (decimal-IsWord c.compressed_size),
    words-space c.sha256 _ (sha-IsWord c.sha256 h.sha_ok),
    words-last (hex_encode_string c.object_path) (
        hex_encode_string-IsWord c.object_path
          (safe_relative_path-null c.object_path h.safe h.path_ok)),
  )

  pub parse_chunk-chunk_text : parse_chunk (words (chunk_text c)) ≡ ok c
  unfolding parse_chunk
  parse_chunk-chunk_text = rw (
    words-chunk_text,
    equal_refl (codes "CHUNK"),
    parse_number-decimal u64_max c.chunk_index (omega arith) h.index_fits,
    parse_number-decimal u64_max c.raw_size (omega arith) h.raw_fits,
    parse_number-decimal u64_max c.compressed_size (omega arith) h.compressed_fits,
    hex_decode_string-hex_encode_string c.object_path h.path_bytes,
    require_sha256_hex-ok c.sha256 h.sha_ok,
    h.path_ok,
  )

-- The fields of a file entry that the C++ types and `parse` allow, but for its chunks.
pub record IsFileLine (f : FileManifest) : Type 0 where
  pub size_fits : f.file_size ≤ u64_max
  pub mode_fits : f.file_mode ≤ u32_max
  pub count_fits : length f.chunks ≤ u64_max
  pub sha_ok : is_sha256_hex f.file_sha256 ≡ true
  pub path_bytes : IsBytes f.relative_path
  pub safe : NormalPath
  pub path_ok : safe_relative_path f.relative_path ≡ ok safe

module _ (f : FileManifest) (h : IsFileLine f) where
  words-file_text :
      words (file_text f)
      ≡ codes "FILE"
        ∷ hex_encode_string f.relative_path
        ∷ decimal f.file_size
        ∷ decimal f.file_mode
        ∷ f.file_sha256
        ∷ decimal (length f.chunks)
        ∷ []
  unfolding file_text
  words-file_text = rw (
    words-space (codes "FILE") _ (unfold all_of in (refl, refl)),
    words-space (hex_encode_string f.relative_path) _ (
        hex_encode_string-IsWord f.relative_path
          (safe_relative_path-null f.relative_path h.safe h.path_ok)),
    words-space (decimal f.file_size) _ (decimal-IsWord f.file_size),
    words-space (decimal f.file_mode) _ (decimal-IsWord f.file_mode),
    words-space f.file_sha256 _ (sha-IsWord f.file_sha256 h.sha_ok),
    words-last (decimal (length f.chunks)) (decimal-IsWord (length f.chunks)),
  )

  pub parse_file_line-file_text :
      parse_file_line (words (file_text f)) ≡ ok (record f { chunks = [] }, length f.chunks)
  unfolding parse_file_line
  parse_file_line-file_text = rw (
    words-file_text,
    equal_refl (codes "FILE"),
    parse_number-decimal u64_max f.file_size (omega arith) h.size_fits,
    parse_number-decimal u32_max f.file_mode (omega arith) h.mode_fits,
    parse_number-decimal u64_max (length f.chunks) (omega arith) h.count_fits,
    hex_decode_string-hex_encode_string f.relative_path h.path_bytes,
    h.path_ok,
    require_sha256_hex-ok f.file_sha256 h.sha_ok,
  )

-- The texts hold no line break.
fields-in_line :
    (v w : Bytes) → IsWord v → all_of in_line w ≡ true → all_of in_line (v ++ b' ' ∷ w) ≡ true
fields-in_line v w h k =
    all_of-append in_line v (b' ' ∷ w) (IsWord-in_line v h) (unfold all_of in k)

pub chunk_text-IsLine : (c : ChunkRef) → IsChunkRef c → IsLine (chunk_text c)
unfolding chunk_text
chunk_text-IsLine c h = all_of-IsLine _ (
    fields-in_line (codes "CHUNK") _ (unfold all_of in (refl, refl)) (
      fields-in_line (decimal c.chunk_index) _ (decimal-IsWord c.chunk_index) (
        fields-in_line (decimal c.raw_size) _ (decimal-IsWord c.raw_size) (
          fields-in_line (decimal c.compressed_size) _ (decimal-IsWord c.compressed_size) (
            fields-in_line c.sha256 _ (sha-IsWord c.sha256 h.sha_ok) (
              IsWord-in_line _ (
                hex_encode_string-IsWord c.object_path
                  (safe_relative_path-null c.object_path h.safe h.path_ok))))))))

pub file_text-IsLine : (f : FileManifest) → IsFileLine f → IsLine (file_text f)
unfolding file_text
file_text-IsLine f h = all_of-IsLine _ (
    fields-in_line (codes "FILE") _ (unfold all_of in (refl, refl)) (
      fields-in_line (hex_encode_string f.relative_path) _
        (hex_encode_string-IsWord f.relative_path
          (safe_relative_path-null f.relative_path h.safe h.path_ok))
        (fields-in_line (decimal f.file_size) _ (decimal-IsWord f.file_size) (
          fields-in_line (decimal f.file_mode) _ (decimal-IsWord f.file_mode) (
            fields-in_line f.file_sha256 _ (sha-IsWord f.file_sha256 h.sha_ok)
              (IsWord-in_line _ (decimal-IsWord (length f.chunks))))))))

-- A line `key value` is read back by `consume`.
pub consume-line :
    (key value later : Bytes)
    → IsWord key
    → IsWord value
    → consume key (split_lines ((key ++ b' ' ∷ value) ++ 10 ∷ later))
      ≡ ok (value, split_lines later)
unfolding consume key_value
consume-line key value later hk hv = rw (
  split_lines-line (key ++ b' ' ∷ value) later
      (all_of-IsLine _ (fields-in_line key value hk (IsWord-in_line value hv))),
  words-space key value hk,
  words-last value hv,
  equal_refl key,
)
