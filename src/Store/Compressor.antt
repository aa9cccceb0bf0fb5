-- ===== src/Store/Compressor.antt =====
-- src/core/Compressor.cpp, over the functions of zstd that it declares.
use cpp_data_protection_core.Base.{
  ℕ, zero, suc, ◌-◌, ◌*◌, ◌%◌, ◌^◌, ◌<◌, ◌≤◌, ◌≡◌, refl, arith, max, false, not, ◌&&◌, ◌==◌, none,
  some, Option, Bytes, length, if◌then◌else◌,
}
use cpp_data_protection_core.Common.Error.{
  Result, ok, err, ◌>>=◌, ◌>>◌, throw_if, zstd_content_size_error, zstd_growth_failed, zstd_failed,
  zstd_size_mismatch,
}

-- OpenSSL's SHA-256, and zstd: `none` is a code for which `ZSTD_isError` holds. `zstd_decompress` takes
-- the capacity of the output.
pub record Libraries : Type 0 where
  pub sha256 : Bytes → Bytes
  pub zstd_compress : Bytes → Option Bytes
  pub zstd_decompress : ℕ → Bytes → Option Bytes
  pub zstd_frame_content_size : Bytes → ℕ

abbrev pub content_size_unknown : ℕ
content_size_unknown = 2 ^ 64 - 1

abbrev pub content_size_error : ℕ
content_size_error = 2 ^ 64 - 2

unfoldable pub compress : Libraries → Bytes → Result Bytes
compress libs input = elim (libs.zstd_compress input) [
  | none ↦ err zstd_failed
  | some output ↦ ok output
]

-- The capacity that `decompress` starts from.
unfoldable pub start_size : Libraries → Bytes → ℕ → Result ℕ
start_size libs input expected =
    let frame_size = libs.zstd_frame_content_size input in
    if not (expected == 0)
    then ok expected
    else if frame_size == content_size_error
    then err zstd_content_size_error
    else if frame_size == content_size_unknown
    then ok (max (length input * 4) (64 * 1024))
    else ok frame_size

-- The loop over the attempts.
unfoldable pub attempt : Libraries → Bytes → ℕ → ℕ → ℕ → Result Bytes
attempt libs input expected zero output_size = err zstd_growth_failed
attempt libs input expected (suc left) output_size =
    let again = attempt libs input expected left (output_size * 2 % 2 ^ 64) in
    elim (libs.zstd_decompress output_size input) [
      | some output ↦ (do
        throw_if (not (expected == 0) && not (length output == expected)) zstd_size_mismatch
        ok output)
      | none ↦ if not (expected == 0) then err zstd_failed else again
    ]

unfoldable pub decompress : Libraries → Bytes → ℕ → Result Bytes
unfolding start_size attempt
decompress libs input expected = do
  output_size ← start_size libs input expected
  attempt libs input expected 8 output_size

-- What zstd and SHA-256 document: a frame of `ZSTD_compress` says the size of its contents, and is
-- decompressed into any output that is large enough; a digest has 32 bytes.
pub record Documented (libs : Libraries) : Type 0 where
  pub digest_size : (raw : Bytes) → length (libs.sha256 raw) ≡ 32
  pub frame_size :
      (raw compressed : Bytes)
      → libs.zstd_compress raw ≡ some compressed
      → libs.zstd_frame_content_size compressed ≡ length raw
  pub frame_contents :
      (raw compressed : Bytes) (capacity : ℕ)
      → libs.zstd_compress raw ≡ some compressed
      → length raw ≤ capacity
      → libs.zstd_decompress capacity compressed ≡ some raw

module _ (libs : Libraries) (doc : Documented libs) where
  attempt-compress :
      (left capacity : ℕ) (raw compressed : Bytes)
      → libs.zstd_compress raw ≡ some compressed
      → length raw ≤ capacity
      → attempt libs compressed 0 (suc left) capacity ≡ ok raw
  unfolding attempt
  attempt-compress left capacity raw compressed e l =
      rw (attempt, doc.frame_contents raw compressed capacity e l) refl

  -- When zstd compresses a text whose size fits the frame's field, `decompress` without an
  -- expected size gives the text back.
  pub decompress-compress :
      (raw compressed : Bytes)
      → libs.zstd_compress raw ≡ some compressed
      → length raw < content_size_error
      → decompress libs compressed 0 ≡ ok raw
  unfolding decompress start_size
  decompress-compress raw compressed e l =
      let known : (length raw == content_size_error) ≡ false = ground arith in
      let known' : (length raw == content_size_unknown) ≡ false = ground arith in
      rw
        (
          doc.frame_size raw compressed e,
          known,
          known',
          attempt-compress 7 (length raw) raw compressed e (omega arith),
        )
        refl
