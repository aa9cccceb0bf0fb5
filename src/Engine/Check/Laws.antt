-- ===== src/Engine/Check/Laws.antt =====
-- Verification and restore make the same checks on the contents of a file.
use cpp_data_protection_core.Base.{
  ℕ, ◌+◌, ◌%◌, ◌^◌, ◌<◌, ◌≡◌, refl, ap, subst, arith, Bool, true, false, not, not→true, ◌==◌, ltb,
  if◌then◌else◌, Bool-cases, inl, inr, List, [], ◌∷◌, ◌++◌, Bytes, equal, length, length-append,
}
use cpp_data_protection_core.Common.Error.{
  ok, ◌>>=◌, ◌>>◌, throw_if, throw_if-eq-ok, >>=-eq-ok, Result-cases, object_path_mismatch,
  object_checksum_mismatch, file_size_mismatch, file_checksum_mismatch, length_error, err,
}
use cpp_data_protection_core.Common.Types.{ChunkRef, FileManifest}
use cpp_data_protection_core.Repo.{Repo}
use cpp_data_protection_core.Store.{
  sha256_hex, object_path_for_hash, absolute_object_path, read_object, read_raw,
}
use cpp_data_protection_core.Store.Compressor.{Libraries, decompress}
use cpp_data_protection_core.Engine.Check.{verify_chunks, verify_file, assemble, restore_contents}

module _ (libs : Libraries) where
  -- What `readRaw` returns has the hash that was asked for.
  pub read_raw-hash :
      (sha256 path raw : Bytes) (repo : Repo)
      → read_raw libs sha256 path repo ≡ ok raw
      → equal (sha256_hex libs raw) sha256 ≡ true
  unfolding read_raw
  read_raw-hash sha256 path raw repo h =
      let (expected, e0, h) = >>=-eq-ok (object_path_for_hash sha256) _ h in
      let (same, h) = throw_if-eq-ok (not (equal path expected)) object_path_mismatch _ h in
      let (abs, e1, h) = >>=-eq-ok (absolute_object_path path) _ h in
      let (text, e2, h) = >>=-eq-ok (read_object abs repo.objects) _ h in
      let (found, e3, h) = >>=-eq-ok (decompress libs text 0) _ h in
      let (sum, h) =
        throw_if-eq-ok (not (equal (sha256_hex libs found) sha256)) object_checksum_mismatch
          (ok found) h in
      let eq : found ≡ raw = cc h in
      subst (λ (t : Bytes). equal (sha256_hex libs t) sha256 ≡ true) eq (not→true _ sum)

  verify_chunks-assemble :
      (chunks : List ChunkRef) (hashed : Bytes) (size : ℕ) (repo : Repo)
      → size ≡ length hashed % 2 ^ 64
      → verify_chunks libs chunks hashed size repo
        ≡ (assemble libs chunks hashed repo >>= λ d. ok (d, length d % 2 ^ 64))
  unfolding verify_chunks assemble
  verify_chunks-assemble [] hashed size repo e = ap (λ (n : ℕ). ok (hashed, n)) e
  verify_chunks-assemble (c ∷ chunks) hashed size repo e =
      elim (Result-cases (read_raw libs c.sha256 c.object_path repo)) [
        | inr (bad, r) ↦ rw r refl
        | inl (raw, r) ↦
            rw (r, read_raw-hash c.sha256 c.object_path raw repo r)
              (elim (Bool-cases (length raw == c.raw_size)) [
                | inr other ↦ rw other refl
                | inl same ↦ rw same (
                    verify_chunks-assemble chunks (hashed ++ raw) ((size + length raw) % 2 ^ 64)
                      repo (omega (arith, e, length-append hashed raw)))
              ])
      ]

  -- The checks behind `reserve`, which are those of the verification.
  verify_file-assemble :
      (file : FileManifest) (repo : Repo)
      → ((d : Bytes) → assemble libs file.chunks [] repo ≡ ok d → length d < 2 ^ 64)
      → verify_file libs file repo ≡ (do
        assembled ← assemble libs file.chunks [] repo
        throw_if (not (length assembled == file.file_size)) file_size_mismatch
        throw_if (not (equal (sha256_hex libs assembled) file.file_sha256)) file_checksum_mismatch
        ok tt)
  unfolding verify_file
  verify_file-assemble file repo fits = elim (Result-cases (assemble libs file.chunks [] repo)) [
    | inr (bad, r) ↦ rw (verify_chunks-assemble file.chunks [] 0 repo refl, r) refl
    | inl (d, r) ↦
        let n : length d % 2 ^ 64 ≡ length d = omega (arith, fits d r) in
        rw (verify_chunks-assemble file.chunks [] 0 repo refl, r, n)
          (last_tests (length d == file.file_size) (equal (sha256_hex libs d) file.file_sha256))
  ]
    where
      last_tests :
          (a b : Bool)
          → (throw_if (not a) file_size_mismatch >> throw_if (not b) file_checksum_mismatch) ≡ (
              throw_if (not a) file_size_mismatch
              >> (throw_if (not b) file_checksum_mismatch >> ok tt))
      last_tests true true = refl
      last_tests true false = refl
      last_tests false b = refl

  -- When the chunks of a file that can be read together have fewer than 2^64 bytes, restoring the
  -- contents of the file has the outcome of verifying it, success or the same error, when its
  -- `file_size` is below 2^63, and otherwise throws the error of a vector that would be too long.
  pub verify_file-restore_contents :
      (file : FileManifest) (repo : Repo)
      → ((d : Bytes) → assemble libs file.chunks [] repo ≡ ok d → length d < 2 ^ 64)
      → (restore_contents libs file repo >>= λ _. ok tt)
        ≡ (if ltb file.file_size (2 ^ 63) then verify_file libs file repo else err length_error)
  unfolding restore_contents
  verify_file-restore_contents file repo fits = elim (Bool-cases (ltb file.file_size (2 ^ 63))) [
    | inr e ↦ rw e refl
    | inl e ↦
        rw (e, verify_file-assemble file repo fits)
          (elim (Result-cases (assemble libs file.chunks [] repo)) [
            | inr (bad, r) ↦ rw r refl
            | inl (d, r) ↦ rw r (
                last_tests (length d == file.file_size) (equal (sha256_hex libs d) file.file_sha256)
                  d)
          ])
  ]
    where
      last_tests :
          (a b : Bool) (d : Bytes)
          → (throw_if (not a) file_size_mismatch
              >> (throw_if (not b) file_checksum_mismatch >> ok d)
              >>= λ _. ok (tt {0}))
            ≡ (throw_if (not a) file_size_mismatch
                >> (throw_if (not b) file_checksum_mismatch >> ok (tt {0})))
      last_tests true true d = refl
      last_tests true false d = refl
      last_tests false b d = refl
