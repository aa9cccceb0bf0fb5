-- ===== src/Engine/Check.antt =====
-- src/core/VerifyEngine.cpp, and what src/core/RestoreEngine.cpp does for one file before it writes
-- it. The engines' own checks are the only errors, and that of a vector that would be too long.
pub mod Laws
use cpp_data_protection_core.Base.{
  ℕ, zero, suc, ◌+◌, ◌%◌, ◌^◌, Bool, true, false, not, ◌==◌, ltb, List, [], ◌∷◌, ◌++◌, Bytes, equal,
  length,
}
use cpp_data_protection_core.Common.Error.{
  Result, ok, err, ◌>>=◌, ◌>>◌, throw_if, chunk_raw_size_mismatch, chunk_checksum_mismatch,
  file_size_mismatch, file_checksum_mismatch, length_error,
}
use cpp_data_protection_core.Common.Types.{ChunkRef, FileManifest, Manifest}
use cpp_data_protection_core.Common.Path.{NormalPath, safe_relative_path}
use cpp_data_protection_core.Manifest.Versions.{load}
use cpp_data_protection_core.Repo.{Repo}
use cpp_data_protection_core.Store.{sha256_hex, read_raw}
use cpp_data_protection_core.Store.Compressor.{Libraries}

module _ (libs : Libraries) where
  -- The inner loop of `verify`; the hash context is the data that it was updated with.
  unfoldable pub verify_chunks : List ChunkRef → Bytes → ℕ → Repo → Result (Bytes × ℕ)
  verify_chunks [] hashed actual_size repo = ok (hashed, actual_size)
  verify_chunks (chunk ∷ chunks) hashed actual_size repo = do
    raw ← read_raw libs chunk.sha256 chunk.object_path repo
    throw_if (not (length raw == chunk.raw_size)) chunk_raw_size_mismatch
    throw_if (not (equal (sha256_hex libs raw) chunk.sha256)) chunk_checksum_mismatch
    verify_chunks chunks (hashed ++ raw) ((actual_size + length raw) % 2 ^ 64) repo

  unfoldable pub verify_file : FileManifest → Repo → Result (Unit {0})
  unfolding verify_chunks
  verify_file file repo = do
    (hashed, actual_size) ← verify_chunks file.chunks [] 0 repo
    throw_if (not (actual_size == file.file_size)) file_size_mismatch
    throw_if (not (equal (sha256_hex libs hashed) file.file_sha256)) file_checksum_mismatch

  unfoldable pub verify_files : List FileManifest → Repo → Result (Unit {0})
  unfolding verify_file
  verify_files [] repo = ok tt
  verify_files (file ∷ files) repo = do verify_file file repo; verify_files files repo

  unfoldable pub verify : ℕ → Repo → Result (Unit {0})
  unfolding verify_files
  verify version repo = do manifest ← load version repo; verify_files manifest.files repo

  -- The inner loop of `restore`.
  unfoldable pub assemble : List ChunkRef → Bytes → Repo → Result Bytes
  assemble [] assembled repo = ok assembled
  assemble (chunk ∷ chunks) assembled repo = do
    raw ← read_raw libs chunk.sha256 chunk.object_path repo
    throw_if (not (length raw == chunk.raw_size)) chunk_raw_size_mismatch
    assemble chunks (assembled ++ raw) repo

  -- `reserve` throws above the greatest size of a vector, which is 2^63 - 1.
  unfoldable pub restore_contents : FileManifest → Repo → Result Bytes
  unfolding assemble
  restore_contents file repo = do
    throw_if (not (ltb file.file_size (2 ^ 63))) length_error
    assembled ← assemble file.chunks [] repo
    throw_if (not (length assembled == file.file_size)) file_size_mismatch
    throw_if (not (equal (sha256_hex libs assembled) file.file_sha256)) file_checksum_mismatch
    ok assembled

  pub record RestoredFile : Type 0 where
    pub path : NormalPath
    pub contents : Bytes
    pub mode : ℕ

  unfoldable pub restore_file : FileManifest → Repo → Result RestoredFile
  unfolding restore_contents
  restore_file file repo = do
    assembled ← restore_contents file repo
    safe ← safe_relative_path file.relative_path
    ok (record { path = safe; contents = assembled; mode = file.file_mode })
