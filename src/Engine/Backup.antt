-- ===== src/Engine/Backup.antt =====
-- src/core/BackupEngine.cpp. The scanned files come with what the engine reads of them, the clock and
-- the absolute path of the source with their values. The faults are those of a `FaultInjector` that has
-- not fired; an exception ends `create`, so the engine never asks one that has.
pub mod Stored
pub mod Chunks
pub mod Laws
use cpp_data_protection_core.Base.{
  ℕ, ◌+◌, ◌%◌, ◌^◌, Bool, List, [], ◌∷◌, ◌++◌, Bytes, codes, length, if◌then◌else◌,
}
use cpp_data_protection_core.Common.Types.{
  ChunkingMode, ChunkRef, FileManifest, Manifest, BackupResult,
}
use cpp_data_protection_core.Common.Text.{decimal}
use cpp_data_protection_core.Wal.Record.{
  begin_backup, put_object, write_manifest, rename_manifest, commit_backup,
}
use cpp_data_protection_core.Manifest.Versions.{
  next_version, write_tmp, rename_tmp_to_manifest, create_commit_marker,
}
use cpp_data_protection_core.Metadata.Fault.{
  FaultStage, FaultInjector, trigger, after_begin, after_object_write, after_manifest_write,
  after_manifest_rename, after_commit_marker,
}
use cpp_data_protection_core.Metadata.Recovery.{wal_append, refresh_checkpoint}
use cpp_data_protection_core.Repo.Action.{Action, ◌>>=◌, ◌>>◌, lift, query, pure}
use cpp_data_protection_core.Store.{PutObjectResult, put_raw, sha256_hex}
use cpp_data_protection_core.Store.Compressor.{Libraries}

-- A file that the scanner found, and the chunks that `chunkFile` cuts it into.
pub record SourceFile : Type 0 where
  pub relative_path : Bytes
  pub file_size : ℕ
  pub file_mode : ℕ
  pub chunks : List Bytes

abbrev pub version_text : ℕ → Bytes
version_text version = codes "version=" ++ (decimal version ++ codes "\n")

abbrev pub fault : FaultInjector → FaultStage → Action (Unit {0})
fault injector stage = lift (trigger stage injector).0

abbrev pub chunk_ref : ℕ → PutObjectResult → ChunkRef
chunk_ref chunk_index put = record {
  chunk_index = chunk_index;
  raw_size = put.raw_size;
  compressed_size = put.compressed_size;
  sha256 = put.sha256;
  object_path = put.object_path;
}

module _ (libs : Libraries) (injector : FaultInjector) where
  -- The inner loop; with each reference, whether its object was inserted.
  unfoldable pub store_chunks : ℕ → List Bytes → Action (List (ChunkRef × Bool))
  store_chunks chunk_index [] = pure []
  store_chunks chunk_index (raw ∷ chunks) = do
    put ← put_raw libs raw
    wal_append put_object (put.sha256 ++ (codes " " ++ (put.object_path ++ codes "\n")))
    fault injector after_object_write
    others ← store_chunks (chunk_index + 1) chunks
    pure ((chunk_ref chunk_index put, put.inserted) ∷ others)

  unfoldable pub references : List (ChunkRef × Bool) → List ChunkRef
  references [] = []
  references ((c, inserted) ∷ stored) = c ∷ references stored

  -- `total_stored_bytes`, and the chunks that were not there before.
  unfoldable pub stored_bytes : List (ChunkRef × Bool) → ℕ
  stored_bytes [] = 0
  stored_bytes ((c, inserted) ∷ stored) =
      (if inserted then c.compressed_size else 0) + stored_bytes stored

  unfoldable pub unique_chunks : List (ChunkRef × Bool) → ℕ
  unique_chunks [] = 0
  unique_chunks ((c, inserted) ∷ stored) = (if inserted then 1 else 0) + unique_chunks stored

  unfoldable pub duplicate_chunks : List (ChunkRef × Bool) → ℕ
  duplicate_chunks [] = 0
  duplicate_chunks ((c, inserted) ∷ stored) = (if inserted then 0 else 1) + duplicate_chunks stored

  unfoldable pub concat : List Bytes → Bytes
  concat [] = []
  concat (raw ∷ chunks) = raw ++ concat chunks

  -- One iteration of the loop over the files.
  unfoldable pub store_file : SourceFile → Action (FileManifest × List (ChunkRef × Bool))
  unfolding store_chunks references concat
  store_file file = do
    stored ← store_chunks 0 file.chunks
    pure (
      record {
        relative_path = file.relative_path;
        file_size = file.file_size;
        file_mode = file.file_mode;
        file_sha256 = sha256_hex libs (concat file.chunks);
        chunks = references stored;
      },
      stored,
    )

  -- The loop: the files of the manifest, and all chunks that were put.
  unfoldable pub store_files : List SourceFile → Action (List FileManifest × List (ChunkRef × Bool))
  unfolding store_file
  store_files [] = pure ([], [])
  store_files (file ∷ files) = do
    (f, stored) ← store_file file
    (fs, others) ← store_files files
    pure (f ∷ fs, stored ++ others)

  unfoldable pub total_input : List FileManifest → ℕ
  total_input [] = 0
  total_input (f ∷ fs) = f.file_size + total_input fs

  unfoldable pub create : List SourceFile → ℕ → Bytes → ChunkingMode → Action BackupResult
  unfolding store_files stored_bytes unique_chunks duplicate_chunks total_input
  create files now source_root mode = do
    version ← query next_version
    wal_append begin_backup (version_text version)
    fault injector after_begin
    (file_list, stored) ← store_files files
    let manifest : Manifest = record {
      version = version;
      created_at = now;
      chunking_mode = mode;
      source_root = source_root;
      total_input_bytes = total_input file_list % 2 ^ 64;
      total_stored_bytes = stored_bytes stored % 2 ^ 64;
      files = file_list;
    }
    write_tmp version manifest
    wal_append write_manifest (version_text version)
    fault injector after_manifest_write
    rename_tmp_to_manifest version
    wal_append rename_manifest (version_text version)
    fault injector after_manifest_rename
    create_commit_marker version
    fault injector after_commit_marker
    wal_append commit_backup (version_text version)
    _ ← refresh_checkpoint
    pure (record {
      version = version;
      file_count = length file_list;
      total_input_bytes = manifest.total_input_bytes;
      total_stored_bytes = manifest.total_stored_bytes;
      total_chunks = length stored;
      unique_chunks = unique_chunks stored;
      duplicate_chunks = duplicate_chunks stored;
    })
