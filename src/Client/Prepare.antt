-- ===== src/Client/Prepare.antt =====
-- `TransferSession::prepareChunks` of src/network/TransferSession.cpp. The scanned files come with what
-- is read of them.
use cpp_data_protection_core.Base.{ℕ, ◌+◌, List, [], ◌∷◌, ◌++◌, Bytes, length}
use cpp_data_protection_core.Common.Error.{Result, ok, ◌>>=◌}
use cpp_data_protection_core.Common.Types.{Chunk}
use cpp_data_protection_core.Chunker.Fixed.{FixedChunker, default_chunk_size, chunk_bytes}
use cpp_data_protection_core.Store.{sha256_hex}
use cpp_data_protection_core.Store.Compressor.{Libraries, compress}
use cpp_data_protection_core.Client.Payload.{PreparedChunk}

pub record ScannedContents : Type 0 where
  pub relative_path : Bytes
  pub file_size : ℕ
  pub file_mode : ℕ
  pub contents : Bytes

abbrev pub default_chunker : FixedChunker
default_chunker = record { chunk_size = default_chunk_size }

module _ (libs : Libraries) where
  -- The inner loop, from a global index on.
  unfoldable pub prepare_file : ScannedContents → ℕ → List Chunk → Result (List PreparedChunk)
  prepare_file file global_index [] = ok []
  prepare_file file global_index (chunk ∷ chunks) = do
    compressed ← compress libs chunk.bytes
    others ← prepare_file file (global_index + 1) chunks
    ok (
        record {
          global_index = global_index;
          relative_path = file.relative_path;
          file_size = file.file_size;
          file_mode = file.file_mode;
          file_sha256 = sha256_hex libs file.contents;
          chunk_index = chunk.index;
          chunk_sha256 = sha256_hex libs chunk.bytes;
          raw = chunk.bytes;
          compressed = compressed;
        }
        ∷ others)

  unfoldable pub prepare_files : ℕ → List ScannedContents → Result (List PreparedChunk)
  unfolding prepare_file
  prepare_files global_index [] = ok []
  prepare_files global_index (file ∷ files) = do
    let chunks = chunk_bytes default_chunker file.contents
    here ← prepare_file file global_index chunks
    others ← prepare_files (global_index + length chunks) files
    ok (here ++ others)

  unfoldable pub prepare_chunks : List ScannedContents → Result (List PreparedChunk)
  unfolding prepare_files
  prepare_chunks files = prepare_files 0 files
