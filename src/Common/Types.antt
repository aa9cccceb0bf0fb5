-- ===== src/Common/Types.antt =====
-- include/dpc/common/Types.hpp. `ByteVector` and `std::string` are `Bytes`.
use cpp_data_protection_core.Base.{ℕ, List, Bytes, codes, equal, if◌then◌else◌}

pub data ChunkingMode : Type 0 where
  fixed content_defined : ChunkingMode

-- `toString(ChunkingMode)`
abbrev pub to_string : ChunkingMode → Bytes
to_string fixed = codes "fixed"
to_string content_defined = codes "cdc"

unfoldable pub chunking_mode_from_string : Bytes → ChunkingMode
chunking_mode_from_string value = if equal value (codes "cdc") then content_defined else fixed

pub record Chunk : Type 0 where
  pub index : ℕ
  pub bytes : Bytes

pub record ChunkRef : Type 0 where
  pub chunk_index : ℕ
  pub raw_size : ℕ
  pub compressed_size : ℕ
  pub sha256 : Bytes
  pub object_path : Bytes

pub record FileManifest : Type 0 where
  pub relative_path : Bytes
  pub file_size : ℕ
  pub file_mode : ℕ
  pub file_sha256 : Bytes
  pub chunks : List ChunkRef

pub record Manifest : Type 0 where
  pub version : ℕ
  pub created_at : ℕ
  pub chunking_mode : ChunkingMode
  pub source_root : Bytes
  pub total_input_bytes : ℕ
  pub total_stored_bytes : ℕ
  pub files : List FileManifest

pub record BackupResult : Type 0 where
  pub version : ℕ
  pub file_count : ℕ
  pub total_input_bytes : ℕ
  pub total_stored_bytes : ℕ
  pub total_chunks : ℕ
  pub unique_chunks : ℕ
  pub duplicate_chunks : ℕ
