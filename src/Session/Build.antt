-- ===== src/Session/Build.antt =====
-- `SessionIndex::buildManifest`: the manifest of the chunks that a session has received. `std::map` and
-- `std::set` are lists, and `std::sort` is an insertion sort; the clock comes with its value.
pub mod Keeps
pub mod Laws
use cpp_data_protection_core.Base.{
  ℕ, zero, suc, ◌+◌, ◌%◌, ◌^◌, ltb, Bool, true, false, none, some, Option, List, [], ◌∷◌, ◌++◌,
  Bytes, codes, equal, null, if◌then◌else◌,
}
use cpp_data_protection_core.Common.Error.{Result, ok, err, ◌>>=◌, ◌>>◌, session_missing_chunk}
use cpp_data_protection_core.Common.Map.{find, assign, lt_bytes}
use cpp_data_protection_core.Common.Types.{fixed, ChunkRef, FileManifest, Manifest}
use cpp_data_protection_core.Repo.{Repo}
use cpp_data_protection_core.Session.{ReceivedChunkRecord, records}

unfoldable pub by_global :
    List ReceivedChunkRecord → List (ℕ × ReceivedChunkRecord) → List (ℕ × ReceivedChunkRecord)
by_global [] out = out
by_global (r ∷ rs) out = by_global rs (assign ltb r.global_index r out)

abbrev pub go_on : Option ReceivedChunkRecord → Result (Unit {0}) → Result (Unit {0})
go_on none later = err session_missing_chunk
go_on (some r) later = later

-- The loop that looks for a missing index, with the indices that are left.
unfoldable pub check_indices : ℕ → ℕ → List (ℕ × ReceivedChunkRecord) → Result (Unit {0})
check_indices zero i m = ok tt
check_indices (suc left) i m = go_on (find ltb i m) (check_indices left (i + 1) m)

abbrev pub received_ref : ReceivedChunkRecord → ChunkRef
received_ref r = record {
  chunk_index = r.chunk_index;
  raw_size = r.raw_size;
  compressed_size = r.compressed_size;
  sha256 = r.sha256;
  object_path = r.object_path;
}

-- `FileManifest` as its default constructor makes it, which `files[path]` puts under a new path.
abbrev pub empty_file : FileManifest
empty_file = record {
  relative_path = [];
  file_size = 0;
  file_mode = 420;
  file_sha256 = [];
  chunks = [];
}

abbrev pub file_at : Option FileManifest → FileManifest
file_at none = empty_file
file_at (some file) = file

-- The file of a chunk, behind `if (file.relative_path.empty())`.
unfoldable pub named : FileManifest → ReceivedChunkRecord → FileManifest
named file r =
    if null file.relative_path
    then record file {
      relative_path = r.relative_path;
      file_size = r.file_size;
      file_mode = r.file_mode;
      file_sha256 = r.file_sha256;
    }
    else file

abbrev pub with_chunk : FileManifest → ReceivedChunkRecord → FileManifest
with_chunk file r = record file { chunks = file.chunks ++ received_ref r ∷ [] }

unfoldable pub contains_hash : Bytes → List Bytes → Bool
contains_hash sha [] = false
contains_hash sha (s ∷ hashes) = if equal sha s then true else contains_hash sha hashes

-- What the loop over the chunks keeps.
pub record Building : Type 0 where
  pub total_input_bytes : ℕ
  pub total_stored_bytes : ℕ
  pub files : List (Bytes × FileManifest)
  pub unique_hashes : List Bytes

unfoldable pub add_chunk : ReceivedChunkRecord → Building → Building
unfolding named contains_hash
add_chunk r b =
    let file = file_at (find lt_bytes r.relative_path b.files) in
    let seen = contains_hash r.sha256 b.unique_hashes in
    record {
      total_input_bytes =
          if null file.relative_path
          then (b.total_input_bytes + r.file_size) % 2 ^ 64
          else b.total_input_bytes;
      total_stored_bytes =
          if seen
          then b.total_stored_bytes
          else (b.total_stored_bytes + r.compressed_size) % 2 ^ 64;
      files = assign lt_bytes r.relative_path (with_chunk (named file r) r) b.files;
      unique_hashes = if seen then b.unique_hashes else r.sha256 ∷ b.unique_hashes;
    }

unfoldable pub add_chunks : List (ℕ × ReceivedChunkRecord) → Building → Building
unfolding add_chunk
add_chunks [] b = b
add_chunks ((i, r) ∷ m) b = add_chunks m (add_chunk r b)

unfoldable pub insert_ref : ChunkRef → List ChunkRef → List ChunkRef
insert_ref c [] = c ∷ []
insert_ref c (d ∷ cs) = if ltb d.chunk_index c.chunk_index then d ∷ insert_ref c cs else c ∷ d ∷ cs

unfoldable pub sort_refs : List ChunkRef → List ChunkRef
unfolding insert_ref
sort_refs [] = []
sort_refs (c ∷ cs) = insert_ref c (sort_refs cs)

unfoldable pub sorted_files : List (Bytes × FileManifest) → List FileManifest
unfolding sort_refs
sorted_files [] = []
sorted_files ((path, file) ∷ files) =
    record file { chunks = sort_refs file.chunks } ∷ sorted_files files

abbrev pub nothing_built : Building
nothing_built = record {
  total_input_bytes = 0;
  total_stored_bytes = 0;
  files = [];
  unique_hashes = [];
}

-- The manifest of the chunks in the order of their global indices.
unfoldable pub manifest_of : ℕ → ℕ → Bytes → List (ℕ × ReceivedChunkRecord) → Manifest
unfolding add_chunks sorted_files
manifest_of version now session_id m =
    let b = add_chunks m nothing_built in
    record {
      version = version;
      created_at = now;
      chunking_mode = fixed;
      source_root = codes "network-session:" ++ session_id;
      total_input_bytes = b.total_input_bytes;
      total_stored_bytes = b.total_stored_bytes;
      files = sorted_files b.files;
    }

unfoldable pub build_records : List ReceivedChunkRecord → ℕ → ℕ → ℕ → Bytes → Result Manifest
unfolding by_global check_indices manifest_of
build_records recs version total_chunks now session_id = do
  check_indices total_chunks 0 (by_global recs [])
  ok (manifest_of version now session_id (by_global recs []))

unfoldable pub build_manifest : ℕ → ℕ → ℕ → Bytes → Repo → Result Manifest
unfolding build_records
build_manifest version total_chunks now session_id repo = do
  recs ← records session_id repo
  build_records recs version total_chunks now session_id
