-- ===== src/Cli/Versions.antt =====
-- What the commands `list` and `stats` of src/cli/backupctl_main.cpp read. The two ratios that `stats`
-- prints are floating-point numbers and left out.
use cpp_data_protection_core.Base.{
  ℕ, ◌+◌, ◌-◌, ◌%◌, ◌^◌, ltb, List, [], ◌∷◌, ◌++◌, Bytes, length, if◌then◌else◌,
}
use cpp_data_protection_core.Common.Error.{Result, ok, ◌>>=◌}
use cpp_data_protection_core.Common.Map.{assign, lt_bytes}
use cpp_data_protection_core.Common.Types.{ChunkRef, FileManifest, Manifest}
use cpp_data_protection_core.Repo.{Repo}
use cpp_data_protection_core.Manifest.Versions.{load, list_committed_versions}
use cpp_data_protection_core.Store.{ObjectStoreStats, stats}

-- The manifests of the versions, in their order.
unfoldable pub load_versions : List ℕ → Repo → Result (List Manifest)
load_versions [] repo = ok []
load_versions (version ∷ versions) repo = do
  manifest ← load version repo
  manifests ← load_versions versions repo
  ok (manifest ∷ manifests)

unfoldable pub list_manifests : Repo → Result (List Manifest)
unfolding load_versions
list_manifests repo = do versions ← list_committed_versions repo; load_versions versions repo

-- The hashes of the chunks, as the loops visit them.
unfoldable pub chunk_hashes : List ChunkRef → List Bytes
chunk_hashes [] = []
chunk_hashes (chunk ∷ chunks) = chunk.sha256 ∷ chunk_hashes chunks

unfoldable pub file_hashes : List FileManifest → List Bytes
unfolding chunk_hashes
file_hashes [] = []
file_hashes (file ∷ files) = chunk_hashes file.chunks ++ file_hashes files

unfoldable pub manifest_hashes : List Manifest → List Bytes
unfolding file_hashes
manifest_hashes [] = []
manifest_hashes (manifest ∷ manifests) = file_hashes manifest.files ++ manifest_hashes manifests

-- A `std::set` is a map to nothing.
unfoldable pub insert_all : List Bytes → List (Bytes × Unit {0}) → List (Bytes × Unit {0})
insert_all [] set = set
insert_all (hash ∷ hashes) set = insert_all hashes (assign lt_bytes hash tt set)

unfoldable pub input_bytes : List Manifest → ℕ
input_bytes [] = 0
input_bytes (manifest ∷ manifests) = manifest.total_input_bytes + input_bytes manifests

pub record Statistics : Type 0 where
  pub versions : ℕ
  pub objects : ObjectStoreStats
  pub total_input_bytes : ℕ
  pub total_chunks : ℕ
  pub unique_chunks : ℕ
  pub duplicate_chunks : ℕ

unfoldable pub statistics_of : List Manifest → ObjectStoreStats → Statistics
unfolding manifest_hashes insert_all input_bytes
statistics_of manifests objects =
    let total = length (manifest_hashes manifests) in
    let unique = length (insert_all (manifest_hashes manifests) []) in
    record {
      versions = length manifests;
      objects = objects;
      total_input_bytes = input_bytes manifests % 2 ^ 64;
      total_chunks = total % 2 ^ 64;
      unique_chunks = unique % 2 ^ 64;
      duplicate_chunks =
          if ltb (unique % 2 ^ 64) (total % 2 ^ 64) then total % 2 ^ 64 - unique % 2 ^ 64 else 0;
    }

unfoldable pub print_stats : Repo → Result Statistics
unfolding list_manifests statistics_of
print_stats repo = do
  manifests ← list_manifests repo
  ok (statistics_of manifests (stats repo.objects))
