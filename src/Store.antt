-- ===== src/Store.antt =====
-- src/core/ObjectStore.cpp and src/core/Compressor.cpp: objects are files named by the hash of their
-- contents, compressed. OpenSSL's SHA-256 and zstd are parameters.
pub mod Compressor
pub mod Paths
pub mod Laws
use cpp_data_protection_core.Base.{
  ℕ, ◌+◌, Bool, true, false, not, ◌==◌, none, some, List, [], ◌∷◌, ◌++◌, Bytes, codes, equal,
  length, take, Option,
}
use cpp_data_protection_core.Common.Error.{
  Result, ok, err, ◌>>=◌, ◌>>◌, throw_if, object_path_not_under_objects, object_path_mismatch,
  object_missing, object_checksum_mismatch, existing_object_raw_size_mismatch,
}
use cpp_data_protection_core.Common.Hex.{bytes_to_hex, require_sha256_hex}
use cpp_data_protection_core.Common.Path.{safe_relative_path}
use cpp_data_protection_core.Repo.{Repo}
use cpp_data_protection_core.Repo.Directory.{Files, read, exists, write}
use cpp_data_protection_core.Repo.Action.{Action}
use cpp_data_protection_core.Store.Compressor.{Libraries, compress, decompress}

-- `Hash::sha256Hex`; a context that was updated piece by piece hashes the pieces in a row.
unfoldable pub sha256_hex : Libraries → Bytes → Bytes
sha256_hex libs data_hashed = bytes_to_hex (libs.sha256 data_hashed)

unfoldable pub object_path_for_hash : Bytes → Result Bytes
object_path_for_hash sha256 = do
  require_sha256_hex sha256
  ok (codes "objects/" ++ (take 2 sha256 ++ (codes "/" ++ (sha256 ++ codes ".zst"))))

abbrev pub under_objects : List Bytes → Bool
under_objects [] = false
under_objects (name ∷ names) = equal name (codes "objects")

-- The text of a path of these names.
unfoldable pub join : List Bytes → Bytes
join [] = []
join (name ∷ []) = name
join (name ∷ next ∷ names) = name ++ (codes "/" ++ join (next ∷ names))

-- `absoluteObjectPath`, as the name of the file below the repository.
unfoldable pub absolute_object_path : Bytes → Result Bytes
unfolding join
absolute_object_path object_path = do
  safe ← safe_relative_path object_path
  throw_if (not (under_objects safe.names)) object_path_not_under_objects
  ok (join safe.names)

abbrev pub read_object : Bytes → Files → Result Bytes
read_object name objects = elim (read name objects) [
  | none ↦ err object_missing
  | some text ↦ ok text
]

unfoldable pub read_raw : Libraries → Bytes → Bytes → Repo → Result Bytes
unfolding object_path_for_hash absolute_object_path sha256_hex
read_raw libs sha256 object_path repo = do
  expected_path ← object_path_for_hash sha256
  throw_if (not (equal object_path expected_path)) object_path_mismatch
  abs ← absolute_object_path object_path
  compressed ← read_object abs repo.objects
  raw ← decompress libs compressed 0
  throw_if (not (equal (sha256_hex libs raw) sha256)) object_checksum_mismatch
  ok raw

pub record PutObjectResult : Type 0 where
  pub sha256 : Bytes
  pub object_path : Bytes
  pub raw_size : ℕ
  pub compressed_size : ℕ
  pub inserted : Bool

-- What `putCompressed` does with the file that it finds at the object's place.
unfoldable pub put_at : Libraries → Bytes → Bytes → ℕ → Bytes → Bytes → Action PutObjectResult
unfolding read_raw
put_at libs sha256 compressed raw_size rel abs repo = elim (read abs repo.objects) [
  | some old ↦ (
    (do
      raw ← read_raw libs sha256 rel repo
      throw_if (not (length raw == raw_size)) existing_object_raw_size_mismatch
      ok (record {
        sha256 = sha256;
        object_path = rel;
        raw_size = raw_size;
        compressed_size = length old;
        inserted = false;
      })),
    repo,
  )
  | none ↦ (
    ok (record {
      sha256 = sha256;
      object_path = rel;
      raw_size = raw_size;
      compressed_size = length compressed;
      inserted = true;
    }),
    record repo { objects = write abs compressed repo.objects },
  )
]

-- The chain of `putCompressed` up to there, for a repository that is kept on an error.
unfoldable pub object_place : Bytes → Result (Bytes × Bytes)
unfolding object_path_for_hash absolute_object_path
object_place sha256 = do
  require_sha256_hex sha256
  rel ← object_path_for_hash sha256
  abs ← absolute_object_path rel
  ok (rel, abs)

unfoldable pub put_compressed : Libraries → Bytes → Bytes → ℕ → Action PutObjectResult
unfolding object_place put_at
put_compressed libs sha256 compressed raw_size repo = elim (object_place sha256) [
  | err e ↦ (err e, repo)
  | ok (rel, abs) ↦ put_at libs sha256 compressed raw_size rel abs repo
]

unfoldable pub put_raw : Libraries → Bytes → Action PutObjectResult
unfolding put_compressed sha256_hex
put_raw libs raw repo = elim (compress libs raw) [
  | err e ↦ (err e, repo)
  | ok compressed ↦ put_compressed libs (sha256_hex libs raw) compressed (length raw) repo
]

pub record ObjectStoreStats : Type 0 where
  pub object_count : ℕ
  pub stored_bytes : ℕ

-- `stats`, over the files of the directory.
unfoldable pub stats : Files → ObjectStoreStats
stats [] = record { object_count = 0; stored_bytes = 0 }
stats ((name, text) ∷ files) =
    let rest = stats files in
    record { object_count = rest.object_count + 1; stored_bytes = rest.stored_bytes + length text }
