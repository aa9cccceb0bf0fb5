-- ===== src/Tests/Manifests.antt =====
-- A manifest, a checkpoint and the encodings at concrete values.
use cpp_data_protection_core.Base.{
  ◌≡◌, refl, arith, List, [], ◌∷◌, ◌++◌, Bytes, codes, null, false, equal,
}
use cpp_data_protection_core.Common.Error.{ok}
use cpp_data_protection_core.Common.Hex.{all_of, is_sha256_hex}
use cpp_data_protection_core.Common.Hex.Laws.{all_of-IsBytes}
use cpp_data_protection_core.Common.Path.{
  attach, split_at, contains, parent, normal_names, reverse_onto, ends_in_directory,
  lexically_normal, is_absolute, any_dot_dot, safe_relative_path, NormalPath, safe_join_under_root,
}
use cpp_data_protection_core.Base.{All}
use cpp_data_protection_core.Common.Path.Walk.{walk}
use cpp_data_protection_core.Common.Path.Laws.{IsPlain, safe_join_under_root_below}
use cpp_data_protection_core.Common.Types.{ChunkRef, FileManifest, Manifest, fixed}
use cpp_data_protection_core.Manifest.Serialize.{serialize}
use cpp_data_protection_core.Manifest.Parse.{parse}
use cpp_data_protection_core.Manifest.Fields.{IsChunkRef, IsFileLine}
use cpp_data_protection_core.Manifest.RoundTrip.{IsManifest, parse-serialize}
use cpp_data_protection_core.Metadata.Checkpoint.{CheckpointData, write_checkpoint, load_checkpoint}
use cpp_data_protection_core.Metadata.Checkpoint.Laws.{load_checkpoint-write_checkpoint}
use cpp_data_protection_core.Repo.{empty_repo}

abbrev some_sha : Bytes
some_sha = codes "000102030405060708090a0b0c0d0e0f000102030405060708090a0b0c0d0e0f"

abbrev piece : ChunkRef
piece = record {
  chunk_index = 0;
  raw_size = 2;
  compressed_size = 9;
  sha256 = some_sha;
  object_path = codes "objects/00/x.zst";
}

abbrev one_file : FileManifest
one_file = record {
  relative_path = codes "docs/a.txt";
  file_size = 2;
  file_mode = 420;
  file_sha256 = some_sha;
  chunks = piece ∷ [];
}

abbrev small : Manifest
small = record {
  version = 1;
  created_at = 1700000000;
  chunking_mode = fixed;
  source_root = codes "/home";
  total_input_bytes = 2;
  total_stored_bytes = 9;
  files = one_file ∷ [];
}

abbrev piece_path : NormalPath
piece_path = record {
  names = codes "objects" ∷ codes "00" ∷ codes "x.zst" ∷ [];
  trailing_slash = false;
}

abbrev file_path : NormalPath
file_path = record { names = codes "docs" ∷ codes "a.txt" ∷ []; trailing_slash = false }

piece_ok : IsChunkRef piece
unfolding is_sha256_hex all_of safe_relative_path lexically_normal normal_names reverse_onto
    split_at attach contains ends_in_directory is_absolute any_dot_dot equal
piece_ok = record {
  index_fits = omega arith;
  raw_fits = omega arith;
  compressed_fits = omega arith;
  sha_ok = refl;
  path_bytes = all_of-IsBytes (codes "objects/00/x.zst") refl;
  safe = piece_path;
  path_ok = refl;
}

one_file-IsFileLine : IsFileLine one_file
unfolding is_sha256_hex all_of safe_relative_path lexically_normal normal_names reverse_onto
    split_at attach contains ends_in_directory is_absolute any_dot_dot equal
one_file-IsFileLine = record {
  size_fits = omega arith;
  mode_fits = omega arith;
  count_fits = omega arith;
  sha_ok = refl;
  path_bytes = all_of-IsBytes (codes "docs/a.txt") refl;
  safe = file_path;
  path_ok = refl;
}

small_ok : IsManifest small
unfolding all_of
small_ok = record {
  version_fits = omega arith;
  created_fits = omega arith;
  input_fits = omega arith;
  stored_fits = omega arith;
  count_fits = omega arith;
  root_bytes = all_of-IsBytes (codes "/home") refl;
  root_some = refl;
  files_ok = (record { file_line = one_file-IsFileLine; chunk_refs = (piece_ok, tt) }, tt);
}

parse-serialize_example : parse (serialize small) ≡ ok small
parse-serialize_example = parse-serialize small small_ok

abbrev two_versions : CheckpointData
two_versions = record { latest_committed_version = 2; committed_versions = 1 ∷ 2 ∷ [] }

load_checkpoint-write_checkpoint_example :
    load_checkpoint (write_checkpoint two_versions empty_repo).1 ≡ ok two_versions
load_checkpoint-write_checkpoint_example =
    load_checkpoint-write_checkpoint two_versions empty_repo (omega arith)
      (omega arith, (omega arith, tt))

safe_join_under_root_below_example :
    (walk (codes "srv" ∷ []) (split_at b'/' (codes "a/../b")) ≡ codes "srv" ∷ codes "b" ∷ [])
    × (names : List Bytes) × (null names ≡ false)
    × All IsPlain names
    × ((codes "srv" ∷ codes "b" ∷ []) ≡ (codes "srv" ∷ []) ++ names)
unfolding safe_join_under_root safe_relative_path lexically_normal normal_names reverse_onto
    split_at attach contains ends_in_directory is_absolute any_dot_dot equal parent
safe_join_under_root_below_example =
    safe_join_under_root_below (codes "srv" ∷ []) (codes "a/../b") (codes "srv" ∷ codes "b" ∷ [])
      refl
