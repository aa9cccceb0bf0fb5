-- ===== src/Tests/Restores.antt =====
-- A committed version that is restored outside the repository.
use cpp_data_protection_core.Base.{false, [], ◌∷◌, codes}
use cpp_data_protection_core.Common.Path.{NormalPath}
use cpp_data_protection_core.Common.Types.{Manifest, fixed}
use cpp_data_protection_core.Manifest.Serialize.{serialize}
use cpp_data_protection_core.Manifest.Versions.{manifest_name, commit_name}
use cpp_data_protection_core.Repo.{Repo}
use cpp_data_protection_core.Tests.Repositories.{filled, data_file}

abbrev version_one : Manifest
version_one = record {
  version = 1;
  created_at = 7;
  chunking_mode = fixed;
  source_root = codes "/home";
  total_input_bytes = 4;
  total_stored_bytes = 4;
  files = data_file ∷ [];
}

abbrev saved : Repo
saved = record filled {
  manifests = (manifest_name 1, serialize version_one) ∷ (commit_name 1, []) ∷ [];
}

abbrev file_path : NormalPath
file_path = record { names = codes "a.txt" ∷ []; trailing_slash = false }
