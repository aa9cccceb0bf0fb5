-- ===== src/Engine/Restore.antt =====
-- The loop of src/core/RestoreEngine.cpp over the files. `write_out` is what the writes of one file and
-- of its mode below the target do to the repository: nothing, unless the target lies inside it.
pub mod Laws
use cpp_data_protection_core.Base.{ℕ, List, [], ◌∷◌}
use cpp_data_protection_core.Common.Types.{FileManifest}
use cpp_data_protection_core.Manifest.Versions.{load}
use cpp_data_protection_core.Repo.{Repo}
use cpp_data_protection_core.Repo.Action.{Action, ◌>>=◌, ◌>>◌, query, modify, pure}
use cpp_data_protection_core.Store.Compressor.{Libraries}
use cpp_data_protection_core.Engine.Check.{RestoredFile, restore_file}

module _ (libs : Libraries) (write_out : RestoredFile libs → Repo → Repo) where
  -- The files in the order of the writes. What was written before an error stays.
  unfoldable pub restore_files : List FileManifest → Action (List (RestoredFile libs))
  restore_files [] = pure []
  restore_files (file ∷ files) = do
    restored ← query (restore_file libs file)
    modify (write_out restored)
    others ← restore_files files
    pure (restored ∷ others)

  unfoldable pub restore : ℕ → Action (List (RestoredFile libs))
  unfolding restore_files
  restore version = do manifest ← query (load version); restore_files manifest.files
