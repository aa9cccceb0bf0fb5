-- ===== src/Engine/Restore/Laws.antt =====
-- A restore and a verification of a version agree.
use cpp_data_protection_core.Base.{◌^◌, ◌<◌, ◌≡◌, [], Bytes, length}
use cpp_data_protection_core.Common.Error.{Result, ok, err}
use cpp_data_protection_core.Common.Types.{FileManifest, Manifest}
use cpp_data_protection_core.Common.Path.{NormalPath, safe_relative_path}
use cpp_data_protection_core.Repo.{Repo}
use cpp_data_protection_core.Store.Compressor.{Libraries}
use cpp_data_protection_core.Engine.Check.{assemble}

module _ (libs : Libraries) where
  -- A file of a manifest that fits the memory of a process and has a path to write it to.
  pub record IsRestorable (repo : Repo) (file : FileManifest) : Type 0 where
    pub size_fits : file.file_size < 2 ^ 63
    pub chunks_fit : (d : Bytes) → assemble libs file.chunks [] repo ≡ ok d → length d < 2 ^ 64
    pub path : NormalPath
    pub path_is_safe : safe_relative_path file.relative_path ≡ ok path

  -- Whether the call returned, with its error.
  abbrev pub outcome : {A : Type 0} → Result A → Result (Unit {0})
  outcome (ok a) = ok tt
  outcome (err e) = err e
