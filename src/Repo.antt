-- ===== src/Repo.antt =====
-- The repository directory, as the program sees it through `std::filesystem` and
-- include/dpc/common/FileUtils.hpp. Each directory of the layout is a list of file names with their
-- contents; `wal` is metadata/wal.log, `checkpoint` is metadata/checkpoint.dat and `sessions` is
-- metadata/sessions. `writeFileAtomic` puts a whole file in place, so a write is one step.
pub mod Directory
pub mod Action
use cpp_data_protection_core.Base.{Option, none, Bytes, []}
use Directory.{Files}

pub record Repo : Type 0 where
  pub objects : Files
  pub manifests : Files
  pub tmp : Files
  pub sessions : Files
  pub wal : Option Bytes
  pub checkpoint : Option Bytes

-- A directory that `ensureLayout` has just made.
abbrev pub empty_repo : Repo
empty_repo = record {
  objects = [];
  manifests = [];
  tmp = [];
  sessions = [];
  wal = none;
  checkpoint = none;
}
