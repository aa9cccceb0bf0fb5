-- ===== src/Metadata/Recovery.antt =====
-- src/metadata/RecoveryManager.cpp, src/metadata/MetadataCompactor.cpp, and the checkpoint that these,
-- the backup engine and the server write from the committed versions.
pub mod Laws
use cpp_data_protection_core.Base.{
  ℕ, zero, suc, none, some, List, [], ◌∷◌, ◌++◌, Bytes, codes, length,
}
use cpp_data_protection_core.Common.Error.{ok}
use cpp_data_protection_core.Common.Text.{decimal}
use cpp_data_protection_core.Wal.Record.{WalRecord, WalRecordType, checkpoint, compact}
use cpp_data_protection_core.Wal.Log.{read_all, append, replace_with}
use cpp_data_protection_core.Manifest.Versions.{list_committed_versions, back_or}
use cpp_data_protection_core.Metadata.Checkpoint.{CheckpointData, write_checkpoint, versions_text}
use cpp_data_protection_core.Repo.{Repo}
use cpp_data_protection_core.Repo.Action.{Action, ◌>>=◌, ◌>>◌, modify, lift, query, pure}

-- `WalLog::append` and `WalLog::replaceWith` on the repository's log.
unfoldable pub wal_append : WalRecordType → Bytes → Action (Unit {0})
wal_append type payload = do
  file ← query (λ repo. append type payload repo.wal)
  modify (λ repo. record repo { wal = some file })

unfoldable pub wal_replace_with : List WalRecord → Action (Unit {0})
wal_replace_with records = do
  file ← lift (replace_with records)
  modify (λ repo. record repo { wal = some file })

-- `checkpoint.committed_versions = versions` and its latest one, 0 when there is none.
abbrev pub checkpoint_of : List ℕ → CheckpointData
checkpoint_of versions = record {
  latest_committed_version = back_or 0 versions;
  committed_versions = versions;
}

-- `writeCheckpoint` of src/network/BackupServer.cpp, and the same lines elsewhere.
unfoldable pub refresh_checkpoint : Action (List ℕ)
unfolding write_checkpoint
refresh_checkpoint = do
  versions ← query list_committed_versions
  write_checkpoint (checkpoint_of versions)
  pure versions

pub record RecoveryReport : Type 0 where
  pub committed_versions : ℕ
  pub removed_tmp_files : ℕ

unfoldable pub recover : Action RecoveryReport
unfolding refresh_checkpoint
recover = do
  _ ← query (λ repo. read_all repo.wal)
  removed_tmp ← query (λ repo. ok (length repo.tmp))
  modify (λ repo. record repo { tmp = [] })
  versions ← refresh_checkpoint
  pure (record { committed_versions = length versions; removed_tmp_files = removed_tmp })

-- The payload that `compact` writes into the log.
unfoldable pub compact_text : CheckpointData → Bytes
compact_text d =
    codes "latest="
    ++ (decimal d.latest_committed_version
        ++ (codes "\nversions" ++ versions_text d.committed_versions))

abbrev pub compact_records : CheckpointData → List WalRecord
compact_records d =
    record { type = checkpoint; payload = compact_text d }
    ∷ record { type = compact; payload = codes "compact" }
    ∷ []

unfoldable pub compact_metadata : Action (Unit {0})
unfolding refresh_checkpoint compact_text
compact_metadata = do
  versions ← refresh_checkpoint
  wal_replace_with (compact_records (checkpoint_of versions))
