-- ===== src/Metadata/Recovery/Laws.antt =====
-- What recovery and compaction leave.
use cpp_data_protection_core.Base.{
  ℕ, ◌≤◌, ◌≡◌, refl, ap, ◌∙◌, some, List, [], ◌∷◌, ◌++◌, codes, All, Bytes, length, arith,
}
use cpp_data_protection_core.Common.Error.{Error, ok, err, >>=-eq-ok}
use cpp_data_protection_core.Repo.{Repo}
use cpp_data_protection_core.Wal.Record.{
  WalRecord, max_payload_size, is_valid_record_type, checkpoint, compact,
}
use cpp_data_protection_core.Wal.Record.RoundTrip.{IsRecord}
use cpp_data_protection_core.Wal.Log.{read_all, replace_with}
use cpp_data_protection_core.Wal.Log.Laws.{read_all-replace_with}
use cpp_data_protection_core.Manifest.Versions.{list_committed_versions}
use cpp_data_protection_core.Manifest.Versions.Laws.{
  newest, list_committed_versions-newest, newest-All,
}
use cpp_data_protection_core.Common.Text.{decimal}
use cpp_data_protection_core.Metadata.Checkpoint.Laws.{load_checkpoint-write_checkpoint}
use cpp_data_protection_core.Metadata.Checkpoint.{
  CheckpointData, checkpoint_text, versions_text, write_checkpoint, load_checkpoint,
}
use cpp_data_protection_core.Metadata.Recovery.{
  checkpoint_of, refresh_checkpoint, recover, compact_text, compact_records, wal_replace_with,
  compact_metadata,
}

-- The repository after a recovery that found these versions.
abbrev pub recovered : Repo → List ℕ → Repo
recovered repo versions = record repo {
  tmp = [];
  checkpoint = some (checkpoint_text (checkpoint_of versions));
}

refresh_checkpoint-ok :
    (repo : Repo) (versions : List ℕ)
    → list_committed_versions repo ≡ ok versions
    → refresh_checkpoint repo
      ≡ (ok versions, record repo { checkpoint = some (checkpoint_text (checkpoint_of versions)) })
unfolding refresh_checkpoint write_checkpoint
refresh_checkpoint-ok repo versions h = rw h refl

list-tmp :
    (repo : Repo)
    → list_committed_versions (record repo { tmp = [] }) ≡ list_committed_versions repo
unfolding list_committed_versions
list-tmp repo = refl

recover-ok :
    (repo : Repo) (records : List WalRecord) (versions : List ℕ)
    → read_all repo.wal ≡ ok records
    → list_committed_versions repo ≡ ok versions
    → recover repo ≡ (
      ok (record { committed_versions = length versions; removed_tmp_files = length repo.tmp }),
      recovered repo versions,
    )
unfolding recover
recover-ok repo records versions h k =
    rw (h, refresh_checkpoint-ok (record repo { tmp = [] }) versions (list-tmp repo ∙ k)) refl

-- When the log is not readable, recovery throws what `readAll` throws and changes nothing.
pub recover-err :
    (repo : Repo) (e : Error) → read_all repo.wal ≡ err e → recover repo ≡ (err e, repo)
unfolding recover
recover-err repo e h = rw h refl

-- The checkpoint that names these versions and the newest of them.
abbrev pub of_versions : List ℕ → CheckpointData
of_versions versions = record {
  latest_committed_version = newest versions;
  committed_versions = versions;
}

module _ (repo : Repo) (versions : List ℕ)
    (listed : list_committed_versions repo ≡ ok versions) where
  checkpoint_of-listed : checkpoint_of versions ≡ of_versions versions
  checkpoint_of-listed =
      ap (λ (n : ℕ). record { latest_committed_version = n; committed_versions = versions })
        (list_committed_versions-newest repo versions listed).0

  -- A repository with the checkpoint of the versions loads it.
  load_checkpoint-listed :
      (later : Repo)
      → later.checkpoint ≡ some (checkpoint_text (checkpoint_of versions))
      → load_checkpoint later ≡ ok (of_versions versions)
  unfolding load_checkpoint write_checkpoint
  load_checkpoint-listed later e =
      let fits = (list_committed_versions-newest repo versions listed).1 in
      rw (e, checkpoint_of-listed)
        (load_checkpoint-write_checkpoint (of_versions versions) repo fits
          (newest-All versions fits))

  -- When the log is readable and the versions are listed, recovery succeeds and reports their
  -- number and that of the temporary files; it removes these and changes nothing else but the
  -- checkpoint, which loads as the listed versions with the greatest of them, 0 for none, as the
  -- latest; and a second recovery finds no temporary file and changes nothing.
  pub recover-load_checkpoint :
      (records : List WalRecord)
      → read_all repo.wal ≡ ok records
      → ((recover repo).0
          ≡ ok (record {
            committed_versions = length versions;
            removed_tmp_files = length repo.tmp;
          }))
        × (load_checkpoint (recover repo).1 ≡ ok (of_versions versions))
        × ((recover repo).1 ≡ record repo { tmp = []; checkpoint = (recover repo).1.checkpoint })
        × (recover (recover repo).1 ≡ (
          ok (record { committed_versions = length versions; removed_tmp_files = 0 }),
          (recover repo).1,
        ))
  recover-load_checkpoint records readable =
      let one = recover-ok repo records versions readable listed in
      let again = recover-ok (recovered repo versions) records versions readable listed_again in
      (
        ap (λ r. r.0) one,
        load_checkpoint-listed (recover repo).1 (ap (λ r. r.1.checkpoint) one),
        rw one refl,
        rw one again,
      )
    where
      listed_again : list_committed_versions (recovered repo versions) ≡ ok versions
      listed_again = unfold list_committed_versions in listed

compact_records-IsRecord :
    (d : CheckpointData)
    → length (compact_text d) ≤ max_payload_size
    → All IsRecord (compact_records d)
compact_records-IsRecord d h = (
  record { valid_type = unfold is_valid_record_type in refl; fits = h },
  (record { valid_type = unfold is_valid_record_type in refl; fits = omega arith }, tt),
)

-- The records that compaction leaves in the log.
abbrev pub compacted : List ℕ → List WalRecord
compacted versions =
    record {
      type = checkpoint;
      payload =
          codes "latest="
          ++ (decimal (newest versions) ++ (codes "\nversions" ++ versions_text versions));
    }
    ∷ record { type = compact; payload = codes "compact" }
    ∷ []

module _ (repo : Repo) (versions : List ℕ) (listed : list_committed_versions repo ≡ ok versions)
    (fits : length (compact_text (of_versions versions)) ≤ max_payload_size) where
  compact_metadata-ok :
      (file : Bytes) × (compact_metadata repo ≡ (
        ok tt,
        record repo {
          checkpoint = some (checkpoint_text (checkpoint_of versions));
          wal = some file;
        },
      ))
      × (read_all (some file) ≡ ok (compacted versions))
  unfolding compact_metadata wal_replace_with compact_text
  compact_metadata-ok =
      let same = checkpoint_of-listed repo versions listed in
      let (file, e, r) =
        >>=-eq-ok (replace_with (compacted versions)) (λ f. read_all (some f))
          (read_all-replace_with (compacted versions)
            (compact_records-IsRecord (of_versions versions) fits)) in
      let written : replace_with (compact_records (checkpoint_of versions)) ≡ ok file =
        ap (λ (d : CheckpointData). replace_with (compact_records d)) same ∙ e in
      (file, rw (refresh_checkpoint-ok repo versions listed, written) refl, r)

  -- When the versions are listed and their text fits a record, compaction succeeds and changes
  -- nothing but the log and the checkpoint; the log then reads as two records, a checkpoint record
  -- that names the greatest version and the listed ones, and the compact record; the checkpoint
  -- loads as these versions; and a recovery afterwards succeeds with the same number of versions.
  pub compact_metadata-recover :
      ((compact_metadata repo).0 ≡ ok tt)
      × (read_all (compact_metadata repo).1.wal ≡ ok (compacted versions))
      × (load_checkpoint (compact_metadata repo).1 ≡ ok (of_versions versions))
      × ((compact_metadata repo).1 ≡ record repo {
        wal = (compact_metadata repo).1.wal;
        checkpoint = (compact_metadata repo).1.checkpoint;
      })
      × ((recover (compact_metadata repo).1).0
          ≡ ok (record {
            committed_versions = length versions;
            removed_tmp_files = length repo.tmp;
          }))
  compact_metadata-recover =
      let (file, e, r) = compact_metadata-ok in
      (
        ap (λ t. t.0) e,
        rw e r,
        load_checkpoint-listed repo versions listed (compact_metadata repo).1
            (ap (λ t. t.1.checkpoint) e),
        rw e refl,
        rw e (
            ap (λ t. t.0)
              (recover-ok (left file) (compacted versions) versions r (listed_again file))),
      )
    where
      left : Bytes → Repo
      left file = record repo {
        checkpoint = some (checkpoint_text (checkpoint_of versions));
        wal = some file;
      }

      listed_again : (file : Bytes) → list_committed_versions (left file) ≡ ok versions
      listed_again file = unfold list_committed_versions in listed
