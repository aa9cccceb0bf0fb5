-- ===== src/Cli/Backupctl.antt =====
-- `main` of src/cli/backupctl_main.cpp, on the repository that `--repo` names. What a command prints at
-- its end is a value; what it had printed before an exception is left out.
pub mod Laws
use cpp_data_protection_core.Base.{
  ℕ, ◌||◌, false, List, [], ◌∷◌, Bytes, codes, equal, if◌then◌else◌,
}
use cpp_data_protection_core.Common.Error.{Error, Result, ok, err, injected_crash}
use cpp_data_protection_core.Common.Types.{
  Manifest, ChunkingMode, BackupResult, chunking_mode_from_string,
}
use cpp_data_protection_core.Repo.{Repo}
use cpp_data_protection_core.Repo.Action.{Action, ◌>>=◌, ◌>>◌, query, lift, pure}
use cpp_data_protection_core.Server.Fields.{Fields}
use cpp_data_protection_core.Manifest.Versions.{back_or}
use cpp_data_protection_core.Metadata.Fault.{FaultInjector, parse_stage}
use cpp_data_protection_core.Metadata.Recovery.{
  RecoveryReport, recover, refresh_checkpoint, compact_metadata,
}
use cpp_data_protection_core.Store.Compressor.{Libraries}
use cpp_data_protection_core.Engine.Backup.{SourceFile, create}
use cpp_data_protection_core.Engine.Check.{RestoredFile, verify}
use cpp_data_protection_core.Engine.Restore.{restore}
use cpp_data_protection_core.Cli.Options.{parse_options, option, parse_version}
use cpp_data_protection_core.Cli.Versions.{Statistics, list_manifests, print_stats}

pub data Reply (libs : Libraries) : Type 0 where
  created : BackupResult → Reply libs
  listed : List Manifest → Reply libs
  restored : List (RestoredFile libs) → Reply libs
  verified : Reply libs
  statistics : Statistics → Reply libs
  recovered : RecoveryReport → Reply libs
  checkpointed : ℕ → Reply libs
  compacted : Reply libs
  -- the usage, asked for or because the command is not known
  help wrong_usage : Reply libs

-- What the program takes from its surroundings: the libraries, the clock, and the files below a
-- directory that can be scanned, with the chunks that the chunker of the mode makes of them.
pub record Host : Type 0 where
  pub libs : Libraries
  pub now : ℕ
  pub scan : Bytes → ChunkingMode → List SourceFile
  pub absolute : Bytes → Bytes
  -- What the writes of a restored file below a target do to the repository: nothing, unless the target
  -- lies inside it.
  pub write_below : Bytes → RestoredFile libs → Repo → Repo

module _ (host : Host) where
  unfoldable pub run_create : Fields → Action (Reply host.libs)
  unfolding option
  run_create opts = do
    chunking ← lift (option opts (codes "--chunking") (codes "fixed"))
    stage_text ← lift (option opts (codes "--fault-stage") (codes "none"))
    stage ← lift (parse_stage stage_text)
    source ← lift (option opts (codes "--source") [])
    _ ← lift (option opts (codes "--repo") [])
    let mode : ChunkingMode = chunking_mode_from_string chunking
    result ←
        create host.libs (record { stage = stage; fired = false }) (host.scan source mode) host.now
          (host.absolute source) mode
    pure (created result)

  unfoldable pub run_restore : Fields → Action (Reply host.libs)
  unfolding option parse_version
  run_restore opts = do
    version ← lift (parse_version opts)
    target ← lift (option opts (codes "--target") [])
    files ← restore host.libs (host.write_below target) version
    pure (restored files)

  unfoldable pub run_verify : Fields → Action (Reply host.libs)
  unfolding parse_version
  run_verify opts = do
    version ← lift (parse_version opts)
    query (verify host.libs version)
    pure verified

  unfoldable pub run_list : Action (Reply host.libs)
  run_list = do manifests ← query list_manifests; pure (listed manifests)

  unfoldable pub run_stats : Action (Reply host.libs)
  run_stats = do printed ← query print_stats; pure (statistics printed)

  unfoldable pub run_recover : Action (Reply host.libs)
  run_recover = do report ← recover; pure (recovered report)

  unfoldable pub run_checkpoint : Action (Reply host.libs)
  run_checkpoint = do versions ← refresh_checkpoint; pure (checkpointed (back_or 0 versions))

  unfoldable pub run_compact : Action (Reply host.libs)
  run_compact = do compact_metadata; pure compacted

  -- The commands behind `create`.
  unfoldable pub dispatch : Bytes → Fields → Action (Reply host.libs)
  unfolding run_list run_restore run_verify run_stats run_recover run_checkpoint run_compact
  dispatch command opts =
      if equal command (codes "list")
      then run_list
      else if equal command (codes "restore")
      then run_restore opts
      else if equal command (codes "verify")
      then run_verify opts
      else if equal command (codes "stats")
      then run_stats
      else if equal command (codes "recover")
      then run_recover
      else if equal command (codes "checkpoint")
      then run_checkpoint
      else if equal command (codes "compact")
      then run_compact
      else pure wrong_usage

  -- They need `--repo` whatever they are.
  unfoldable pub run_on_repo : Bytes → Fields → Action (Reply host.libs)
  unfolding dispatch option
  run_on_repo command opts = do _ ← lift (option opts (codes "--repo") []); dispatch command opts

  -- The body of the `try` block, on the arguments behind the program's name.
  unfoldable pub run : List Bytes → Action (Reply host.libs)
  unfolding run_create run_on_repo parse_options
  run [] = pure wrong_usage
  run (command ∷ arguments) =
      if equal command (codes "--help") || equal command (codes "-h")
      then pure help
      else lift (parse_options arguments []) >>= λ opts.
          if equal command (codes "create") then run_create opts else run_on_repo command opts

-- What `main` returns.
unfoldable pub exit_code : {libs : Libraries} → Result (Reply libs) → ℕ
exit_code (ok wrong_usage) = 2
exit_code (ok (created result)) = 0
exit_code (ok (listed manifests)) = 0
exit_code (ok (restored files)) = 0
exit_code (ok verified) = 0
exit_code (ok (statistics printed)) = 0
exit_code (ok (recovered report)) = 0
exit_code (ok (checkpointed latest)) = 0
exit_code (ok compacted) = 0
exit_code (ok help) = 0
exit_code (err e) = elim e [ injected_crash ↦ 86 | _ ↦ 1 ]
