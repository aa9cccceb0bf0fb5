-- ===== src/Metadata/Checkpoint.antt =====
-- src/metadata/Checkpoint.cpp: the text of `metadata/checkpoint.dat`.
pub mod Laws
use cpp_data_protection_core.Base.{
  ℕ, zero, suc, Bool, not, Option, none, some, List, [], ◌∷◌, ◌++◌, Bytes, codes, equal, length,
  if◌then◌else◌,
}
use cpp_data_protection_core.Common.Error.{
  Result, ok, err, ◌>>=◌, ◌>>◌, throw_if, checkpoint_header, checkpoint_latest_key,
  checkpoint_versions_key, out_of_fuel,
}
use cpp_data_protection_core.Common.Text.{decimal}
use cpp_data_protection_core.Common.Stream.{Stream, get_word, get_u64}
use cpp_data_protection_core.Repo.{Repo}
use cpp_data_protection_core.Repo.Action.{Action, modify}

pub record CheckpointData : Type 0 where
  pub latest_committed_version : ℕ
  pub committed_versions : List ℕ

abbrev pub no_checkpoint : CheckpointData
no_checkpoint = record { latest_committed_version = 0; committed_versions = [] }

unfoldable pub versions_text : List ℕ → Bytes
versions_text [] = codes "\n"
versions_text (version ∷ versions) = b' ' ∷ decimal version ++ versions_text versions

unfoldable pub checkpoint_text : CheckpointData → Bytes
unfolding versions_text
checkpoint_text data_written =
    codes "DPC_CHECKPOINT_V1\n"
    ++ (codes "latest_committed_version "
        ++ (decimal data_written.latest_committed_version
            ++ (codes "\ncommitted_versions" ++ versions_text data_written.committed_versions)))

unfoldable pub write_checkpoint : CheckpointData → Action (Unit {0})
write_checkpoint data_written =
    modify (λ repo. record repo { checkpoint = some (checkpoint_text data_written) })

-- The test of `while (in >> version)` on the stream behind the number.
abbrev pub push_back : ℕ → Stream → Result (List ℕ) → Result (List ℕ)
push_back version none later = ok []
push_back version (some rest) later = do versions ← later; ok (version ∷ versions)

-- The loop; a number takes at least one character.
unfoldable pub read_versions : ℕ → Stream → Result (List ℕ)
read_versions zero in_stream = err out_of_fuel
read_versions (suc fuel) in_stream =
    let got = get_u64 in_stream 0 in push_back got.0 got.1 (read_versions fuel got.1)

unfoldable pub parse_checkpoint : Bytes → Result CheckpointData
unfolding read_versions
parse_checkpoint text = do
  let (header, in1) = get_word [] (some text)
  throw_if (not (equal header (codes "DPC_CHECKPOINT_V1"))) checkpoint_header
  let (key, in2) = get_word [] in1
  let (latest, in3) = get_u64 in2 0
  throw_if (not (equal key (codes "latest_committed_version"))) checkpoint_latest_key
  let (key2, in4) = get_word key in3
  throw_if (not (equal key2 (codes "committed_versions"))) checkpoint_versions_key
  versions ← read_versions (suc (length text)) in4
  ok (record { latest_committed_version = latest; committed_versions = versions })

unfoldable pub load_checkpoint : Repo → Result CheckpointData
unfolding parse_checkpoint
load_checkpoint repo = elim repo.checkpoint [
  | none ↦ ok no_checkpoint
  | some text ↦ parse_checkpoint text
]
