-- ===== src/Metadata/Fault.antt =====
-- src/metadata/FaultInjector.cpp. `fired_` is a part of the state; the environment variable
-- `DPC_FAULT_ABORT`, which makes the process abort in place of the exception, is not set.
use cpp_data_protection_core.Base.{
  ◌≡◌, refl, Bool, true, not, ◌||◌, Bytes, codes, equal, null, if◌then◌else◌,
}
use cpp_data_protection_core.Common.Error.{Result, ok, err, unknown_fault_stage, injected_crash}

pub data FaultStage : Type 0 where
  no_fault after_begin after_object_write after_manifest_write : FaultStage
  after_manifest_rename after_commit_marker : FaultStage

-- `FaultInjector::toString`.
abbrev pub to_string : FaultStage → Bytes
to_string no_fault = codes "none"
to_string after_begin = codes "after-begin"
to_string after_object_write = codes "after-object-write"
to_string after_manifest_write = codes "after-manifest-write"
to_string after_manifest_rename = codes "after-manifest-rename"
to_string after_commit_marker = codes "after-commit-marker"

-- `FaultInjector::parse`.
unfoldable pub parse_stage : Bytes → Result FaultStage
parse_stage value =
    if equal value (codes "none") || null value
    then ok no_fault
    else if equal value (codes "after-begin")
    then ok after_begin
    else if equal value (codes "after-object-write")
    then ok after_object_write
    else if equal value (codes "after-manifest-write")
    then ok after_manifest_write
    else if equal value (codes "after-manifest-rename")
    then ok after_manifest_rename
    else if equal value (codes "after-commit-marker")
    then ok after_commit_marker
    else err unknown_fault_stage

abbrev pub same_stage : FaultStage → FaultStage → Bool
same_stage a b = equal (to_string a) (to_string b)

pub record FaultInjector : Type 0 where
  pub stage : FaultStage
  pub fired : Bool

-- `FaultInjector::trigger`.
unfoldable pub trigger : FaultStage → FaultInjector → Result (Unit {0}) × FaultInjector
trigger at injector =
    if same_stage injector.stage no_fault || not (same_stage injector.stage at) || injector.fired
    then (ok tt, injector)
    else (err injected_crash, record injector { fired = true })

-- `FaultInjector::parse` of the name of a stage gives the stage.
pub parse_stage-to_string : (stage : FaultStage) → parse_stage (to_string stage) ≡ ok stage
unfolding parse_stage equal
parse_stage-to_string no_fault = refl
parse_stage-to_string after_begin = refl
parse_stage-to_string after_object_write = refl
parse_stage-to_string after_manifest_write = refl
parse_stage-to_string after_manifest_rename = refl
parse_stage-to_string after_commit_marker = refl
