-- ===== src/Cli/Backupctl/Laws.antt =====
-- What src/cli/backupctl_main.cpp returns.
use cpp_data_protection_core.Base.{
  ℕ, ◌<◌, ◌^◌, ◌≡◌, ◌↔◌, ◌∙◌, refl, some, List, [], ◌∷◌, Bytes, codes, equal, arith,
}
use cpp_data_protection_core.Common.Error.{Error, injected_crash, Result, ok, err}
use cpp_data_protection_core.Common.Map.{find, lt_bytes}
use cpp_data_protection_core.Common.Text.{decimal}
use cpp_data_protection_core.Repo.{Repo}
use cpp_data_protection_core.Repo.Action.{pure, go_on}
use cpp_data_protection_core.Server.Fields.{Fields}
use cpp_data_protection_core.Client.Payload.Marker.{stoull-decimal}
use cpp_data_protection_core.Store.Compressor.{Libraries}
use cpp_data_protection_core.Engine.Check.{verify}
use cpp_data_protection_core.Cli.Options.{parse_options, option-found, parse_version}
use cpp_data_protection_core.Cli.Backupctl.{
  Host, verified, run, run_on_repo, dispatch, run_verify, exit_code,
}

run-verify_command :
    (host : Host) (arguments : List Bytes) (repo : Repo)
    → run host (codes "verify" ∷ arguments) repo
      ≡ go_on (parse_options arguments []) (run_on_repo host (codes "verify")) repo
unfolding run equal
run-verify_command host arguments repo = refl

exit_code-err : (libs : Libraries) (e : Error) → 0 < exit_code {libs = libs} (err e)
unfolding exit_code
exit_code-err libs e = elim e as (λ k. 0 < exit_code {libs = libs} (err k)) [
  | injected_crash ↦ omega arith
  | _ ↦ omega arith
]

verify_exit :
    (libs : Libraries) (done : Result (Unit {0})) (repo : Repo)
    → (exit_code {libs = libs} (go_on done (λ _. pure verified) repo).0 ≡ 0) ↔ (done ≡ ok tt)
unfolding exit_code
verify_exit libs (ok done) repo = (λ _. refl, λ _. refl)
verify_exit libs (err e) repo =
    (λ h. let positive = exit_code-err libs e in absurd (omega arith), λ h. absurd cc)

module _ (host : Host) (arguments : List Bytes) (opts : Fields) (path : Bytes) (version : ℕ)
    (repo : Repo) (parsed : parse_options arguments [] ≡ ok opts)
    (at_repo : find lt_bytes (codes "--repo") opts ≡ some path)
    (asked : find lt_bytes (codes "--version") opts ≡ some (decimal version))
    (fits : version < 2 ^ 64) where
  parse_version-decimal : parse_version opts ≡ ok version
  unfolding parse_version
  parse_version-decimal =
      rw (option-found opts (codes "--version") [] (decimal version) asked)
        (stoull-decimal version fits)

  on_repo : run host (codes "verify" ∷ arguments) repo ≡ dispatch host (codes "verify") opts repo
  unfolding run_on_repo
  on_repo =
      run-verify_command host arguments repo
      ∙ rw (parsed, option-found opts (codes "--repo") [] path at_repo) refl

  -- When the options of `backupctl verify` name a repository and a 64-bit version number, the
  -- program returns 0 exactly when `VerifyEngine::verify` accepts that version.
  pub run-verify :
      (exit_code (run host (codes "verify" ∷ arguments) repo).0 ≡ 0)
      ↔ (verify host.libs version repo ≡ ok tt)
  unfolding dispatch equal run_verify
  run-verify =
      rw (on_repo, parse_version-decimal)
        (verify_exit host.libs (verify host.libs version repo) repo)
