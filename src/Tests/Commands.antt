-- ===== src/Tests/Commands.antt =====
-- The commands of backupctl and the sizes of the benchmark at concrete arguments.
use cpp_data_protection_core.Base.{◌≡◌, ◌↔◌, refl, arith, List, [], ◌∷◌, Bytes, codes}
use cpp_data_protection_core.Common.Error.{ok, err, missing_argument_value, unexpected_argument}
use cpp_data_protection_core.Common.Map.{find, assign, same, lt_bytes}
use cpp_data_protection_core.Common.Text.{digits_value, decimal}
use cpp_data_protection_core.Server.Fields.{Fields}
use cpp_data_protection_core.Engine.Check.{verify}
use cpp_data_protection_core.Cli.Options.{parse_options}
use cpp_data_protection_core.Cli.Bench.{parse_size}
use cpp_data_protection_core.Cli.Backupctl.{Host, run, exit_code}
use cpp_data_protection_core.Cli.Backupctl.Laws.{run-verify}
use cpp_data_protection_core.Tests.Repositories.{plain, filled}

abbrev host : Host
host = record {
  libs = plain;
  now = 7;
  scan = λ source mode. [];
  absolute = λ source. source;
  write_below = λ target f repo. repo;
}

abbrev arguments : List Bytes
arguments = codes "--repo" ∷ codes "r" ∷ codes "--version" ∷ codes "1" ∷ []

abbrev opts : Fields
opts = (codes "--repo", codes "r") ∷ (codes "--version", codes "1") ∷ []

arguments_read : parse_options arguments [] ≡ ok opts
unfolding parse_options assign lt_bytes
arguments_read = refl

value_missing : parse_options (codes "--repo" ∷ []) [] ≡ err missing_argument_value
unfolding parse_options
value_missing = refl

not_an_option : parse_options (codes "repo" ∷ codes "r" ∷ []) [] ≡ err unexpected_argument
unfolding parse_options
not_an_option = refl

megabytes : parse_size (codes "3M") ≡ ok 3145728
unfolding parse_size digits_value
megabytes = refl

run-verify_example :
    (exit_code (run host (codes "verify" ∷ arguments) filled).0 ≡ 0)
    ↔ (verify plain 1 filled ≡ ok tt)
run-verify_example =
    run-verify host arguments opts (codes "r") 1 filled arguments_read
      (unfold find same lt_bytes in refl) (unfold find same lt_bytes decimal in refl) (omega arith)
