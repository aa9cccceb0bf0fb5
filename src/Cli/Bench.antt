-- ===== src/Cli/Bench.antt =====
-- `parseOptions`, `option` and `parseSize` of src/bench/backup_bench_main.cpp.
use cpp_data_protection_core.Base.{
  ℕ, ◌*◌, ◌%◌, ◌^◌, ◌==◌, ◌||◌, not, none, some, Option, List, [], ◌∷◌, Bytes, null, if◌then◌else◌,
}
use cpp_data_protection_core.Common.Error.{Result, ok, err, ◌>>=◌, invalid_bench_argument}
use cpp_data_protection_core.Common.Map.{find, assign, lt_bytes}
use cpp_data_protection_core.Server.Fields.{Fields, stoull}
use cpp_data_protection_core.Cli.Options.{is_option}

unfoldable pub parse_bench_options : List Bytes → Fields → Result Fields
unfolding is_option
parse_bench_options [] out = ok out
parse_bench_options (key ∷ []) out = err invalid_bench_argument
parse_bench_options (key ∷ value ∷ arguments) out =
    let rest = parse_bench_options arguments (assign lt_bytes key value out) in
    if not (is_option key) then err invalid_bench_argument else rest

unfoldable pub bench_option : Fields → Bytes → Bytes → Bytes
bench_option opts key fallback = elim (find lt_bytes key opts) [
  | none ↦ fallback
  | some value ↦ value
]

-- What the last character multiplies by, when it is a suffix.
unfoldable pub multiplier_of : ℕ → Option ℕ
multiplier_of suffix =
    if suffix == b'K' || suffix == b'k'
    then some 1024
    else if suffix == b'M' || suffix == b'm'
    then some (1024 * 1024)
    else if suffix == b'G' || suffix == b'g'
    then some (1024 * 1024 * 1024)
    else none

-- `number`, without the suffix that it ends in, and `multiplier`.
unfoldable pub split_suffix : Bytes → Bytes × ℕ
unfolding multiplier_of
split_suffix [] = ([], 1)
split_suffix (c ∷ []) = elim (multiplier_of c) [
  | none ↦ (c ∷ [], 1)
  | some multiplier ↦ ([], multiplier)
]
split_suffix (c ∷ d ∷ value) =
    let (number, multiplier) = split_suffix (d ∷ value) in (c ∷ number, multiplier)

unfoldable pub parse_size : Bytes → Result ℕ
unfolding split_suffix stoull
parse_size value =
    let (number, multiplier) = split_suffix value in
    if null value then ok 0 else stoull number >>= λ n. ok (n * multiplier % 2 ^ 64)
