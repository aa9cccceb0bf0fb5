-- ===== src/Cli/Options.antt =====
-- `parseOptions`, `option` and `parseVersion` of src/cli/backupctl_main.cpp; backup_client_main.cpp
-- and backup_server_main.cpp repeat the first two.
use cpp_data_protection_core.Base.{
  ℕ, ◌==◌, ◌≡◌, refl, ◌&&◌, Bool, true, false, not, none, some, List, [], ◌∷◌, Bytes, codes, null,
  All, if◌then◌else◌,
}
use cpp_data_protection_core.Common.Error.{
  Result, ok, err, ◌>>=◌, unexpected_argument, missing_argument_value, missing_required_argument,
}
use cpp_data_protection_core.Common.Map.{find, assign, lt_bytes}
use cpp_data_protection_core.Server.Fields.{Fields, stoull}

-- `key.rfind("--", 0) == 0`
unfoldable pub is_option : Bytes → Bool
is_option [] = false
is_option (c ∷ []) = false
is_option (c ∷ d ∷ rest) = (c == b'-') && (d == b'-')

-- The loop over the arguments; `out` holds the options that were read.
unfoldable pub parse_options : List Bytes → Fields → Result Fields
unfolding is_option
parse_options [] out = ok out
parse_options (key ∷ []) out =
    if not (is_option key) then err unexpected_argument else err missing_argument_value
parse_options (key ∷ value ∷ arguments) out =
    let rest = parse_options arguments (assign lt_bytes key value out) in
    if not (is_option key) then err unexpected_argument else rest

unfoldable pub option : Fields → Bytes → Bytes → Result Bytes
option opts key fallback = elim (find lt_bytes key opts) [
  | none ↦ if null fallback then err missing_required_argument else ok fallback
  | some value ↦ ok value
]

unfoldable pub parse_version : Fields → Result ℕ
unfolding option stoull
parse_version opts = do text ← option opts (codes "--version") []; stoull text

-- The arguments that give these options.
unfoldable pub arguments_of : List (Bytes × Bytes) → List Bytes
arguments_of [] = []
arguments_of ((key, value) ∷ options) = key ∷ value ∷ arguments_of options

-- The options by which these were assigned, in their order.
unfoldable pub assign_all : List (Bytes × Bytes) → Fields → Fields
assign_all [] out = out
assign_all ((key, value) ∷ options) out = assign_all options (assign lt_bytes key value out)

-- Pairs of an option and a value are read as the map of the options, where a later one replaces an
-- earlier one; values may look like options.
pub parse_options-arguments_of :
    (options : List (Bytes × Bytes)) (out : Fields)
    → All (λ (o : Bytes × Bytes). is_option o.0 ≡ true) options
    → parse_options (arguments_of options) out ≡ ok (assign_all options out)
unfolding parse_options arguments_of assign_all
parse_options-arguments_of [] out h = refl
parse_options-arguments_of ((key, value) ∷ options) out h =
    rw h.0 (parse_options-arguments_of options (assign lt_bytes key value out) h.1)

pub option-found :
    (opts : Fields) (key fallback value : Bytes)
    → find lt_bytes key opts ≡ some value
    → option opts key fallback ≡ ok value
unfolding option
option-found opts key fallback value e = rw (e, option) refl
