-- ===== src/Server/Fields.antt =====
-- `parseTextFields`, `parseU64` and `field` of src/network/BackupServer.cpp.
use cpp_data_protection_core.Base.{
  ℕ, ◌-◌, ◌^◌, ◌%◌, ltb, not, none, some, List, [], ◌∷◌, Bytes, equal, null, if◌then◌else◌,
}
use cpp_data_protection_core.Common.Error.{
  Result, ok, err, payload_header, missing_payload_field, invalid_argument, out_of_range,
}
use cpp_data_protection_core.Common.Text.{words, is_digit, digits_value}
use cpp_data_protection_core.Common.Stream.{skip_spaces, span, sign}
use cpp_data_protection_core.Common.Map.{find, assign, lt_bytes}

abbrev pub Fields : Type 0
Fields = List (Bytes × Bytes)

-- The loop `while (in >> key >> value)`: a key without a value ends it.
unfoldable pub fields_of : List Bytes → Fields → Fields
fields_of [] fields = fields
fields_of (key ∷ []) fields = fields
fields_of (key ∷ value ∷ ws) fields = fields_of ws (assign lt_bytes key value fields)

-- A text without a word leaves `header` empty, and no expected header is.
unfoldable pub fields_behind : List Bytes → Bytes → Result Fields
unfolding fields_of
fields_behind [] expected_header = err payload_header
fields_behind (header ∷ ws) expected_header =
    if not (equal header expected_header) then err payload_header else ok (fields_of ws [])

unfoldable pub parse_text_fields : Bytes → Bytes → Result Fields
unfolding fields_behind
parse_text_fields text expected_header = fields_behind (words text) expected_header

-- `std::stoull`.
unfoldable pub stoull : Bytes → Result ℕ
unfolding skip_spaces span sign
stoull text =
    let (negative, signed) = sign (skip_spaces text) in
    let (digits, rest) = span is_digit signed in
    let n = digits_value 0 digits in
    if null digits
    then err invalid_argument
    else if ltb (2 ^ 64 - 1) n
    then err out_of_range
    else ok (if negative then (2 ^ 64 - n) % 2 ^ 64 else n)

unfoldable pub field : Fields → Bytes → Result Bytes
field fields key = elim (find lt_bytes key fields) [
  | none ↦ err missing_payload_field
  | some value ↦ ok value
]

unfoldable pub parse_u64 : Fields → Bytes → Result ℕ
unfolding stoull
parse_u64 fields key = elim (find lt_bytes key fields) [
  | none ↦ err missing_payload_field
  | some value ↦ stoull value
]
