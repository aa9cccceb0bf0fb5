-- ===== src/Wal/Record.antt =====
-- `WalRecordType`, `WalRecord`, `WalLog::encodeRecord` and `WalLog::decodeRecord`.
-- A record type is the number that the C++ enumeration carries, since the enumeration can hold
-- any 16-bit value and the code tests for it.
pub mod RoundTrip
pub mod Corruption
use cpp_data_protection_core.Base.{
  ℕ, ◌+◌, ◌*◌, Bool, not, ◌||◌, ◌==◌, ltb, [], ◌++◌, Bytes, length, drop,
}
use cpp_data_protection_core.Common.Error.{
  Result, ok, ◌>>=◌, ◌>>◌, throw_if, invalid_wal_record_type, wal_payload_too_large,
  wal_record_too_small, wal_magic_mismatch, wal_version_mismatch, wal_record_type_mismatch,
  wal_record_size_mismatch, wal_crc_mismatch,
}
use cpp_data_protection_core.Wal.Crc.{crc32}
use cpp_data_protection_core.Wal.Words.{put16, put32, get16, get32}

abbrev pub WalRecordType : Type 0
WalRecordType = ℕ

abbrev pub begin_backup : WalRecordType
begin_backup = 1

abbrev pub put_object : WalRecordType
put_object = 2

abbrev pub write_manifest : WalRecordType
write_manifest = 3

abbrev pub rename_manifest : WalRecordType
rename_manifest = 4

abbrev pub commit_backup : WalRecordType
commit_backup = 5

abbrev pub checkpoint : WalRecordType
checkpoint = 6

abbrev pub compact : WalRecordType
compact = 7

pub record WalRecord : Type 0 where
  pub type : WalRecordType
  pub payload : Bytes

abbrev pub wal_magic : ℕ
wal_magic = 0x44505741

abbrev pub wal_version : ℕ
wal_version = 1

abbrev pub header_size : ℕ
header_size = 16

abbrev pub max_payload_size : ℕ
max_payload_size = 8 * 1024 * 1024

unfoldable pub is_valid_record_type : ℕ → Bool
is_valid_record_type t =
    t == begin_backup
    || t == put_object
    || t == write_manifest
    || t == rename_manifest
    || t == commit_backup
    || t == checkpoint
    || t == compact

unfoldable pub encode_record : WalRecordType → Bytes → Result Bytes
encode_record type payload = do
  throw_if (not (is_valid_record_type type)) invalid_wal_record_type
  throw_if (ltb max_payload_size (length payload)) wal_payload_too_large
  let out = put32 [] wal_magic
  let out = put16 out wal_version
  let out = put16 out type
  let out = put32 out (length payload)
  let out = put32 out (crc32 payload)
  ok (out ++ payload)

unfoldable pub decode_record : Bytes → Result WalRecord
decode_record encoded = do
  throw_if (ltb (length encoded) header_size) wal_record_too_small
  let magic = get32 encoded 0
  let version = get16 encoded 4
  let type = get16 encoded 6
  let payload_size = get32 encoded 8
  let expected_crc = get32 encoded 12
  throw_if (not (magic == wal_magic)) wal_magic_mismatch
  throw_if (not (version == wal_version)) wal_version_mismatch
  throw_if (not (is_valid_record_type type)) wal_record_type_mismatch
  throw_if (ltb max_payload_size payload_size) wal_payload_too_large
  throw_if (not (length encoded == header_size + payload_size)) wal_record_size_mismatch
  let payload = drop header_size encoded
  throw_if (not (crc32 payload == expected_crc)) wal_crc_mismatch
  ok (record { type = type; payload = payload })
