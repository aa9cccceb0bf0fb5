-- ===== src/Wal/Log.antt =====
-- The file `metadata/wal.log`: the loops of `WalLog::readAll` and `WalLog::replaceWith`, and the
-- write of `WalLog::append`, on the bytes of the file.
pub mod Reads
pub mod Laws
use cpp_data_protection_core.Base.{
  ℕ, zero, suc, ◌+◌, ltb, Option, none, some, List, [], ◌∷◌, ◌++◌, Bytes, length, take, drop,
}
use cpp_data_protection_core.Common.Error.{
  Result, ok, err, ◌>>=◌, ◌>>◌, throw_if, out_of_fuel, wal_truncated_header, wal_payload_too_large,
  wal_truncated_payload,
}
use cpp_data_protection_core.Wal.Words.{get32}
use cpp_data_protection_core.Wal.Record.{
  WalRecordType, WalRecord, header_size, max_payload_size, encode_record, decode_record,
}

-- The list is what stands from `offset` on; an iteration takes at least a header.
unfoldable pub read_loop : ℕ → Bytes → Result (List WalRecord)
read_loop fuel [] = ok []
read_loop zero (b ∷ bs) = err out_of_fuel
read_loop (suc fuel) (b ∷ bs) = do
  let rest = b ∷ bs
  throw_if (ltb (length rest) header_size) wal_truncated_header
  let payload_size = get32 rest 8
  throw_if (ltb max_payload_size payload_size) wal_payload_too_large
  let record_size = header_size + payload_size
  throw_if (ltb (length rest) record_size) wal_truncated_payload
  record_read ← decode_record (take record_size rest)
  records ← read_loop fuel (drop record_size rest)
  ok (record_read ∷ records)

-- `readAll`: no file is no records.
unfoldable pub read_all : Option Bytes → Result (List WalRecord)
read_all none = ok []
read_all (some file) = read_loop (length file) file

-- The file after `append`; it is created when it is missing, and left alone by an error.
unfoldable pub append : WalRecordType → Bytes → Option Bytes → Result Bytes
append type payload none = encode_record type payload
append type payload (some file) = do encoded ← encode_record type payload; ok (file ++ encoded)

-- The loop of `replaceWith`, over the records that are left.
unfoldable pub replace_with : List WalRecord → Result Bytes
replace_with [] = ok []
replace_with (r ∷ records) = do
  encoded ← encode_record r.type r.payload
  file ← replace_with records
  ok (encoded ++ file)
