-- ===== src/Tests/Wal.antt =====
-- The write-ahead log at concrete inputs.
use cpp_data_protection_core.Base.{
  ◌≡◌, ◌≢◌, refl, arith, none, some, [], ◌∷◌, ◌++◌, All, IsBytes, codes, take,
}
use cpp_data_protection_core.Common.Error.{
  ok, err, ◌>>=◌, wal_crc_mismatch, wal_truncated_payload, out_of_fuel,
}
use cpp_data_protection_core.Wal.Words.{put16, put32}
use cpp_data_protection_core.Wal.Crc.{crc_bit, crc_rounds, crc_loop, crc32}
use cpp_data_protection_core.Common.Hex.{all_of}
use cpp_data_protection_core.Common.Hex.Laws.{all_of-IsBytes}
use cpp_data_protection_core.Wal.Record.{
  WalRecord, begin_backup, compact, decode_record, is_valid_record_type,
}
use cpp_data_protection_core.Wal.Record.RoundTrip.{IsRecord, frame, length-frame}
use cpp_data_protection_core.Wal.Record.Corruption.{with_payload, decode_record_one_byte}
use cpp_data_protection_core.Wal.Log.{read_all, append, replace_with}
use cpp_data_protection_core.Wal.Log.Reads.{frames}
use cpp_data_protection_core.Wal.Log.Laws.{
  read_all-frames, read_all-append, read_all-replace_with, read_all_torn, read_all_sound,
  read_all_total,
}

abbrev begin : WalRecord
begin = record { type = begin_backup; payload = codes "version=1\n" }

abbrev last : WalRecord
last = record { type = compact; payload = codes "compact" }

begin-IsRecord : IsRecord begin
unfolding is_valid_record_type
begin-IsRecord = record { valid_type = refl; fits = omega arith }

last-IsRecord : IsRecord last
unfolding is_valid_record_type
last-IsRecord = record { valid_type = refl; fits = omega arith }

last-frame-IsBytes : IsBytes (frame last)
unfolding all_of frame put16 put32 crc32 crc_loop crc_rounds crc_bit
last-frame-IsBytes = all_of-IsBytes (frame last) refl

decode_record_one_byte_example :
    decode_record (with_payload last (codes "cOmpact")) ≡ err wal_crc_mismatch
decode_record_one_byte_example =
    decode_record_one_byte last (codes "c") (codes "mpact") 111 79 last-IsRecord refl
      (omega arith, tt) (all_of-IsBytes (codes "mpact") (unfold all_of in refl)) (omega arith)
      (omega arith) (λ e. absurd (omega arith))

read_all-replace_with_example :
    (do file ← replace_with (begin ∷ last ∷ []); read_all (some file)) ≡ ok (begin ∷ last ∷ [])
read_all-replace_with_example =
    read_all-replace_with (begin ∷ last ∷ []) (begin-IsRecord, (last-IsRecord, tt))

read_all-append_example :
    (do file ← append begin_backup (codes "version=1\n") none; read_all (some file))
    ≡ ok (begin ∷ [])
read_all-append_example = read_all-append none [] begin tt (unfold read_all in refl) begin-IsRecord

read_all_torn_example :
    read_all (some (frames (begin ∷ []) ++ take 20 (frame last))) ≡ err wal_truncated_payload
read_all_torn_example =
    read_all_torn (begin ∷ []) last 20 (begin-IsRecord, tt) last-IsRecord (omega arith)
      (omega (arith, length-frame last last-IsRecord))

read_all_sound_example : (frame last ≡ frames (last ∷ [])) × All IsRecord (last ∷ [])
unfolding frame
read_all_sound_example =
    read_all_sound (frame last) (last ∷ []) last-frame-IsBytes
      (read_all-frames (last ∷ []) (last-IsRecord, tt))

read_all_total_example : read_all (some (codes "DPWA")) ≢ err out_of_fuel
read_all_total_example = read_all_total (some (codes "DPWA"))
