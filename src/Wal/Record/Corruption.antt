-- ===== src/Wal/Record/Corruption.antt =====
-- A payload with one changed byte behind an unchanged header.
use cpp_data_protection_core.Base.{
  ℕ, ◌+◌, ◌≡◌, ◌≢◌, refl, ap, sym, ◌∙◌, arith, ◌∷◌, ◌++◌, Bytes, IsByte, IsBytes, length,
  length-append, take, drop,
}
use cpp_data_protection_core.Common.Error.{err, wal_crc_mismatch}
use cpp_data_protection_core.Wal.Crc.{crc32}
use cpp_data_protection_core.Wal.Crc.Laws.{crc32_one_byte}
use cpp_data_protection_core.Wal.Words.{get16, get32}
use cpp_data_protection_core.Wal.Record.{WalRecord, header_size, decode_record}
use cpp_data_protection_core.Wal.Record.RoundTrip.{
  IsRecord, frame, magic-frame, version-frame, type-frame, size-frame, crc-frame,
}

-- The header of a record with another payload behind it.
abbrev pub with_payload : WalRecord → Bytes → Bytes
with_payload r p = take header_size (frame r) ++ p

module _ (r : WalRecord) (h : IsRecord r) (p : Bytes) (same : length p ≡ length r.payload) where
  length-with_payload : length (with_payload r p) ≡ header_size + length r.payload
  unfolding frame
  length-with_payload = omega arith

  word-with_payload :
      (get32 (with_payload r p) 0 ≡ get32 (frame r) 0)
      × (get16 (with_payload r p) 4 ≡ get16 (frame r) 4)
      × (get16 (with_payload r p) 6 ≡ get16 (frame r) 6)
      × (get32 (with_payload r p) 8 ≡ get32 (frame r) 8)
      × (get32 (with_payload r p) 12 ≡ get32 (frame r) 12)
  unfolding frame get16 get32
  word-with_payload = (refl, refl, refl, refl, refl)

  drop-with_payload : drop header_size (with_payload r p) ≡ p
  unfolding frame
  drop-with_payload = refl

  decode_record-with_payload :
      crc32 p ≢ crc32 r.payload → decode_record (with_payload r p) ≡ err wal_crc_mismatch
  unfolding decode_record
  decode_record-with_payload ne =
      let w = word-with_payload in
      ground (
        arith,
        ne,
        length-with_payload,
        drop-with_payload,
        w.0,
        w.1,
        w.2,
        w.3,
        w.4,
        h.valid_type,
        h.fits,
        magic-frame r h,
        version-frame r h,
        type-frame r h,
        size-frame r h,
        crc-frame r h,
      )

-- Any one changed byte of the payload of a written record makes `decodeRecord` throw the checksum
-- error.
pub decode_record_one_byte :
    (r : WalRecord) (front back : Bytes) (a b : ℕ)
    → IsRecord r
    → r.payload ≡ front ++ a ∷ back
    → IsBytes front
    → IsBytes back
    → IsByte a
    → IsByte b
    → a ≢ b
    → decode_record (with_payload r (front ++ b ∷ back)) ≡ err wal_crc_mismatch
decode_record_one_byte r front back a b h e hf hk ha hb ne =
    decode_record-with_payload r h (front ++ b ∷ back) same differ
  where
    same : length (front ++ b ∷ back) ≡ length r.payload
    same =
        omega (arith, ap length e, length-append front (b ∷ back), length-append front (a ∷ back))

    differ : crc32 (front ++ b ∷ back) ≢ crc32 r.payload
    differ q = ne (crc32_one_byte front back a b hf hk ha hb (sym (q ∙ ap crc32 e)))
