-- ===== src/Wal/Record/RoundTrip.antt =====
-- `decodeRecord` inverts `encodeRecord`, in both directions.
use cpp_data_protection_core.Base.{
  ℕ, ◌+◌, ◌^◌, ◌<◌, ◌≤◌, ◌≡◌, refl, ap, ◌∙◌, arith, true, [], ◌∷◌, ◌++◌, Bytes, IsByte, IsBytes,
  length, drop, length-drop, subst,
}
use cpp_data_protection_core.Common.Error.{ok, ◌>>=◌}
use cpp_data_protection_core.Wal.Crc.{crc32}
use cpp_data_protection_core.Wal.Crc.Laws.{crc32-lt}
use cpp_data_protection_core.Wal.Words.{
  put16, put32, get16, get32, word16, word32, word16_sum, word32_sum, word16_bytes, word32_bytes,
}
use cpp_data_protection_core.Wal.Record.{
  WalRecord, wal_magic, wal_version, header_size, max_payload_size, is_valid_record_type,
  encode_record, decode_record,
}

-- What `encodeRecord` accepts.
pub record IsRecord (r : WalRecord) : Type 0 where
  pub valid_type : is_valid_record_type r.type ≡ true
  pub fits : length r.payload ≤ max_payload_size

-- The record's bytes, field by field.
unfoldable pub frame : WalRecord → Bytes
unfolding put16 put32
frame r =
    put32 (put32 (put16 (put16 (put32 [] wal_magic) wal_version) r.type) (length r.payload))
      (crc32 r.payload)
    ++ r.payload

pub encode_record-frame :
    (r : WalRecord) → IsRecord r → encode_record r.type r.payload ≡ ok (frame r)
unfolding encode_record frame
encode_record-frame r h = ground arith

valid_type-lt : (t : ℕ) → is_valid_record_type t ≡ true → t < 2 ^ 16
unfolding is_valid_record_type
valid_type-lt t h = ground arith

-- What each read of `decodeRecord` finds in a record's bytes.
module _ (r : WalRecord) (h : IsRecord r) where
  pub magic-frame : get32 (frame r) 0 ≡ wal_magic
  unfolding frame get32 word32
  magic-frame = refl

  pub version-frame : get16 (frame r) 4 ≡ wal_version
  unfolding frame get16 word16
  version-frame = refl

  pub type-frame : get16 (frame r) 6 ≡ r.type
  unfolding frame get16
  type-frame = word16_bytes r.type (valid_type-lt r.type h.valid_type)

  pub size-frame : get32 (frame r) 8 ≡ length r.payload
  unfolding frame get32
  size-frame = word32_bytes (length r.payload) (omega arith)

  pub crc-frame : get32 (frame r) 12 ≡ crc32 r.payload
  unfolding frame get32
  crc-frame = word32_bytes (crc32 r.payload) (crc32-lt r.payload)

  pub length-frame : length (frame r) ≡ header_size + length r.payload
  unfolding frame
  length-frame = omega arith

  drop-frame : drop header_size (frame r) ≡ r.payload
  unfolding frame
  drop-frame = refl

  pub decode_record-frame : decode_record (frame r) ≡ ok r
  unfolding decode_record
  decode_record-frame = ground (
    arith, magic-frame, version-frame, type-frame, size-frame, crc-frame, length-frame, drop-frame,
    h.valid_type, h.fits,
  )

-- Any record that `encodeRecord` accepts is read back by `decodeRecord`.
pub decode_record-encode_record :
    (r : WalRecord) → IsRecord r → (encode_record r.type r.payload >>= decode_record) ≡ ok r
decode_record-encode_record r h = rw (encode_record-frame r h) (decode_record-frame r h)

bytes_word16 : (a b : ℕ) → IsByte a → IsByte b → put16 [] (word16 a b) ≡ a ∷ b ∷ []
unfolding put16
bytes_word16 a b ha hb = rw (word16_sum a b ha hb) (ground arith)

bytes_word32 :
    (a b c d : ℕ)
    → IsByte a
    → IsByte b
    → IsByte c
    → IsByte d
    → put32 [] (word32 a b c d) ≡ a ∷ b ∷ c ∷ d ∷ []
unfolding put32
bytes_word32 a b c d ha hb hc hd = rw (word32_sum a b c d ha hb hc hd) (ground arith)

-- What `decodeRecord` has tested when it returns a record.
record Accepted (d : Bytes) (r : WalRecord) : Type 0 where
  long : header_size ≤ length d
  magic : get32 d 0 ≡ wal_magic
  version : get16 d 4 ≡ wal_version
  valid_type : is_valid_record_type (get16 d 6) ≡ true
  fits : get32 d 8 ≤ max_payload_size
  size : length d ≡ header_size + get32 d 8
  crc : crc32 (drop header_size d) ≡ get32 d 12
  is_record : record { type = get16 d 6; payload = drop header_size d } ≡ r

accepted : (d : Bytes) (r : WalRecord) → decode_record d ≡ ok r → Accepted d r
unfolding decode_record
accepted d r h = ground arith

-- A frame from its five words.
assemble : ℕ → ℕ → ℕ → ℕ → ℕ → Bytes → Bytes
assemble m v t n c rest =
    put32 [] m ++ (put16 [] v ++ (put16 [] t ++ (put32 [] n ++ (put32 [] c ++ rest))))

frame-assemble :
    (r : WalRecord)
    → frame r ≡ assemble wal_magic wal_version r.type (length r.payload) (crc32 r.payload) r.payload
unfolding frame assemble
frame-assemble r = refl

assemble_words :
    (a b c d e f g h i j k l m n o p : ℕ) (rest : Bytes)
    → IsBytes (a ∷ b ∷ c ∷ d ∷ e ∷ f ∷ g ∷ h ∷ i ∷ j ∷ k ∷ l ∷ m ∷ n ∷ o ∷ p ∷ rest)
    → assemble (word32 a b c d) (word16 e f) (word16 g h) (word32 i j k l) (word32 m n o p) rest
      ≡ a ∷ b ∷ c ∷ d ∷ e ∷ f ∷ g ∷ h ∷ i ∷ j ∷ k ∷ l ∷ m ∷ n ∷ o ∷ p ∷ rest
unfolding assemble
assemble_words a b c d e f g h i j k l m n o p rest hb =
    let h4 = hb.1.1.1.1 in
    let h6 = h4.1.1 in
    let h8 = h4.1.1.1.1 in
    let h12 = h8.1.1.1.1 in
    rw (
      bytes_word32 a b c d hb.0 hb.1.0 hb.1.1.0 hb.1.1.1.0,
      bytes_word16 e f h4.0 h4.1.0,
      bytes_word16 g h h6.0 h6.1.0,
      bytes_word32 i j k l h8.0 h8.1.0 h8.1.1.0 h8.1.1.1.0,
      bytes_word32 m n o p h12.0 h12.1.0 h12.1.1.0 h12.1.1.1.0,
    )

Accepted-frame : (d : Bytes) (r : WalRecord) → IsBytes d → Accepted d r → frame r ≡ d
unfolding get16 get32
Accepted-frame (a ∷ b ∷ c ∷ d ∷ e ∷ f ∷ g ∷ h ∷ i ∷ j ∷ k ∷ l ∷ m ∷ n ∷ o ∷ p ∷ rest) r hb acc =
    cc (
      frame-assemble r,
      acc.magic,
      acc.version,
      acc.crc,
      acc.is_record,
      payload_size,
      assemble_words a b c d e f g h i j k l m n o p rest hb,
    )
  where
    payload_size : length rest ≡ word32 i j k l
    payload_size = omega (arith, acc.size)
Accepted-frame _ r hb acc = absurd (omega (arith, acc.long))

Accepted-IsRecord : (d : Bytes) (r : WalRecord) → Accepted d r → IsRecord r
Accepted-IsRecord d r acc = subst IsRecord acc.is_record (record {
  valid_type = acc.valid_type;
  fits = omega (arith, acc.size, acc.fits, length-drop header_size d);
})

-- Whatever bytes `decodeRecord` accepts are the ones that `encodeRecord` writes for the record
-- that it returns.
pub encode_record-decode_record :
    (d : Bytes) (r : WalRecord)
    → IsBytes d
    → decode_record d ≡ ok r
    → encode_record r.type r.payload ≡ ok d
encode_record-decode_record d r hb h =
    let acc = accepted d r h in
    encode_record-frame r (Accepted-IsRecord d r acc) ∙ ap ok (Accepted-frame d r hb acc)

-- A record that is decoded from bytes is one that `encodeRecord` accepts, and those bytes are its
-- frame.
pub decode_record-ok :
    (d : Bytes) (r : WalRecord) → IsBytes d → decode_record d ≡ ok r → IsRecord r × (frame r ≡ d)
decode_record-ok d r hb h =
    let acc = accepted d r h in (Accepted-IsRecord d r acc, Accepted-frame d r hb acc)
