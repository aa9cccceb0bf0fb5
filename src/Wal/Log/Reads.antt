-- ===== src/Wal/Log/Reads.antt =====
-- What `readAll` finds in a log that was written record by record, whole or torn.
use cpp_data_protection_core.Base.{
  ℕ, zero, suc, ◌+◌, ◌<◌, ◌≤◌, ◌≡◌, refl, ap, ◌∙◌, arith, inl, inr, List, [], ◌∷◌, ◌++◌,
  append_assoc, Bytes, length, length-append, take, drop, take-append, drop-append, All, true,
  false, ltb, not_ltb, lt→ltb, ltb→lt, not_ltb→le, Bool-cases, get_or-take, length-take_le,
  if◌then◌else◌,
}
use cpp_data_protection_core.Common.Error.{
  Result, ok, err, ◌>>=◌, >>=-eq-ok, Error, wal_truncated_header, wal_truncated_payload,
}
use cpp_data_protection_core.Wal.Words.{get32}
use cpp_data_protection_core.Wal.Record.{WalRecord, header_size, max_payload_size, decode_record}
use cpp_data_protection_core.Wal.Record.RoundTrip.{
  IsRecord, frame, decode_record-frame, length-frame, size-frame,
}
use cpp_data_protection_core.Wal.Log.{read_loop}

-- The bytes of records, one after the other.
abbrev pub frames : List WalRecord → Bytes
frames [] = []
frames (r ∷ rs) = frame r ++ frames rs

-- The size field of a record lies in its first bytes.
size_in_front : (r : WalRecord) (more : Bytes) → get32 (frame r ++ more) 8 ≡ get32 (frame r) 8
unfolding frame get32
size_in_front r more = refl

-- One iteration, by what it finds.
abbrev iteration : ℕ → ℕ → Bytes → Result (List WalRecord)
iteration fuel n d = do
  r ← decode_record (take n d)
  records ← read_loop fuel (drop n d)
  ok (r ∷ records)

read_loop_step :
    (fuel : ℕ) (d : Bytes)
    → ltb (length d) header_size ≡ false
    → ltb max_payload_size (get32 d 8) ≡ false
    → ltb (length d) (header_size + get32 d 8) ≡ false
    → read_loop (suc fuel) d ≡ iteration fuel (header_size + get32 d 8) d
unfolding read_loop
read_loop_step fuel [] p q r = cc
read_loop_step fuel (b ∷ bs) p q r = rw (p, q, r)

read_loop_torn :
    (fuel : ℕ) (d : Bytes)
    → ltb (length d) header_size ≡ false
    → ltb max_payload_size (get32 d 8) ≡ false
    → ltb (length d) (header_size + get32 d 8) ≡ true
    → read_loop (suc fuel) d ≡ err wal_truncated_payload
unfolding read_loop
read_loop_torn fuel [] p q r = cc
read_loop_torn fuel (b ∷ bs) p q r = rw (p, q, r)

read_loop_short :
    (fuel : ℕ) (b : ℕ) (bs : Bytes)
    → length (b ∷ bs) < header_size
    → read_loop (suc fuel) (b ∷ bs) ≡ err wal_truncated_header
unfolding read_loop
read_loop_short fuel b bs h = ground arith

-- One iteration on a record that is whole.
read_loop-frame :
    (fuel : ℕ) (r : WalRecord) (more : Bytes)
    → IsRecord r
    → read_loop (suc fuel) (frame r ++ more) ≡ (do records ← read_loop fuel more; ok (r ∷ records))
read_loop-frame fuel r more h =
    let size = size_in_front r more ∙ size-frame r h in
    let long = length-append (frame r) more ∙ ap (λ (t : ℕ). t + length more) (length-frame r h) in
    read_loop_step fuel (frame r ++ more) (not_ltb _ _ (omega (arith, long)))
      (rw size (not_ltb _ _ h.fits)) (not_ltb _ _ (omega (arith, long, size)))
    ∙ rw (size, ← length-frame r h) (rw (take-append, drop-append) (rw (decode_record-frame r h)))

pub read_loop-frames :
    (rs : List WalRecord) (fuel : ℕ) (more : Bytes)
    → All IsRecord rs
    → length (frames rs) + length more ≤ fuel
    → (left : ℕ) × (length more ≤ left)
      × (read_loop fuel (frames rs ++ more)
          ≡ (do records ← read_loop left more; ok (rs ++ records)))
read_loop-frames [] fuel more h f = (fuel, omega arith, same (read_loop fuel more))
  where
    same : (r : Result (List WalRecord)) → r ≡ (do records ← r; ok ([] ++ records))
    same (ok a) = refl
    same (err e) = refl
read_loop-frames (r ∷ rs) zero more (hr, hrs) f =
    absurd (omega (arith, length-append (frame r) (frames rs), length-frame r hr))
read_loop-frames (r ∷ rs) (suc fuel) more (hr, hrs) f =
    let (left, enough, rest) =
      read_loop-frames rs fuel more hrs
        (omega (arith, length-append (frame r) (frames rs), length-frame r hr)) in
    (
      left,
      enough,
      ap (read_loop (suc fuel)) (append_assoc (frame r) (frames rs) more)
          ∙ read_loop-frame fuel r (frames rs ++ more) hr
          ∙ rw rest (join (read_loop left more)),
    )
  where
    join :
        (m : Result (List WalRecord))
        → (do records ← (do rest ← m; ok (rs ++ rest)); ok (r ∷ records))
          ≡ (do records ← m; ok (r ∷ (rs ++ records)))
    join (ok a) = refl
    join (err e) = refl

-- An iteration that succeeds has read a record and gone on behind it.
pub record Iterated (fuel : ℕ) (d : Bytes) (rs : List WalRecord) : Type 0 where
  pub size : ℕ
  pub first : WalRecord
  pub others : List WalRecord
  pub decodes : decode_record (take size d) ≡ ok first
  pub reads : read_loop fuel (drop size d) ≡ ok others
  pub whole : rs ≡ first ∷ others

pub iterated :
    (fuel b : ℕ) (bs : Bytes) (rs : List WalRecord)
    → read_loop (suc fuel) (b ∷ bs) ≡ ok rs
    → Iterated fuel (b ∷ bs) rs
unfolding read_loop
iterated fuel b bs rs h =
    let d = b ∷ bs in
    let size : ℕ = header_size + get32 d 8 in
    let body : iteration fuel size d ≡ ok rs = ground arith in
    let (r, decodes, later) = >>=-eq-ok (decode_record (take size d)) _ body in
    let (others, reads, last) = >>=-eq-ok (read_loop fuel (drop size d)) _ later in
    record {
      size = size;
      first = r;
      others = others;
      decodes = decodes;
      reads = reads;
      whole = cc last;
    }

-- A proper part of a record at the end of the file is refused, by where it is cut.
abbrev pub torn_error : ℕ → Error
torn_error n = if ltb n header_size then wal_truncated_header else wal_truncated_payload

size_in_prefix : (n : ℕ) (d : Bytes) → header_size ≤ n → get32 (take n d) 8 ≡ get32 d 8
unfolding get32
size_in_prefix n d h = simp (
  get_or-take n 8 d 0 (omega arith),
  get_or-take n 9 d 0 (omega arith),
  get_or-take n 10 d 0 (omega arith),
  get_or-take n 11 d 0 (omega arith),
)

nonempty : (n : ℕ) (r : WalRecord) → 0 < n → (b : ℕ) × (bs : Bytes) × (take n (frame r) ≡ b ∷ bs)
unfolding frame
nonempty zero r h = absurd (omega arith)
nonempty (suc n) r h = (_, _, refl)

pub read_loop_prefix :
    (fuel : ℕ) (r : WalRecord) (n : ℕ)
    → IsRecord r
    → 0 < n
    → n < length (frame r)
    → read_loop (suc fuel) (take n (frame r)) ≡ err (torn_error n)
read_loop_prefix fuel r n h p q = elim (Bool-cases (ltb n header_size)) [
  | inl short ↦
      let (b, bs, e) = nonempty n r p in
      rw (short, e) (read_loop_short fuel b bs (omega (arith, ltb→lt n 16 short, cut, ap length e)))
  | inr long ↦
      let size = size_in_prefix n (frame r) (not_ltb→le n 16 long) ∙ size-frame r h in
      rw long (
        read_loop_torn fuel (take n (frame r)) (rw cut long) (rw size (not_ltb _ _ h.fits))
          (rw (size, cut) (lt→ltb _ _ (omega (arith, length-frame r h)))))
]
  where
    cut : length (take n (frame r)) ≡ n
    cut = length-take_le n (frame r) (omega arith)
