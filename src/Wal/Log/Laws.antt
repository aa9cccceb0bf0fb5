-- ===== src/Wal/Log/Laws.antt =====
-- The log as a whole: what is written is read back, a torn tail is noticed, and nothing but what
-- the code writes is accepted.
use cpp_data_protection_core.Base.{
  ℕ, zero, suc, ◌+◌, ◌<◌, ◌≤◌, ◌≡◌, ◌≢◌, refl, ap, sym, ◌∙◌, arith, Option, none, some, List, [],
  ◌∷◌, ◌++◌, append_assoc, append-nil, Bytes, IsBytes, length, length-append, take, drop, All,
  All-drop, All-take, All-append, take-append-drop, length-drop, IsByte, subst, length-take_le,
}
use cpp_data_protection_core.Common.Error.{ok, err, ◌>>=◌, out_of_fuel}
use cpp_data_protection_core.Wal.Words.{get32}
use cpp_data_protection_core.Wal.Record.{WalRecord, header_size, decode_record}
use cpp_data_protection_core.Wal.Record.RoundTrip.{
  IsRecord, frame, encode_record-frame, decode_record-ok,
}
use cpp_data_protection_core.Wal.Log.{read_loop, read_all, append, replace_with}
use cpp_data_protection_core.Wal.Log.Reads.{
  frames, read_loop-frames, iterated, read_loop_prefix, torn_error,
}

pub read_all-frames : (rs : List WalRecord) → All IsRecord rs → read_all (some (frames rs)) ≡ ok rs
unfolding read_all
read_all-frames rs h =
    let (left, enough, read) = read_loop-frames rs (length (frames rs)) [] h (omega arith) in
    ap (read_loop (length (frames rs))) (sym (append-nil (frames rs)))
    ∙ read
    ∙ unfold read_loop in ap ok (append-nil rs)

replace_with-frames : (rs : List WalRecord) → All IsRecord rs → replace_with rs ≡ ok (frames rs)
unfolding replace_with
replace_with-frames [] h = refl
replace_with-frames (r ∷ rs) (hr, hrs) =
    rw (encode_record-frame r hr) (rw (replace_with-frames rs hrs))

-- `replaceWith` of valid records followed by `readAll` gives the records that were written, in
-- order.
pub read_all-replace_with :
    (rs : List WalRecord)
    → All IsRecord rs
    → (do file ← replace_with rs; read_all (some file)) ≡ ok rs
read_all-replace_with rs h = rw (replace_with-frames rs h) (read_all-frames rs h)

read_loop_sound :
    (fuel : ℕ) (d : Bytes) (rs : List WalRecord)
    → IsBytes d
    → read_loop fuel d ≡ ok rs
    → (d ≡ frames rs) × All IsRecord rs
unfolding read_loop
read_loop_sound zero [] rs hb h =
    let e : [] ≡ rs = cc in subst (λ rs. ([] ≡ frames rs) × All IsRecord rs) e (refl, tt)
read_loop_sound (suc fuel) [] rs hb h =
    let e : [] ≡ rs = cc in subst (λ rs. ([] ≡ frames rs) × All IsRecord rs) e (refl, tt)
read_loop_sound zero (b ∷ bs) rs hb h = cc
read_loop_sound (suc fuel) (b ∷ bs) rs hb h =
    let it = iterated fuel b bs rs h in
    let d : Bytes = b ∷ bs in
    let (rec_ok, framed) =
      decode_record-ok (take it.size d) it.first (All-take IsByte it.size d hb) it.decodes in
    let (rest, others_ok) =
      read_loop_sound fuel (drop it.size d) it.others (All-drop IsByte it.size d hb) it.reads in
    subst (λ rs. (d ≡ frames rs) × All IsRecord rs) (sym it.whole)
      (sym (take-append-drop it.size d) ∙ cc (framed, rest), (rec_ok, others_ok))

-- Whatever bytes `readAll` accepts are exactly the frames of the records that it returns, each of
-- them a valid record.
pub read_all_sound :
    (file : Bytes) (rs : List WalRecord)
    → IsBytes file
    → read_all (some file) ≡ ok rs
    → (file ≡ frames rs) × All IsRecord rs
unfolding read_all
read_all_sound file rs hb h = read_loop_sound (length file) file rs hb h

frames-append : (rs ss : List WalRecord) → frames (rs ++ ss) ≡ frames rs ++ frames ss
frames-append [] ss = refl
frames-append (r ∷ rs) ss =
    ap (λ (t : Bytes). frame r ++ t) (frames-append rs ss)
    ∙ sym (append_assoc (frame r) (frames rs) (frames ss))

-- The log that `readAll` accepts, as a file that may be missing.
abbrev pub IsFile : Option Bytes → Type 0
IsFile none = Unit
IsFile (some file) = IsBytes file

-- `append` of a valid record to a log that `readAll` accepts makes `readAll` return the records
-- before and then the new one.
pub read_all-append :
    (log : Option Bytes) (rs : List WalRecord) (r : WalRecord)
    → IsFile log
    → read_all log ≡ ok rs
    → IsRecord r
    → (do file ← append r.type r.payload log; read_all (some file)) ≡ ok (rs ++ r ∷ [])
unfolding append
read_all-append none rs r hb h hr =
    let empty : [] ≡ rs = unfold read_all in cc in
    rw (encode_record-frame r hr, ← empty)
      (ap (λ (t : Bytes). read_all (some t)) (sym (append-nil (frame r)))
        ∙ read_all-frames (r ∷ []) (hr, tt))
read_all-append (some file) rs r hb h hr =
    let (framed, rs_ok) = read_all_sound file rs hb h in
    rw (encode_record-frame r hr) (
      ap (λ (t : Bytes). read_all (some t))
        (cc (framed, frames-append rs (r ∷ []), append-nil (frame r)))
      ∙ read_all-frames (rs ++ r ∷ []) (All-append IsRecord rs (r ∷ []) rs_ok (hr, tt)))

-- A log of valid records whose last record was cut off inside is refused, with the error for the
-- place of the cut.
pub read_all_torn :
    (rs : List WalRecord) (r : WalRecord) (n : ℕ)
    → All IsRecord rs
    → IsRecord r
    → 0 < n
    → n < length (frame r)
    → read_all (some (frames rs ++ take n (frame r))) ≡ err (torn_error n)
unfolding read_all
read_all_torn rs r n h hr p q =
    let torn = take n (frame r) in
    let (left, enough, read) =
      read_loop-frames rs (length (frames rs ++ torn)) torn h
        (omega (arith, length-append (frames rs) torn)) in
    read ∙ refused left (omega (arith, length-take_le n (frame r) (omega arith)))
  where
    refused :
        (left : ℕ)
        → 0 < left
        → (do records ← read_loop left (take n (frame r)); ok (rs ++ records)) ≡ err (torn_error n)
    refused zero z = absurd (omega arith)
    refused (suc left) z = rw (read_loop_prefix left r n hr p q)

decode_record-ne-out_of_fuel : (d : Bytes) → decode_record d ≢ err out_of_fuel
unfolding decode_record
decode_record-ne-out_of_fuel d h = ground arith

read_loop-ne-out_of_fuel :
    (fuel : ℕ) (d : Bytes) → length d ≤ fuel → read_loop fuel d ≢ err out_of_fuel
unfolding read_loop
read_loop-ne-out_of_fuel zero [] l h = cc
read_loop-ne-out_of_fuel (suc fuel) [] l h = cc
read_loop-ne-out_of_fuel zero (b ∷ bs) l h = absurd (omega arith)
read_loop-ne-out_of_fuel (suc fuel) (b ∷ bs) l h =
    let d = b ∷ bs in
    let n : ℕ = header_size + get32 d 8 in
    let below : length (drop n d) ≤ fuel = omega (arith, length-drop n d) in
    let deeper = read_loop-ne-out_of_fuel fuel (drop n d) below in
    ground (arith, decode_record-ne-out_of_fuel (take n d), deeper)

-- `readAll` never uses up its fuel: on every file it returns records or one of the program's
-- errors.
pub read_all_total : (log : Option Bytes) → read_all log ≢ err out_of_fuel
unfolding read_all
read_all_total none h = cc
read_all_total (some file) h = read_loop-ne-out_of_fuel (length file) file (omega arith) h
