-- ===== src/Session/Text.antt =====
-- The text of a session file, line by line, is read back.
use cpp_data_protection_core.Base.{
  ℕ, zero, suc, ◌^◌, ◌<◌, ◌≤◌, ◌≡◌, refl, ap, ◌∙◌, sym, arith, true, false, some, List, [], ◌∷◌,
  ◌++◌, append_assoc, Bytes, IsBytes, codes, equal, null, length, length-append, All,
}
use cpp_data_protection_core.Common.Error.{Result, ok}
use cpp_data_protection_core.Common.Hex.{all_of, hex_encode_string, hex_decode_string}
use cpp_data_protection_core.Common.Hex.Laws.{hex_decode_string-hex_encode_string}
use cpp_data_protection_core.Common.Text.{decimal, is_space}
use cpp_data_protection_core.Common.Text.Laws.{IsWord, in_line, IsWord-in_line, digits-IsWord}
use cpp_data_protection_core.Common.Text.Decimal.{decimal-all_of, decimal-null}
use cpp_data_protection_core.Common.Stream.{
  Stream, get_word, get_u64, get_u32, skip_line, skip_rest,
}
use cpp_data_protection_core.Common.Stream.Laws.{
  get_word-word, get_word-space, get_u64-space, get_u64-decimal, get_u32-space, get_u32-decimal,
}
use cpp_data_protection_core.Manifest.Fields.{hex_encode_string-IsWord}
use cpp_data_protection_core.Session.{
  ReceivedChunkRecord, read_record, with_record, on_chunk, on_tag, read_records, records_of,
  chunk_fields, chunk_line,
}

-- The ranges of the C++ fields, and texts that a line can hold.
pub record IsReceived (r : ReceivedChunkRecord) : Type 0 where
  pub global_fits : r.global_index < 2 ^ 64
  pub size_fits : r.file_size < 2 ^ 64
  pub mode_fits : r.file_mode < 2 ^ 32
  pub chunk_fits : r.chunk_index < 2 ^ 64
  pub raw_fits : r.raw_size < 2 ^ 64
  pub compressed_fits : r.compressed_size < 2 ^ 64
  pub sha_word : IsWord r.sha256
  pub file_sha_word : IsWord r.file_sha256
  pub rel_some : null r.relative_path ≡ false
  pub rel_bytes : IsBytes r.relative_path
  pub obj_some : null r.object_path ≡ false
  pub obj_bytes : IsBytes r.object_path

-- A word, or a number, between spaces.
word_next :
    (w rest : Bytes) (c : ℕ)
    → IsWord w
    → is_space c ≡ true
    → get_word [] (some (b' ' ∷ (w ++ c ∷ rest))) ≡ (w, some (c ∷ rest))
word_next w rest c h e = get_word-space [] (w ++ c ∷ rest) b' ' refl ∙ get_word-word [] w rest c h e

number_next :
    (n : ℕ) (rest : Bytes)
    → n < 2 ^ 64
    → get_u64 (some (b' ' ∷ (decimal n ++ b' ' ∷ rest))) 0 ≡ (n, some (b' ' ∷ rest))
number_next n rest h =
    get_u64-space (decimal n ++ b' ' ∷ rest) 0 b' ' refl ∙ get_u64-decimal n 0 b' ' rest h refl

mode_next :
    (n : ℕ) (rest : Bytes)
    → n < 2 ^ 32
    → get_u32 (some (b' ' ∷ (decimal n ++ b' ' ∷ rest))) 420 ≡ (n, some (b' ' ∷ rest))
mode_next n rest h =
    get_u32-space (decimal n ++ b' ' ∷ rest) 420 b' ' refl ∙ get_u32-decimal n 420 b' ' rest h refl

-- What ten extractions in turn make of a line, whatever the streams between them are.
read_record_of :
    (r : ReceivedChunkRecord) (rest rel_hex obj_hex : Bytes)
    (in0 in1 in2 in3 in4 in5 in6 in7 in8 in9 : Stream)
    → get_u64 in0 0 ≡ (r.global_index, in1)
    → get_word [] in1 ≡ (r.sha256, in2)
    → get_word [] in2 ≡ (rel_hex, in3)
    → get_u64 in3 0 ≡ (r.file_size, in4)
    → get_u32 in4 420 ≡ (r.file_mode, in5)
    → get_word [] in5 ≡ (r.file_sha256, in6)
    → get_u64 in6 0 ≡ (r.chunk_index, in7)
    → get_u64 in7 0 ≡ (r.raw_size, in8)
    → get_u64 in8 0 ≡ (r.compressed_size, in9)
    → get_word [] in9 ≡ (obj_hex, some rest)
    → hex_decode_string rel_hex ≡ ok r.relative_path
    → hex_decode_string obj_hex ≡ ok r.object_path
    → read_record in0 ≡ (ok r, some rest)
unfolding read_record
read_record_of r rest rel_hex obj_hex in0 in1 in2 in3 in4 in5 in6 in7 in8 in9 e0 e1 e2 e3 e4 e5 e6
      e7 e8 e9 rel obj =
    simp (e0, e1, e2, e3, e4, e5, e6, e7, e8, e9, rel, obj) refl

pub read_record-chunk_fields :
    (r : ReceivedChunkRecord) (later : Bytes)
    → IsReceived r
    → read_record (some (chunk_fields r later)) ≡ (ok r, some (10 ∷ later))
unfolding chunk_fields
read_record-chunk_fields r later h =
    read_record_of r _ _ _ _ _ _ _ _ _ _ _ _ _ (number_next r.global_index _ h.global_fits)
      (word_next r.sha256 _ b' ' h.sha_word refl)
      (word_next (hex_encode_string r.relative_path) _ b' '
        (hex_encode_string-IsWord r.relative_path h.rel_some) refl)
      (number_next r.file_size _ h.size_fits) (mode_next r.file_mode _ h.mode_fits)
      (word_next r.file_sha256 _ b' ' h.file_sha_word refl)
      (number_next r.chunk_index _ h.chunk_fits) (number_next r.raw_size _ h.raw_fits)
      (number_next r.compressed_size _ h.compressed_fits)
      (word_next (hex_encode_string r.object_path) later 10
        (hex_encode_string-IsWord r.object_path h.obj_some) refl)
      (hex_decode_string-hex_encode_string r.relative_path h.rel_bytes)
      (hex_decode_string-hex_encode_string r.object_path h.obj_bytes)

-- What a session file consists of.
pub data Entry : Type 0 where
  chunk : ReceivedChunkRecord → Entry
  committed : ℕ → Entry

abbrev pub IsEntry : Entry → Type 0
IsEntry (chunk r) = IsReceived r
IsEntry (committed version) = Unit {0}

abbrev pub entry_text : Entry → Bytes
entry_text (chunk r) = chunk_line r
entry_text (committed version) = codes "COMMITTED " ++ (decimal version ++ codes "\n")

unfoldable pub text_of : List Entry → Bytes
text_of [] = []
text_of (e ∷ es) = entry_text e ++ text_of es

unfoldable pub chunks_of : List Entry → List ReceivedChunkRecord
chunks_of [] = []
chunks_of (chunk r ∷ es) = r ∷ chunks_of es
chunks_of (committed version ∷ es) = chunks_of es

chunk_fields-append :
    (r : ReceivedChunkRecord) (later : Bytes) → chunk_fields r [] ++ later ≡ chunk_fields r later
unfolding chunk_fields
chunk_fields-append r later = simp append_assoc

-- One round of the loop, behind its tag.
chunk_round :
    (fuel : ℕ) (rest later : Bytes) (r : ReceivedChunkRecord) (in0 : Stream)
    → get_word [] in0 ≡ (codes "CHUNK", some rest)
    → read_record (some rest) ≡ (ok r, some later)
    → read_records (suc fuel) in0 ≡ with_record (ok r) (read_records fuel (some later))
unfolding read_records on_tag equal
chunk_round fuel rest later r in0 e d =
    ap (on_tag (read_records fuel)) e ∙ ap (on_chunk (read_records fuel)) d

committed_round :
    (fuel : ℕ) (rest later : Bytes) (in0 : Stream)
    → get_word [] in0 ≡ (codes "COMMITTED", some rest)
    → skip_line (some rest) ≡ some later
    → read_records (suc fuel) in0 ≡ read_records fuel (some later)
unfolding read_records on_tag equal
committed_round fuel rest later in0 e d =
    ap (on_tag (read_records fuel)) e ∙ ap (read_records fuel) d

read_records-newline :
    (fuel : ℕ) (text : Bytes) → read_records fuel (some (10 ∷ text)) ≡ read_records fuel (some text)
unfolding read_records
read_records-newline zero text = refl
read_records-newline (suc fuel) text =
    ap (on_tag (read_records fuel)) (get_word-space [] text 10 refl)

chunk_line-word :
    (r : ReceivedChunkRecord) (later : Bytes)
    → get_word [] (some (chunk_line r ++ later)) ≡ (codes "CHUNK", some (chunk_fields r later))
unfolding chunk_line all_of
chunk_line-word r later =
    rw (sym (chunk_fields-append r later))
      (unfold chunk_fields in get_word-word [] (codes "CHUNK") _ b' ' (refl, refl) refl)

skip_rest-word : (w later : Bytes) → all_of in_line w ≡ true → skip_rest (w ++ 10 ∷ later) ≡ later
unfolding skip_rest all_of
skip_rest-word [] later h = refl
skip_rest-word (c ∷ w) later h = ground (arith, skip_rest-word w later)

skip_line-decimal :
    (n : ℕ) (later : Bytes) → skip_line (some (b' ' ∷ (decimal n ++ 10 ∷ later))) ≡ some later
unfolding skip_line skip_rest
skip_line-decimal n later =
    ap (λ (t : Bytes). some t)
      (skip_rest-word (decimal n) later (
        IsWord-in_line (decimal n) (digits-IsWord (decimal n) (decimal-null n) (decimal-all_of n))))

-- A line is read, and the loop goes on behind it.
read_records-entry :
    (fuel : ℕ) (e : Entry) (later : Bytes)
    → IsEntry e
    → read_records (suc fuel) (some (entry_text e ++ later)) ≡ elim e [
      | chunk r ↦ with_record (ok r) (read_records fuel (some later))
      | committed v ↦ read_records fuel (some later)
    ]
unfolding all_of
read_records-entry fuel (chunk r) later h =
    chunk_round fuel _ _ r _ (chunk_line-word r later) (read_record-chunk_fields r later h)
    ∙ ap (λ (t : Result (List ReceivedChunkRecord)). with_record (ok r) t)
        (read_records-newline fuel later)
read_records-entry fuel (committed version) later h =
    committed_round fuel (b' ' ∷ (decimal version ++ 10 ∷ later)) later _
      (rw (append_assoc (decimal version) (10 ∷ []) later) (
        get_word-word [] (codes "COMMITTED") (decimal version ++ 10 ∷ later) b' ' (refl, refl)
          refl))
      (skip_line-decimal version later)

read_records-text_of :
    (fuel : ℕ) (es : List Entry)
    → All IsEntry es
    → length es < fuel
    → read_records fuel (some (text_of es)) ≡ ok (chunks_of es)
unfolding text_of chunks_of
read_records-text_of zero es h l = absurd (omega arith)
read_records-text_of (suc fuel) [] h l = unfold read_records get_word on_tag in refl
read_records-text_of (suc fuel) (chunk r ∷ es) h l =
    read_records-entry fuel (chunk r) (text_of es) h.0
    ∙ rw (read_records-text_of fuel es h.1 (omega arith)) refl
read_records-text_of (suc fuel) (committed v ∷ es) h l =
    read_records-entry fuel (committed v) (text_of es) h.0
    ∙ read_records-text_of fuel es h.1 (omega arith)

starts :
    (c : ℕ) (v w x y : Bytes) (m : ℕ) → m ≤ length y → w ≡ (c ∷ v) ++ x → suc m ≤ length (w ++ y)
starts c v w x y m l e = rw e (omega (arith, length-append {0} x y, length-append {0} (v ++ x) y))

length-text_of : (es : List Entry) → length es ≤ length (text_of es)
unfolding text_of chunk_line
length-text_of [] = omega arith
length-text_of (chunk r ∷ es) =
    starts b'C' (codes "HUNK") (chunk_line r) (chunk_fields r []) (text_of es) (length es)
      (length-text_of es) refl
length-text_of (committed v ∷ es) =
    starts _ (codes "OMMITTED ") (entry_text (committed v)) _ (text_of es) (length es)
      (length-text_of es) refl

-- The text of lines of a session file is read back as the chunks of those lines.
pub records_of-text_of :
    (es : List Entry) → All IsEntry es → records_of (some (text_of es)) ≡ ok (chunks_of es)
unfolding records_of
records_of-text_of es h =
    read_records-text_of (suc (length (text_of es))) es h (omega (arith, length-text_of es))

pub text_of-append : (es fs : List Entry) → text_of (es ++ fs) ≡ text_of es ++ text_of fs
unfolding text_of
text_of-append [] fs = refl
text_of-append (e ∷ es) fs =
    rw (text_of-append es fs) (sym (append_assoc (entry_text e) (text_of es) (text_of fs)))

pub chunks_of-append : (es fs : List Entry) → chunks_of (es ++ fs) ≡ chunks_of es ++ chunks_of fs
unfolding chunks_of
chunks_of-append [] fs = refl
chunks_of-append (chunk r ∷ es) fs = rw (chunks_of-append es fs) refl
chunks_of-append (committed v ∷ es) fs = chunks_of-append es fs
