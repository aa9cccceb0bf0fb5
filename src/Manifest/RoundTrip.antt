-- ===== src/Manifest/RoundTrip.antt =====
-- `parse` reads back what `serialize` wrote.
use cpp_data_protection_core.Base.{
  ℕ, zero, suc, ◌≤◌, ◌≡◌, refl, ap, arith, false, not, ◌&&◌, ==_refl, List, [], ◌∷◌, Bytes, IsBytes,
  codes, equal, null, length, All,
}
use cpp_data_protection_core.Common.Error.{ok, ◌>>=◌}
use cpp_data_protection_core.Common.Hex.{hex_encode_string, all_of}
use cpp_data_protection_core.Common.Hex.Laws.{hex_decode_string-hex_encode_string}
use cpp_data_protection_core.Common.Path.{contains}
use cpp_data_protection_core.Common.Types.{
  ChunkRef, FileManifest, Manifest, ChunkingMode, fixed, content_defined, to_string,
  chunking_mode_from_string,
}
use cpp_data_protection_core.Common.Text.{split_lines, decimal}
use cpp_data_protection_core.Common.Text.Laws.{IsWord, split_lines-line, split_lines-nil}
use cpp_data_protection_core.Manifest.Serialize.{
  line, chunk_text, chunk_lines, file_text, file_lines, serialize,
}
use cpp_data_protection_core.Manifest.Parse.{
  u64_max, parse_number, parse_chunks, end_file, parse_file, parse_files, parse_end, parse_header,
  parse,
}
use cpp_data_protection_core.Manifest.Fields.{
  IsChunkRef, IsFileLine, parse_chunk-chunk_text, chunk_text-IsLine, parse_file_line-file_text,
  file_text-IsLine, parse_number-decimal, decimal-IsWord, hex_encode_string-IsWord, consume-line,
}

parse_chunks-chunk_lines :
    (cs : List ChunkRef) (later : Bytes)
    → All IsChunkRef cs
    → parse_chunks (length cs) (split_lines (chunk_lines cs later)) ≡ ok (cs, split_lines later)
unfolding parse_chunks chunk_lines
parse_chunks-chunk_lines [] later h = refl
parse_chunks-chunk_lines (c ∷ cs) later h = rw (
  split_lines-line (chunk_text c) (chunk_lines cs later) (chunk_text-IsLine c h.0),
  parse_chunk-chunk_text c h.0,
  parse_chunks-chunk_lines cs later h.1,
)

-- A file entry that the C++ types and `parse` allow.
pub record IsFile (f : FileManifest) : Type 0 where
  pub file_line : IsFileLine f
  pub chunk_refs : All IsChunkRef f.chunks

end_file-line :
    (later : Bytes)
    → end_file (split_lines (line (codes "END_FILE") later)) ≡ ok (split_lines later)
unfolding end_file equal contains
end_file-line later = rw (split_lines-line (codes "END_FILE") later (refl, refl))

parse_file-lines :
    (f : FileManifest) (later : Bytes)
    → IsFile f
    → parse_file (file_text f) (split_lines (chunk_lines f.chunks (line (codes "END_FILE") later)))
      ≡ ok (f, split_lines later)
unfolding parse_file
parse_file-lines f later h = rw (
  parse_file_line-file_text f h.file_line,
  parse_chunks-chunk_lines f.chunks (line (codes "END_FILE") later) h.chunk_refs,
  end_file-line later,
)

file_text-ne-end : (f : FileManifest) → equal (file_text f) (codes "END") ≡ false
unfolding file_text equal
file_text-ne-end f = refl

end-line :
    (later : Bytes) → split_lines (line (codes "END") later) ≡ codes "END" ∷ split_lines later
unfolding contains
end-line later = split_lines-line (codes "END") later (refl, refl)

parse_files-end :
    (fuel : ℕ) (lines : List Bytes)
    → parse_files fuel (codes "END" ∷ lines) ≡ ok ([], codes "END" ∷ lines)
unfolding parse_files equal
parse_files-end zero lines = refl
parse_files-end (suc fuel) lines = refl

parse_files-cons :
    (fuel : ℕ) (text : Bytes) (lines : List Bytes)
    → equal text (codes "END") ≡ false
    → parse_files (suc fuel) (text ∷ lines) ≡ (do
      (file, rest) ← parse_file text lines
      (files, rest) ← parse_files fuel rest
      ok (file ∷ files, rest))
unfolding parse_files
parse_files-cons fuel text lines e = rw (e, parse_files)

parse_files-file_lines :
    (fs : List FileManifest) (fuel : ℕ) (later : Bytes)
    → All IsFile fs
    → length fs ≤ fuel
    → parse_files fuel (split_lines (file_lines fs (line (codes "END") later)))
      ≡ ok (fs, codes "END" ∷ split_lines later)
unfolding file_lines
parse_files-file_lines [] fuel later h l =
    rw (end-line later) (parse_files-end fuel (split_lines later))
parse_files-file_lines (f ∷ fs) zero later h l = absurd (omega arith)
parse_files-file_lines (f ∷ fs) (suc fuel) later h l = rw (
  split_lines-line (file_text f) _ (file_text-IsLine f h.0.file_line),
  parse_files-cons fuel (file_text f)
      (split_lines
        (chunk_lines f.chunks (line (codes "END_FILE") (file_lines fs (line (codes "END") later)))))
      (file_text-ne-end f),
  parse_file-lines f (file_lines fs (line (codes "END") later)) h.0,
  parse_files-file_lines fs fuel later h.1 (omega arith),
)

-- The number of lines of the files is at least their number.
length-chunk_lines :
    (cs : List ChunkRef) (later : Bytes)
    → All IsChunkRef cs
    → length (split_lines later) ≤ length (split_lines (chunk_lines cs later))
unfolding chunk_lines
length-chunk_lines [] later h = omega arith
length-chunk_lines (c ∷ cs) later h =
    rw (split_lines-line (chunk_text c) (chunk_lines cs later) (chunk_text-IsLine c h.0))
      (omega (arith, length-chunk_lines cs later h.1))

length-file_lines :
    (fs : List FileManifest) (later : Bytes)
    → All IsFile fs
    → length fs ≤ length (split_lines (file_lines fs later))
unfolding file_lines
length-file_lines [] later h = omega arith
length-file_lines (f ∷ fs) later h =
    rw (split_lines-line (file_text f) _ (file_text-IsLine f h.0.file_line)) (
      omega (
        arith,
        length-chunk_lines f.chunks (line (codes "END_FILE") (file_lines fs later)) h.0.chunk_refs,
        ap length (mark (file_lines fs later)),
        length-file_lines fs later h.1,
      ))
  where
    mark : (t : Bytes) → split_lines (line (codes "END_FILE") t) ≡ codes "END_FILE" ∷ split_lines t
    mark t = split_lines-line (codes "END_FILE") t (unfold contains in (refl, refl))

-- A manifest whose fields have their C++ ranges, whose texts are bytes, and whose source root is
-- not empty.
pub record IsManifest (m : Manifest) : Type 0 where
  pub version_fits : m.version ≤ u64_max
  pub created_fits : m.created_at ≤ u64_max
  pub input_fits : m.total_input_bytes ≤ u64_max
  pub stored_fits : m.total_stored_bytes ≤ u64_max
  pub count_fits : length m.files ≤ u64_max
  pub root_bytes : IsBytes m.source_root
  pub root_some : null m.source_root ≡ false
  pub files_ok : All IsFile m.files

to_string-IsWord : (mode : ChunkingMode) → IsWord (to_string mode)
unfolding all_of
to_string-IsWord fixed = (refl, refl)
to_string-IsWord content_defined = (refl, refl)

mode_tests :
    (mode : ChunkingMode)
    → ((not (equal (to_string mode) (codes "fixed")) && not (equal (to_string mode) (codes "cdc")))
        ≡ false)
      × (chunking_mode_from_string (to_string mode) ≡ mode)
unfolding equal chunking_mode_from_string
mode_tests fixed = (refl, refl)
mode_tests content_defined = (refl, refl)

header-line :
    (later : Bytes)
    → parse_header (split_lines (line (codes "DPC_MANIFEST_V1") later)) ≡ ok (split_lines later)
unfolding parse_header equal contains
header-line later = rw (split_lines-line (codes "DPC_MANIFEST_V1") later (refl, refl))

end_tests :
    (fs : List FileManifest) → parse_end fs (length fs) (codes "END" ∷ split_lines []) ≡ ok tt
unfolding parse_end equal
end_tests fs = rw (==_refl (length fs), split_lines-nil)

-- `parse` gives back every manifest that `serialize` wrote, with all its files and chunks in
-- order, when its fields are in range, its paths are safe and its hashes well formed.
pub parse-serialize : (m : Manifest) → IsManifest m → parse (serialize m) ≡ ok m
unfolding parse serialize all_of
parse-serialize m h = rw (
  header-line _,
  consume-line (codes "version") (decimal m.version) _ (refl, refl) (decimal-IsWord m.version),
  number m.version h.version_fits,
  consume-line (codes "created_at") (decimal m.created_at) _ (refl, refl)
      (decimal-IsWord m.created_at),
  number m.created_at h.created_fits,
  consume-line (codes "chunking_mode") (to_string m.chunking_mode) _ (refl, refl)
      (to_string-IsWord m.chunking_mode),
  (mode_tests m.chunking_mode).0,
  consume-line (codes "source_root_hex") (hex_encode_string m.source_root) _ (refl, refl)
      (hex_encode_string-IsWord m.source_root h.root_some),
  hex_decode_string-hex_encode_string m.source_root h.root_bytes,
  consume-line (codes "file_count") (decimal (length m.files)) _ (refl, refl)
      (decimal-IsWord (length m.files)),
  number (length m.files) h.count_fits,
  consume-line (codes "total_input_bytes") (decimal m.total_input_bytes) _ (refl, refl)
      (decimal-IsWord m.total_input_bytes),
  number m.total_input_bytes h.input_fits,
  consume-line (codes "total_stored_bytes") (decimal m.total_stored_bytes) _ (refl, refl)
      (decimal-IsWord m.total_stored_bytes),
  number m.total_stored_bytes h.stored_fits,
  parse_files-file_lines m.files _ [] h.files_ok
      (length-file_lines m.files (line (codes "END") []) h.files_ok),
  end_tests m.files,
  (mode_tests m.chunking_mode).1,
)
  where
    number : (n : ℕ) → n ≤ u64_max → parse_number u64_max (decimal n) ≡ ok n
    number n k = parse_number-decimal u64_max n (omega arith) k
