-- ===== src/Session/Build/Keeps.antt =====
-- Every chunk that a session has received is listed in the manifest built from it.
use cpp_data_protection_core.Base.{
  ℕ, ltb, ◌≡◌, inl, inr, refl, ap, ◌∙◌, sym, subst, arith, true, false, Bool-cases, none, some,
  Option, List, [], ◌∷◌, Bytes, null, if◌then◌else◌,
}
use mathlib.Core.List.{Memᴰ}
use mathlib.Core.List.Memᴰ
use cpp_data_protection_core.Common.Map.{
  find, lt_bytes, same, lt_bytes-IsOrder, find-assign, same_refl, eq_of_same,
}
use cpp_data_protection_core.Common.Types.{ChunkRef, FileManifest, Manifest}
use cpp_data_protection_core.Session.{ReceivedChunkRecord}
use cpp_data_protection_core.Session.Build.{
  received_ref, file_at, named, with_chunk, Building, add_chunk, add_chunks, insert_ref, sort_refs,
  sorted_files, nothing_built, manifest_of,
}

-- A file under this path holds the chunk.
pub record Lists (path : Bytes) (c : ChunkRef) (files : List (Bytes × FileManifest)) : Type 0 where
  pub file : FileManifest
  pub found : find lt_bytes path files ≡ some file
  pub path_is : file.relative_path ≡ path
  pub holds : Memᴰ c file.chunks

-- Every file stands under its own path.
abbrev pub IsKeyed : List (Bytes × FileManifest) → Type 0
IsKeyed files =
    (path : Bytes) (file : FileManifest)
    → find lt_bytes path files ≡ some file
    → file.relative_path ≡ path

named-relative_path :
    (found : Option FileManifest) (r : ReceivedChunkRecord)
    → ((file : FileManifest) → found ≡ some file → file.relative_path ≡ r.relative_path)
    → (named (file_at found) r).relative_path ≡ r.relative_path
unfolding named
named-relative_path none r h = refl
named-relative_path (some file) r h = elim (Bool-cases (null file.relative_path)) [
  | inl e ↦ rw e refl
  | inr e ↦ rw e (h file refl)
]

named-chunks : (file : FileManifest) (r : ReceivedChunkRecord) → (named file r).chunks ≡ file.chunks
unfolding named
named-chunks file r = elim (Bool-cases (null file.relative_path)) [
  | inl e ↦ rw e refl
  | inr e ↦ rw e refl
]

-- What the files show at a path, behind one more chunk.
added : ReceivedChunkRecord → Building → FileManifest
added r b = with_chunk (named (file_at (find lt_bytes r.relative_path b.files)) r) r

find-add_chunk :
    (r : ReceivedChunkRecord) (b : Building) (path : Bytes)
    → find lt_bytes path (add_chunk r b).files ≡ (
        if same lt_bytes r.relative_path path then some (added r b) else find lt_bytes path b.files)
unfolding add_chunk added
find-add_chunk r b path = find-assign lt_bytes lt_bytes-IsOrder r.relative_path path _ b.files

shows_added :
    (r : ReceivedChunkRecord) (b : Building) (path : Bytes)
    → same lt_bytes r.relative_path path ≡ true
    → find lt_bytes path (add_chunk r b).files ≡ some (added r b)
shows_added r b path d = find-add_chunk r b path ∙ rw d refl

shows_old :
    (r : ReceivedChunkRecord) (b : Building) (path : Bytes)
    → same lt_bytes r.relative_path path ≡ false
    → find lt_bytes path (add_chunk r b).files ≡ find lt_bytes path b.files
shows_old r b path d = find-add_chunk r b path ∙ rw d refl

-- A file keeps its chunks when one is added to it.
added-holds :
    (r : ReceivedChunkRecord) (b : Building) (c : ChunkRef) (file : FileManifest)
    → find lt_bytes r.relative_path b.files ≡ some file
    → Memᴰ c file.chunks
    → Memᴰ c (added r b).chunks
unfolding added
added-holds r b c file e h =
    Memᴰ.append_left {s = (named (file_at (find lt_bytes r.relative_path b.files)) r).chunks} _
      (rw (named-chunks (file_at (find lt_bytes r.relative_path b.files)) r, e) h)

added-relative_path :
    (r : ReceivedChunkRecord) (b : Building)
    → IsKeyed b.files
    → (added r b).relative_path ≡ r.relative_path
unfolding added
added-relative_path r b k =
    named-relative_path (find lt_bytes r.relative_path b.files) r (k r.relative_path)

add_chunk-IsKeyed :
    (r : ReceivedChunkRecord) (b : Building) → IsKeyed b.files → IsKeyed (add_chunk r b).files
add_chunk-IsKeyed r b k path file e = elim (Bool-cases (same lt_bytes r.relative_path path)) [
  | inl d ↦
      let here : find lt_bytes path (add_chunk r b).files ≡ some (added r b) =
        shows_added r b path d in
      let same_file : file ≡ added r b = cc in
      ap (λ (f : FileManifest). f.relative_path) same_file
      ∙ (added-relative_path r b k ∙ eq_of_same lt_bytes lt_bytes-IsOrder r.relative_path path d)
  | inr d ↦ k path file (sym (shows_old r b path d) ∙ e)
]

add_chunk-Lists_self :
    (r : ReceivedChunkRecord) (b : Building)
    → IsKeyed b.files
    → Lists r.relative_path (received_ref r) (add_chunk r b).files
add_chunk-Lists_self r b k = record {
  file = added r b;
  found = shows_added r b r.relative_path (same_refl lt_bytes lt_bytes-IsOrder r.relative_path);
  path_is = added-relative_path r b k;
  holds = unfold added in Memᴰ.append_right _ (Memᴰ.head refl);
}

add_chunk-Lists :
    (r : ReceivedChunkRecord) (b : Building) (path : Bytes) (c : ChunkRef)
    → IsKeyed b.files
    → Lists path c b.files
    → Lists path c (add_chunk r b).files
add_chunk-Lists r b path c k h = elim (Bool-cases (same lt_bytes r.relative_path path)) [
  | inl d ↦
      let one : r.relative_path ≡ path =
        eq_of_same lt_bytes lt_bytes-IsOrder r.relative_path path d in
      record {
        file = added r b;
        found = shows_added r b path d;
        path_is = added-relative_path r b k ∙ one;
        holds =
            added-holds r b c h.file (ap (λ (p : Bytes). find lt_bytes p b.files) one ∙ h.found)
              h.holds;
      }
  | inr d ↦ record {
    file = h.file;
    found = shows_old r b path d ∙ h.found;
    path_is = h.path_is;
    holds = h.holds;
  }
]

-- The files keep their chunks through the loop, and stay under their paths.
add_chunks-Lists :
    (m : List (ℕ × ReceivedChunkRecord)) (b : Building) (path : Bytes) (c : ChunkRef)
    → IsKeyed b.files
    → Lists path c b.files
    → Lists path c (add_chunks m b).files
unfolding add_chunks
add_chunks-Lists [] b path c k h = h
add_chunks-Lists ((i, r) ∷ m) b path c k h =
    add_chunks-Lists m (add_chunk r b) path c (add_chunk-IsKeyed r b k)
      (add_chunk-Lists r b path c k h)

add_chunks-Lists_all :
    (m : List (ℕ × ReceivedChunkRecord)) (b : Building) (i : ℕ) (r : ReceivedChunkRecord)
    → IsKeyed b.files
    → find ltb i m ≡ some r
    → Lists r.relative_path (received_ref r) (add_chunks m b).files
unfolding add_chunks find
add_chunks-Lists_all [] b i r k e = cc
add_chunks-Lists_all ((j, s) ∷ m) b i r k e = elim (Bool-cases (same ltb i j)) [
  | inl d ↦
      let one : s ≡ r = ground arith in
      add_chunks-Lists m (add_chunk s b) r.relative_path (received_ref r) (add_chunk-IsKeyed s b k)
        (subst
          (λ (t : ReceivedChunkRecord).
            Lists t.relative_path (received_ref t) (add_chunk s b).files)
          one (add_chunk-Lists_self s b k))
  | inr d ↦ add_chunks-Lists_all m (add_chunk s b) i r (add_chunk-IsKeyed s b k) (ground arith)
]

mem-insert_ref : (c d : ChunkRef) (cs : List ChunkRef) → Memᴰ c cs → Memᴰ c (insert_ref d cs)
unfolding insert_ref
mem-insert_ref c d [] h = elim h [ ]
mem-insert_ref c d (x ∷ cs) h = elim (Bool-cases (ltb x.chunk_index d.chunk_index)) [
  | inl e ↦ rw e (elim (Memᴰ.cases_cons h) [
    | inl one ↦ Memᴰ.head one
    | inr later ↦ Memᴰ.tail (mem-insert_ref c d cs later)
  ])
  | inr e ↦ rw e (Memᴰ.tail h)
]

insert_ref-mem : (c : ChunkRef) (cs : List ChunkRef) → Memᴰ c (insert_ref c cs)
unfolding insert_ref
insert_ref-mem c [] = Memᴰ.head refl
insert_ref-mem c (d ∷ cs) = elim (Bool-cases (ltb d.chunk_index c.chunk_index)) [
  | inl e ↦ rw e (Memᴰ.tail (insert_ref-mem c cs))
  | inr e ↦ rw e (Memᴰ.head refl)
]

mem-sort_refs : (c : ChunkRef) (cs : List ChunkRef) → Memᴰ c cs → Memᴰ c (sort_refs cs)
unfolding sort_refs
mem-sort_refs c [] h = elim h [ ]
mem-sort_refs c (d ∷ cs) (Memᴰ.head e) = rw e (insert_ref-mem d (sort_refs cs))
mem-sort_refs c (d ∷ cs) (Memᴰ.tail h) = mem-insert_ref c d (sort_refs cs) (mem-sort_refs c cs h)

abbrev with_sorted : FileManifest → FileManifest
with_sorted file = record file { chunks = sort_refs file.chunks }

sorted_files-find :
    (path : Bytes) (files : List (Bytes × FileManifest)) (file : FileManifest)
    → find lt_bytes path files ≡ some file
    → Memᴰ (with_sorted file) (sorted_files files)
unfolding sorted_files find
sorted_files-find path [] file e = cc
sorted_files-find path ((p, f) ∷ files) file e = elim (Bool-cases (same lt_bytes path p)) [
  | inl d ↦ let one : file ≡ f = ground arith in Memᴰ.head (ap with_sorted one)
  | inr d ↦ Memᴰ.tail (sorted_files-find path files file (ground arith))
]

nothing_built-IsKeyed : IsKeyed nothing_built.files
unfolding find
nothing_built-IsKeyed path file e = cc

-- The reference tells what was received.
pub record IsRefOf (r : ReceivedChunkRecord) (c : ChunkRef) : Type 0 where
  pub same_index : c.chunk_index ≡ r.chunk_index
  pub same_raw_size : c.raw_size ≡ r.raw_size
  pub same_compressed_size : c.compressed_size ≡ r.compressed_size
  pub same_sha : c.sha256 ≡ r.sha256
  pub same_object : c.object_path ≡ r.object_path

received_ref-IsRefOf : (r : ReceivedChunkRecord) → IsRefOf r (received_ref r)
received_ref-IsRefOf r = record {
  same_index = refl;
  same_raw_size = refl;
  same_compressed_size = refl;
  same_sha = refl;
  same_object = refl;
}

-- Some file of the manifest has the path of the chunk, and lists the chunk.
pub record InManifest (r : ReceivedChunkRecord) (manifest : Manifest) : Type 0 where
  pub file : FileManifest
  pub in_files : Memᴰ file manifest.files
  pub path_is : file.relative_path ≡ r.relative_path
  pub ref : ChunkRef
  pub ref_is : IsRefOf r ref
  pub in_chunks : Memᴰ ref file.chunks

pub manifest_of-InManifest :
    (version now : ℕ) (session_id : Bytes) (m : List (ℕ × ReceivedChunkRecord)) (i : ℕ)
    (r : ReceivedChunkRecord)
    → find ltb i m ≡ some r
    → InManifest r (manifest_of version now session_id m)
unfolding manifest_of
manifest_of-InManifest version now session_id m i r e =
    let l : Lists r.relative_path (received_ref r) (add_chunks m nothing_built).files =
      add_chunks-Lists_all m nothing_built i r nothing_built-IsKeyed e in
    record {
      file = with_sorted l.file;
      in_files = sorted_files-find r.relative_path _ l.file l.found;
      path_is = l.path_is;
      ref = received_ref r;
      ref_is = received_ref-IsRefOf r;
      in_chunks = mem-sort_refs (received_ref r) l.file.chunks l.holds;
    }
