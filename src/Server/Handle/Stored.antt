-- ===== src/Server/Handle/Stored.antt =====
-- What the store and the session are behind the put of a chunk that the client prepared.
use cpp_data_protection_core.Base.{
  ℕ, ◌<◌, ◌^◌, ◌≡◌, ◌⊎◌, inl, inr, refl, ap, sym, ◌∙◌, arith, Bool, true, false, ==_refl,
  Bool-cases, none, some, Option, List, Bytes, IsBytes, codes, length, take, IsByte, All-append,
  All-take, ltb, ◌==◌,
}
use cpp_data_protection_core.Common.Error.{Result, ok, err}
use cpp_data_protection_core.Common.Text.Laws.{all_of_mono}
use cpp_data_protection_core.Common.Hex.{is_xdigit, is_sha256_hex}
use cpp_data_protection_core.Common.Hex.Laws.{all_of-IsBytes}
use cpp_data_protection_core.Manifest.Fields.{sha-IsWord}
use cpp_data_protection_core.Repo.{Repo}
use cpp_data_protection_core.Repo.Directory.{read, write, read-write_self}
use cpp_data_protection_core.Store.{put_raw, put_compressed, sha256_hex, read_raw}
use cpp_data_protection_core.Store.Compressor.{
  Libraries, Documented, content_size_error, start_size, attempt, compress, decompress,
  decompress-compress,
}
use cpp_data_protection_core.Store.Laws.{
  sha256_hex-is_sha256_hex, Holds, place, put_result, put_raw_new, put_raw_held, Holds-compress,
}
use cpp_data_protection_core.Store.Paths.{object_path}
use cpp_data_protection_core.Common.Map.{find}
use cpp_data_protection_core.Session.{
  ReceivedChunkRecord, received, append_found, append_received, append_text, append_chunk,
}
use cpp_data_protection_core.Client.Payload.{PreparedChunk}
use cpp_data_protection_core.Client.Payload.Laws.{IsPrepared}
use cpp_data_protection_core.Session.Text.{IsReceived, Entry}
use cpp_data_protection_core.Session.Laws.{IsIndex}

-- With its size given, `decompress` gives back what zstd compressed.
pub decompress-sized :
    (libs : Libraries) (doc : Documented libs) (raw compressed : Bytes)
    → libs.zstd_compress raw ≡ some compressed
    → length raw < content_size_error
    → decompress libs compressed (length raw) ≡ ok raw
unfolding decompress start_size attempt
decompress-sized libs doc raw compressed e l = elim (Bool-cases (length raw == 0)) [
  | inl z ↦
      let zero_size : length raw ≡ 0 = ground arith in
      ap (decompress libs compressed) zero_size ∙ decompress-compress libs doc raw compressed e l
  | inr z ↦
      rw
        (
          z,
          attempt,
          doc.frame_contents raw compressed (length raw) e (omega arith),
          z,
          ==_refl (length raw),
        )
        refl
]

-- `putCompressed` with the hash and the size of the text is `putRaw`.
put_compressed-put_raw :
    (libs : Libraries) (raw compressed : Bytes) (repo : Repo)
    → libs.zstd_compress raw ≡ some compressed
    → put_raw libs raw repo ≡ put_compressed libs (sha256_hex libs raw) compressed (length raw) repo
unfolding put_raw compress
put_compressed-put_raw libs raw compressed repo e = rw (put_raw, e) refl

module _ (libs : Libraries) (doc : Documented libs) where
  -- The place of the chunk is free, or the same frame lies there.
  abbrev pub Ready : Repo → PreparedChunk → Type 0
  Ready repo chunk =
      (read (place libs doc chunk.raw) repo.objects ≡ none)
      ⊎ (read (place libs doc chunk.raw) repo.objects ≡ some chunk.compressed)

  -- The store behind the put: it holds the chunk, and the sessions are as before.
  pub record Stored (repo : Repo) (chunk : PreparedChunk) : Type 0 where
    pub inserted : Bool
    pub after : Repo
    pub put :
        put_compressed libs (sha256_hex libs chunk.raw) chunk.compressed (length chunk.raw) repo
        ≡ (ok (put_result libs doc chunk.raw (length chunk.compressed) inserted), after)
    pub held : Holds libs doc after chunk.raw
    pub sessions : after.sessions ≡ repo.sessions

  pub Ready-Stored :
      (repo : Repo) (chunk : PreparedChunk)
      → libs.zstd_compress chunk.raw ≡ some chunk.compressed
      → length chunk.raw < content_size_error
      → Ready repo chunk
      → Stored repo chunk
  Ready-Stored repo chunk e l (inl free) =
      let put : _ = put_raw_new libs doc chunk.raw chunk.compressed repo e free in
      record {
        inserted = true;
        after = record repo {
          objects = write (place libs doc chunk.raw) chunk.compressed repo.objects;
        };
        put = sym (put_compressed-put_raw libs chunk.raw chunk.compressed repo e) ∙ put;
        held =
            Holds-compress libs doc chunk.raw chunk.compressed _ e l
              (read-write_self (place libs doc chunk.raw) chunk.compressed repo.objects);
        sessions = refl;
      }
  Ready-Stored repo chunk e l (inr there) =
      let held : Holds libs doc repo chunk.raw =
        Holds-compress libs doc chunk.raw chunk.compressed repo e l there in
      record {
        inserted = false;
        after = repo;
        put =
            sym (put_compressed-put_raw libs chunk.raw chunk.compressed repo e)
            ∙ put_raw_held libs doc chunk.raw chunk.compressed chunk.compressed repo e there held;
        held = held;
        sessions = refl;
      }

  pub Holds-objects :
      (raw : Bytes) (repo later : Repo)
      → later.objects ≡ repo.objects
      → Holds libs doc repo raw
      → Holds libs doc later raw
  unfolding read_raw
  Holds-objects raw repo later e h = rw e h

append_found-objects :
    (found : Option Bytes) (session_id : Bytes) (r : ReceivedChunkRecord) (repo : Repo)
    → (append_found found session_id r repo).1.objects ≡ repo.objects
unfolding append_found append_text
append_found-objects none session_id r repo = refl
append_found-objects (some sha) session_id r repo = refl

append_received-objects :
    (got : Result (List (ℕ × Bytes))) (session_id : Bytes) (r : ReceivedChunkRecord) (repo : Repo)
    → (append_received got session_id r repo).1.objects ≡ repo.objects
unfolding append_received
append_received-objects (err e) session_id r repo = refl
append_received-objects (ok existing) session_id r repo =
    append_found-objects (find ltb r.global_index existing) session_id r repo

pub append_chunk-objects :
    (session_id : Bytes) (r : ReceivedChunkRecord) (repo : Repo)
    → (append_chunk session_id r repo).1.objects ≡ repo.objects
unfolding append_chunk
append_chunk-objects session_id r repo =
    append_received-objects (received session_id repo) session_id r repo

pub IsIndex-sessions :
    (session_id : Bytes) (es : List Entry) (repo later : Repo)
    → later.sessions ≡ repo.sessions
    → IsIndex session_id es repo
    → IsIndex session_id es later
IsIndex-sessions session_id es repo later e h = record { entries = h.entries; text = rw e h.text }

-- The record that the server keeps of a chunk.
abbrev pub kept : Libraries → PreparedChunk → ReceivedChunkRecord
kept libs chunk = record {
  global_index = chunk.global_index;
  sha256 = sha256_hex libs chunk.raw;
  relative_path = chunk.relative_path;
  file_size = chunk.file_size;
  file_mode = chunk.file_mode;
  file_sha256 = chunk.file_sha256;
  chunk_index = chunk.chunk_index;
  raw_size = length chunk.raw;
  compressed_size = length chunk.compressed;
  object_path = object_path (sha256_hex libs chunk.raw);
}

object_path-IsBytes : (sha : Bytes) → IsBytes sha → IsBytes (object_path sha)
unfolding object_path
object_path-IsBytes sha h = All-append IsByte (codes "objects/") _ (omega arith) (
    All-append IsByte (take 2 sha) _ (All-take IsByte 2 sha h)
      (omega arith, All-append IsByte sha (codes ".zst") h (omega arith)))

xdigits-IsBytes : (sha : Bytes) → is_sha256_hex sha ≡ true → IsBytes sha
unfolding is_sha256_hex
xdigits-IsBytes sha h =
    all_of-IsBytes sha (all_of_mono is_xdigit _ sha (λ c e. ground arith) (ground arith))

pub kept-IsReceived :
    (libs : Libraries) (doc : Documented libs) (session_id : Bytes) (chunk : PreparedChunk)
    → IsPrepared session_id chunk
    → chunk.global_index < 2 ^ 64
    → IsReceived (kept libs chunk)
kept-IsReceived libs doc session_id chunk h g = record {
  global_fits = g;
  size_fits = h.size_fits;
  mode_fits = h.mode_fits;
  chunk_fits = h.index_fits;
  raw_fits = h.raw_fits;
  compressed_fits = h.compressed_fits;
  sha_word = sha-IsWord (sha256_hex libs chunk.raw) (sha256_hex-is_sha256_hex libs doc chunk.raw);
  file_sha_word = h.sha_word;
  rel_some = h.path_some;
  rel_bytes = h.path_bytes;
  obj_some = unfold object_path in refl;
  obj_bytes =
      object_path-IsBytes _ (xdigits-IsBytes _ (sha256_hex-is_sha256_hex libs doc chunk.raw));
}
