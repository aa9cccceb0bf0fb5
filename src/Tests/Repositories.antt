-- ===== src/Tests/Repositories.antt =====
-- The repository's operations on small repositories, with a store that does not compress.
use cpp_data_protection_core.Base.{
  ℕ, ◌^◌, ◌<◌, ◌≤◌, ◌≡◌, refl, ap, sym, subst, arith, not, ltb, not_ltb, none, some, inl, [], ◌∷◌,
  ◌++◌, Bytes, codes, take, length, length-take_le, length-append, if◌then◌else◌,
}
use cpp_data_protection_core.Common.Error.{ok, err, wal_truncated_header, ◌>>=◌}
use cpp_data_protection_core.Common.Text.{decimal, decimal_loop}
use cpp_data_protection_core.Common.Types.{FileManifest}
use cpp_data_protection_core.Repo.{Repo, empty_repo}
use cpp_data_protection_core.Repo.Directory.{read, exists, names}
use cpp_data_protection_core.Wal.Log.{read_all, read_loop}
use cpp_data_protection_core.Wal.Record.{max_payload_size}
use cpp_data_protection_core.Manifest.Versions.{
  list_committed_versions, next_version, create_commit_marker, commit_versions, sort,
}
use cpp_data_protection_core.Manifest.Versions.Laws.{next_version-create, list-create_beyond}
use cpp_data_protection_core.Metadata.Checkpoint.{versions_text}
use cpp_data_protection_core.Metadata.Recovery.{recover, compact_metadata, compact_text}
use cpp_data_protection_core.Metadata.Checkpoint.{load_checkpoint}
use cpp_data_protection_core.Manifest.Versions.Laws.{newest}
use cpp_data_protection_core.Common.Error.{length_error}
use cpp_data_protection_core.Metadata.Recovery.Laws.{
  of_versions, compacted, recover-load_checkpoint, compact_metadata-recover,
}
use cpp_data_protection_core.Store.{sha256_hex, put_raw, object_place}
use cpp_data_protection_core.Store.Compressor.{Libraries, Documented}
use cpp_data_protection_core.Store.Paths.{object_place-ok}
use cpp_data_protection_core.Store.Laws.{
  sha256_hex-is_sha256_hex, place, put_result, Holds, put_raw-Holds, put_raw_keeps,
}
use cpp_data_protection_core.Engine.Check.{verify_file, restore_contents, assemble}
use cpp_data_protection_core.Engine.Check.Laws.{verify_file-restore_contents}

abbrev pub zeros : Bytes
zeros = codes "00000000000000000000000000000000"

-- A digest that is the front of the text, and frames that are the text.
abbrev pub plain : Libraries
plain = record {
  sha256 = λ raw. take 32 (raw ++ zeros);
  zstd_compress = λ raw. some raw;
  zstd_decompress = λ capacity text. if ltb capacity (length text) then none else some text;
  zstd_frame_content_size = λ text. length text;
}

pub plain_documented : Documented plain
plain_documented = record {
  digest_size = λ raw. length-take_le 32 (raw ++ zeros) (omega (arith, length-append raw zeros));
  frame_size = λ raw compressed e. (let q : raw ≡ compressed = cc in ap length (sym q));
  frame_contents = λ raw compressed capacity e l.
      (let q : raw ≡ compressed = cc in
        subst (λ (t : Bytes). (if ltb capacity (length t) then none else some t) ≡ some raw) q
          (rw (not_ltb capacity (length raw) l) refl));
}

first_version : next_version empty_repo ≡ ok 1
unfolding next_version list_committed_versions commit_versions names sort
first_version = refl

next_version-create_example : next_version (create_commit_marker 1 empty_repo).1 ≡ ok 2
next_version-create_example =
    next_version-create empty_repo 1 first_version (omega arith) (omega arith)

list-create_beyond_example :
    (list_committed_versions (create_commit_marker 1000000 empty_repo).1
      ≡ list_committed_versions empty_repo)
    × (next_version (create_commit_marker 1000000 empty_repo).1 ≡ next_version empty_repo)
list-create_beyond_example = list-create_beyond empty_repo 1000000 (omega arith)

-- A repository with a temporary file and no log.
abbrev untidy : Repo
untidy = record empty_repo { tmp = (codes "version-000001.manifest.tmp", []) ∷ [] }

none_listed : list_committed_versions untidy ≡ ok []
unfolding list_committed_versions commit_versions names sort
none_listed = refl

recover-load_checkpoint_example :
    ((recover untidy).0 ≡ ok (record { committed_versions = 0; removed_tmp_files = 1 }))
    × (load_checkpoint (recover untidy).1 ≡ ok (of_versions []))
    × ((recover untidy).1 ≡ record untidy { tmp = []; checkpoint = (recover untidy).1.checkpoint })
    × (recover (recover untidy).1
        ≡ (ok (record { committed_versions = 0; removed_tmp_files = 0 }), (recover untidy).1))
recover-load_checkpoint_example =
    recover-load_checkpoint untidy [] none_listed [] (unfold read_all in refl)

abbrev torn : Repo
torn = record empty_repo { wal = some (codes "AWPD") }

torn_refused : read_all torn.wal ≡ err wal_truncated_header
unfolding read_all read_loop
torn_refused = refl

short_text : length (compact_text (of_versions [])) ≤ max_payload_size
unfolding compact_text versions_text decimal decimal_loop newest
short_text = omega arith

compact_metadata-recover_example :
    ((compact_metadata untidy).0 ≡ ok tt)
    × (read_all (compact_metadata untidy).1.wal ≡ ok (compacted []))
    × (load_checkpoint (compact_metadata untidy).1 ≡ ok (of_versions []))
    × ((compact_metadata untidy).1 ≡ record untidy {
      wal = (compact_metadata untidy).1.wal;
      checkpoint = (compact_metadata untidy).1.checkpoint;
    })
    × ((recover (compact_metadata untidy).1).0
        ≡ ok (record { committed_versions = 0; removed_tmp_files = 1 }))
compact_metadata-recover_example = compact_metadata-recover untidy [] none_listed short_text

put_raw-Holds_example :
    (stored_size : ℕ) × ((put_raw plain (codes "data") empty_repo).0
      ≡ ok (
          put_result plain plain_documented
            (codes "data")
            stored_size
            (not (exists (place plain plain_documented (codes "data")) []))))
    × Holds plain plain_documented (put_raw plain (codes "data") empty_repo).1 (codes "data")
put_raw-Holds_example =
    put_raw-Holds plain plain_documented (codes "data") (codes "data") empty_repo refl (omega arith)
      (inl (unfold read in refl))

-- The repository that holds the text "data".
abbrev pub filled : Repo
filled = (put_raw plain (codes "data") empty_repo).1

pub data_is_held : Holds plain plain_documented filled (codes "data")
data_is_held =
    (put_raw-Holds plain plain_documented (codes "data") (codes "data") empty_repo refl
      (omega arith) (inl (unfold read in refl))).2

put_raw_keeps_example :
    Holds plain plain_documented (put_raw plain (codes "more") filled).1 (codes "data")
put_raw_keeps_example =
    put_raw_keeps plain plain_documented (codes "more") (codes "data") filled data_is_held

object_place-ok_example :
    object_place (sha256_hex plain (codes "data"))
    ≡ ok (place plain plain_documented (codes "data"), place plain plain_documented (codes "data"))
object_place-ok_example =
    object_place-ok (sha256_hex plain (codes "data"))
      (sha256_hex-is_sha256_hex plain plain_documented (codes "data"))

abbrev pub data_file : FileManifest
data_file = record {
  relative_path = codes "a.txt";
  file_size = 4;
  file_mode = 420;
  file_sha256 = sha256_hex plain (codes "data");
  chunks =
      record {
        chunk_index = 0;
        raw_size = 4;
        compressed_size = 4;
        sha256 = sha256_hex plain (codes "data");
        object_path = place plain plain_documented (codes "data");
      }
      ∷ [];
}

pub assembled : assemble plain data_file.chunks [] filled ≡ ok (codes "data")
unfolding assemble
assembled = rw data_is_held refl

verify_file-restore_contents_example :
    (restore_contents plain data_file filled >>= λ _. ok tt)
    ≡ (if ltb 4 (2 ^ 63) then verify_file plain data_file filled else err length_error)
verify_file-restore_contents_example = verify_file-restore_contents plain data_file filled (λ d e.
    let q : codes "data" ≡ d = cc (assembled, e) in
    subst (λ (t : Bytes). length t < 2 ^ 64) q (omega arith))
