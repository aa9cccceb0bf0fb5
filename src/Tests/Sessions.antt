-- ===== src/Tests/Sessions.antt =====
-- A session of one chunk, on the way from the client to a manifest.
use cpp_data_protection_core.Base.{
  ℕ, ◌≡◌, refl, ◌∙◌, arith, inl, inr, some, List, [], ◌∷◌, ltb, ◌==◌, if◌then◌else◌, Bytes, codes,
}
use cpp_data_protection_core.Common.Error.{ok, err, session_missing_chunk}
use cpp_data_protection_core.Common.Hex.{all_of}
use cpp_data_protection_core.Common.Map.{find, assign, same}
use cpp_data_protection_core.Common.Types.{Manifest}
use cpp_data_protection_core.Repo.{Repo, empty_repo}
use cpp_data_protection_core.Repo.Directory.{read, write, read-write_self}
use cpp_data_protection_core.Store.{sha256_hex}
use cpp_data_protection_core.Store.Laws.{Holds}
use cpp_data_protection_core.Packet.Codec.{Packet, put_chunk_ack}
use cpp_data_protection_core.Packet.Session.{session_hash}
use cpp_data_protection_core.Session.{
  ReceivedChunkRecord, session_name, received_of, received, append_chunk,
}
use cpp_data_protection_core.Session.Text.{Entry, chunk, text_of, chunks_of}
use cpp_data_protection_core.Session.Laws.{IsIndex, remembered, append_chunk-refines}
use cpp_data_protection_core.Session.Build.{
  by_global, check_indices, manifest_of, build_records, build_manifest,
}
use cpp_data_protection_core.Session.Build.Keeps.{InManifest}
use cpp_data_protection_core.Session.Build.Laws.{
  build_manifest-IsIndex, build_manifest_complete, build_manifest_missing,
}
use cpp_data_protection_core.Common.Text.{decimal, decimal_loop}
use cpp_data_protection_core.Base.{length, ◌≤◌}
use cpp_data_protection_core.Packet.Codec.{decode, max_payload_size}
use cpp_data_protection_core.Common.Hex.{bytes_to_hex}
use cpp_data_protection_core.Session.Latest.{latest, latest_sha}
use cpp_data_protection_core.Server.Connection.{Connection, returned, respond}
use cpp_data_protection_core.Server.Put.{parse_put_payload}
use cpp_data_protection_core.Server.Handle.{text_packet, status_text, handle_packet}
use cpp_data_protection_core.Server.Handle.Stored.{kept, kept-IsReceived}
use cpp_data_protection_core.Server.Handle.Laws.{handle_packet-put}
use cpp_data_protection_core.Client.Payload.{PreparedChunk, make_put_payload, parse_status}
use cpp_data_protection_core.Client.Payload.Laws.{
  IsPrepared, put_payload, parse_put_payload-make_put_payload,
}
use cpp_data_protection_core.Client.Upload.{put_packet, send_chunks}
use cpp_data_protection_core.Client.Upload.Laws.{Lacking, send_chunks_needed}
use cpp_data_protection_core.Client.Resume.{query_packet, respond-parse_status}
use cpp_data_protection_core.Tests.Repositories.{plain, plain_documented}

abbrev session : Bytes
session = codes "s"

abbrev prepared : PreparedChunk
prepared = record {
  global_index = 0;
  relative_path = codes "a.txt";
  file_size = 4;
  file_mode = 420;
  file_sha256 = codes "ab";
  chunk_index = 0;
  chunk_sha256 = sha256_hex plain (codes "data");
  raw = codes "data";
  compressed = codes "data";
}

prepared-IsPrepared : IsPrepared session prepared
unfolding all_of
prepared-IsPrepared = record {
  session_some = refl;
  session_bytes = omega arith;
  path_some = refl;
  path_bytes = omega arith;
  sha_word = (refl, refl);
  size_fits = omega arith;
  mode_fits = omega arith;
  index_fits = omega arith;
  raw_fits = omega arith;
  compressed_fits = omega arith;
}

parse_put_payload-make_put_payload_example :
    parse_put_payload (make_put_payload session prepared) ≡ ok (put_payload session prepared)
parse_put_payload-make_put_payload_example =
    parse_put_payload-make_put_payload session prepared prepared-IsPrepared

-- The session has no file yet.
empty_repo-IsIndex : IsIndex session [] empty_repo
unfolding read
empty_repo-IsIndex = record { entries = tt; text = inr (refl, refl) }

handle_packet-put_example :
    ((handle_packet plain 0
        (put_packet session prepared (plain.sha256 (codes "data")))
        empty_repo).0
      ≡ ok (text_packet put_chunk_ack (session_hash session) (codes "ok\n")))
    × Holds plain plain_documented
        (handle_packet plain 0
          (put_packet session prepared (plain.sha256 (codes "data")))
          empty_repo).1
        (codes "data")
    × ((after : List (ℕ × Bytes)) × (received session
            (handle_packet plain 0
              (put_packet session prepared (plain.sha256 (codes "data")))
              empty_repo).1
          ≡ ok after)
        × (find ltb 0 after ≡ (
            if 0 == 0
            then some (sha256_hex plain (codes "data"))
            else find ltb 0 (received_of (chunks_of []) []))))
handle_packet-put_example =
    handle_packet-put plain plain_documented 0 session prepared empty_repo [] 0 prepared-IsPrepared
      (omega arith) refl (omega arith) (inl (unfold read in refl)) empty_repo-IsIndex
      (inl (unfold find received_of chunks_of in refl))

abbrev one : ReceivedChunkRecord
one = kept plain prepared

append_chunk-refines_example :
    ((append_chunk session one empty_repo).0 ≡ (remembered [] one).0)
    × IsIndex session (remembered [] one).1 (append_chunk session one empty_repo).1
append_chunk-refines_example =
    append_chunk-refines session [] one empty_repo
      (kept-IsReceived plain plain_documented session prepared prepared-IsPrepared (omega arith))
      empty_repo-IsIndex

build_manifest_missing_example : build_manifest 1 1 0 session empty_repo ≡ err session_missing_chunk
build_manifest_missing_example =
    build_manifest_missing session [] empty_repo empty_repo-IsIndex 1 1 0 0 (omega arith)
      (unfold latest chunks_of in refl)

-- A repository whose session has received the chunk.
abbrev lines : List Entry
lines = chunk one ∷ []

abbrev begun : Repo
begun = record empty_repo { sessions = write (session_name session) (text_of lines) [] }

begun-IsIndex : IsIndex session lines begun
begun-IsIndex = record {
  entries = (
    kept-IsReceived plain plain_documented session prepared prepared-IsPrepared (omega arith),
    tt,
  );
  text = inl (read-write_self (session_name session) (text_of lines) []);
}

abbrev built : Manifest
built = manifest_of 1 0 session (by_global (chunks_of lines) [])

builds : build_manifest 1 1 0 session begun ≡ ok built
unfolding build_records check_indices find same by_global chunks_of assign
builds = build_manifest-IsIndex session lines begun begun-IsIndex 1 1 0 ∙ refl

build_manifest_complete_example :
    (r : ReceivedChunkRecord) × (latest 0 (chunks_of lines) ≡ some r) × InManifest r built
build_manifest_complete_example =
    build_manifest_complete session lines begun begun-IsIndex 1 1 0 built 0 builds (omega arith)

short_status : length (status_text (received_of (chunks_of lines) [])) ≤ max_payload_size
unfolding status_text received_of chunks_of assign decimal decimal_loop sha256_hex bytes_to_hex
short_status = omega arith

-- The rest of the connection.
abbrev closing : List Bytes → Repo → Connection
closing sent repo = record { ending = returned; sent = sent; repo = repo }

respond-parse_status_example :
    (frame : Bytes) × (reply : Packet) × (m : List (ℕ × Bytes)) × (respond plain 0
        (λ _. [])
        closing
        []
        (ok (query_packet session))
        begun
      ≡ closing (frame ∷ []) begun)
    × (decode frame ≡ ok reply)
    × (parse_status reply ≡ ok m)
    × ((i : ℕ) → find ltb i m ≡ latest_sha i (chunks_of lines))
respond-parse_status_example =
    respond-parse_status plain 0 (λ _. []) closing [] session lines begun refl (omega arith)
      begun-IsIndex short_status

abbrev known : List (ℕ × Bytes)
known = (0, sha256_hex plain (codes "data")) ∷ []

send_chunks_needed_example :
    (needed : List PreparedChunk) × Lacking known (prepared ∷ []) needed
    × (send_chunks session 0 known 0 (prepared ∷ []) ≡ send_chunks session 0 [] 0 needed)
send_chunks_needed_example = send_chunks_needed session 0 known 0 (prepared ∷ [])
