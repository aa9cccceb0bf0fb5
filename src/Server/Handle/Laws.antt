-- ===== src/Server/Handle/Laws.antt =====
-- A chunk that the client sends is stored, recorded in the session and acknowledged.
use cpp_data_protection_core.Base.{
  ℕ, ◌<◌, ◌^◌, ◌≡◌, ◌⊎◌, inl, inr, refl, ap, ◌∙◌, true, none, some, List, [], Bytes, codes, equal,
  equal_refl, length, if◌then◌else◌, ltb, ◌==◌,
}
use cpp_data_protection_core.Common.Error.{Result, ok}
use cpp_data_protection_core.Common.Hex.{bytes_to_hex}
use cpp_data_protection_core.Common.Map.{find}
use cpp_data_protection_core.Repo.{Repo}
use cpp_data_protection_core.Store.{sha256_hex}
use cpp_data_protection_core.Store.Compressor.{Libraries, Documented, content_size_error}
use cpp_data_protection_core.Store.Laws.{Holds}
use cpp_data_protection_core.Packet.Codec.{Packet, put_chunk_ack}
use cpp_data_protection_core.Packet.Session.{session_hash, sha_hex_from_array}
use cpp_data_protection_core.Session.{received, received_of, append_chunk}
use cpp_data_protection_core.Session.Text.{Entry, chunks_of}
use cpp_data_protection_core.Session.Laws.{
  IsIndex, remember, remembered, append_chunk-refines, append_chunk-received,
}
use cpp_data_protection_core.Client.Payload.{PreparedChunk}
use cpp_data_protection_core.Client.Payload.Laws.{IsPrepared, parse_put_payload-make_put_payload}
use cpp_data_protection_core.Client.Upload.{put_packet}
use cpp_data_protection_core.Server.Handle.{text_packet, handle_put, handle_packet}
use cpp_data_protection_core.Server.Handle.Stored.{
  Ready, Stored, Ready-Stored, decompress-sized, Holds-objects, IsIndex-sessions,
  append_chunk-objects, kept, kept-IsReceived,
}

module _ (libs : Libraries) (doc : Documented libs) (now : ℕ) (session_id : Bytes)
    (chunk : PreparedChunk) where
  -- The packet of the chunk, with the digest of its bytes.
  abbrev sent : Packet
  sent = put_packet session_id chunk (libs.sha256 chunk.raw)

  handle_put-append_chunk :
      (repo : Repo)
      → IsPrepared session_id chunk
      → libs.zstd_compress chunk.raw ≡ some chunk.compressed
      → length chunk.raw < content_size_error
      → (s : Stored libs doc repo chunk)
      → (append_chunk session_id (kept libs chunk) s.after).0 ≡ ok tt
      → handle_put libs now sent repo ≡ (
        ok (text_packet put_chunk_ack (session_hash session_id) (codes "ok\n")),
        (append_chunk session_id (kept libs chunk) s.after).1,
      )
  unfolding handle_put
  handle_put-append_chunk repo h e l s a =
      rw
        (
          parse_put_payload-make_put_payload session_id chunk h,
          decompress-sized libs doc chunk.raw chunk.compressed e l,
          sha_matches,
          s.put,
        )
        (rw a refl)
    where
      sha_matches :
          equal (sha256_hex libs chunk.raw) (sha_hex_from_array (libs.sha256 chunk.raw)) ≡ true
      sha_matches =
          unfold sha256_hex sha_hex_from_array in equal_refl (bytes_to_hex (libs.sha256 chunk.raw))

  handle_packet-handle_put :
      (repo : Repo) → handle_packet libs now sent repo ≡ handle_put libs now sent repo
  unfolding handle_packet
  handle_packet-handle_put repo = refl

  -- The session knows nothing else under the index.
  abbrev Agrees : List Entry → Type 0
  Agrees es =
      (find ltb chunk.global_index (received_of (chunks_of es) []) ≡ none)
      ⊎ (find ltb chunk.global_index (received_of (chunks_of es) [])
          ≡ some (sha256_hex libs chunk.raw))

  remembered-Agrees : (es : List Entry) → Agrees es → (remembered es (kept libs chunk)).0 ≡ ok tt
  unfolding remembered remember
  remembered-Agrees es (inl e) = rw e refl
  remembered-Agrees es (inr e) = rw (e, remember, equal_refl (sha256_hex libs chunk.raw)) refl

  -- When the client puts a chunk that it prepared within the ranges of its fields, zstd compressed
  -- the chunk, the object's place is free or holds the same frame, and the session file is well
  -- formed and knows no other hash under the index, then the server acknowledges the packet, the
  -- store holds the chunk, and the session afterwards has its hash under its index and every other
  -- index as before.
  pub handle_packet-put :
      (repo : Repo) (es : List Entry) (j : ℕ)
      → IsPrepared session_id chunk
      → chunk.global_index < 2 ^ 64
      → libs.zstd_compress chunk.raw ≡ some chunk.compressed
      → length chunk.raw < content_size_error
      → Ready libs doc repo chunk
      → IsIndex session_id es repo
      → Agrees es
      → ((handle_packet libs now sent repo).0
          ≡ ok (text_packet put_chunk_ack (session_hash session_id) (codes "ok\n")))
        × Holds libs doc (handle_packet libs now sent repo).1 chunk.raw
        × ((after : List (ℕ × Bytes)) × (received session_id (handle_packet libs now sent repo).1
              ≡ ok after)
            × (find ltb j after ≡ (
                if chunk.global_index == j
                then some (sha256_hex libs chunk.raw)
                else find ltb j (received_of (chunks_of es) []))))
  handle_packet-put repo es j h g e l ready index agrees =
      let s : Stored libs doc repo chunk = Ready-Stored libs doc repo chunk e l ready in
      let i : IsIndex session_id es s.after =
        IsIndex-sessions session_id es repo s.after s.sessions index in
      let k : _ = kept-IsReceived libs doc session_id chunk h g in
      let a : (append_chunk session_id (kept libs chunk) s.after).0 ≡ ok tt =
        (append_chunk-refines session_id es (kept libs chunk) s.after k i).0
        ∙ remembered-Agrees es agrees in
      let done : _ = handle_packet-handle_put repo ∙ handle_put-append_chunk repo h e l s a in
      (
        ap (λ (p : Result Packet × Repo). p.0) done,
        rw done (
            Holds-objects libs doc chunk.raw s.after _
              (append_chunk-objects session_id (kept libs chunk) s.after) s.held),
        rw done (append_chunk-received session_id es (kept libs chunk) s.after j k i a),
      )
