-- ===== src/Client/Resume.antt =====
-- A client that asks the server for its session learns which chunks the session has received.
use cpp_data_protection_core.Base.{
  ℕ, ◌<◌, ◌≤◌, ◌^◌, ◌*◌, ◌%◌, bit_xor, ltb, length, arith, ap, sym, ◌∙◌, ◌++◌, ◌≡◌, refl, false,
  List, [], ◌∷◌, Bytes, IsBytes, codes, null, All,
}
use cpp_data_protection_core.Common.Error.{Error, ok, ◌>>=◌}
use cpp_data_protection_core.Common.Hex.{all_of, hex_encode_string}
use cpp_data_protection_core.Common.Hex.Laws.{hex_decode_string-hex_encode_string}
use cpp_data_protection_core.Common.Map.{find, assign, same, lt_bytes}
use cpp_data_protection_core.Common.Map.Ascending.{IsAscending, assign-IsAscending, assign-All}
use cpp_data_protection_core.Manifest.Fields.{hex_encode_string-IsWord}
use cpp_data_protection_core.Repo.{Repo}
use cpp_data_protection_core.Packet.Codec.{
  Packet, query_session, session_status, max_payload_size, is_valid_packet_type, encode, decode,
}
use cpp_data_protection_core.Packet.Codec.RoundTrip.{IsPacket, header, encode-header, decode-encode}
use cpp_data_protection_core.Store.Compressor.{Libraries}
use cpp_data_protection_core.Session.Latest.{latest_sha, find-received_of}
use cpp_data_protection_core.Server.Connection.{Connection, respond}
use cpp_data_protection_core.Packet.Session.{session_hash, session_hash_from}
use cpp_data_protection_core.Session.{ReceivedChunkRecord, received_of}
use cpp_data_protection_core.Session.Text.{Entry, chunk, committed, IsEntry, IsReceived, chunks_of}
use cpp_data_protection_core.Session.Laws.{IsIndex, received-IsIndex}
use cpp_data_protection_core.Server.Fields.{fields_of, field, parse_text_fields}
use cpp_data_protection_core.Server.Handle.{
  zeros, text_packet, status_text, handle_query, handle_packet,
}
use cpp_data_protection_core.Server.Connection.Laws.{parse_text_fields-lines_text}
use cpp_data_protection_core.Client.Payload.{parse_status}
use cpp_data_protection_core.Client.Payload.Marker.{words_of}
use cpp_data_protection_core.Client.Payload.Status.{IsStatus, parse_status-status_text}
use cpp_data_protection_core.Client.Upload.{plain_packet, query_payload}

received_of-IsAscending :
    (rs : List ReceivedChunkRecord) (out : List (ℕ × Bytes))
    → IsAscending out
    → IsAscending (received_of rs out)
unfolding received_of
received_of-IsAscending [] out h = h
received_of-IsAscending (r ∷ rs) out h =
    received_of-IsAscending rs _ (assign-IsAscending r.global_index r.sha256 out h)

received_of-IsStatus :
    (rs : List ReceivedChunkRecord) (out : List (ℕ × Bytes))
    → All IsReceived rs
    → All IsStatus out
    → All IsStatus (received_of rs out)
unfolding received_of
received_of-IsStatus [] out h k = k
received_of-IsStatus (r ∷ rs) out h k = received_of-IsStatus rs _ h.1 (
    assign-All IsStatus r.global_index r.sha256 out (h.0.global_fits, h.0.sha_word)
      (λ j e. (rw e h.0.global_fits, h.0.sha_word)) k)

chunks_of-IsReceived : (es : List Entry) → All IsEntry es → All IsReceived (chunks_of es)
unfolding chunks_of
chunks_of-IsReceived [] h = tt
chunks_of-IsReceived (chunk r ∷ es) h = (h.0, chunks_of-IsReceived es h.1)
chunks_of-IsReceived (committed v ∷ es) h = chunks_of-IsReceived es h.1

-- The packet of the client's query.
abbrev pub query_packet : Bytes → Packet
query_packet session_id = plain_packet query_session session_id (query_payload session_id)

-- The packet of the server's answer.
abbrev status_packet : Bytes → List Entry → Packet
status_packet session_id es =
    text_packet session_status (session_hash session_id)
      (status_text (received_of (chunks_of es) []))

query_payload-fields :
    (session_id : Bytes)
    → null session_id ≡ false
    → parse_text_fields (query_payload session_id) (codes "DPC_QUERY_SESSION_V1")
      ≡ ok (fields_of (codes "session_hex" ∷ hex_encode_string session_id ∷ []) [])
unfolding query_payload all_of words_of
query_payload-fields session_id n =
    parse_text_fields-lines_text (codes "DPC_QUERY_SESSION_V1")
      ((codes "session_hex", hex_encode_string session_id) ∷ []) (refl, refl)
      (((refl, refl), hex_encode_string-IsWord session_id n), tt)

query_fields-session :
    (value : Bytes)
    → field (fields_of (codes "session_hex" ∷ value ∷ []) []) (codes "session_hex") ≡ ok value
unfolding field find same assign lt_bytes fields_of
query_fields-session value = refl

handle_query-status_packet :
    (session_id : Bytes) (es : List Entry) (repo : Repo)
    → null session_id ≡ false
    → IsBytes session_id
    → IsIndex session_id es repo
    → handle_query (query_packet session_id) repo ≡ (ok (status_packet session_id es), repo)
unfolding handle_query
handle_query-status_packet session_id es repo n b index =
    rw
      (
        query_payload-fields session_id n,
        query_fields-session (hex_encode_string session_id),
        hex_decode_string-hex_encode_string session_id b,
        received-IsIndex session_id es repo index,
      )
      refl

session_hash_from_lt :
    (text : Bytes) (hash : ℕ) → hash < 2 ^ 64 → session_hash_from hash text < 2 ^ 64
unfolding session_hash_from
session_hash_from_lt [] hash h = h
session_hash_from_lt (c ∷ text) hash h =
    session_hash_from_lt text (bit_xor hash c * 1099511628211 % 2 ^ 64) (omega arith)

status_packet-IsPacket :
    (session_id : Bytes) (es : List Entry)
    → length (status_packet session_id es).payload ≤ max_payload_size
    → IsPacket (status_packet session_id es)
unfolding text_packet zeros session_hash is_valid_packet_type
status_packet-IsPacket session_id es h = record {
  valid_type = refl;
  hash_fits = session_hash_from_lt session_id 1469598103934665603 (omega arith);
  index_fits = omega arith;
  sha_length = refl;
  fits = h;
}

handle_packet-query :
    (libs : Libraries) (now : ℕ) (session_id : Bytes) (repo : Repo)
    → handle_packet libs now (query_packet session_id) repo
      ≡ handle_query (query_packet session_id) repo
unfolding handle_packet
handle_packet-query libs now session_id repo = refl

-- A round in which the handler answers and the answer is a valid packet goes on behind the answer.
respond-encode :
    (libs : Libraries) (now : ℕ) (what : Error → Bytes) (loop : List Bytes → Repo → Connection)
    (sent : List Bytes) (packet reply : Packet) (repo later : Repo) (frame : Bytes)
    → handle_packet libs now packet repo ≡ (ok reply, later)
    → encode reply ≡ ok frame
    → respond libs now what loop sent (ok packet) repo ≡ loop (sent ++ frame ∷ []) later
unfolding respond
respond-encode libs now what loop sent packet reply repo later frame h e =
    rw (respond, h, e, h) refl

-- For a session that is named by bytes and has a well-formed file, and whose status text is no
-- longer than the greatest payload, the server's round for the client's query leaves the
-- repository as it is and sends one frame more; the frame decodes to a reply which the client
-- parses to a map that shows, under each index, the hash of the last chunk with that index in the
-- session file, and nothing where there is none.
pub respond-parse_status :
    (libs : Libraries) (now : ℕ) (what : Error → Bytes) (loop : List Bytes → Repo → Connection)
    (sent : List Bytes) (session_id : Bytes) (es : List Entry) (repo : Repo)
    → null session_id ≡ false
    → IsBytes session_id
    → IsIndex session_id es repo
    → length (status_text (received_of (chunks_of es) [])) ≤ max_payload_size
    → (frame : Bytes) × (reply : Packet) × (m : List (ℕ × Bytes)) × (respond libs now what loop sent
          (ok (query_packet session_id))
          repo
        ≡ loop (sent ++ frame ∷ []) repo)
      × (decode frame ≡ ok reply)
      × (parse_status reply ≡ ok m)
      × ((i : ℕ) → find ltb i m ≡ latest_sha i (chunks_of es))
unfolding text_packet
respond-parse_status libs now what loop sent session_id es repo n b index fits =
    let reply = status_packet session_id es in
    let packet = status_packet-IsPacket session_id es fits in
    (
      header reply ++ reply.payload,
      reply,
      received_of (chunks_of es) [],
      respond-encode libs now what loop sent (query_packet session_id) reply repo repo _
          (handle_packet-query libs now session_id repo
            ∙ handle_query-status_packet session_id es repo n b index)
          (encode-header reply packet),
      sym (ap (λ r. r >>= decode) (encode-header reply packet)) ∙ decode-encode reply packet,
      parse_status-status_text (session_hash session_id) _
          (received_of-IsStatus (chunks_of es) [] (chunks_of-IsReceived es index.entries) tt)
          (received_of-IsAscending (chunks_of es) [] tt),
      find-received_of (chunks_of es),
    )
