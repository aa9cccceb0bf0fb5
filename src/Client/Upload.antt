-- ===== src/Client/Upload.antt =====
-- `BackupClient::upload` of src/network/BackupClient.cpp, from the chunks that were prepared and a
-- connection that stands.
pub mod Laws
use cpp_data_protection_core.Base.{
  ℕ, ◌+◌, ◌==◌, not, ◌&&◌, leb, ltb, none, some, Option, List, [], ◌∷◌, ◌++◌, Bytes, codes, equal,
  length, if◌then◌else◌, Bool, true, false,
}
use cpp_data_protection_core.Common.Error.{
  Result, err, throw_if, expected_put_chunk_ack, expected_commit_ack,
}
use cpp_data_protection_core.Common.Hex.{hex_encode_string}
use cpp_data_protection_core.Common.Text.{decimal}
use cpp_data_protection_core.Common.Map.{find}
use cpp_data_protection_core.Packet.Codec.{
  Packet, PacketType, hello, query_session, put_chunk, put_chunk_ack, commit_session, commit_ack,
}
use cpp_data_protection_core.Packet.Session.{session_hash, sha_array_from_hex}
use cpp_data_protection_core.Client.Payload.{
  PreparedChunk, lines_text, make_put_payload, require_not_error, parse_status,
}
use cpp_data_protection_core.Client.Wire.{Talk, ◌>>=◌, ◌>>◌, lift, pure, exchange}
use cpp_data_protection_core.Server.Handle.{zeros}

-- A packet whose chunk index and hash keep their defaults.
abbrev pub plain_packet : PacketType → Bytes → Bytes → Packet
plain_packet type session_id payload = record {
  type = type;
  session_id_hash = session_hash session_id;
  chunk_index = 0;
  chunk_sha256 = zeros;
  payload = payload;
}

unfoldable pub query_payload : Bytes → Bytes
query_payload session_id =
    codes "DPC_QUERY_SESSION_V1"
    ++ (10 ∷ lines_text ((codes "session_hex", hex_encode_string session_id) ∷ []) [])

unfoldable pub commit_payload : Bytes → ℕ → Bytes
commit_payload session_id total_chunks =
    codes "DPC_COMMIT_V1"
    ++ (10
        ∷ lines_text
            ((codes "session_hex", hex_encode_string session_id)
              ∷ (codes "total_chunks", decimal total_chunks)
              ∷ [])
            [])

-- The packet of one chunk, with the bytes of its hash.
abbrev pub put_packet : Bytes → PreparedChunk → Bytes → Packet
put_packet session_id chunk sha_array = record {
  type = put_chunk;
  session_id_hash = session_hash session_id;
  chunk_index = chunk.global_index;
  chunk_sha256 = sha_array;
  payload = make_put_payload session_id chunk;
}

-- `found != received.end() && found->second == chunk.chunk_sha256`
unfoldable pub is_received : Option Bytes → Bytes → Bool
is_received none sha = false
is_received (some found) sha = equal found sha

unfoldable pub send_chunk : Bytes → PreparedChunk → Talk (Unit {0})
unfolding make_put_payload
send_chunk session_id chunk = do
  sha_array ← lift (sha_array_from_hex chunk.chunk_sha256)
  ack ← exchange (put_packet session_id chunk sha_array)
  lift (require_not_error ack)
  lift (throw_if (not (ack.type == put_chunk_ack)) expected_put_chunk_ack)

-- How the loop over the chunks ends: behind the last one, or early with the exit status 75.
pub data LoopEnd : Type 0 where
  all_sent exit_early : LoopEnd

unfoldable pub send_chunks : Bytes → ℕ → List (ℕ × Bytes) → ℕ → List PreparedChunk → Talk LoopEnd
unfolding is_received send_chunk
send_chunks session_id exit_after received sent [] = pure all_sent
send_chunks session_id exit_after received sent (chunk ∷ chunks) =
    let skip = send_chunks session_id exit_after received sent chunks in
    let others = send_chunks session_id exit_after received (sent + 1) chunks in
    if is_received (find ltb chunk.global_index received) chunk.chunk_sha256 then skip else (do
      send_chunk session_id chunk
      if ltb 0 exit_after && leb exit_after (sent + 1) then pure exit_early else others)

-- The end of `upload`, with the exit status and what is printed.
unfoldable pub finish : Bytes → ℕ → LoopEnd → Talk (ℕ × Bytes)
unfolding commit_payload
finish session_id total_chunks exit_early = pure (75, [])
finish session_id total_chunks all_sent = do
  ack ← exchange (plain_packet commit_session session_id (commit_payload session_id total_chunks))
  lift (require_not_error ack)
  lift (throw_if (not (ack.type == commit_ack)) expected_commit_ack)
  pure (0, ack.payload)

unfoldable pub upload : List PreparedChunk → Bytes → ℕ → Talk (ℕ × Bytes)
unfolding query_payload send_chunks finish
upload chunks session_id exit_after = do
  answer ← exchange (plain_packet hello session_id (codes "DPC_CLIENT_V1\n"))
  lift (require_not_error answer)
  status ← exchange (plain_packet query_session session_id (query_payload session_id))
  received ← lift (parse_status status)
  ended ← send_chunks session_id exit_after received 0 chunks
  finish session_id (length chunks) ended
