-- ===== src/Server/Handle.antt =====
-- `BackupServer::handlePacket` of src/network/BackupServer.cpp: what a packet does to the repository, and
-- the packet that `sendText` builds at the end of each branch. `sendText` then encodes and writes it,
-- which is in `respond` of Server/Connection, with the error of a payload that is too large. The clock
-- comes with its value.
pub mod Stored
pub mod Laws
use cpp_data_protection_core.Base.{
  ℕ, ◌==◌, not, List, [], ◌∷◌, ◌++◌, Bytes, codes, equal, if◌then◌else◌,
}
use cpp_data_protection_core.Common.Error.{
  Result, ok, err, throw_if, put_chunk_checksum, unsupported_packet_type,
}
use cpp_data_protection_core.Common.Hex.{hex_decode_string}
use cpp_data_protection_core.Common.Text.{decimal}
use cpp_data_protection_core.Wal.Record.{
  begin_backup, write_manifest, rename_manifest, commit_backup,
}
use cpp_data_protection_core.Manifest.Versions.{
  next_version, write_tmp, rename_tmp_to_manifest, create_commit_marker,
}
use cpp_data_protection_core.Metadata.Recovery.{wal_append, refresh_checkpoint}
use cpp_data_protection_core.Repo.Action.{Action, ◌>>=◌, ◌>>◌, lift, query, pure}
use cpp_data_protection_core.Store.{PutObjectResult, put_compressed, sha256_hex}
use cpp_data_protection_core.Store.Compressor.{Libraries, decompress}
use cpp_data_protection_core.Packet.Codec.{
  Packet, PacketType, hello, query_session, session_status, put_chunk, put_chunk_ack,
  commit_session, commit_ack,
}
use cpp_data_protection_core.Packet.Session.{sha_hex_from_array}
use cpp_data_protection_core.Session.{ReceivedChunkRecord, received, append_chunk, mark_committed}
use cpp_data_protection_core.Session.Build.{build_manifest}
use cpp_data_protection_core.Server.Fields.{parse_text_fields, field, parse_u64}
use cpp_data_protection_core.Server.Put.{PutPayload, parse_put_payload}
use cpp_data_protection_core.Engine.Backup.{version_text}

-- The packet of `sendText`; the chunk index and the hash keep their defaults.
unfoldable pub zeros : Bytes
zeros =
    0 ∷ 0 ∷ 0 ∷ 0 ∷ 0 ∷ 0 ∷ 0 ∷ 0 ∷ 0 ∷ 0 ∷ 0 ∷ 0 ∷ 0 ∷ 0 ∷ 0 ∷ 0 ∷ 0 ∷ 0 ∷ 0 ∷ 0 ∷ 0 ∷ 0 ∷ 0 ∷ 0
    ∷ 0 ∷ 0 ∷ 0 ∷ 0 ∷ 0 ∷ 0 ∷ 0 ∷ 0 ∷ []

unfoldable pub text_packet : PacketType → ℕ → Bytes → Packet
text_packet type session_hash text = record {
  type = type;
  session_id_hash = session_hash;
  chunk_index = 0;
  chunk_sha256 = zeros;
  payload = text;
}

unfoldable pub status_lines : List (ℕ × Bytes) → Bytes
status_lines [] = []
status_lines ((chunk_index, sha) ∷ m) =
    decimal chunk_index ++ (b' ' ∷ (sha ++ (10 ∷ status_lines m)))

unfoldable pub status_text : List (ℕ × Bytes) → Bytes
unfolding status_lines
status_text m = codes "DPC_SESSION_STATUS_V1" ++ (10 ∷ status_lines m)

abbrev pub received_record : Packet → PutPayload → Bytes → PutObjectResult → ReceivedChunkRecord
received_record packet put sha stored = record {
  global_index = packet.chunk_index;
  sha256 = sha;
  relative_path = put.relative_path;
  file_size = put.file_size;
  file_mode = put.file_mode;
  file_sha256 = put.file_sha256;
  chunk_index = put.chunk_index;
  raw_size = put.raw_size;
  compressed_size = stored.compressed_size;
  object_path = stored.object_path;
}

abbrev pub network_text : ℕ → Bytes
network_text version = codes "network-version=" ++ (decimal version ++ codes "\n")

unfoldable pub handle_query : Packet → Action Packet
unfolding status_text text_packet
handle_query packet = do
  fields ← lift (parse_text_fields packet.payload (codes "DPC_QUERY_SESSION_V1"))
  session_hex ← lift (field fields (codes "session_hex"))
  session_id ← lift (hex_decode_string session_hex)
  m ← query (received session_id)
  pure (text_packet session_status packet.session_id_hash (status_text m))

module _ (libs : Libraries) (now : ℕ) where
  unfoldable pub handle_put : Packet → Action Packet
  unfolding text_packet
  handle_put packet = do
    put ← lift (parse_put_payload packet.payload)
    raw ← lift (decompress libs put.compressed put.raw_size)
    lift (
        throw_if (not (equal (sha256_hex libs raw) (sha_hex_from_array packet.chunk_sha256)))
          put_chunk_checksum)
    stored ← put_compressed libs (sha256_hex libs raw) put.compressed put.raw_size
    append_chunk put.session_id (received_record packet put (sha256_hex libs raw) stored)
    pure (text_packet put_chunk_ack packet.session_id_hash (codes "ok\n"))

  unfoldable pub handle_commit : Packet → Action Packet
  unfolding text_packet
  handle_commit packet = do
    fields ← lift (parse_text_fields packet.payload (codes "DPC_COMMIT_V1"))
    session_hex ← lift (field fields (codes "session_hex"))
    session_id ← lift (hex_decode_string session_hex)
    total_chunks ← lift (parse_u64 fields (codes "total_chunks"))
    version ← query next_version
    wal_append begin_backup (network_text version)
    manifest ← query (build_manifest version total_chunks now session_id)
    write_tmp version manifest
    wal_append write_manifest (version_text version)
    rename_tmp_to_manifest version
    wal_append rename_manifest (version_text version)
    create_commit_marker version
    wal_append commit_backup (version_text version)
    _ ← refresh_checkpoint
    mark_committed session_id version
    pure (
        text_packet commit_ack packet.session_id_hash
          (codes "committed_version " ++ (decimal version ++ codes "\n")))

  unfoldable pub handle_packet : Packet → Action Packet
  unfolding handle_query handle_put handle_commit text_packet
  handle_packet packet =
      if packet.type == hello
      then pure (text_packet hello packet.session_id_hash (codes "DPC_SERVER_V1\n"))
      else if packet.type == query_session
      then handle_query packet
      else if packet.type == put_chunk
      then handle_put packet
      else if packet.type == commit_session
      then handle_commit packet
      else lift (err unsupported_packet_type)
