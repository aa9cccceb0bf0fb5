-- ===== src/Packet/Codec.antt =====
-- `PacketType`, `Packet`, `PacketCodec::encode` and `PacketCodec::decode`.
-- A packet type is the number that the C++ enumeration carries; the 32-byte array is a list.
pub mod RoundTrip
pub mod Sound
use cpp_data_protection_core.Base.{
  ℕ, ◌+◌, ◌*◌, Bool, not, ◌||◌, ◌==◌, ltb, [], ◌++◌, Bytes, length, take, drop, set,
}
use cpp_data_protection_core.Common.Error.{
  Result, ok, ◌>>=◌, ◌>>◌, throw_if, packet_type_mismatch, packet_payload_too_large,
  packet_frame_too_small, packet_magic_mismatch, packet_version_mismatch,
  packet_frame_size_mismatch, packet_header_crc_mismatch,
}
use cpp_data_protection_core.Wal.Crc.{crc32}
use cpp_data_protection_core.Packet.Words.{byte_at, put16, put32, put64, get16, get32, get64}

abbrev pub PacketType : Type 0
PacketType = ℕ

abbrev pub hello : PacketType
hello = 1

abbrev pub query_session : PacketType
query_session = 2

abbrev pub session_status : PacketType
session_status = 3

abbrev pub put_chunk : PacketType
put_chunk = 4

abbrev pub put_chunk_ack : PacketType
put_chunk_ack = 5

abbrev pub commit_session : PacketType
commit_session = 6

abbrev pub commit_ack : PacketType
commit_ack = 7

abbrev pub error_packet : PacketType
error_packet = 8

pub record Packet : Type 0 where
  pub type : PacketType
  pub session_id_hash : ℕ
  pub chunk_index : ℕ
  pub chunk_sha256 : Bytes
  pub payload : Bytes

abbrev pub packet_magic : ℕ
packet_magic = 0x44504350

abbrev pub packet_version : ℕ
packet_version = 1

abbrev pub header_size : ℕ
header_size = 64

abbrev pub max_payload_size : ℕ
max_payload_size = 8 * 1024 * 1024

unfoldable pub is_valid_packet_type : ℕ → Bool
is_valid_packet_type t =
    t == hello
    || t == query_session
    || t == session_status
    || t == put_chunk
    || t == put_chunk_ack
    || t == commit_session
    || t == commit_ack
    || t == error_packet

-- `header[28]` to `header[31]`.
unfoldable pub set_header_crc : Bytes → ℕ → ℕ → ℕ → ℕ → Bytes
set_header_crc header a b c d = set (set (set (set header 28 a) 29 b) 30 c) 31 d

unfoldable pub zero_header_crc : Bytes → Bytes
unfolding set_header_crc
zero_header_crc header = set_header_crc header 0 0 0 0

-- The header with its checksum field 0, as `encode` builds it.
unfoldable pub header_before_crc : Packet → Bytes
header_before_crc packet =
    let header = put32 [] packet_magic in
    let header = put16 header packet_version in
    let header = put16 header packet.type in
    let header = put64 header packet.session_id_hash in
    let header = put64 header packet.chunk_index in
    let header = put32 header (length packet.payload) in put32 header 0 ++ packet.chunk_sha256

unfoldable pub encode : Packet → Result Bytes
unfolding header_before_crc set_header_crc
encode packet = do
  throw_if (not (is_valid_packet_type packet.type)) packet_type_mismatch
  throw_if (ltb max_payload_size (length packet.payload)) packet_payload_too_large
  let header = header_before_crc packet
  let crc = crc32 header
  let header =
      set_header_crc header (byte_at crc 24) (byte_at crc 16) (byte_at crc 8) (byte_at crc 0)
  ok (header ++ packet.payload)

unfoldable pub decode : Bytes → Result Packet
decode frame = do
  throw_if (ltb (length frame) header_size) packet_frame_too_small
  let header = take header_size frame
  let magic = get32 header 0
  let version = get16 header 4
  let type = get16 header 6
  let session_hash = get64 header 8
  let chunk_index = get64 header 16
  let payload_size = get32 header 24
  let expected_crc = get32 header 28
  throw_if (not (magic == packet_magic)) packet_magic_mismatch
  throw_if (not (version == packet_version)) packet_version_mismatch
  throw_if (not (is_valid_packet_type type)) packet_type_mismatch
  throw_if (ltb max_payload_size payload_size) packet_payload_too_large
  throw_if (not (length frame == header_size + payload_size)) packet_frame_size_mismatch
  throw_if (not (crc32 (zero_header_crc header) == expected_crc)) packet_header_crc_mismatch
  ok (record {
    type = type;
    session_id_hash = session_hash;
    chunk_index = chunk_index;
    chunk_sha256 = take 32 (drop 32 frame);
    payload = drop header_size frame;
  })
