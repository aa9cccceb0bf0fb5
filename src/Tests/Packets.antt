-- ===== src/Tests/Packets.antt =====
-- The packet codec at a concrete packet.
use cpp_data_protection_core.Base.{◌≡◌, refl, arith, ◌++◌, IsBytes, codes}
use cpp_data_protection_core.Common.Error.{ok, ◌>>=◌}
use cpp_data_protection_core.Common.Hex.{all_of}
use cpp_data_protection_core.Common.Hex.Laws.{all_of-IsBytes}
use cpp_data_protection_core.Wal.Crc.{crc_bit, crc_rounds, crc_loop, crc32}
use cpp_data_protection_core.Packet.Words.{put16, put32, put64}
use cpp_data_protection_core.Packet.Codec.{
  Packet, encode, decode, is_valid_packet_type, header_before_crc, set_header_crc,
}
use cpp_data_protection_core.Packet.Codec.RoundTrip.{IsPacket, header, decode-header, decode-encode}
use cpp_data_protection_core.Packet.Codec.Sound.{encode-decode, decode-IsPacket}

abbrev hello : Packet
hello = record {
  type = 1;
  session_id_hash = 77;
  chunk_index = 0;
  chunk_sha256 = codes "0123456789abcdef0123456789abcdef";
  payload = codes "hi";
}

hello-IsPacket : IsPacket hello
unfolding is_valid_packet_type
hello-IsPacket = record {
  valid_type = refl;
  hash_fits = omega arith;
  index_fits = omega arith;
  sha_length = refl;
  fits = omega arith;
}

hello-IsBytes : IsBytes (header hello ++ hello.payload)
unfolding all_of header header_before_crc set_header_crc put16 put32 put64 crc32 crc_loop crc_rounds
    crc_bit
hello-IsBytes = all_of-IsBytes (header hello ++ hello.payload) refl

decode-encode_example : (encode hello >>= decode) ≡ ok hello
decode-encode_example = decode-encode hello hello-IsPacket

encode-decode_example : encode hello ≡ ok (header hello ++ hello.payload)
encode-decode_example =
    encode-decode (header hello ++ hello.payload) hello hello-IsBytes
      (decode-header hello hello-IsPacket)

decode-IsPacket_example : IsPacket hello
decode-IsPacket_example =
    decode-IsPacket (header hello ++ hello.payload) hello hello-IsBytes
      (decode-header hello hello-IsPacket)
