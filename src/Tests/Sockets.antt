-- ===== src/Tests/Sockets.antt =====
-- Packets that arrive at a socket, and bytes that leave through one.
use cpp_data_protection_core.Base.{◌≡◌, refl, arith, [], ◌∷◌, ◌++◌, Bytes, codes}
use cpp_data_protection_core.Common.Error.{Error, ok, invalid_argument}
use cpp_data_protection_core.Common.Hex.{all_of, hex_encode_string}
use cpp_data_protection_core.Repo.{empty_repo}
use cpp_data_protection_core.Packet.Codec.{Packet, commit_session, is_valid_packet_type}
use cpp_data_protection_core.Packet.Codec.RoundTrip.{IsPacket, header, encode-header}
use cpp_data_protection_core.Packet.Socket.{
  interrupted, Socket, leave, read_packet, wrote, write_interrupted, write_all,
}
use cpp_data_protection_core.Packet.Socket.Laws.{
  bytes_of, bytes_of-leave, leave-Quiet, read_packet-encode, write_all_prefix,
}
use cpp_data_protection_core.Client.Payload.{lines_text}
use cpp_data_protection_core.Server.Handle.{zeros}
use cpp_data_protection_core.Server.Connection.{terminated, handle_connection}
use cpp_data_protection_core.Server.Connection.Laws.{
  IsNoNumber, commit_text, handle_connection_terminated,
}
use cpp_data_protection_core.Tests.Repositories.{plain}

-- A commit whose number of chunks is a letter.
abbrev bad_commit : Packet
bad_commit = record {
  type = commit_session;
  session_id_hash = 0;
  chunk_index = 0;
  chunk_sha256 = zeros;
  payload = commit_text (codes "s") (codes "x");
}

bad_commit-IsPacket : IsPacket bad_commit
unfolding is_valid_packet_type zeros lines_text hex_encode_string
bad_commit-IsPacket = record {
  valid_type = refl;
  hash_fits = omega arith;
  index_fits = omega arith;
  sha_length = refl;
  fits = omega arith;
}

x-IsNoNumber : IsNoNumber (codes "x")
unfolding all_of
x-IsNoNumber = record {
  first = b'x';
  rest = [];
  is = refl;
  word = (refl, refl);
  no_digit = refl;
  no_minus = refl;
  no_plus = refl;
}

abbrev bad_frame : Bytes
bad_frame = header bad_commit ++ bad_commit.payload

-- The frame arrives behind a signal.
abbrev bad_socket : Socket
bad_socket = interrupted ∷ leave bad_frame []

read_packet-encode_example :
    (rest : Socket) × (read_packet bad_socket ≡ (ok bad_commit, rest)) × (bytes_of rest ≡ [])
read_packet-encode_example =
    read_packet-encode bad_commit bad_frame [] bad_socket bad_commit-IsPacket
      (encode-header bad_commit bad_commit-IsPacket) (leave-Quiet bad_frame [] tt)
      (bytes_of-leave bad_frame [])

abbrev no_text : Error → Bytes
no_text e = []

handle_connection_terminated_example :
    handle_connection plain 0 no_text 1 bad_socket [] empty_repo
    ≡ record { ending = terminated invalid_argument; sent = []; repo = empty_repo }
handle_connection_terminated_example =
    handle_connection_terminated plain 0 bad_commit (codes "s") (codes "x") no_text 0 bad_socket
      bad_frame [] [] empty_repo refl refl refl (omega arith) x-IsNoNumber bad_commit-IsPacket
      (encode-header bad_commit bad_commit-IsPacket) (leave-Quiet bad_frame [] tt)
      (bytes_of-leave bad_frame [])

write_all_prefix_example :
    (left : Bytes) × ((write_all (codes "abc") (wrote 2 ∷ write_interrupted ∷ wrote 5 ∷ [])).1
        ++ left
      ≡ codes "abc")
    × ((write_all (codes "abc") (wrote 2 ∷ write_interrupted ∷ wrote 5 ∷ [])).0 ≡ ok tt → left ≡ [])
write_all_prefix_example =
    write_all_prefix (codes "abc") (wrote 2 ∷ write_interrupted ∷ wrote 5 ∷ [])
