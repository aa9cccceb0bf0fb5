-- ===== src/Packet/Socket.antt =====
-- `readExact`, `readPacket` and `writePacket` of src/network/PacketCodec.cpp, and `writeAll` of
-- include/dpc/common/FileUtils.hpp. What `read` and `write` will give is a list of events.
pub mod Laws
use cpp_data_protection_core.Base.{
  ℕ, zero, suc, ◌+◌, ◌-◌, ltb, leb, ◌==◌, Bool, true, false, List, [], ◌∷◌, ◌++◌, Bytes, length,
  null, take, drop, if◌then◌else◌,
}
use cpp_data_protection_core.Common.Error.{
  Result, ok, err, socket_closed, socket_read_failed, packet_payload_too_large, write_failed,
  write_returned_zero, out_of_fuel,
}
use cpp_data_protection_core.Packet.Words.{get32}
use cpp_data_protection_core.Packet.Codec.{Packet, header_size, max_payload_size, encode, decode}

-- At least one byte that has arrived, a signal (EINTR), or another error. After the last event the
-- peer has closed the connection.
pub data Event : Type 0 where
  arrived : ℕ → Bytes → Event
  interrupted failed : Event

abbrev pub Socket : Type 0
Socket = List Event

-- `read` takes at most what it was asked for, and the rest stays in the socket.
unfoldable pub leave : Bytes → Socket → Socket
leave [] socket = socket
leave (b ∷ bs) socket = arrived b bs ∷ socket

-- The loop of `readExact`, with the bytes that are still wanted and those read so far.
unfoldable pub read_exact : ℕ → Bytes → Socket → Result Bytes × Socket
unfolding leave
read_exact zero done socket = (ok done, socket)
read_exact (suc left) done [] = (err socket_closed, [])
read_exact (suc left) done (interrupted ∷ socket) = read_exact (suc left) done socket
read_exact (suc left) done (failed ∷ socket) = (err socket_read_failed, socket)
read_exact (suc left) done (arrived b bs ∷ socket) =
    let more = read_exact (suc left - length (b ∷ bs)) (done ++ b ∷ bs) socket in
    if leb (suc left) (length (b ∷ bs))
    then (ok (done ++ take (suc left) (b ∷ bs)), leave (drop (suc left) (b ∷ bs)) socket)
    else more

-- The second half of `readPacket`, behind the header.
unfoldable pub read_payload : Result Bytes → Socket → Result Packet × Socket
read_payload (err e) socket = (err e, socket)
read_payload (ok header) socket =
    let payload_size = get32 header 24 in
    let frame = read_exact payload_size header socket in
    if ltb max_payload_size payload_size
    then (err packet_payload_too_large, socket)
    else (elim frame.0 [ ok whole ↦ decode whole | err e ↦ err e ], frame.1)

unfoldable pub read_packet : Socket → Result Packet × Socket
unfolding read_exact read_payload
read_packet socket = let header = read_exact header_size [] socket in read_payload header.0 header.1

-- What a call of `write` gives: it took some bytes, was interrupted, or failed.
pub data WriteEvent : Type 0 where
  wrote : ℕ → WriteEvent
  write_interrupted write_error : WriteEvent

-- The loop of `writeAll` over the bytes that are left; the bytes that went out come back too. The model
-- stops where no more events are given.
unfoldable pub write_all : Bytes → List WriteEvent → Result (Unit {0}) × Bytes
write_all [] events = (ok tt, [])
write_all (b ∷ bs) [] = (err out_of_fuel, [])
write_all (b ∷ bs) (write_interrupted ∷ events) = write_all (b ∷ bs) events
write_all (b ∷ bs) (write_error ∷ events) = (err write_failed, [])
write_all (b ∷ bs) (wrote zero ∷ events) = (err write_returned_zero, [])
write_all (b ∷ bs) (wrote (suc n) ∷ events) =
    let rest = write_all (drop (suc n) (b ∷ bs)) events in (rest.0, take (suc n) (b ∷ bs) ++ rest.1)

unfoldable pub write_packet : Packet → List WriteEvent → Result (Unit {0}) × Bytes
unfolding write_all
write_packet packet events = elim (encode packet) [
  | err e ↦ (err e, [])
  | ok frame ↦ write_all frame events
]
