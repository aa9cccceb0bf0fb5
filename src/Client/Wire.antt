-- ===== src/Client/Wire.antt =====
-- The client's end of the connection: the frames that it has sent and what its socket will give.
use cpp_data_protection_core.Base.{List, [], ◌∷◌, ◌++◌, Bytes}
use cpp_data_protection_core.Common.Error.{Result, ok, err}
use cpp_data_protection_core.Packet.Codec.{Packet, encode}
use cpp_data_protection_core.Packet.Socket.{Socket, read_packet}

pub record Wire : Type 0 where
  pub sent : List Bytes
  pub socket : Socket

abbrev pub Talk : Type 0 → Type 0
Talk A = Wire → Result A × Wire

module _ {A : Type 0} where
  abbrev pub pure : A → Talk A
  pure a wire = (ok a, wire)

  abbrev pub lift : Result A → Talk A
  lift r wire = (r, wire)

module _ {A B : Type 0} where
  abbrev pub go_on : Result A → (A → Talk B) → Talk B
  go_on (ok a) f wire = f a wire
  go_on (err e) f wire = (err e, wire)

  infixl 5 ◌>>=◌
  abbrev pub ◌>>=◌ : Talk A → (A → Talk B) → Talk B
  (m >>= f) wire = go_on (m wire).0 f (m wire).1

  infixl 5 ◌>>◌
  abbrev pub ◌>>◌ : Talk A → Talk B → Talk B
  (m >> k) wire = go_on (m wire).0 (λ _. k) (m wire).1

-- `PacketCodec::writePacket`, where the socket takes the whole frame.
unfoldable pub send : Packet → Talk (Unit {0})
send packet wire = elim (encode packet) [
  | err e ↦ (err e, wire)
  | ok frame ↦ (ok tt, record wire { sent = wire.sent ++ frame ∷ [] })
]

-- `PacketCodec::readPacket`.
unfoldable pub receive : Talk Packet
receive wire = let got = read_packet wire.socket in (got.0, record wire { socket = got.1 })

-- A request and its answer.
unfoldable pub exchange : Packet → Talk Packet
unfolding send receive
exchange packet = do send packet; receive
