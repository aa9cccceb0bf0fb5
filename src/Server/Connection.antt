-- ===== src/Server/Connection.antt =====
-- `BackupServer::handleConnection` of src/network/BackupServer.cpp, over the socket's events. What is
-- sent arrives; `what` gives the texts of the errors.
pub mod Laws
use cpp_data_protection_core.Base.{ℕ, zero, suc, Bool, true, false, List, [], ◌∷◌, ◌++◌, Bytes}
use cpp_data_protection_core.Common.Error.{
  Error, Result, ok, err, socket_closed, invalid_argument, out_of_range, length_error,
}
use cpp_data_protection_core.Repo.{Repo}
use cpp_data_protection_core.Store.Compressor.{Libraries}
use cpp_data_protection_core.Packet.Codec.{Packet, error_packet, encode}
use cpp_data_protection_core.Packet.Socket.{Socket, read_packet}
use cpp_data_protection_core.Server.Handle.{text_packet, handle_packet}

-- What `catch (const DpcError&)` catches.
abbrev pub is_dpc_error : Error → Bool
is_dpc_error invalid_argument = false
is_dpc_error out_of_range = false
is_dpc_error length_error = false
is_dpc_error e = true

abbrev pub is_socket_closed : Error → Bool
is_socket_closed socket_closed = true
is_socket_closed e = false

-- How the handler leaves: by `return` or at the end of the loop, or by an exception that nothing
-- catches, which ends the whole server by `std::terminate`.
pub data Ending : Type 0 where
  returned : Ending
  terminated : Error → Ending

-- The frames that were sent, and the repository.
pub record Connection : Type 0 where
  pub ending : Ending
  pub sent : List Bytes
  pub repo : Repo

-- `sendError`, which hides its own errors.
unfoldable pub send_error : (Error → Bytes) → Error → List Bytes
send_error what e = elim (encode (text_packet error_packet 0 (what e ++ (10 ∷ [])))) [
  | ok frame ↦ frame ∷ []
  | err _ ↦ []
]

-- The `catch` clause, with what was sent before.
unfoldable pub caught : (Error → Bytes) → Error → List Bytes → Repo → Connection
unfolding send_error
caught what e sent repo = elim (is_dpc_error e) [
  | false ↦ record { ending = terminated e; sent = sent; repo = repo }
  | true ↦ record {
    ending = returned;
    sent = elim (is_socket_closed e) [ true ↦ sent | false ↦ sent ++ send_error what e ];
    repo = repo;
  }
]

module _ (libs : Libraries) (now : ℕ) (what : Error → Bytes) where
  -- One round of the loop behind `readPacket`; the loop goes on with what was sent and the repository.
  unfoldable pub respond :
      (List Bytes → Repo → Connection) → List Bytes → Result Packet → Repo → Connection
  unfolding caught
  respond loop sent (err e) repo = caught what e sent repo
  respond loop sent (ok packet) repo =
      let handled = handle_packet libs now packet repo in
      elim handled.0 [
        | err e ↦ caught what e sent handled.1
        | ok reply ↦ elim (encode reply) [
          | err e ↦ caught what e sent handled.1
          | ok frame ↦ loop (sent ++ frame ∷ []) handled.1
        ]
      ]

  -- The loop, where `stopped_` is set before the round of that number.
  unfoldable pub handle_connection : ℕ → Socket → List Bytes → Repo → Connection
  unfolding respond
  handle_connection zero socket sent repo = record { ending = returned; sent = sent; repo = repo }
  handle_connection (suc rounds) socket sent repo =
      let got = read_packet socket in respond (handle_connection rounds got.1) sent got.0 repo
