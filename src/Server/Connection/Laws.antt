-- ===== src/Server/Connection/Laws.antt =====
-- How a connection ends: errors of the program are answered and close it, other exceptions end the server.
use cpp_data_protection_core.Base.{
  ℕ, suc, ◌≡◌, refl, ap, ◌∙◌, arith, true, false, not, ◌==◌, List, [], ◌∷◌, ◌++◌, Bytes, IsBytes,
  codes, null, equal_refl, All,
}
use cpp_data_protection_core.Common.Error.{Error, ok, err, invalid_argument}
use cpp_data_protection_core.Common.Hex.{all_of, hex_encode_string}
use cpp_data_protection_core.Common.Hex.Laws.{hex_decode_string-hex_encode_string}
use cpp_data_protection_core.Common.Text.{words, is_space, is_digit}
use cpp_data_protection_core.Common.Text.Laws.{IsWord, words-word}
use cpp_data_protection_core.Common.Stream.{span, skip_spaces, sign}
use cpp_data_protection_core.Common.Map.{find, assign, same, lt_bytes}
use cpp_data_protection_core.Manifest.Fields.{hex_encode_string-IsWord}
use cpp_data_protection_core.Repo.{Repo}
use cpp_data_protection_core.Store.Compressor.{Libraries}
use cpp_data_protection_core.Packet.Codec.{Packet, commit_session, encode}
use cpp_data_protection_core.Packet.Socket.{Socket}
use cpp_data_protection_core.Packet.Socket.Laws.{Quiet, bytes_of, read_packet-encode}
use cpp_data_protection_core.Packet.Codec.RoundTrip.{IsPacket}
use cpp_data_protection_core.Client.Payload.{lines_text}
use cpp_data_protection_core.Client.Payload.Marker.{AreWords, words_of}
use cpp_data_protection_core.Server.Fields.{
  fields_of, fields_behind, parse_text_fields, stoull, field, parse_u64,
}
use cpp_data_protection_core.Server.Handle.{handle_commit, handle_packet}
use cpp_data_protection_core.Server.Connection.{
  terminated, Connection, caught, respond, handle_connection,
}

words-lines_text :
    (fields : List (Bytes × Bytes))
    → All AreWords fields
    → words (lines_text fields []) ≡ words_of fields
unfolding lines_text words_of
words-lines_text [] h = unfold words in refl
words-lines_text ((key, value) ∷ fields) h =
    words-word key _ b' ' h.0.0 refl
    ∙ ap (◌∷◌ key) (words-word value _ 10 h.0.1 refl ∙ ap (◌∷◌ value) (words-lines_text fields h.1))

-- A request of lines is parsed to its fields.
pub parse_text_fields-lines_text :
    (header : Bytes) (fields : List (Bytes × Bytes))
    → IsWord header
    → All AreWords fields
    → parse_text_fields (header ++ (10 ∷ lines_text fields [])) header
      ≡ ok (fields_of (words_of fields) [])
unfolding parse_text_fields fields_behind
parse_text_fields-lines_text header fields n h =
    rw (words-word header _ 10 n refl, words-lines_text fields h, equal_refl header) refl

-- A text that begins like no number.
pub record IsNoNumber (w : Bytes) : Type 0 where
  pub first : ℕ
  pub rest : Bytes
  pub is : w ≡ first ∷ rest
  pub word : IsWord w
  pub no_digit : is_digit first ≡ false
  pub no_minus : (first == b'-') ≡ false
  pub no_plus : (first == b'+') ≡ false

stoull-IsNoNumber : (w : Bytes) → IsNoNumber w → stoull w ≡ err invalid_argument
unfolding stoull skip_spaces sign span all_of
stoull-IsNoNumber w h =
    let word : all_of (λ c. not (is_space c)) (h.first ∷ h.rest) ≡ true = rw h.is at h.word.1 in
    let no_space : is_space h.first ≡ false = ground arith in
    rw (h.is, no_space, h.no_minus, h.no_plus, h.no_digit) refl

abbrev pub commit_fields : Bytes → Bytes → List (Bytes × Bytes)
commit_fields session_id total =
    (codes "session_hex", hex_encode_string session_id) ∷ (codes "total_chunks", total) ∷ []

abbrev pub commit_text : Bytes → Bytes → Bytes
commit_text session_id total =
    codes "DPC_COMMIT_V1" ++ (10 ∷ lines_text (commit_fields session_id total) [])

commit_text-fields :
    (session_id total : Bytes)
    → null session_id ≡ false
    → IsWord total
    → parse_text_fields (commit_text session_id total) (codes "DPC_COMMIT_V1")
      ≡ ok (fields_of (words_of (commit_fields session_id total)) [])
unfolding all_of
commit_text-fields session_id total n w =
    parse_text_fields-lines_text (codes "DPC_COMMIT_V1") (commit_fields session_id total)
      (refl, refl) (((refl, refl), hex_encode_string-IsWord session_id n), (((refl, refl), w), tt))

commit_fields-total :
    (session_id total : Bytes)
    → parse_u64 (fields_of (words_of (commit_fields session_id total)) []) (codes "total_chunks")
      ≡ stoull total
unfolding parse_u64 find same assign lt_bytes fields_of words_of
commit_fields-total session_id total = refl

commit_fields-session :
    (session_id total : Bytes)
    → field (fields_of (words_of (commit_fields session_id total)) []) (codes "session_hex")
      ≡ ok (hex_encode_string session_id)
unfolding field find same assign lt_bytes fields_of words_of
commit_fields-session session_id total = refl

module _ (libs : Libraries) (now : ℕ) (packet : Packet) (session_id total : Bytes) where
  handle_commit-IsNoNumber :
      (repo : Repo)
      → packet.payload ≡ commit_text session_id total
      → null session_id ≡ false
      → IsBytes session_id
      → IsNoNumber total
      → handle_commit libs now packet repo ≡ (err invalid_argument, repo)
  unfolding handle_commit
  handle_commit-IsNoNumber repo p n b w =
      rw
        (
          p,
          commit_text-fields session_id total n w.word,
          commit_fields-session session_id total,
          hex_decode_string-hex_encode_string session_id b,
          commit_fields-total session_id total,
          stoull-IsNoNumber total w,
        )
        refl

  handle_packet-IsNoNumber :
      (repo : Repo)
      → packet.type ≡ commit_session
      → packet.payload ≡ commit_text session_id total
      → null session_id ≡ false
      → IsBytes session_id
      → IsNoNumber total
      → handle_packet libs now packet repo ≡ (err invalid_argument, repo)
  unfolding handle_packet
  handle_packet-IsNoNumber repo t p n b w =
      let same_as : handle_packet libs now packet repo ≡ handle_commit libs now packet repo =
        simp t in
      same_as ∙ handle_commit-IsNoNumber repo p n b w

  respond-err :
      (what : Error → Bytes) (loop : List Bytes → Repo → Connection) (sent : List Bytes) (e : Error)
      (repo after : Repo)
      → handle_packet libs now packet repo ≡ (err e, after)
      → respond libs now what loop sent (ok packet) repo ≡ caught what e sent after
  unfolding respond
  respond-err what loop sent e repo after h = rw (respond, h, h) refl

  -- When the frame of a commit packet whose `total_chunks` is a word that begins with no digit and
  -- no sign arrives on a connection, in whatever pieces and followed by whatever bytes, an
  -- exception that nothing catches ends the server, with the repository and what was sent
  -- unchanged.
  pub handle_connection_terminated :
      (what : Error → Bytes) (rounds : ℕ) (socket : Socket) (frame more : Bytes) (sent : List Bytes)
      (repo : Repo)
      → packet.type ≡ commit_session
      → packet.payload ≡ commit_text session_id total
      → null session_id ≡ false
      → IsBytes session_id
      → IsNoNumber total
      → IsPacket packet
      → encode packet ≡ ok frame
      → Quiet socket
      → bytes_of socket ≡ frame ++ more
      → handle_connection libs now what (suc rounds) socket sent repo
        ≡ record { ending = terminated invalid_argument; sent = sent; repo = repo }
  unfolding handle_connection
  handle_connection_terminated what rounds socket frame more sent repo t p n b w h e q arrived =
      let (rest, r, _) = read_packet-encode packet frame more socket h e q arrived in
      rw r (
        respond-err what (handle_connection libs now what rounds rest) sent invalid_argument repo
          repo (handle_packet-IsNoNumber repo t p n b w))
      ∙ unfold caught in refl
