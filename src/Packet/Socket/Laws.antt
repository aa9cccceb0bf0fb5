-- ===== src/Packet/Socket/Laws.antt =====
-- A packet is read as it was written, however the connection cuts the bytes.
use cpp_data_protection_core.Base.{
  ℕ, zero, suc, ◌-◌, ◌≤◌, ◌<◌, leb, Bool-cases, inl, inr, ◌≡◌, refl, ap, sym, ◌∙◌, arith, false,
  not_ltb, List, [], ◌∷◌, ◌++◌, append-nil, append_assoc, Bytes, length, length-append, take, drop,
  take-append, drop-append, take-append-drop,
}
use cpp_data_protection_core.Common.Error.{ok, err, socket_closed}
use cpp_data_protection_core.Packet.Codec.{Packet, header_size, max_payload_size, encode}
use cpp_data_protection_core.Packet.Codec.RoundTrip.{
  IsPacket, header, encode-header, decode-header, length-header, size-header,
}
use cpp_data_protection_core.Packet.Socket.{
  arrived, interrupted, failed, Socket, leave, read_exact, read_payload, read_packet, WriteEvent,
  wrote, write_interrupted, write_error, write_all,
}

-- The bytes that arrive before the connection is closed.
abbrev pub bytes_of : Socket → Bytes
bytes_of [] = []
bytes_of (arrived b bs ∷ socket) = b ∷ (bs ++ bytes_of socket)
bytes_of (interrupted ∷ socket) = bytes_of socket
bytes_of (failed ∷ socket) = bytes_of socket

-- No read fails; it may be interrupted.
abbrev pub Quiet : Socket → Type 0
Quiet [] = Unit
Quiet (failed ∷ socket) = ⊥
Quiet (interrupted ∷ socket) = Quiet socket
Quiet (arrived b bs ∷ socket) = Quiet socket

pub bytes_of-leave :
    (bs : Bytes) (socket : Socket) → bytes_of (leave bs socket) ≡ bs ++ bytes_of socket
unfolding leave
bytes_of-leave [] socket = refl
bytes_of-leave (b ∷ bs) socket = refl

pub leave-Quiet : (bs : Bytes) (socket : Socket) → Quiet socket → Quiet (leave bs socket)
unfolding leave
leave-Quiet [] socket q = q
leave-Quiet (b ∷ bs) socket q = q

take-append_le : (n : ℕ) (xs ys : Bytes) → n ≤ length xs → take n (xs ++ ys) ≡ take n xs
take-append_le zero xs ys h = refl
take-append_le (suc n) [] ys h = absurd (omega arith)
take-append_le (suc n) (x ∷ xs) ys h = ap (◌∷◌ x) (take-append_le n xs ys (omega arith))

drop-append_le : (n : ℕ) (xs ys : Bytes) → n ≤ length xs → drop n (xs ++ ys) ≡ drop n xs ++ ys
drop-append_le zero xs ys h = refl
drop-append_le (suc n) [] ys h = absurd (omega arith)
drop-append_le (suc n) (x ∷ xs) ys h = drop-append_le n xs ys (omega arith)

take-append_ge :
    (n : ℕ) (xs ys : Bytes) → length xs ≤ n → take n (xs ++ ys) ≡ xs ++ take (n - length xs) ys
take-append_ge n [] ys h = ap (λ (k : ℕ). take k ys) (omega arith)
take-append_ge zero (x ∷ xs) ys h = absurd (omega arith)
take-append_ge (suc n) (x ∷ xs) ys h =
    ap (◌∷◌ x)
      (take-append_ge n xs ys (omega arith) ∙ ap (λ (k : ℕ). xs ++ take k ys) (omega arith))

drop-append_ge :
    (n : ℕ) (xs ys : Bytes) → length xs ≤ n → drop n (xs ++ ys) ≡ drop (n - length xs) ys
drop-append_ge n [] ys h = ap (λ (k : ℕ). drop k ys) (omega arith)
drop-append_ge zero (x ∷ xs) ys h = absurd (omega arith)
drop-append_ge (suc n) (x ∷ xs) ys h =
    drop-append_ge n xs ys (omega arith) ∙ ap (λ (k : ℕ). drop k ys) (omega arith)

-- What `readExact` leaves after it has read `n` bytes.
pub record Reads (n : ℕ) (done : Bytes) (socket rest : Socket) : Type 0 where
  pub got : read_exact n done socket ≡ (ok (done ++ take n (bytes_of socket)), rest)
  pub behind : bytes_of rest ≡ drop n (bytes_of socket)
  pub quiet : Quiet rest

-- When no read fails and enough bytes arrive, `readExact` returns exactly the first ones, in order,
-- and leaves those behind them.
pub read_exact_lem :
    (n : ℕ) (done : Bytes) (socket : Socket)
    → Quiet socket
    → n ≤ length (bytes_of socket)
    → (rest : Socket) × Reads n done socket rest
unfolding read_exact
read_exact_lem zero done socket q h = (
  socket,
  record {
    got = ap (λ (t : Bytes). (ok t, socket)) (sym (append-nil done));
    behind = refl;
    quiet = q;
  },
)
read_exact_lem (suc n) done [] q h = absurd (omega arith)
read_exact_lem (suc n) done (failed ∷ socket) q h = absurd q
read_exact_lem (suc n) done (interrupted ∷ socket) q h =
    let (rest, r) = read_exact_lem (suc n) done socket q h in
    (rest, record { got = r.got; behind = r.behind; quiet = r.quiet })
read_exact_lem (suc n) done (arrived b bs ∷ socket) q h =
    elim (Bool-cases (leb (suc n) (length (b ∷ bs)))) [
      | inl whole ↦ (
        leave (drop (suc n) (b ∷ bs)) socket,
        record {
          got = rw whole (
              ap (λ (t : Bytes). (ok (done ++ t), leave (drop (suc n) (b ∷ bs)) socket))
                (sym (take-append_le (suc n) (b ∷ bs) (bytes_of socket) (ground arith))));
          behind =
              bytes_of-leave (drop (suc n) (b ∷ bs)) socket
              ∙ sym (drop-append_le (suc n) (b ∷ bs) (bytes_of socket) (ground arith));
          quiet = leave-Quiet (drop (suc n) (b ∷ bs)) socket q;
        },
      )
      | inr part ↦
          let few : length (b ∷ bs) ≤ suc n = ground arith in
          let (rest, r) =
            read_exact_lem (suc n - length (b ∷ bs)) (done ++ b ∷ bs) socket q
              (omega (arith, length-append (b ∷ bs) (bytes_of socket))) in
          (
            rest,
            record {
              got = rw part (
                  r.got
                  ∙ ap (λ (t : Bytes). (ok t, rest))
                      (append_assoc done (b ∷ bs) (take (suc n - length (b ∷ bs)) (bytes_of socket))
                        ∙ ap (λ (t : Bytes). done ++ t)
                            (sym (take-append_ge (suc n) (b ∷ bs) (bytes_of socket) few))));
              behind = r.behind ∙ sym (drop-append_ge (suc n) (b ∷ bs) (bytes_of socket) few);
              quiet = r.quiet;
            },
          )
    ]

-- When no read fails and the connection is closed before enough bytes have arrived, `readExact` throws
-- "socket closed".
pub read_exact_closed :
    (n : ℕ) (done : Bytes) (socket : Socket)
    → Quiet socket
    → length (bytes_of socket) < n
    → read_exact n done socket ≡ (err socket_closed, [])
unfolding read_exact
read_exact_closed zero done socket q h = absurd (omega arith)
read_exact_closed (suc n) done [] q h = refl
read_exact_closed (suc n) done (failed ∷ socket) q h = absurd q
read_exact_closed (suc n) done (interrupted ∷ socket) q h =
    read_exact_closed (suc n) done socket q h
read_exact_closed (suc n) done (arrived b bs ∷ socket) q h =
    let all = length-append (b ∷ bs) (bytes_of socket) in
    let more : leb (suc n) (length (b ∷ bs)) ≡ false = ground (arith, all) in
    rw more
      (read_exact_closed (suc n - length (b ∷ bs)) (done ++ b ∷ bs) socket q (omega (arith, all)))

-- The second half of `readPacket`, once the header has been read.
read_payload-header :
    (p : Packet) (socket rest : Socket)
    → IsPacket p
    → read_exact (length p.payload) (header p) socket ≡ (ok (header p ++ p.payload), rest)
    → read_payload (ok (header p)) socket ≡ (ok p, rest)
unfolding read_payload
read_payload-header p socket rest h r =
    rw (size-header p h, not_ltb max_payload_size (length p.payload) h.fits, r)
      (ap (λ t. (t, rest)) (decode-header p h))

-- When the bytes of a packet that `encode` wrote arrive, followed by any others, in pieces of any
-- sizes and with any interruptions, and no read fails, then `readPacket` returns that packet and
-- leaves the bytes behind it.
pub read_packet-encode :
    (p : Packet) (frame more : Bytes) (socket : Socket)
    → IsPacket p
    → encode p ≡ ok frame
    → Quiet socket
    → bytes_of socket ≡ frame ++ more
    → (rest : Socket) × (read_packet socket ≡ (ok p, rest)) × (bytes_of rest ≡ more)
unfolding read_packet
read_packet-encode p frame more socket h e q b =
    let framed : header p ++ p.payload ≡ frame = cc (encode-header p h) in
    let whole : bytes_of socket ≡ header p ++ (p.payload ++ more) =
      b ∙ ap (λ (t : Bytes). t ++ more) (sym framed) ∙ append_assoc (header p) p.payload more in
    let size = length-header p h in
    let (s1, r1) =
      read_exact_lem header_size [] socket q
        (omega (arith, ap length whole, length-append (header p) (p.payload ++ more), size)) in
    let front : take header_size (bytes_of socket) ≡ header p =
      rw (whole, ← size) (take-append (header p) (p.payload ++ more)) in
    let behind : bytes_of s1 ≡ p.payload ++ more =
      r1.behind ∙ rw (whole, ← size) (drop-append (header p) (p.payload ++ more)) in
    let (s2, r2) =
      read_exact_lem (length p.payload) (header p) s1 r1.quiet
        (omega (arith, ap length behind, length-append p.payload more)) in
    let got : read_exact (length p.payload) (header p) s1 ≡ (ok (header p ++ p.payload), s2) =
      r2.got
      ∙ ap (λ (t : Bytes). (ok (header p ++ t), s2)) (rw behind (take-append p.payload more)) in
    let first : read_exact header_size [] socket ≡ (ok (header p), s1) =
      r1.got ∙ ap (λ (t : Bytes). (ok t, s1)) front in
    (
      s2,
      rw first (read_payload-header p s1 s2 h got),
      r2.behind ∙ rw behind (drop-append p.payload more),
    )

-- What `writeAll` has sent is always the front of the data, and all of it when `writeAll` returns.
pub write_all_prefix :
    (d : Bytes) (events : List WriteEvent)
    → (left : Bytes) × ((write_all d events).1 ++ left ≡ d)
      × ((write_all d events).0 ≡ ok tt → left ≡ [])
unfolding write_all
write_all_prefix [] events = ([], refl, λ e. refl)
write_all_prefix (b ∷ bs) [] = (b ∷ bs, refl, λ e. cc)
write_all_prefix (b ∷ bs) (write_interrupted ∷ events) = write_all_prefix (b ∷ bs) events
write_all_prefix (b ∷ bs) (write_error ∷ events) = (b ∷ bs, refl, λ e. cc)
write_all_prefix (b ∷ bs) (wrote zero ∷ events) = (b ∷ bs, refl, λ e. cc)
write_all_prefix (b ∷ bs) (wrote (suc n) ∷ events) =
    let (left, sent, full) = write_all_prefix (drop (suc n) (b ∷ bs)) events in
    (
      left,
      append_assoc (take (suc n) (b ∷ bs)) (write_all (drop (suc n) (b ∷ bs)) events).1 left
          ∙ ap (λ (t : Bytes). take (suc n) (b ∷ bs) ++ t) sent
          ∙ take-append-drop (suc n) (b ∷ bs),
      full,
    )
