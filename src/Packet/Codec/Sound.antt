-- ===== src/Packet/Codec/Sound.antt =====
-- What `decode` accepts is what `encode` writes for the packet that it returns.
use cpp_data_protection_core.Base.{
  ℕ, ◌+◌, ◌^◌, ◌<◌, ◌≤◌, ◌≡◌, refl, ap, sym, ◌∙◌, arith, true, [], ◌∷◌, ◌++◌, Bytes, IsByte,
  IsBytes, length, length-take, length-drop, drop, take, take-append-drop, subst, All-take,
  All-drop, All-get_or, get_or, not_ltb→le, not_==→eq, not→true,
}
use cpp_data_protection_core.Common.Error.{ok, throw_if-eq-ok}
use cpp_data_protection_core.Wal.Crc.{crc32}
use cpp_data_protection_core.Packet.Words.{
  put16, put32, put64, get16, get32, get64, word16, word32, word64, word16_sum, word32_sum,
  word64_sum, word64-lt,
}
use cpp_data_protection_core.Packet.Codec.{
  Packet, packet_magic, packet_version, header_size, max_payload_size, is_valid_packet_type,
  zero_header_crc, header_before_crc, encode, decode,
}
use cpp_data_protection_core.Packet.Codec.RoundTrip.{IsPacket, header, encode-header}

abbrev read_packet : Bytes → Packet
read_packet d = record {
  type = get16 (take header_size d) 6;
  session_id_hash = get64 (take header_size d) 8;
  chunk_index = get64 (take header_size d) 16;
  chunk_sha256 = take 32 (drop 32 d);
  payload = drop header_size d;
}

-- What `decode` has tested when it returns a packet.
record Accepted (d : Bytes) (p : Packet) : Type 0 where
  long : header_size ≤ length d
  magic : get32 (take header_size d) 0 ≡ packet_magic
  version : get16 (take header_size d) 4 ≡ packet_version
  valid_type : is_valid_packet_type (get16 (take header_size d) 6) ≡ true
  fits : get32 (take header_size d) 24 ≤ max_payload_size
  size : length d ≡ header_size + get32 (take header_size d) 24
  crc : crc32 (zero_header_crc (take header_size d)) ≡ get32 (take header_size d) 28
  is_packet : read_packet d ≡ p

accepted : (d : Bytes) (p : Packet) → decode d ≡ ok p → Accepted d p
unfolding decode
accepted d p h =
    let (t0, h) = throw_if-eq-ok _ _ _ h in
    let (t1, h) = throw_if-eq-ok _ _ _ h in
    let (t2, h) = throw_if-eq-ok _ _ _ h in
    let (t3, h) = throw_if-eq-ok _ _ _ h in
    let (t4, h) = throw_if-eq-ok _ _ _ h in
    let (t5, h) = throw_if-eq-ok _ _ _ h in
    let (t6, h) = throw_if-eq-ok _ _ _ h in
    record {
      long = not_ltb→le _ _ t0;
      magic = not_==→eq _ _ t1;
      version = not_==→eq _ _ t2;
      valid_type = not→true _ t3;
      fits = not_ltb→le _ _ t4;
      size = not_==→eq _ _ t5;
      crc = not_==→eq _ _ t6;
      is_packet = cc h;
    }

bytes_word16 : (a b : ℕ) → IsByte a → IsByte b → put16 [] (word16 a b) ≡ a ∷ b ∷ []
unfolding put16
bytes_word16 a b ha hb = rw (word16_sum a b ha hb) (ground arith)

bytes_word32 :
    (a b c d : ℕ)
    → IsByte a
    → IsByte b
    → IsByte c
    → IsByte d
    → put32 [] (word32 a b c d) ≡ a ∷ b ∷ c ∷ d ∷ []
unfolding put32
bytes_word32 a b c d ha hb hc hd = rw (word32_sum a b c d ha hb hc hd) (ground arith)

bytes_word64 :
    (a b c d e f g h : ℕ)
    → IsByte a
    → IsByte b
    → IsByte c
    → IsByte d
    → IsByte e
    → IsByte f
    → IsByte g
    → IsByte h
    → put64 [] (word64 a b c d e f g h) ≡ a ∷ b ∷ c ∷ d ∷ e ∷ f ∷ g ∷ h ∷ []
unfolding put64
bytes_word64 a b c d e f g h ha hb hc hd he hf hg hh =
    rw (word64_sum a b c d e f g h ha hb hc hd he hf hg hh) (ground arith)

-- The header up to its checksum, from its words.
assemble : ℕ → ℕ → ℕ → ℕ → ℕ → ℕ → Bytes → Bytes
assemble m v t s i n rest =
    put32 [] m
    ++ (put16 [] v ++ (put16 [] t ++ (put64 [] s ++ (put64 [] i ++ (put32 [] n ++ rest)))))

assemble_packet : Packet → Bytes → Bytes
unfolding assemble put16 put32 put64
assemble_packet p rest =
    assemble packet_magic packet_version p.type p.session_id_hash p.chunk_index (length p.payload)
      rest

before-assemble :
    (p : Packet) → header_before_crc p ≡ assemble_packet p (put32 [] 0 ++ p.chunk_sha256)
unfolding header_before_crc assemble_packet
before-assemble p = refl

header-assemble :
    (p : Packet)
    → header p ≡ assemble_packet p (put32 [] (crc32 (header_before_crc p)) ++ p.chunk_sha256)
unfolding header assemble_packet
header-assemble p = refl

assemble_words :
    (b0 b1 b2 b3 b4 b5 b6 b7 b8 b9 b10 b11 b12 b13 b14 b15 b16 b17 b18 b19 b20 b21 b22 b23 b24 b25
      b26 b27 : ℕ)
    (rest : Bytes)
    → IsBytes (
        b0 ∷ b1 ∷ b2 ∷ b3 ∷ b4 ∷ b5 ∷ b6 ∷ b7 ∷ b8 ∷ b9 ∷ b10 ∷ b11 ∷ b12 ∷ b13 ∷ b14 ∷ b15 ∷ b16
        ∷ b17 ∷ b18 ∷ b19 ∷ b20 ∷ b21 ∷ b22 ∷ b23 ∷ b24 ∷ b25 ∷ b26 ∷ b27 ∷ [])
    → assemble
        (word32 b0 b1 b2 b3)
        (word16 b4 b5)
        (word16 b6 b7)
        (word64 b8 b9 b10 b11 b12 b13 b14 b15)
        (word64 b16 b17 b18 b19 b20 b21 b22 b23)
        (word32 b24 b25 b26 b27)
        rest
      ≡ b0 ∷ b1 ∷ b2 ∷ b3 ∷ b4 ∷ b5 ∷ b6 ∷ b7 ∷ b8 ∷ b9 ∷ b10 ∷ b11 ∷ b12 ∷ b13 ∷ b14 ∷ b15 ∷ b16
        ∷ b17 ∷ b18 ∷ b19 ∷ b20 ∷ b21 ∷ b22 ∷ b23 ∷ b24 ∷ b25 ∷ b26 ∷ b27 ∷ rest
unfolding assemble
assemble_words b0 b1 b2 b3 b4 b5 b6 b7 b8 b9 b10 b11 b12 b13 b14 b15 b16 b17 b18 b19 b20 b21 b22 b23
      b24 b25 b26 b27 rest hb =
    let h4 = hb.1.1.1.1 in
    let h8 = h4.1.1.1.1 in
    let h16 = h8.1.1.1.1.1.1.1.1 in
    let h24 = h16.1.1.1.1.1.1.1.1 in
    rw (
      bytes_word32 b0 b1 b2 b3 hb.0 hb.1.0 hb.1.1.0 hb.1.1.1.0,
      bytes_word16 b4 b5 h4.0 h4.1.0,
      bytes_word16 b6 b7 h4.1.1.0 h4.1.1.1.0,
      bytes_word64 b8 b9 b10 b11 b12 b13 b14 b15 h8.0 h8.1.0 h8.1.1.0 h8.1.1.1.0 h8.1.1.1.1.0
          h8.1.1.1.1.1.0 h8.1.1.1.1.1.1.0 h8.1.1.1.1.1.1.1.0,
      bytes_word64 b16 b17 b18 b19 b20 b21 b22 b23 h16.0 h16.1.0 h16.1.1.0 h16.1.1.1.0 h16.1.1.1.1.0
          h16.1.1.1.1.1.0 h16.1.1.1.1.1.1.0 h16.1.1.1.1.1.1.1.0,
      bytes_word32 b24 b25 b26 b27 h24.0 h24.1.0 h24.1.1.0 h24.1.1.1.0,
    )

payload-length :
    (d : Bytes) (p : Packet) → Accepted d p → length p.payload ≡ get32 (take header_size d) 24
payload-length d p acc =
    ap (λ (q : Packet). length q.payload) (sym acc.is_packet)
    ∙ omega (arith, length-drop header_size d, acc.size)

-- The first 28 bytes are the words of the packet.
Accepted-words :
    (d : Bytes) (p : Packet) (rest : Bytes)
    → IsBytes d
    → Accepted d p
    → assemble_packet p rest ≡ take 28 d ++ rest
unfolding assemble_packet get16 get32 get64
Accepted-words
      (b0 ∷ b1 ∷ b2 ∷ b3 ∷ b4 ∷ b5 ∷ b6 ∷ b7 ∷ b8 ∷ b9 ∷ b10 ∷ b11 ∷ b12 ∷ b13 ∷ b14 ∷ b15 ∷ b16
        ∷ b17 ∷ b18 ∷ b19 ∷ b20 ∷ b21 ∷ b22 ∷ b23 ∷ b24 ∷ b25 ∷ b26 ∷ b27 ∷ more)
      p rest hb acc =
    cc (
      acc.magic,
      acc.version,
      acc.is_packet,
      payload-length _ p acc,
      assemble_words b0 b1 b2 b3 b4 b5 b6 b7 b8 b9 b10 b11 b12 b13 b14 b15 b16 b17 b18 b19 b20 b21
          b22 b23 b24 b25 b26 b27 rest
          (All-take IsByte 28
            (b0 ∷ b1 ∷ b2 ∷ b3 ∷ b4 ∷ b5 ∷ b6 ∷ b7 ∷ b8 ∷ b9 ∷ b10 ∷ b11 ∷ b12 ∷ b13 ∷ b14 ∷ b15
              ∷ b16 ∷ b17 ∷ b18 ∷ b19 ∷ b20 ∷ b21 ∷ b22 ∷ b23 ∷ b24 ∷ b25 ∷ b26 ∷ b27 ∷ more)
            hb),
    )
Accepted-words _ p rest hb acc = absurd (omega (arith, acc.long))

-- The header with its checksum field cleared is the header that the checksum is taken of.
Accepted-before :
    (d : Bytes) (p : Packet)
    → IsBytes d
    → Accepted d p
    → header_before_crc p ≡ zero_header_crc (take header_size d)
unfolding put32 zero_header_crc
Accepted-before
      (b0 ∷ b1 ∷ b2 ∷ b3 ∷ b4 ∷ b5 ∷ b6 ∷ b7 ∷ b8 ∷ b9 ∷ b10 ∷ b11 ∷ b12 ∷ b13 ∷ b14 ∷ b15 ∷ b16
        ∷ b17 ∷ b18 ∷ b19 ∷ b20 ∷ b21 ∷ b22 ∷ b23 ∷ b24 ∷ b25 ∷ b26 ∷ b27 ∷ w0 ∷ w1 ∷ w2 ∷ w3
        ∷ more)
      p hb acc =
    before-assemble p
    ∙ Accepted-words _ p (put32 [] 0 ++ p.chunk_sha256) hb acc
    ∙ ap
        (λ (q : Packet).
          b0
          ∷ b1
          ∷ b2
          ∷ b3
          ∷ b4
          ∷ b5
          ∷ b6
          ∷ b7
          ∷ b8
          ∷ b9
          ∷ b10
          ∷ b11
          ∷ b12
          ∷ b13
          ∷ b14
          ∷ b15
          ∷ b16
          ∷ b17
          ∷ b18
          ∷ b19
          ∷ b20
          ∷ b21
          ∷ b22
          ∷ b23
          ∷ b24
          ∷ b25
          ∷ b26
          ∷ b27
          ∷ (put32 [] 0 ++ q.chunk_sha256))
        (sym acc.is_packet)
Accepted-before _ p hb acc = absurd (omega (arith, acc.long))

sent_crc :
    (d : Bytes) (p : Packet)
    → IsBytes d
    → Accepted d p
    → put32 [] (crc32 (header_before_crc p)) ≡ take 4 (drop 28 d)
unfolding get32
sent_crc
      (b0 ∷ b1 ∷ b2 ∷ b3 ∷ b4 ∷ b5 ∷ b6 ∷ b7 ∷ b8 ∷ b9 ∷ b10 ∷ b11 ∷ b12 ∷ b13 ∷ b14 ∷ b15 ∷ b16
        ∷ b17 ∷ b18 ∷ b19 ∷ b20 ∷ b21 ∷ b22 ∷ b23 ∷ b24 ∷ b25 ∷ b26 ∷ b27 ∷ w0 ∷ w1 ∷ w2 ∷ w3
        ∷ more)
      p hb acc =
    let tail =
      All-drop IsByte 28
        (b0 ∷ b1 ∷ b2 ∷ b3 ∷ b4 ∷ b5 ∷ b6 ∷ b7 ∷ b8 ∷ b9 ∷ b10 ∷ b11 ∷ b12 ∷ b13 ∷ b14 ∷ b15 ∷ b16
          ∷ b17 ∷ b18 ∷ b19 ∷ b20 ∷ b21 ∷ b22 ∷ b23 ∷ b24 ∷ b25 ∷ b26 ∷ b27 ∷ w0 ∷ w1 ∷ w2 ∷ w3
          ∷ more)
        hb in
    ap (λ (t : Bytes). put32 [] (crc32 t)) (Accepted-before _ p hb acc)
    ∙ ap (put32 []) acc.crc
    ∙ bytes_word32 w0 w1 w2 w3 tail.0 tail.1.0 tail.1.1.0 tail.1.1.1.0
sent_crc _ p hb acc = absurd (omega (arith, acc.long))

join_frame :
    (d : Bytes)
    → header_size ≤ length d
    → (take 28 d ++ (take 4 (drop 28 d) ++ take 32 (drop 32 d))) ++ drop header_size d ≡ d
join_frame
      (b0 ∷ b1 ∷ b2 ∷ b3 ∷ b4 ∷ b5 ∷ b6 ∷ b7 ∷ b8 ∷ b9 ∷ b10 ∷ b11 ∷ b12 ∷ b13 ∷ b14 ∷ b15 ∷ b16
        ∷ b17 ∷ b18 ∷ b19 ∷ b20 ∷ b21 ∷ b22 ∷ b23 ∷ b24 ∷ b25 ∷ b26 ∷ b27 ∷ w0 ∷ w1 ∷ w2 ∷ w3
        ∷ more)
      h =
    ap
      (λ (t : Bytes).
        b0 ∷ b1 ∷ b2 ∷ b3 ∷ b4 ∷ b5 ∷ b6 ∷ b7 ∷ b8 ∷ b9 ∷ b10 ∷ b11 ∷ b12 ∷ b13 ∷ b14 ∷ b15 ∷ b16
        ∷ b17 ∷ b18 ∷ b19 ∷ b20 ∷ b21 ∷ b22 ∷ b23 ∷ b24 ∷ b25 ∷ b26 ∷ b27 ∷ w0 ∷ w1 ∷ w2 ∷ w3 ∷ t)
      (take-append-drop 32 more)
join_frame _ h = absurd (omega (arith, h))

Accepted-frame : (d : Bytes) (p : Packet) → IsBytes d → Accepted d p → header p ++ p.payload ≡ d
Accepted-frame d p hb acc =
    ap (λ (t : Bytes). t ++ p.payload)
      (header-assemble p
        ∙ Accepted-words d p (put32 [] (crc32 (header_before_crc p)) ++ p.chunk_sha256) hb acc
        ∙ ap (λ (t : Bytes). take 28 d ++ (t ++ p.chunk_sha256)) (sent_crc d p hb acc))
    ∙ ap (λ (q : Packet). (take 28 d ++ (take 4 (drop 28 d) ++ q.chunk_sha256)) ++ q.payload)
        (sym acc.is_packet)
    ∙ join_frame d acc.long

get64-lt : (d : Bytes) (off : ℕ) → IsBytes d → get64 d off < 2 ^ 64
unfolding get64
get64-lt d off hb =
    word64-lt _ _ _ _ _ _ _ _ (get_or-All d off hb) (get_or-All d (off + 1) hb)
      (get_or-All d (off + 2) hb) (get_or-All d (off + 3) hb) (get_or-All d (off + 4) hb)
      (get_or-All d (off + 5) hb) (get_or-All d (off + 6) hb) (get_or-All d (off + 7) hb)
  where
    get_or-All : (d : Bytes) (i : ℕ) → IsBytes d → IsByte (get_or d i 0)
    get_or-All d i hb = All-get_or IsByte 0 (omega arith) d i hb

-- A packet that `decode` returns from bytes has a valid type, 64-bit fields, a 32-byte hash and a
-- payload within the limit.
pub decode-IsPacket : (d : Bytes) (p : Packet) → IsBytes d → decode d ≡ ok p → IsPacket p
decode-IsPacket d p hb h =
    let acc = accepted d p h in
    let front = All-take IsByte header_size d hb in
    subst IsPacket acc.is_packet (record {
      valid_type = acc.valid_type;
      hash_fits = get64-lt (take header_size d) 8 front;
      index_fits = get64-lt (take header_size d) 16 front;
      sha_length = omega (arith, length-take 32 (drop 32 d), length-drop 32 d, acc.long);
      fits = omega (arith, length-drop header_size d, acc.size, acc.fits);
    })

-- Whatever frame of bytes `decode` accepts is the frame that `encode` builds for the packet that
-- it returns.
pub encode-decode : (d : Bytes) (p : Packet) → IsBytes d → decode d ≡ ok p → encode p ≡ ok d
encode-decode d p hb h =
    encode-header p (decode-IsPacket d p hb h) ∙ ap ok (Accepted-frame d p hb (accepted d p h))
