-- ===== src/Packet/Codec/RoundTrip.antt =====
-- `decode` inverts `encode`.
use cpp_data_protection_core.Base.{
  ℕ, ◌+◌, ◌%◌, ◌^◌, ◌<◌, ◌≤◌, ◌≡◌, refl, ap, sym, not_ltb, ==_refl, ◌∙◌, arith, true, ◌++◌, Bytes,
  length, length-append, drop, take, take-append, drop-append,
}
use cpp_data_protection_core.Common.Error.{ok, ◌>>=◌}
use cpp_data_protection_core.Wal.Crc.{crc32}
use cpp_data_protection_core.Wal.Crc.Laws.{crc32-lt}
use cpp_data_protection_core.Packet.Words.{
  byte_at, put16, put32, put64, get16, get32, get64, word16, word32, word64, word16_sum, word32_sum,
  word64_sum,
}
use cpp_data_protection_core.Packet.Codec.{
  Packet, packet_magic, packet_version, header_size, max_payload_size, is_valid_packet_type,
  set_header_crc, zero_header_crc, header_before_crc, encode, decode,
}

-- The ranges of the fields of the C++ structure, and what `encode` accepts.
pub record IsPacket (p : Packet) : Type 0 where
  pub valid_type : is_valid_packet_type p.type ≡ true
  pub hash_fits : p.session_id_hash < 2 ^ 64
  pub index_fits : p.chunk_index < 2 ^ 64
  pub sha_length : length p.chunk_sha256 ≡ 32
  pub fits : length p.payload ≤ max_payload_size

-- The header as `encode` sends it.
unfoldable pub header : Packet → Bytes
unfolding header_before_crc set_header_crc put16 put32 put64
header p =
    let crc = crc32 (header_before_crc p) in
    set_header_crc (header_before_crc p) (byte_at crc 24) (byte_at crc 16) (byte_at crc 8)
      (byte_at crc 0)

pub encode-header : (p : Packet) → IsPacket p → encode p ≡ ok (header p ++ p.payload)
unfolding encode header
encode-header p h = ground arith

word16_bytes : (v : ℕ) → v < 2 ^ 16 → word16 (byte_at v 8) (v % 256) ≡ v
word16_bytes v h = word16_sum _ _ (omega arith) (omega arith) ∙ omega arith

word32_bytes :
    (v : ℕ) → v < 2 ^ 32 → word32 (byte_at v 24) (byte_at v 16) (byte_at v 8) (byte_at v 0) ≡ v
word32_bytes v h =
    word32_sum _ _ _ _ (omega arith) (omega arith) (omega arith) (omega arith) ∙ omega arith

word64_bytes :
    (v : ℕ)
    → v < 2 ^ 64
    → word64
        (byte_at v 56)
        (byte_at v 48)
        (byte_at v 40)
        (byte_at v 32)
        (byte_at v 24)
        (byte_at v 16)
        (byte_at v 8)
        (byte_at v 0)
      ≡ v
word64_bytes v h =
    word64_sum _ _ _ _ _ _ _ _ (omega arith) (omega arith) (omega arith) (omega arith) (omega arith)
      (omega arith) (omega arith) (omega arith)
    ∙ omega arith

valid_type-lt : (t : ℕ) → is_valid_packet_type t ≡ true → t < 2 ^ 16
unfolding is_valid_packet_type
valid_type-lt t h = ground arith

module _ (p : Packet) (h : IsPacket p) where
  pub length-header : length (header p) ≡ header_size
  unfolding header
  length-header = omega (arith, h.sha_length)

  magic-header : get32 (header p) 0 ≡ packet_magic
  unfolding header get32 word32
  magic-header = refl

  version-header : get16 (header p) 4 ≡ packet_version
  unfolding header get16 word16
  version-header = refl

  type-header : get16 (header p) 6 ≡ p.type
  unfolding header get16
  type-header = word16_bytes p.type (valid_type-lt p.type h.valid_type)

  hash-header : get64 (header p) 8 ≡ p.session_id_hash
  unfolding header get64
  hash-header = word64_bytes p.session_id_hash h.hash_fits

  index-header : get64 (header p) 16 ≡ p.chunk_index
  unfolding header get64
  index-header = word64_bytes p.chunk_index h.index_fits

  pub size-header : get32 (header p) 24 ≡ length p.payload
  unfolding header get32
  size-header = word32_bytes (length p.payload) (omega (arith, h.fits))

  crc-header : get32 (header p) 28 ≡ crc32 (header_before_crc p)
  unfolding header get32
  crc-header = word32_bytes (crc32 (header_before_crc p)) (crc32-lt (header_before_crc p))

  zero-header : zero_header_crc (header p) ≡ header_before_crc p
  unfolding header zero_header_crc
  zero-header = refl

  sha-header : drop 32 (header p ++ p.payload) ≡ p.chunk_sha256 ++ p.payload
  unfolding header
  sha-header = refl

  pub decode-header : decode (header p ++ p.payload) ≡ ok p
  unfolding decode
  decode-header = rw (
    whole,
    not_ltb (header_size + length p.payload) header_size (omega arith),
    front,
    magic-header,
    version-header,
    type-header,
    h.valid_type,
    size-header,
    not_ltb _ _ h.fits,
    ==_refl,
    zero-header,
    crc-header,
    ==_refl,
    hash-header,
    index-header,
    sha,
    back,
  )
    where
      front : take header_size (header p ++ p.payload) ≡ header p
      front =
          ap (λ (n : ℕ). take n (header p ++ p.payload)) (sym length-header)
          ∙ take-append (header p) p.payload

      back : drop header_size (header p ++ p.payload) ≡ p.payload
      back =
          ap (λ (n : ℕ). drop n (header p ++ p.payload)) (sym length-header)
          ∙ drop-append (header p) p.payload

      sha : take 32 (drop 32 (header p ++ p.payload)) ≡ p.chunk_sha256
      sha =
          ap (take 32) sha-header
          ∙ ap (λ (n : ℕ). take n (p.chunk_sha256 ++ p.payload)) (sym h.sha_length)
          ∙ take-append p.chunk_sha256 p.payload

      whole : length (header p ++ p.payload) ≡ header_size + length p.payload
      whole = omega (arith, length-append (header p) p.payload, length-header)

-- `decode` gives back every packet that `encode` accepts, with all its fields.
pub decode-encode : (p : Packet) → IsPacket p → (encode p >>= decode) ≡ ok p
decode-encode p h = rw (encode-header p h) (decode-header p h)
