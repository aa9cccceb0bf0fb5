-- ===== src/Packet/Words.antt =====
-- `put16`, `put32`, `put64`, `get16`, `get32` and `get64` of src/network/PacketCodec.cpp:
-- big-endian words.
use cpp_data_protection_core.Base.{
  ℕ, ◌+◌, ◌*◌, ◌/◌, ◌%◌, ◌^◌, ◌<◌, ◌≡◌, ap, ◌∙◌, arith, bit_or, [], ◌∷◌, ◌++◌, Bytes, IsByte,
  get_or,
}
use cpp_data_protection_core.Base.Bits.{bit_or_high}

-- `static_cast<std::uint8_t>((value >> shift) & 0xffU)`
abbrev pub byte_at : ℕ → ℕ → ℕ
byte_at value shift = value / 2 ^ shift % 256

unfoldable pub put16 : Bytes → ℕ → Bytes
put16 out value = out ++ byte_at value 8 ∷ value % 256 ∷ []

-- The loops go over `shift`, down to 0 by eights.
unfoldable pub put32 : Bytes → ℕ → Bytes
put32 out value =
    out ++ byte_at value 24 ∷ byte_at value 16 ∷ byte_at value 8 ∷ byte_at value 0 ∷ []

unfoldable pub put64 : Bytes → ℕ → Bytes
put64 out value =
    out
    ++ byte_at value 56
      ∷ byte_at value 48
      ∷ byte_at value 40
      ∷ byte_at value 32
      ∷ byte_at value 24
      ∷ byte_at value 16
      ∷ byte_at value 8
      ∷ byte_at value 0
      ∷ []

unfoldable pub word16 : ℕ → ℕ → ℕ
word16 a b = bit_or (a * 2 ^ 8) b % 2 ^ 16

unfoldable pub word32 : ℕ → ℕ → ℕ → ℕ → ℕ
word32 a b c d = bit_or (bit_or (bit_or (a * 2 ^ 24) (b * 2 ^ 16)) (c * 2 ^ 8)) d

-- `value = (value << 8U) | byte`, at 64 bits.
unfoldable pub shift_in : ℕ → ℕ → ℕ
shift_in value byte = bit_or (value * 2 ^ 8 % 2 ^ 64) byte

-- The callers have checked that the word lies inside; 0 stands for a byte outside.
unfoldable pub get16 : Bytes → ℕ → ℕ
get16 d off = word16 (get_or d off 0) (get_or d (off + 1) 0)

unfoldable pub get32 : Bytes → ℕ → ℕ
get32 d off =
    word32 (get_or d off 0) (get_or d (off + 1) 0) (get_or d (off + 2) 0) (get_or d (off + 3) 0)

unfoldable pub word64 : ℕ → ℕ → ℕ → ℕ → ℕ → ℕ → ℕ → ℕ → ℕ
word64 a b c d e f g h =
    shift_in
      (shift_in (shift_in (shift_in (shift_in (shift_in (shift_in (shift_in 0 a) b) c) d) e) f) g) h

-- The loop over `i` from 0 to 7, from `value = 0`.
unfoldable pub get64 : Bytes → ℕ → ℕ
get64 d off =
    word64 (get_or d off 0) (get_or d (off + 1) 0) (get_or d (off + 2) 0) (get_or d (off + 3) 0)
      (get_or d (off + 4) 0) (get_or d (off + 5) 0) (get_or d (off + 6) 0) (get_or d (off + 7) 0)

pub word16_sum : (a b : ℕ) → IsByte a → IsByte b → word16 a b ≡ a * 2 ^ 8 + b
unfolding word16
word16_sum a b ha hb = omega (arith, bit_or_high 8 a b hb)

pub word32_sum :
    (a b c d : ℕ)
    → IsByte a
    → IsByte b
    → IsByte c
    → IsByte d
    → word32 a b c d ≡ a * 2 ^ 24 + b * 2 ^ 16 + c * 2 ^ 8 + d
unfolding word32
word32_sum a b c d ha hb hc hd = rw (bit_or_high 24 a (b * 2 ^ 16) (omega arith)) (
    ap (λ (t : ℕ). bit_or (bit_or t (c * 2 ^ 8)) d) (first a b)
    ∙ rw (bit_or_high 16 (a * 2 ^ 8 + b) (c * 2 ^ 8) (omega arith)) (
        ap (λ (t : ℕ). bit_or t d) (second a b c)
        ∙ bit_or_high 8 (a * 2 ^ 16 + b * 2 ^ 8 + c) d hd
        ∙ omega arith))
  where
    first : (a b : ℕ) → a * 2 ^ 24 + b * 2 ^ 16 ≡ (a * 2 ^ 8 + b) * 2 ^ 16
    first a b = omega arith

    second :
        (a b c : ℕ) → (a * 2 ^ 8 + b) * 2 ^ 16 + c * 2 ^ 8 ≡ (a * 2 ^ 16 + b * 2 ^ 8 + c) * 2 ^ 8
    second a b c = omega arith

shift_in_sum : (v b : ℕ) → v < 2 ^ 56 → IsByte b → shift_in v b ≡ v * 256 + b
unfolding shift_in
shift_in_sum v b h hb = ap (λ (t : ℕ). bit_or t b) (fits v h) ∙ bit_or_high 8 v b hb
  where
    fits : (v : ℕ) → v < 2 ^ 56 → v * 2 ^ 8 % 2 ^ 64 ≡ v * 2 ^ 8
    fits v h = omega arith

shift_in_zero : (a : ℕ) → IsByte a → shift_in 0 a ≡ a
shift_in_zero a ha = shift_in_sum 0 a (omega arith) ha ∙ omega arith

pub word64_sum :
    (a b c d e f g h : ℕ)
    → IsByte a
    → IsByte b
    → IsByte c
    → IsByte d
    → IsByte e
    → IsByte f
    → IsByte g
    → IsByte h
    → word64 a b c d e f g h
      ≡ ((((((a * 256 + b) * 256 + c) * 256 + d) * 256 + e) * 256 + f) * 256 + g) * 256 + h
unfolding word64
word64_sum a b c d e f g h ha hb hc hd he hf hg hh =
    rw
      (
        shift_in_zero a ha,
        shift_in_sum a b (omega arith) hb,
        shift_in_sum (a * 256 + b) c (omega arith) hc,
        shift_in_sum ((a * 256 + b) * 256 + c) d (omega arith) hd,
        shift_in_sum (((a * 256 + b) * 256 + c) * 256 + d) e (omega arith) he,
        shift_in_sum ((((a * 256 + b) * 256 + c) * 256 + d) * 256 + e) f (omega arith) hf,
        shift_in_sum (((((a * 256 + b) * 256 + c) * 256 + d) * 256 + e) * 256 + f) g (omega arith)
            hg,
      )
      (shift_in_sum ((((((a * 256 + b) * 256 + c) * 256 + d) * 256 + e) * 256 + f) * 256 + g) h
        (omega arith) hh)

pub word64-lt :
    (a b c d e f g h : ℕ)
    → IsByte a
    → IsByte b
    → IsByte c
    → IsByte d
    → IsByte e
    → IsByte f
    → IsByte g
    → IsByte h
    → word64 a b c d e f g h < 2 ^ 64
word64-lt a b c d e f g h ha hb hc hd he hf hg hh =
    rw (word64_sum a b c d e f g h ha hb hc hd he hf hg hh) (omega arith)
