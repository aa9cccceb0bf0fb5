-- ===== src/Wal/Words.antt =====
-- `put16`, `put32`, `get16` and `get32` of src/metadata/WalLog.cpp: little-endian words.
use cpp_data_protection_core.Base.{
  ℕ, ◌+◌, ◌*◌, ◌/◌, ◌%◌, ◌^◌, ◌<◌, ◌≡◌, ◌∙◌, arith, bit_or, [], ◌∷◌, ◌++◌, Bytes, IsByte, get_or,
}
use cpp_data_protection_core.Base.Bits.{bit_or_low}

unfoldable pub put16 : Bytes → ℕ → Bytes
put16 out value = out ++ value % 256 ∷ value / 2 ^ 8 % 256 ∷ []

-- The loop over `i` from 0 to 3, which appends `(value >> (i * 8)) & 0xffU`.
unfoldable pub put32 : Bytes → ℕ → Bytes
put32 out value =
    out ++ value % 256 ∷ value / 2 ^ 8 % 256 ∷ value / 2 ^ 16 % 256 ∷ value / 2 ^ 24 % 256 ∷ []

unfoldable pub word16 : ℕ → ℕ → ℕ
word16 a b = bit_or a (b * 2 ^ 8) % 2 ^ 16

unfoldable pub word32 : ℕ → ℕ → ℕ → ℕ → ℕ
word32 a b c d = bit_or (bit_or (bit_or a (b * 2 ^ 8)) (c * 2 ^ 16)) (d * 2 ^ 24)

-- The callers have checked that the word lies inside; 0 stands for a byte outside.
unfoldable pub get16 : Bytes → ℕ → ℕ
get16 d off = word16 (get_or d off 0) (get_or d (off + 1) 0)

unfoldable pub get32 : Bytes → ℕ → ℕ
get32 d off =
    word32 (get_or d off 0) (get_or d (off + 1) 0) (get_or d (off + 2) 0) (get_or d (off + 3) 0)

pub word16_sum : (a b : ℕ) → IsByte a → IsByte b → word16 a b ≡ a + b * 2 ^ 8
unfolding word16
word16_sum a b ha hb = omega (arith, bit_or_low 8 a b ha)

pub word32_sum :
    (a b c d : ℕ)
    → IsByte a
    → IsByte b
    → IsByte c
    → IsByte d
    → word32 a b c d ≡ a + b * 2 ^ 8 + c * 2 ^ 16 + d * 2 ^ 24
unfolding word32
word32_sum a b c d ha hb hc hd = rw (bit_or_low 8 a b ha) (
    rw (bit_or_low 16 (a + b * 2 ^ 8) c (omega arith))
      (bit_or_low 24 (a + b * 2 ^ 8 + c * 2 ^ 16) d (omega arith)))

-- Reading back the bytes of a word.
pub word16_bytes : (v : ℕ) → v < 2 ^ 16 → word16 (v % 256) (v / 2 ^ 8 % 256) ≡ v
word16_bytes v h = omega (arith, word16_sum (v % 256) (v / 2 ^ 8 % 256) (omega arith) (omega arith))

pub word32_bytes :
    (v : ℕ)
    → v < 2 ^ 32
    → word32 (v % 256) (v / 2 ^ 8 % 256) (v / 2 ^ 16 % 256) (v / 2 ^ 24 % 256) ≡ v
word32_bytes v h =
    word32_sum _ _ _ _ (omega arith) (omega arith) (omega arith) (omega arith) ∙ omega arith
