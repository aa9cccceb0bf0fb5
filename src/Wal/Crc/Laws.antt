-- ===== src/Wal/Crc/Laws.antt =====
-- The checksum is a 32-bit word, and each step of it loses nothing.
use cpp_data_protection_core.Base.{
  ℕ, zero, suc, ◌-◌, ◌/◌, ◌%◌, ◌^◌, ◌≤◌, ◌<◌, ◌≡◌, refl, sym, ◌∙◌, arith, [], ◌∷◌, ◌++◌, bit_xor,
  Bytes, IsByte, IsBytes, ◌⊎◌, inl, inr, All-append,
}
use cpp_data_protection_core.Base.Bits.{
  bit_xor-lt, bit_xor_top, bit_xor_cancel_right, bit_xor_cancel_left,
}
use cpp_data_protection_core.Wal.Crc.{crc_bit, crc_rounds, crc_loop, crc32}

abbrev IsWord : ℕ → Type 0
IsWord v = v < 2 ^ 32

-- The round by the parity of the state.
crc_bit_even : (c : ℕ) → c % 2 ≡ 0 → crc_bit c ≡ bit_xor (c / 2) 0
unfolding crc_bit
crc_bit_even c h = rw h

crc_bit_odd : (c : ℕ) → c % 2 ≡ 1 → crc_bit c ≡ bit_xor (c / 2) 0xedb88320
unfolding crc_bit
crc_bit_odd c h = rw h

parity : (c : ℕ) → (c % 2 ≡ 0) ⊎ (c % 2 ≡ 1)
parity c = grind arith

crc_bit-IsWord : (c : ℕ) → IsWord c → IsWord (crc_bit c)
crc_bit-IsWord c h = elim (parity c) [
  | inl e ↦ rw (crc_bit_even c e) (bit_xor-lt 32 (c / 2) 0 (omega arith) (omega arith))
  | inr o ↦ rw (crc_bit_odd c o) (bit_xor-lt 32 (c / 2) 0xedb88320 (omega arith) (omega arith))
]

even_low : (c : ℕ) → IsWord c → c % 2 ≡ 0 → crc_bit c < 2 ^ 31
even_low c h e = rw (crc_bit_even c e) (bit_xor-lt 31 (c / 2) 0 (omega arith) (omega arith))

odd_high : (c : ℕ) → IsWord c → c % 2 ≡ 1 → 2 ^ 31 ≤ crc_bit c
odd_high c h o =
    rw (crc_bit_odd c o)
      (bit_xor_top 31 (c / 2) 0xedb88320 (omega arith) (omega arith) (omega arith))

halves : (a b : ℕ) → a / 2 ≡ b / 2 → a % 2 ≡ b % 2 → a ≡ b
halves a b p q = omega arith

-- A round is injective on words: the top bit of the result tells the lost bit.
crc_bit_injective : (a b : ℕ) → IsWord a → IsWord b → crc_bit a ≡ crc_bit b → a ≡ b
crc_bit_injective a b ha hb e = elim (parity a) [
  | inl ea ↦ elim (parity b) [
    | inl eb ↦ halves a b (cancel 0 (sym (crc_bit_even a ea) ∙ e ∙ crc_bit_even b eb)) (ea ∙ sym eb)
    | inr ob ↦ absurd (omega (arith, even_low a ha ea, odd_high b hb ob))
  ]
  | inr oa ↦ elim (parity b) [
    | inl eb ↦ absurd (omega (arith, odd_high a ha oa, even_low b hb eb))
    | inr ob ↦
        halves a b (cancel 0xedb88320 (sym (crc_bit_odd a oa) ∙ e ∙ crc_bit_odd b ob)) (oa ∙ sym ob)
  ]
]
  where
    cancel : (m : ℕ) → bit_xor (a / 2) m ≡ bit_xor (b / 2) m → a / 2 ≡ b / 2
    cancel m = bit_xor_cancel_right 32 (a / 2) (b / 2) m (omega arith) (omega arith)

crc_rounds-IsWord : (n c : ℕ) → IsWord c → IsWord (crc_rounds n c)
unfolding crc_rounds
crc_rounds-IsWord zero c h = h
crc_rounds-IsWord (suc n) c h = crc_rounds-IsWord n (crc_bit c) (crc_bit-IsWord c h)

crc_rounds_injective : (n a b : ℕ) → IsWord a → IsWord b → crc_rounds n a ≡ crc_rounds n b → a ≡ b
unfolding crc_rounds
crc_rounds_injective zero a b ha hb e = e
crc_rounds_injective (suc n) a b ha hb e =
    crc_bit_injective a b ha hb
      (crc_rounds_injective n _ _ (crc_bit-IsWord a ha) (crc_bit-IsWord b hb) e)

-- One byte of input, with all eight rounds.
abbrev crc_byte : ℕ → ℕ → ℕ
crc_byte crc byte = crc_rounds 8 (bit_xor crc byte)

crc_byte-IsWord : (c b : ℕ) → IsWord c → IsByte b → IsWord (crc_byte c b)
crc_byte-IsWord c b hc hb = crc_rounds-IsWord 8 _ (bit_xor-lt 32 c b hc (omega arith))

crc_loop-IsWord : (xs : Bytes) (c : ℕ) → IsWord c → IsBytes xs → IsWord (crc_loop c xs)
unfolding crc_loop
crc_loop-IsWord [] c hc h = hc
crc_loop-IsWord (x ∷ xs) c hc (hx, h) =
    crc_loop-IsWord xs (crc_byte c x) (crc_byte-IsWord c x hc hx) h

crc_loop_injective :
    (xs : Bytes) (c d : ℕ)
    → IsBytes xs
    → IsWord c
    → IsWord d
    → crc_loop c xs ≡ crc_loop d xs
    → c ≡ d
unfolding crc_loop
crc_loop_injective [] c d h hc hd e = e
crc_loop_injective (x ∷ xs) c d (hx, h) hc hd e = bit_xor_cancel_right 32 c d x hc hd (
    crc_rounds_injective 8 _ _ (bit_xor-lt 32 c x hc (omega arith))
      (bit_xor-lt 32 d x hd (omega arith))
      (crc_loop_injective xs _ _ h (crc_byte-IsWord c x hc hx) (crc_byte-IsWord d x hd hx) e))

crc_loop-append : (xs ys : Bytes) (c : ℕ) → crc_loop c (xs ++ ys) ≡ crc_loop (crc_loop c xs) ys
unfolding crc_loop
crc_loop-append [] ys c = refl
crc_loop-append (x ∷ xs) ys c = crc_loop-append xs ys (crc_byte c x)

-- The state after one byte determines that byte.
crc_loop_one_byte :
    (ys : Bytes) (c a b : ℕ)
    → IsBytes ys
    → IsWord c
    → IsByte a
    → IsByte b
    → crc_loop c (a ∷ ys) ≡ crc_loop c (b ∷ ys)
    → a ≡ b
unfolding crc_loop
crc_loop_one_byte ys c a b h hc ha hb e = bit_xor_cancel_left 8 a b c ha hb (
    crc_rounds_injective 8 _ _ (bit_xor-lt 32 c a hc (omega arith))
      (bit_xor-lt 32 c b hc (omega arith))
      (crc_loop_injective ys _ _ h (crc_byte-IsWord c a hc ha) (crc_byte-IsWord c b hc hb) e))

complement : (c d : ℕ) → IsWord c → IsWord d → 0xffffffff - c ≡ 0xffffffff - d → c ≡ d
complement c d hc hd e = omega arith

-- The checksum is a 32-bit word.
pub crc32-lt : (xs : Bytes) → crc32 xs < 2 ^ 32
unfolding crc32
crc32-lt xs = omega arith

-- Two payloads that differ in one byte, with any bytes before and after it, have different
-- checksums.
pub crc32_one_byte :
    (front back : Bytes) (a b : ℕ)
    → IsBytes front
    → IsBytes back
    → IsByte a
    → IsByte b
    → crc32 (front ++ a ∷ back) ≡ crc32 (front ++ b ∷ back)
    → a ≡ b
crc32_one_byte front back a b hf hk ha hb e =
    crc_loop_one_byte back start a b hk start-IsWord ha hb (
      sym (crc_loop-append front (a ∷ back) 0xffffffff)
      ∙ states
      ∙ crc_loop-append front (b ∷ back) 0xffffffff)
  where
    start : ℕ
    start = crc_loop 0xffffffff front

    start-IsWord : IsWord start
    start-IsWord = crc_loop-IsWord front 0xffffffff (omega arith) hf

    states : crc_loop 0xffffffff (front ++ a ∷ back) ≡ crc_loop 0xffffffff (front ++ b ∷ back)
    states =
        complement _ _
          (crc_loop-IsWord (front ++ a ∷ back) _ (omega arith)
            (All-append IsByte front (a ∷ back) hf (ha, hk)))
          (crc_loop-IsWord (front ++ b ∷ back) _ (omega arith)
            (All-append IsByte front (b ∷ back) hf (hb, hk)))
          (unfold crc32 in e)
