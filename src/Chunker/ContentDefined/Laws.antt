-- ===== src/Chunker/ContentDefined/Laws.antt =====
-- The chunks of the content-defined chunker are the data, within the configured sizes.
use cpp_data_protection_core.Base.{
  ℕ, ◌+◌, ◌<◌, ◌≤◌, ◌≡◌, refl, ap, ◌∙◌, arith, true, false, Bool-cases, inl, inr, List, [], ◌∷◌,
  ◌++◌, append_assoc, Bytes, length, length-append,
}
use cpp_data_protection_core.Common.Error.{ok}
use cpp_data_protection_core.Common.Types.{Chunk}
use cpp_data_protection_core.Chunker.Pieces.{contents, Numbered, AllButLast}
use cpp_data_protection_core.Chunker.ContentDefined.{
  ContentDefinedChunker, content_defined_chunker, seed, roll, cuts, chunk_loop, chunk_bytes,
}

module _ (c : ContentDefinedChunker) where
  chunk_loop-contents :
      (d current : Bytes) (r i : ℕ) → contents (chunk_loop c r i current d) ≡ current ++ d
  unfolding chunk_loop
  chunk_loop-contents [] [] r i = refl
  chunk_loop-contents [] (x ∷ xs) r i = refl
  chunk_loop-contents (b ∷ d) current r i =
      elim (Bool-cases (cuts c (length (current ++ b ∷ [])) (roll r b))) [
        | inl cut ↦ rw cut (
            ap (λ (t : Bytes). (current ++ b ∷ []) ++ t) (chunk_loop-contents d [] seed (i + 1))
            ∙ append_assoc current (b ∷ []) d)
        | inr longer ↦ rw longer (
            chunk_loop-contents d (current ++ b ∷ []) (roll r b) i
            ∙ append_assoc current (b ∷ []) d)
      ]

  chunk_loop-Numbered : (d current : Bytes) (r i : ℕ) → Numbered i (chunk_loop c r i current d)
  unfolding chunk_loop
  chunk_loop-Numbered [] [] r i = tt
  chunk_loop-Numbered [] (x ∷ xs) r i = (refl, tt)
  chunk_loop-Numbered (b ∷ d) current r i =
      elim (Bool-cases (cuts c (length (current ++ b ∷ [])) (roll r b))) [
        | inl cut ↦ rw cut (refl, chunk_loop-Numbered d [] seed (i + 1))
        | inr longer ↦ rw longer (chunk_loop-Numbered d (current ++ b ∷ []) (roll r b) i)
      ]

  -- A chunk that ends at a boundary, and the last one.
  abbrev pub Bounded : Bytes → Type 0
  Bounded d = (c.min_size ≤ length d) × (length d ≤ c.max_size)

  abbrev pub Last : Bytes → Type 0
  Last d = (0 < length d) × (length d ≤ c.max_size)

  cuts_min : (len r : ℕ) → c.min_size ≤ c.max_size → cuts c len r ≡ true → c.min_size ≤ len
  unfolding cuts
  cuts_min len r h e = ground arith

  cuts_max : (len r : ℕ) → cuts c len r ≡ false → len < c.max_size
  unfolding cuts
  cuts_max len r e = ground arith

  cons-AllButLast :
      (x : Chunk) (cs : List Chunk)
      → Bounded x.bytes
      → 0 < c.min_size
      → AllButLast Bounded Last cs
      → AllButLast Bounded Last (x ∷ cs)
  cons-AllButLast x [] h p ih = (omega (arith, h.0), h.1)
  cons-AllButLast x (y ∷ cs) h p ih = (h, ih)

  chunk_loop-sizes :
      (d current : Bytes) (r i : ℕ)
      → 0 < c.min_size
      → c.min_size ≤ c.max_size
      → length current < c.max_size
      → AllButLast Bounded Last (chunk_loop c r i current d)
  unfolding chunk_loop
  chunk_loop-sizes [] [] r i p o h = tt
  chunk_loop-sizes [] (x ∷ xs) r i p o h = omega arith
  chunk_loop-sizes (b ∷ d) current r i p o h =
      elim (Bool-cases (cuts c (length (current ++ b ∷ [])) (roll r b))) [
        | inl cut ↦ rw cut (
            cons-AllButLast (record { index = i; bytes = current ++ b ∷ [] }) _
              (cuts_min _ (roll r b) o cut, omega (arith, length-append current (b ∷ []))) p
              (chunk_loop-sizes d [] seed (i + 1) p o (omega arith)))
        | inr longer ↦
            rw longer (
              chunk_loop-sizes d (current ++ b ∷ []) (roll r b) i p o
                (cuts_max _ (roll r b) longer))
      ]

-- What the constructor has tested.
made :
    (min_size avg_size max_size : ℕ) (c : ContentDefinedChunker)
    → content_defined_chunker min_size avg_size max_size ≡ ok c
    → (0 < c.min_size) × (c.min_size ≤ c.max_size)
unfolding content_defined_chunker
made min_size avg_size max_size c h = ground arith

-- For any sizes, the content-defined chunks of any data are numbered from 0 and their bytes, one
-- after the other, are the data.
pub cdc-contents :
    (c : ContentDefinedChunker) (d : Bytes)
    → (contents (chunk_bytes c d) ≡ d) × Numbered 0 (chunk_bytes c d)
unfolding chunk_bytes
cdc-contents c [] = (refl, (refl, tt))
cdc-contents c (b ∷ bs) =
    (chunk_loop-contents c (b ∷ bs) [] seed 0, chunk_loop-Numbered c (b ∷ bs) [] seed 0)

-- For any sizes that the constructor accepts and data with at least one byte, every chunk has at
-- most the maximal size, every chunk but the last at least the minimal size, and the last one at
-- least one byte.
pub cdc_sizes :
    (min_size avg_size max_size : ℕ) (c : ContentDefinedChunker) (b : ℕ) (bs : Bytes)
    → content_defined_chunker min_size avg_size max_size ≡ ok c
    → AllButLast (Bounded c) (Last c) (chunk_bytes c (b ∷ bs))
unfolding chunk_bytes
cdc_sizes lo avg hi c b bs h =
    let (p, o) = made lo avg hi c h in chunk_loop-sizes c (b ∷ bs) [] seed 0 p o (omega arith)
