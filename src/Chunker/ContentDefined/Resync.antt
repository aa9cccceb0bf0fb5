-- ===== src/Chunker/ContentDefined/Resync.antt =====
-- Chunk boundaries depend on the bytes since the last boundary alone.
use cpp_data_protection_core.Base.{
  ℕ, ◌+◌, ◌≡◌, refl, ap, true, false, Bool-cases, inl, inr, List, [], ◌∷◌, ◌++◌, Bytes, length,
}
use cpp_data_protection_core.Common.Types.{Chunk}
use cpp_data_protection_core.Chunker.ContentDefined.{
  ContentDefinedChunker, seed, roll, cuts, chunk_loop, chunk_bytes,
}

-- The bytes of the chunks, without their numbers.
abbrev pub pieces : List Chunk → List Bytes
pieces [] = []
pieces (x ∷ cs) = x.bytes ∷ pieces cs

-- The loop, from its state, has just cut when `d` ends.
abbrev pub EndsAtCut : ContentDefinedChunker → ℕ → Bytes → Bytes → Type 0
EndsAtCut c r current [] = (current ≡ []) × (r ≡ seed)
EndsAtCut c r current (b ∷ d) = elim (cuts c (length (current ++ b ∷ [])) (roll r b)) [
  | true ↦ EndsAtCut c seed [] d
  | false ↦ EndsAtCut c (roll r b) (current ++ b ∷ []) d
]

module _ (c : ContentDefinedChunker) where
  pieces-chunk_loop :
      (d current : Bytes) (r i j : ℕ)
      → pieces (chunk_loop c r i current d) ≡ pieces (chunk_loop c r j current d)
  unfolding chunk_loop
  pieces-chunk_loop [] [] r i j = refl
  pieces-chunk_loop [] (x ∷ xs) r i j = refl
  pieces-chunk_loop (b ∷ d) current r i j =
      elim (Bool-cases (cuts c (length (current ++ b ∷ [])) (roll r b))) [
        | inl cut ↦ rw cut (
            ap (λ (t : List Bytes). (current ++ b ∷ []) ∷ t)
              (pieces-chunk_loop d [] seed (i + 1) (j + 1)))
        | inr longer ↦ rw longer (pieces-chunk_loop d (current ++ b ∷ []) (roll r b) i j)
      ]

  pieces-append :
      (d e current : Bytes) (r i j : ℕ)
      → EndsAtCut c r current d
      → pieces (chunk_loop c r i current (d ++ e))
        ≡ pieces (chunk_loop c r i current d) ++ pieces (chunk_loop c seed j [] e)
  unfolding chunk_loop
  pieces-append [] e current r i j h = rw (h.0, h.1) (pieces-chunk_loop e [] seed i j)
  pieces-append (b ∷ d) e current r i j h =
      elim (Bool-cases (cuts c (length (current ++ b ∷ [])) (roll r b))) [
        | inl cut ↦ rw cut (
            ap (λ (t : List Bytes). (current ++ b ∷ []) ∷ t)
              (pieces-append d e [] seed (i + 1) j (rw (cut, EndsAtCut) at h)))
        | inr longer ↦
            rw longer
              (pieces-append d e (current ++ b ∷ []) (roll r b) i j (rw (longer, EndsAtCut) at h))
      ]

-- Where a boundary falls at the end of some data, the chunks of that data followed by more bytes
-- are the chunks of the data and then the chunks that the further bytes have by themselves.
pub cdc_resync :
    (c : ContentDefinedChunker) (a b : ℕ) (d e : Bytes)
    → EndsAtCut c seed [] (a ∷ d)
    → pieces (chunk_bytes c (a ∷ d ++ b ∷ e))
      ≡ pieces (chunk_bytes c (a ∷ d)) ++ pieces (chunk_bytes c (b ∷ e))
unfolding chunk_bytes
cdc_resync c a b d e h = pieces-append c (a ∷ d) (b ∷ e) [] seed 0 0 h
