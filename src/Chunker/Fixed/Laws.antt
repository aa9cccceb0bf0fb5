-- ===== src/Chunker/Fixed/Laws.antt =====
-- The chunks of the fixed-size chunker are the data, cut every `chunk_size` bytes.
use cpp_data_protection_core.Base.{
  ℕ, zero, suc, ◌+◌, ◌<◌, ◌≤◌, ◌≡◌, refl, ap, ◌∙◌, arith, [], ◌∷◌, ◌++◌, Bytes, length, take, drop,
  length-take, length-drop, take-append-drop,
}
use cpp_data_protection_core.Common.Error.{ok}
use cpp_data_protection_core.Chunker.Pieces.{contents, Numbered, AllButLast}
use cpp_data_protection_core.Chunker.Fixed.{FixedChunker, fixed_chunker, chunk_loop, chunk_bytes}

chunk_loop-contents :
    (fuel n i : ℕ) (d : Bytes) → 0 < n → length d ≤ fuel → contents (chunk_loop fuel n i d) ≡ d
unfolding chunk_loop
chunk_loop-contents zero n i [] h f = refl
chunk_loop-contents zero n i (b ∷ bs) h f = absurd (omega arith)
chunk_loop-contents (suc fuel) n i [] h f = refl
chunk_loop-contents (suc fuel) n i (b ∷ bs) h f =
    ap (λ (t : Bytes). take n (b ∷ bs) ++ t)
      (chunk_loop-contents fuel n (i + 1) (drop n (b ∷ bs)) h
        (omega (arith, length-drop n (b ∷ bs))))
    ∙ take-append-drop n (b ∷ bs)

chunk_loop-Numbered : (fuel n i : ℕ) (d : Bytes) → Numbered i (chunk_loop fuel n i d)
unfolding chunk_loop
chunk_loop-Numbered zero n i d = tt
chunk_loop-Numbered (suc fuel) n i [] = tt
chunk_loop-Numbered (suc fuel) n i (b ∷ bs) =
    (refl, chunk_loop-Numbered fuel n (i + 1) (drop n (b ∷ bs)))

-- Full chunks, and a last one that is not empty.
abbrev pub Full : ℕ → Bytes → Type 0
Full n d = length d ≡ n

abbrev pub Part : ℕ → Bytes → Type 0
Part n d = (0 < length d) × (length d ≤ n)

chunk_loop-sizes :
    (fuel n i : ℕ) (d : Bytes)
    → 0 < n
    → length d ≤ fuel
    → AllButLast (Full n) (Part n) (chunk_loop fuel n i d)
unfolding chunk_loop
chunk_loop-sizes zero n i d h f = tt
chunk_loop-sizes (suc fuel) n i [] h f = tt
chunk_loop-sizes (suc fuel) n i (b ∷ bs) h f =
    next fuel (drop n (b ∷ bs)) refl
      (chunk_loop-sizes fuel n (i + 1) (drop n (b ∷ bs)) h (omega (arith, length-drop n (b ∷ bs))))
  where
    next :
        (fuel : ℕ) (rest : Bytes)
        → rest ≡ drop n (b ∷ bs)
        → AllButLast (Full n) (Part n) (chunk_loop fuel n (i + 1) rest)
        → AllButLast
            (Full n)
            (Part n)
            (record { index = i; bytes = take n (b ∷ bs) } ∷ chunk_loop fuel n (i + 1) rest)
    next zero rest e ih =
        (omega (arith, length-take n (b ∷ bs)), omega (arith, length-take n (b ∷ bs)))
    next (suc fuel) [] e ih =
        (omega (arith, length-take n (b ∷ bs)), omega (arith, length-take n (b ∷ bs)))
    next (suc fuel) (x ∷ xs) e ih =
        (omega (arith, length-take n (b ∷ bs), length-drop n (b ∷ bs), ap length e), ih)

chunk_size_pos : (n : ℕ) (c : FixedChunker) → fixed_chunker n ≡ ok c → 0 < c.chunk_size
unfolding fixed_chunker
chunk_size_pos n c h = ground arith

-- For every chunk size that the constructor accepts, the fixed chunks of any data are numbered
-- from 0 and their bytes, one after the other, are the data.
pub chunk_bytes-contents :
    (n : ℕ) (c : FixedChunker) (d : Bytes)
    → fixed_chunker n ≡ ok c
    → (contents (chunk_bytes c d) ≡ d) × Numbered 0 (chunk_bytes c d)
unfolding chunk_bytes
chunk_bytes-contents n c [] h = (refl, (refl, tt))
chunk_bytes-contents n c (b ∷ bs) h = (
  chunk_loop-contents (length (b ∷ bs)) c.chunk_size 0 (b ∷ bs) (chunk_size_pos n c h)
      (omega arith),
  chunk_loop-Numbered (length (b ∷ bs)) c.chunk_size 0 (b ∷ bs),
)

-- For data with at least one byte, every fixed chunk but the last has exactly the chunk size, and
-- the last one has between one byte and the chunk size.
pub chunk_bytes_sizes :
    (n : ℕ) (c : FixedChunker) (b : ℕ) (bs : Bytes)
    → fixed_chunker n ≡ ok c
    → AllButLast (Full c.chunk_size) (Part c.chunk_size) (chunk_bytes c (b ∷ bs))
unfolding chunk_bytes
chunk_bytes_sizes n c b bs h =
    chunk_loop-sizes (length (b ∷ bs)) c.chunk_size 0 (b ∷ bs) (chunk_size_pos n c h) (omega arith)
