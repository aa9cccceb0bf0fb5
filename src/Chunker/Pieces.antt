-- ===== src/Chunker/Pieces.antt =====
-- What a list of chunks is a splitting of.
use cpp_data_protection_core.Base.{ℕ, ◌+◌, ◌≡◌, List, [], ◌∷◌, ◌++◌, Bytes}
use cpp_data_protection_core.Common.Types.{Chunk}

-- The bytes of the chunks, one after the other.
abbrev pub contents : List Chunk → Bytes
contents [] = []
contents (c ∷ cs) = c.bytes ++ contents cs

-- The chunks are numbered from `i` on.
abbrev pub Numbered : ℕ → List Chunk → Type 0
Numbered i [] = Unit
Numbered i (c ∷ cs) = (c.index ≡ i) × Numbered (i + 1) cs

-- Every chunk but the last one satisfies `P`, and the last one `Q`.
abbrev pub AllButLast : (Bytes → Type 0) → (Bytes → Type 0) → List Chunk → Type 0
AllButLast P Q [] = Unit
AllButLast P Q (c ∷ []) = Q c.bytes
AllButLast P Q (c ∷ d ∷ cs) = P c.bytes × AllButLast P Q (d ∷ cs)
