-- ===== src/Chunker/Fixed.antt =====
-- src/core/FixedChunker.cpp.
pub mod Laws
use cpp_data_protection_core.Base.{
  ℕ, zero, suc, ◌+◌, ◌*◌, ltb, List, [], ◌∷◌, Bytes, length, take, drop, null, if◌then◌else◌,
}
use cpp_data_protection_core.Common.Error.{Result, ok, ◌>>=◌, ◌>>◌, require, chunk_size_zero}
use cpp_data_protection_core.Common.Types.{Chunk}

pub record FixedChunker : Type 0 where
  pub chunk_size : ℕ

abbrev pub default_chunk_size : ℕ
default_chunk_size = 64 * 1024

-- The constructor.
unfoldable pub fixed_chunker : ℕ → Result FixedChunker
fixed_chunker chunk_size = do
  require (ltb 0 chunk_size) chunk_size_zero
  ok (record { chunk_size = chunk_size })

-- The loop over `offset`: `rest` is the data from there on, so the range up to
-- `min(offset + chunk_size_, data.size())` is what `take` gives. An iteration takes a byte at
-- least, so the number of bytes is enough fuel.
unfoldable pub chunk_loop : ℕ → ℕ → ℕ → Bytes → List Chunk
chunk_loop zero chunk_size index rest = []
chunk_loop (suc fuel) chunk_size index [] = []
chunk_loop (suc fuel) chunk_size index (b ∷ bs) =
    record { index = index; bytes = take chunk_size (b ∷ bs) }
    ∷ chunk_loop fuel chunk_size (index + 1) (drop chunk_size (b ∷ bs))

unfoldable pub chunk_bytes : FixedChunker → Bytes → List Chunk
unfolding chunk_loop
chunk_bytes c input =
    let chunks = chunk_loop (length input) c.chunk_size 0 input in
    if null input then record { index = 0; bytes = [] } ∷ [] else chunks
