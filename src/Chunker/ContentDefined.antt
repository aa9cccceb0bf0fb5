-- ===== src/Chunker/ContentDefined.antt =====
-- src/core/ContentDefinedChunker.cpp.
pub mod Laws
pub mod Resync
use cpp_data_protection_core.Base.{
  ℕ, ◌+◌, ◌-◌, ◌*◌, ◌/◌, ◌%◌, ◌^◌, bit_and, bit_xor, Bool, ◌&&◌, ◌||◌, ltb, leb, ◌==◌, List, [],
  ◌∷◌, ◌++◌, Bytes, length, null, if◌then◌else◌,
}
use cpp_data_protection_core.Common.Error.{
  Result, ok, ◌>>=◌, ◌>>◌, require, cdc_min_zero, cdc_min_above_avg, cdc_avg_above_max,
  cdc_avg_not_power,
}
use cpp_data_protection_core.Common.Types.{Chunk}

pub record ContentDefinedChunker : Type 0 where
  pub min_size : ℕ
  pub avg_size : ℕ
  pub max_size : ℕ
  pub mask : ℕ

-- The constructor.
unfoldable pub content_defined_chunker : ℕ → ℕ → ℕ → Result ContentDefinedChunker
content_defined_chunker min_size avg_size max_size = do
  require (ltb 0 min_size) cdc_min_zero
  require (leb min_size avg_size) cdc_min_above_avg
  require (leb avg_size max_size) cdc_avg_above_max
  require (bit_and avg_size (avg_size - 1) == 0) cdc_avg_not_power
  ok (record { min_size = min_size; avg_size = avg_size; max_size = max_size; mask = avg_size - 1 })

abbrev pub seed : ℕ
seed = 0x9e3779b97f4a7c15

-- The rolling value after one more byte, at 64 bits.
unfoldable pub roll : ℕ → ℕ → ℕ
roll rolling byte =
    bit_xor (bit_xor (bit_xor (rolling * 2 % 2 ^ 64) (rolling / 2 ^ 23)) byte) 0x517cc1b727220a95

-- `len >= max_size_ || boundary`
unfoldable pub cuts : ContentDefinedChunker → ℕ → ℕ → Bool
cuts c len rolling = leb c.max_size len || leb c.min_size len && bit_and rolling c.mask == 0

-- The loop over `i`, with the bytes from `start` up to `i` in `current`, then the chunk that is
-- left at the end of the data.
unfoldable pub chunk_loop : ContentDefinedChunker → ℕ → ℕ → Bytes → Bytes → List Chunk
chunk_loop c rolling index current [] =
    if null current then [] else record { index = index; bytes = current } ∷ []
chunk_loop c rolling index current (b ∷ rest) =
    let rolling' = roll rolling b in
    let current' = current ++ b ∷ [] in
    let cut = record { index = index; bytes = current' } ∷ chunk_loop c seed (index + 1) [] rest in
    let longer = chunk_loop c rolling' index current' rest in
    if cuts c (length current') rolling' then cut else longer

unfoldable pub chunk_bytes : ContentDefinedChunker → Bytes → List Chunk
unfolding chunk_loop roll cuts
chunk_bytes c input =
    let chunks = chunk_loop c seed 0 [] input in
    if null input then record { index = 0; bytes = [] } ∷ [] else chunks
