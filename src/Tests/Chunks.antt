-- ===== src/Tests/Chunks.antt =====
-- The chunkers at concrete sizes and data.
use cpp_data_protection_core.Base.{◌≡◌, refl, [], ◌++◌, codes}
use cpp_data_protection_core.Chunker.Pieces.{contents, Numbered, AllButLast}
use cpp_data_protection_core.Chunker.Fixed.{FixedChunker, fixed_chunker}
use cpp_data_protection_core.Chunker.Fixed.Laws.{
  Full, Part, chunk_bytes-contents, chunk_bytes_sizes,
}
use cpp_data_protection_core.Chunker
use cpp_data_protection_core.Chunker.ContentDefined.{
  ContentDefinedChunker, content_defined_chunker, roll, cuts,
}
use cpp_data_protection_core.Chunker.ContentDefined.Laws.{Bounded, Last, cdc-contents, cdc_sizes}
use cpp_data_protection_core.Chunker.ContentDefined.Resync.{pieces, cdc_resync}

abbrev three : FixedChunker
three = record { chunk_size = 3 }

-- Every boundary is at two bytes, the maximal size.
abbrev pairs : ContentDefinedChunker
pairs = record { min_size = 1; avg_size = 2; max_size = 2; mask = 1 }

chunk_bytes-contents_example :
    (contents (Chunker.Fixed.chunk_bytes three (codes "abcdefgh")) ≡ codes "abcdefgh")
    × Numbered 0 (Chunker.Fixed.chunk_bytes three (codes "abcdefgh"))
chunk_bytes-contents_example =
    chunk_bytes-contents 3 three (codes "abcdefgh") (unfold fixed_chunker in refl)

chunk_bytes_sizes_example :
    AllButLast (Full 3) (Part 3) (Chunker.Fixed.chunk_bytes three (codes "abcdefgh"))
chunk_bytes_sizes_example =
    chunk_bytes_sizes 3 three 97 (codes "bcdefgh") (unfold fixed_chunker in refl)

cdc-contents_example :
    (contents (Chunker.ContentDefined.chunk_bytes pairs (codes "abcde")) ≡ codes "abcde")
    × Numbered 0 (Chunker.ContentDefined.chunk_bytes pairs (codes "abcde"))
cdc-contents_example = cdc-contents pairs (codes "abcde")

cdc_sizes_example :
    AllButLast
      (Bounded pairs)
      (Last pairs)
      (Chunker.ContentDefined.chunk_bytes pairs (codes "abcde"))
cdc_sizes_example = cdc_sizes 1 2 2 pairs 97 (codes "bcde") (unfold content_defined_chunker in refl)

cdc_resync_example :
    pieces (Chunker.ContentDefined.chunk_bytes pairs (codes "acd"))
    ≡ pieces (Chunker.ContentDefined.chunk_bytes pairs (codes "a"))
      ++ pieces (Chunker.ContentDefined.chunk_bytes pairs (codes "cd"))
unfolding roll cuts
cdc_resync_example = cdc_resync pairs 97 99 [] (codes "d") (refl, refl)
