-- ===== src/Chunker.antt =====
-- src/core/FixedChunker.cpp and src/core/ContentDefinedChunker.cpp.
pub mod Pieces
pub mod Fixed
pub mod ContentDefined
