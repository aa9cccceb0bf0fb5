-- ===== src/Common.antt =====
-- include/dpc/common: errors, and the types and encodings that the components share.
pub mod Error
pub mod Map
pub mod Stream
pub mod Hex
pub mod Types
pub mod Path
pub mod Text
