-- ===== src/Manifest.antt =====
-- src/core/ManifestStore.cpp: the text of a manifest, and the numbering of versions.
pub mod Serialize
pub mod Parse
pub mod Fields
pub mod RoundTrip
pub mod Versions
