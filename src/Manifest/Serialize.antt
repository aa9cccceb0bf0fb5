-- ===== src/Manifest/Serialize.antt =====
-- `ManifestStore::serialize`.
use cpp_data_protection_core.Base.{List, [], ◌∷◌, ◌++◌, Bytes, codes, length}
use cpp_data_protection_core.Common.Hex.{hex_encode_string}
use cpp_data_protection_core.Common.Types.{ChunkRef, FileManifest, Manifest, to_string}
use cpp_data_protection_core.Common.Text.{decimal}

-- `out << text << "\n"`, in front of what is written later.
abbrev pub line : Bytes → Bytes → Bytes
line text later = text ++ 10 ∷ later

-- `" "` in front of the next field.
abbrev pub then_field : Bytes → Bytes → Bytes
then_field field later = field ++ b' ' ∷ later

unfoldable pub chunk_text : ChunkRef → Bytes
chunk_text chunk = then_field (codes "CHUNK") (
    then_field (decimal chunk.chunk_index) (
      then_field (decimal chunk.raw_size) (
        then_field (decimal chunk.compressed_size)
          (then_field chunk.sha256 (hex_encode_string chunk.object_path)))))

unfoldable pub chunk_lines : List ChunkRef → Bytes → Bytes
chunk_lines [] later = later
chunk_lines (chunk ∷ chunks) later = line (chunk_text chunk) (chunk_lines chunks later)

unfoldable pub file_text : FileManifest → Bytes
file_text file = then_field (codes "FILE") (
    then_field (hex_encode_string file.relative_path) (
      then_field (decimal file.file_size) (
        then_field (decimal file.file_mode)
          (then_field file.file_sha256 (decimal (length file.chunks))))))

unfoldable pub file_lines : List FileManifest → Bytes → Bytes
unfolding file_text chunk_lines
file_lines [] later = later
file_lines (file ∷ files) later =
    line (file_text file)
      (chunk_lines file.chunks (line (codes "END_FILE") (file_lines files later)))

unfoldable pub serialize : Manifest → Bytes
unfolding file_lines
serialize m = line (codes "DPC_MANIFEST_V1") (
    line (then_field (codes "version") (decimal m.version)) (
      line (then_field (codes "created_at") (decimal m.created_at)) (
        line (then_field (codes "chunking_mode") (to_string m.chunking_mode)) (
          line (then_field (codes "source_root_hex") (hex_encode_string m.source_root)) (
            line (then_field (codes "file_count") (decimal (length m.files))) (
              line (then_field (codes "total_input_bytes") (decimal m.total_input_bytes)) (
                line (then_field (codes "total_stored_bytes") (decimal m.total_stored_bytes))
                  (file_lines m.files (line (codes "END") [])))))))))
