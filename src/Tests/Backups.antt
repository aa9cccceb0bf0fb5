-- ===== src/Tests/Backups.antt =====
-- A backup of a file of one chunk.
use cpp_data_protection_core.Base.{
  ◌≡◌, refl, arith, false, [], ◌∷◌, ◌++◌, Bytes, codes, length, if◌then◌else◌, equal, equal_iff,
  Bool-cases, inl, inr, true,
}
use cpp_data_protection_core.Common.Error.{ok}
use cpp_data_protection_core.Common.Types.{FileManifest, ChunkRef}
use cpp_data_protection_core.Repo.{empty_repo}
use cpp_data_protection_core.Metadata.Fault.{FaultInjector, no_fault, trigger}
use cpp_data_protection_core.Common.Hex.{bytes_to_hex}
use cpp_data_protection_core.Repo.Directory.{read}
use cpp_data_protection_core.Wal.Record.{encode_record, is_valid_record_type}
use cpp_data_protection_core.Wal.Log.{append}
use cpp_data_protection_core.Store.{sha256_hex}
use cpp_data_protection_core.Store.Paths.{object_path}
use cpp_data_protection_core.Store.Compressor.{Libraries, Documented}
use cpp_data_protection_core.Store.Laws.{place, put_raw_new}
use cpp_data_protection_core.Metadata.Recovery.{wal_append}
use cpp_data_protection_core.Engine.Backup.{
  SourceFile, store_chunks, references, concat, store_file, store_files,
}
use cpp_data_protection_core.Engine.Backup.Stored.{IsStorable}
use cpp_data_protection_core.Engine.Backup.Laws.{IsSource, AllRestore, restore_contents-store_files}
use cpp_data_protection_core.Tests.Repositories.{plain, plain_documented}

abbrev contents : Bytes
contents = codes "data"

abbrev zeros_digest : Bytes
zeros_digest = codes "00000000000000000000000000000000"

abbrev ones_digest : Bytes
ones_digest = codes "11111111111111111111111111111111"

abbrev digest : Bytes → Bytes
digest raw = if equal raw contents then ones_digest else zeros_digest

-- Libraries whose digest tells the chunk from all other texts.
abbrev telling : Libraries
telling = record plain { sha256 = digest }

digest-length : (raw : Bytes) → length (digest raw) ≡ 32
digest-length raw = elim (Bool-cases (equal raw contents)) [ inl e ↦ rw e refl | inr e ↦ rw e refl ]

telling_documented : Documented telling
telling_documented = record {
  digest_size = digest-length;
  frame_size = plain_documented.frame_size;
  frame_contents = plain_documented.frame_contents;
}

contents-IsStorable : IsStorable telling telling_documented contents
unfolding sha256_hex bytes_to_hex equal
contents-IsStorable = (
  omega arith,
  λ other e. elim (Bool-cases (equal other contents)) [
    | inl s ↦ (equal_iff other contents).0 s
    | inr s ↦ let bad : bytes_to_hex zeros_digest ≡ bytes_to_hex ones_digest = rw s at e in cc bad
  ],
)

abbrev calm : FaultInjector
calm = record { stage = no_fault; fired = false }

abbrev file : SourceFile
file = record {
  relative_path = codes "a.txt";
  file_size = 4;
  file_mode = 420;
  chunks = contents ∷ [];
}

abbrev ref : ChunkRef
ref = record {
  chunk_index = 0;
  raw_size = 4;
  compressed_size = 4;
  sha256 = sha256_hex telling contents;
  object_path = place telling telling_documented contents;
}

abbrev backed_up : FileManifest
backed_up = record {
  relative_path = codes "a.txt";
  file_size = 4;
  file_mode = 420;
  file_sha256 = sha256_hex telling (contents ++ []);
  chunks = ref ∷ [];
}

backs_up :
    (store_files telling calm (file ∷ []) empty_repo).0 ≡ ok (backed_up ∷ [], (ref, true) ∷ [])
unfolding store_files store_file store_chunks references concat wal_append append trigger equal
    encode_record is_valid_record_type sha256_hex bytes_to_hex object_path
backs_up =
    rw
      (put_raw_new telling telling_documented contents contents empty_repo refl
        (unfold read in refl))
      refl

file-IsSource : IsSource telling telling_documented calm file
unfolding concat
file-IsSource = ((contents-IsStorable, tt), refl, omega arith)

restore_contents-store_files_example :
    AllRestore telling telling_documented calm
      (store_files telling calm (file ∷ []) empty_repo).1
      (backed_up ∷ [])
      (file ∷ [])
restore_contents-store_files_example =
    restore_contents-store_files telling telling_documented calm (file ∷ []) empty_repo
      (backed_up ∷ []) ((ref, true) ∷ []) (file-IsSource, tt) backs_up
