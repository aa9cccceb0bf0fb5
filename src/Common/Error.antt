-- ===== src/Common/Error.antt =====
-- include/dpc/common/Error.hpp: `DpcError` and `require`. A constructor stands for the text of
-- one `throw DpcError(...)`, without the values that the message quotes.
use cpp_data_protection_core.Base.{◌≡◌, refl, Bool, true, false, ◌⊎◌, inl, inr}

pub data Error : Type 0 where
  -- no C++ text: a loop of the model has used up its fuel
  out_of_fuel : Error
  -- src/metadata/WalLog.cpp
  invalid_wal_record_type wal_payload_too_large wal_truncated_header : Error
  wal_truncated_payload wal_record_too_small wal_magic_mismatch wal_version_mismatch : Error
  wal_record_type_mismatch wal_record_size_mismatch wal_crc_mismatch : Error
  -- src/network/PacketCodec.cpp
  packet_type_mismatch packet_payload_too_large packet_frame_too_small : Error
  packet_magic_mismatch packet_version_mismatch packet_frame_size_mismatch : Error
  packet_header_crc_mismatch socket_closed socket_read_failed sha_hex_not_32_bytes : Error
  -- include/dpc/common/Hash.hpp
  hex_odd_length invalid_hex_character not_sha256_hex : Error
  -- include/dpc/common/FileUtils.hpp
  null_byte_in_path path_not_relative path_is_current_directory path_has_parent_traversal : Error
  open_file_failed rename_failed write_failed write_returned_zero : Error
  -- src/core
  chunk_size_zero cdc_min_zero cdc_min_above_avg cdc_avg_above_max cdc_avg_not_power : Error
  zstd_content_size_error zstd_growth_failed zstd_failed zstd_size_mismatch : Error
  object_path_not_under_objects object_path_mismatch object_missing : Error
  object_checksum_mismatch existing_object_raw_size_mismatch : Error
  manifest_hex_length manifest_hex_character manifest_number_invalid : Error
  manifest_number_out_of_range unexpected_token manifest_header manifest_missing_key : Error
  manifest_expected_key manifest_chunking_mode manifest_file_line manifest_ended_inside_chunks :
      Error
  manifest_chunk_line manifest_missing_end_file manifest_missing_end : Error
  manifest_file_count_mismatch manifest_data_after_end version_not_committed : Error
  chunk_raw_size_mismatch chunk_checksum_mismatch file_size_mismatch : Error
  file_checksum_mismatch source_not_directory : Error
  -- src/metadata
  checkpoint_header checkpoint_latest_key checkpoint_versions_key : Error
  unknown_fault_stage injected_crash : Error
  -- src/network
  session_chunk_record session_index_tag session_duplicate_checksum session_missing_chunk : Error
  payload_header missing_payload_field put_chunk_separator put_chunk_compressed_size : Error
  put_chunk_checksum unsupported_packet_type server_error expected_session_status : Error
  session_status_payload expected_put_chunk_ack expected_commit_ack : Error
  -- src/cli
  unexpected_argument missing_argument_value missing_required_argument : Error
  -- src/bench
  invalid_bench_argument : Error
  -- exceptions of the C++ library, which are no `DpcError`
  invalid_argument out_of_range length_error : Error

-- What a call that may throw gives back.
pub data Result {ℓ} (A : Type ℓ) : Type ℓ where
  ok : A → Result A
  err : Error → Result A

-- `inline void require(bool condition, const std::string& message)`
abbrev pub require : Bool → Error → Result (Unit {0})
require true e = ok tt
require false e = err e

-- `if (condition) { throw DpcError(message); }`
abbrev pub throw_if : Bool → Error → Result (Unit {0})
throw_if false e = ok tt
throw_if true e = err e

-- An outcome is a value or an error.
pub Result-cases {ℓ} :
    {A : Type ℓ} (r : Result A) → ((a : A) × (r ≡ ok a)) ⊎ ((e : Error) × (r ≡ err e))
Result-cases (err e) = inr (e, refl)
Result-cases (ok a) = inl (a, refl)

-- An error ends the calls that follow.
module _ {ℓ κ} {A : Type ℓ} {B : Type κ} where
  infixl 5 ◌>>=◌
  abbrev pub ◌>>=◌ : Result A → (A → Result B) → Result B
  err e >>= next = err e
  ok a >>= next = next a

  infixl 5 ◌>>◌
  abbrev pub ◌>>◌ : Result A → Result B → Result B
  err e >> next = err e
  ok a >> next = next

  -- Inversion of a successful chain, where the parts stay shut.
  pub >>=-eq-ok :
      (r : Result A) (next : A → Result B) {b : B}
      → (r >>= next) ≡ ok b
      → (a : A) × (r ≡ ok a) × (next a ≡ ok b)
  >>=-eq-ok (err e) next h = cc
  >>=-eq-ok (ok a) next h = (a, refl, h)

-- A test that has let the code go on, and what came after it.
pub throw_if-eq-ok {ℓ} :
    {A : Type ℓ} (b : Bool) (e : Error) (k : Result A) {a : A}
    → (throw_if b e >> k) ≡ ok a
    → (b ≡ false) × (k ≡ ok a)
throw_if-eq-ok true e k h = cc
throw_if-eq-ok false e k h = (refl, h)
