-- ===== src/Session.antt =====
-- src/network/SessionIndex.cpp: the chunks that a transfer session has received, kept as lines of a file
-- of `metadata/sessions`.
pub mod Build
pub mod Text
pub mod Laws
pub mod Latest
use cpp_data_protection_core.Base.{
  ℕ, zero, suc, ltb, Bool, true, false, not, none, some, Option, List, [], ◌∷◌, ◌++◌, Bytes, codes,
  equal, length, if◌then◌else◌,
}
use cpp_data_protection_core.Common.Error.{
  Result, ok, err, ◌>>=◌, session_chunk_record, session_index_tag, session_duplicate_checksum,
  out_of_fuel,
}
use cpp_data_protection_core.Common.Hex.{hex_encode_string, hex_decode_string}
use cpp_data_protection_core.Common.Text.{decimal}
use cpp_data_protection_core.Common.Stream.{Stream, get_word, get_u64, get_u32, skip_line}
use cpp_data_protection_core.Common.Map.{find, assign}
use cpp_data_protection_core.Repo.{Repo}
use cpp_data_protection_core.Repo.Directory.{Files, read, write}
use cpp_data_protection_core.Repo.Action.{Action}

pub record ReceivedChunkRecord : Type 0 where
  pub global_index : ℕ
  pub sha256 : Bytes
  pub relative_path : Bytes
  pub file_size : ℕ
  pub file_mode : ℕ
  pub file_sha256 : Bytes
  pub chunk_index : ℕ
  pub raw_size : ℕ
  pub compressed_size : ℕ
  pub object_path : Bytes

-- `SessionIndex::path`, as a name in `metadata/sessions`.
unfoldable pub session_name : Bytes → Bytes
session_name session_id = hex_encode_string session_id ++ codes ".session"

-- The fields of a CHUNK line, and the stream behind them.
unfoldable pub read_record : Stream → Result ReceivedChunkRecord × Stream
read_record in0 =
    let (global_index, in1) = get_u64 in0 0 in
    let (sha256, in2) = get_word [] in1 in
    let (rel_hex, in3) = get_word [] in2 in
    let (file_size, in4) = get_u64 in3 0 in
    let (file_mode, in5) = get_u32 in4 420 in
    let (file_sha256, in6) = get_word [] in5 in
    let (chunk_index, in7) = get_u64 in6 0 in
    let (raw_size, in8) = get_u64 in7 0 in
    let (compressed_size, in9) = get_u64 in8 0 in
    let (obj_hex, in10) = get_word [] in9 in
    (
      elim in10 [
        | none ↦ err session_chunk_record
        | some rest ↦ (do
          relative_path ← hex_decode_string rel_hex
          object_path ← hex_decode_string obj_hex
          ok (record {
            global_index = global_index;
            sha256 = sha256;
            relative_path = relative_path;
            file_size = file_size;
            file_mode = file_mode;
            file_sha256 = file_sha256;
            chunk_index = chunk_index;
            raw_size = raw_size;
            compressed_size = compressed_size;
            object_path = object_path;
          }))
      ],
      in10,
    )

-- `out.push_back`, once the rest has been read.
abbrev pub with_record :
    Result ReceivedChunkRecord
    → Result (List ReceivedChunkRecord)
    → Result (List ReceivedChunkRecord)
with_record r later = do here ← r; records ← later; ok (here ∷ records)

-- A CHUNK line that was read, and the loop behind it.
abbrev pub on_chunk :
    (Stream → Result (List ReceivedChunkRecord))
    → Result ReceivedChunkRecord × Stream
    → Result (List ReceivedChunkRecord)
on_chunk loop (r, rest) = with_record r (loop rest)

-- The body of the loop, for what `in >> tag` gives.
unfoldable pub on_tag :
    (Stream → Result (List ReceivedChunkRecord))
    → Bytes × Stream
    → Result (List ReceivedChunkRecord)
on_tag loop (tag, none) = ok []
on_tag loop (tag, some rest) = elim (equal tag (codes "CHUNK")) [
  | true ↦ on_chunk loop (read_record (some rest))
  | false ↦ elim (equal tag (codes "COMMITTED")) [
    | true ↦ loop (skip_line (some rest))
    | false ↦ err session_index_tag
  ]
]

-- The loop `while (in >> tag)`; a tag takes at least a character.
unfoldable pub read_records : ℕ → Stream → Result (List ReceivedChunkRecord)
unfolding read_record on_tag
read_records zero in_stream = err out_of_fuel
read_records (suc fuel) in_stream = on_tag (read_records fuel) (get_word [] in_stream)

unfoldable pub records_of : Option Bytes → Result (List ReceivedChunkRecord)
unfolding read_records
records_of none = ok []
records_of (some text) = read_records (suc (length text)) (some text)

unfoldable pub records : Bytes → Repo → Result (List ReceivedChunkRecord)
unfolding records_of
records session_id repo = records_of (read (session_name session_id) repo.sessions)

unfoldable pub received_of : List ReceivedChunkRecord → List (ℕ × Bytes) → List (ℕ × Bytes)
received_of [] out = out
received_of (r ∷ rs) out = received_of rs (assign ltb r.global_index r.sha256 out)

unfoldable pub received : Bytes → Repo → Result (List (ℕ × Bytes))
unfolding records received_of
received session_id repo = do rs ← records session_id repo; ok (received_of rs [])

-- A CHUNK line behind its tag, in front of what follows it.
unfoldable pub chunk_fields : ReceivedChunkRecord → Bytes → Bytes
chunk_fields r later =
    b' '
    ∷ (decimal r.global_index
        ++ (b' '
            ∷ (r.sha256
                ++ (b' '
                    ∷ (hex_encode_string r.relative_path
                        ++ (b' '
                            ∷ (decimal r.file_size
                                ++ (b' '
                                    ∷ (decimal r.file_mode
                                        ++ (b' '
                                            ∷ (r.file_sha256
                                                ++ (b' '
                                                    ∷ (decimal r.chunk_index
                                                        ++ (b' '
                                                            ∷ (decimal r.raw_size
                                                            ++ (b' '
                                                            ∷ (decimal r.compressed_size
                                                            ++ (b' '
                                                            ∷ (hex_encode_string r.object_path
                                                            ++ (10 ∷ later))))))))))))))))))))

unfoldable pub chunk_line : ReceivedChunkRecord → Bytes
unfolding chunk_fields
chunk_line r = codes "CHUNK" ++ chunk_fields r []

-- The file behind a write that was opened with `std::ios::app`.
abbrev pub appended : Option Bytes → Bytes → Bytes
appended none text = text
appended (some old) text = old ++ text

unfoldable pub append_text : Bytes → Bytes → Repo → Repo
append_text session_id text repo = record repo {
  sessions =
      write (session_name session_id) (appended (read (session_name session_id) repo.sessions) text)
        repo.sessions;
}

-- What `appendChunk` does with the checksum that it finds under the record's index.
unfoldable pub append_found : Option Bytes → Bytes → ReceivedChunkRecord → Action (Unit {0})
unfolding append_text chunk_line
append_found none session_id r repo = (ok tt, append_text session_id (chunk_line r) repo)
append_found (some sha256) session_id r repo =
    (if not (equal sha256 r.sha256) then err session_duplicate_checksum else ok tt, repo)

unfoldable pub append_received :
    Result (List (ℕ × Bytes)) → Bytes → ReceivedChunkRecord → Action (Unit {0})
unfolding append_found
append_received (err e) session_id r repo = (err e, repo)
append_received (ok existing) session_id r repo =
    append_found (find ltb r.global_index existing) session_id r repo

unfoldable pub append_chunk : Bytes → ReceivedChunkRecord → Action (Unit {0})
unfolding received append_received
append_chunk session_id r repo = append_received (received session_id repo) session_id r repo

unfoldable pub mark_committed : Bytes → ℕ → Action (Unit {0})
unfolding append_text
mark_committed session_id version repo =
    (ok tt, append_text session_id (codes "COMMITTED " ++ (decimal version ++ codes "\n")) repo)
