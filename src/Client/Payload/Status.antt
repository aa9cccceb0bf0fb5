-- ===== src/Client/Payload/Status.antt =====
-- The client reads from the status the map that the server wrote into it.
use cpp_data_protection_core.Base.{
  ℕ, zero, suc, ◌^◌, ◌<◌, ◌≤◌, ◌≡◌, refl, ap, ◌∙◌, arith, some, List, [], ◌∷◌, ◌++◌, Bytes, codes,
  equal, length, length-append, All, ltb,
}
use cpp_data_protection_core.Common.Error.{ok}
use cpp_data_protection_core.Common.Hex.{all_of}
use cpp_data_protection_core.Common.Text.{decimal}
use cpp_data_protection_core.Common.Text.Laws.{IsWord}
use cpp_data_protection_core.Common.Stream.{Stream, get_word, get_u64}
use cpp_data_protection_core.Common.Stream.Laws.{
  get_word-word, get_word-space, get_u64-space, get_u64-decimal,
}
use cpp_data_protection_core.Common.Map.{assign}
use cpp_data_protection_core.Common.Map.Ascending.{IsAscending, assign_all, assign_all_ascending}
use cpp_data_protection_core.Packet.Codec.{session_status}
use cpp_data_protection_core.Server.Handle.{text_packet, status_lines, status_text}
use cpp_data_protection_core.Client.Payload.{
  read_status, status_behind, require_not_error, parse_status,
}

-- An index and a hash that a status line can hold.
abbrev pub IsStatus : ℕ × Bytes → Type 0
IsStatus (chunk_index, sha) = (chunk_index < 2 ^ 64) × IsWord sha

status_round :
    (fuel index chunk_index : ℕ) (out : List (ℕ × Bytes)) (sha later : Bytes) (in0 in1 : Stream)
    → get_u64 in0 index ≡ (chunk_index, in1)
    → get_word [] in1 ≡ (sha, some later)
    → read_status (suc fuel) index out in0
      ≡ read_status fuel chunk_index (assign ltb chunk_index sha out) (some later)
unfolding read_status
status_round fuel index chunk_index out sha later in0 in1 e d = rw (e, d) refl

read_status-newline :
    (fuel index : ℕ) (out : List (ℕ × Bytes)) (text : Bytes)
    → read_status fuel index out (some (10 ∷ text)) ≡ read_status fuel index out (some text)
unfolding read_status
read_status-newline zero index out text = refl
read_status-newline (suc fuel) index out text = rw (get_u64-space text index 10 refl) refl

read_status-status_lines :
    (fuel index : ℕ) (m out : List (ℕ × Bytes))
    → All IsStatus m
    → length m < fuel
    → read_status fuel index out (some (status_lines m)) ≡ ok (assign_all m out)
unfolding status_lines assign_all
read_status-status_lines zero index m out h l = absurd (omega arith)
read_status-status_lines (suc fuel) index [] out h l = unfold read_status get_u64 get_word in refl
read_status-status_lines (suc fuel) index ((i, sha) ∷ m) out h l =
    status_round fuel index i out sha _ _ _
      (get_u64-decimal i index b' ' (sha ++ (10 ∷ status_lines m)) h.0.0 refl)
      (get_word-space [] (sha ++ (10 ∷ status_lines m)) b' ' refl
        ∙ get_word-word [] sha (status_lines m) 10 h.0.1 refl)
    ∙ (read_status-newline fuel i _ (status_lines m)
        ∙ read_status-status_lines fuel i m (assign ltb i sha out) h.1 (omega arith))

length-status_lines : (m : List (ℕ × Bytes)) → length m ≤ length (status_lines m)
unfolding status_lines
length-status_lines [] = omega arith
length-status_lines ((i, sha) ∷ m) = omega (
  arith,
  length-append {0} (decimal i) (b' ' ∷ (sha ++ (10 ∷ status_lines m))),
  length-append {0} sha (10 ∷ status_lines m),
  length-status_lines m,
)

pub parse_status-status_text :
    (session_hash : ℕ) (m : List (ℕ × Bytes))
    → All IsStatus m
    → IsAscending m
    → parse_status (text_packet session_status session_hash (status_text m)) ≡ ok m
unfolding parse_status require_not_error status_behind text_packet status_text all_of equal
parse_status-status_text session_hash m h a =
    ap (λ t. status_behind t (status_text m))
      (get_word-word [] (codes "DPC_SESSION_STATUS_V1") (status_lines m) 10 (refl, refl) refl)
    ∙ (read_status-newline (suc (length (status_text m))) 0 [] (status_lines m)
        ∙ (read_status-status_lines (suc (length (status_text m))) 0 m [] h
              (omega (arith, length-status_lines m))
            ∙ ap (λ (t : List (ℕ × Bytes)). ok t) (assign_all_ascending m a)))
