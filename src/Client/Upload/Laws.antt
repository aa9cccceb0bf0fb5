-- ===== src/Client/Upload/Laws.antt =====
-- The upload goes over the chunks that the server lacks, and stops where it was asked to.
use cpp_data_protection_core.Base.{
  ℕ, ◌+◌, ◌≡◌, ◌≢◌, refl, ap, Bool-cases, equal_iff, inl, inr, ltb, Option, none, some, List, [],
  ◌∷◌, Bytes, true, arith,
}
use cpp_data_protection_core.Common.Map.{find}
use cpp_data_protection_core.Client.Payload.{PreparedChunk}
use cpp_data_protection_core.Client.Upload.{is_received, send_chunks}

-- The second list is the first one without the chunks whose hash is the one that the server has
-- reported under their index.
pub data Lacking (received : List (ℕ × Bytes))
    : List PreparedChunk → List PreparedChunk → Type 0 where
  nothing : Lacking received [] []
  skipped :
      {chunk : PreparedChunk} {chunks needed : List PreparedChunk}
      → find ltb chunk.global_index received ≡ some chunk.chunk_sha256
      → Lacking received chunks needed
      → Lacking received (chunk ∷ chunks) needed
  kept :
      {chunk : PreparedChunk} {chunks needed : List PreparedChunk}
      → find ltb chunk.global_index received ≢ some chunk.chunk_sha256
      → Lacking received chunks needed
      → Lacking received (chunk ∷ chunks) (chunk ∷ needed)

is_received-some :
    (found : Option Bytes) (sha : Bytes) → is_received found sha ≡ true → found ≡ some sha
unfolding is_received
is_received-some none sha e = cc
is_received-some (some h) sha e = ap (λ (t : Bytes). some t) ((equal_iff h sha).0 e)

some-is_received :
    (found : Option Bytes) (sha : Bytes) → found ≡ some sha → is_received found sha ≡ true
unfolding is_received
some-is_received none sha e = cc
some-is_received (some h) sha e = (equal_iff h sha).1 (ground arith)

send_chunks-Lacking :
    (session_id : Bytes) (exit_after : ℕ) (received : List (ℕ × Bytes)) (sent : ℕ)
    (chunks needed : List PreparedChunk)
    → Lacking received chunks needed
    → send_chunks session_id exit_after received sent chunks
      ≡ send_chunks session_id exit_after [] sent needed
unfolding send_chunks
send_chunks-Lacking session_id exit_after received sent _ _ nothing = refl
send_chunks-Lacking session_id exit_after received sent _ needed
      (skipped {chunk = chunk} {chunks = chunks} e l) =
    rw (some-is_received _ chunk.chunk_sha256 e)
      (send_chunks-Lacking session_id exit_after received sent chunks needed l)
send_chunks-Lacking session_id exit_after received sent _ _
      (kept {chunk = chunk} {chunks = chunks} {needed = needed} d l) =
    elim (Bool-cases (is_received (find ltb chunk.global_index received) chunk.chunk_sha256)) [
      | inl e ↦ absurd (d (is_received-some _ chunk.chunk_sha256 e))
      | inr e ↦
          rw (e, send_chunks-Lacking session_id exit_after received (sent + 1) chunks needed l)
            (unfold find is_received in refl)
    ]

Lacking-total :
    (received : List (ℕ × Bytes)) (chunks : List PreparedChunk)
    → (needed : List PreparedChunk) × Lacking received chunks needed
Lacking-total received [] = ([], nothing)
Lacking-total received (chunk ∷ chunks) =
    let (needed, l) = Lacking-total received chunks in
    elim (Bool-cases (is_received (find ltb chunk.global_index received) chunk.chunk_sha256)) [
      | inl e ↦ (needed, skipped (is_received-some _ chunk.chunk_sha256 e) l)
      | inr e ↦
          (chunk ∷ needed, kept (λ d. absurd (cc (e, some-is_received _ chunk.chunk_sha256 d))) l)
    ]

-- For all prepared chunks there is the list of those whose hash is not the one that the server has
-- reported under their index, in their order, and the upload loop on all chunks does what it does
-- on this list for a server that has reported nothing.
pub send_chunks_needed :
    (session_id : Bytes) (exit_after : ℕ) (received : List (ℕ × Bytes)) (sent : ℕ)
    (chunks : List PreparedChunk)
    → (needed : List PreparedChunk) × Lacking received chunks needed
      × (send_chunks session_id exit_after received sent chunks
          ≡ send_chunks session_id exit_after [] sent needed)
send_chunks_needed session_id exit_after received sent chunks =
    let (needed, l) = Lacking-total received chunks in
    (needed, l, send_chunks-Lacking session_id exit_after received sent chunks needed l)
