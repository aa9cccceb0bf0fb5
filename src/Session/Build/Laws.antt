-- ===== src/Session/Build/Laws.antt =====
-- No chunk that a session has received is lost from the manifest that it is committed as.
use cpp_data_protection_core.Base.{
  ℕ, zero, suc, ◌+◌, ◌<◌, ltb, ◌≡◌, refl, ◌∙◌, sym, subst, arith, none, some, Option, List, [],
  Bytes,
}
use cpp_data_protection_core.Common.Error.{Result, ok, err, ◌>>◌, session_missing_chunk}
use cpp_data_protection_core.Common.Map.{find}
use cpp_data_protection_core.Common.Types.{Manifest}
use cpp_data_protection_core.Session.{ReceivedChunkRecord}
use cpp_data_protection_core.Session.Build.{
  by_global, go_on, check_indices, build_records, build_manifest,
}
use cpp_data_protection_core.Repo.{Repo}
use cpp_data_protection_core.Session.Latest.{latest, find-by_global}
use cpp_data_protection_core.Session.Text.{Entry, chunks_of}
use cpp_data_protection_core.Session.Laws.{IsIndex, records-IsIndex}
use cpp_data_protection_core.Session.Build.Keeps.{InManifest, manifest_of-InManifest}

go_on-ok :
    (found : Option ReceivedChunkRecord) (later : Result (Unit {0}))
    → go_on found later ≡ ok tt
    → ((r : ReceivedChunkRecord) × (found ≡ some r)) × (later ≡ ok tt)
go_on-ok none later h = cc
go_on-ok (some r) later h = ((r, refl), h)

-- The indices from the first one on are there, or the check throws.
pub check_indices-found :
    (left start i j : ℕ) (m : List (ℕ × ReceivedChunkRecord))
    → check_indices left start m ≡ ok tt
    → i < left
    → start + i ≡ j
    → (r : ReceivedChunkRecord) × (find ltb j m ≡ some r)
unfolding check_indices
check_indices-found zero start i j m e l s = absurd (omega arith)
check_indices-found (suc left) start zero j m e l s =
    let here : start ≡ j = omega arith in
    rw (sym here) (go_on-ok (find ltb start m) (check_indices left (start + 1) m) e).0
check_indices-found (suc left) start (suc i) j m e l s =
    check_indices-found left (start + 1) i j m
      (go_on-ok (find ltb start m) (check_indices left (start + 1) m) e).1 (omega arith)
      (omega arith)

missing_later :
    (found : Option ReceivedChunkRecord)
    → go_on found (err session_missing_chunk) ≡ err session_missing_chunk
missing_later none = refl
missing_later (some r) = refl

pub check_indices_missing :
    (left start i j : ℕ) (m : List (ℕ × ReceivedChunkRecord))
    → i < left
    → start + i ≡ j
    → find ltb j m ≡ none
    → check_indices left start m ≡ err session_missing_chunk
unfolding check_indices
check_indices_missing zero start i j m l s e = absurd (omega arith)
check_indices_missing (suc left) start zero j m l s e =
    let here : start ≡ j = omega arith in rw (here, e) refl
check_indices_missing (suc left) start (suc i) j m l s e =
    rw (check_indices_missing left (start + 1) i j m (omega arith) (omega arith) e)
      (missing_later (find ltb start m))

checked :
    (c : Result (Unit {0})) (m manifest : Manifest)
    → (c >> ok m) ≡ ok manifest
    → (c ≡ ok tt) × (m ≡ manifest)
checked (err e) m manifest h = cc
checked (ok u) m manifest h = (refl, cc)

module _ (session_id : Bytes) (es : List Entry) (repo : Repo)
    (index : IsIndex session_id es repo) where
  pub build_manifest-IsIndex :
      (version total_chunks now : ℕ)
      → build_manifest version total_chunks now session_id repo
        ≡ build_records (chunks_of es) version total_chunks now session_id
  unfolding build_manifest
  build_manifest-IsIndex version total_chunks now =
      rw (records-IsIndex session_id es repo index) refl

  -- When `buildManifest` succeeds on a well-formed session file, then for each index below the
  -- total the session file has a chunk with that index, and the manifest has a file under the path
  -- of the last such chunk which lists a reference with its chunk index, its raw and compressed
  -- sizes, its hash and its object path.
  pub build_manifest_complete :
      (version total_chunks now : ℕ) (manifest : Manifest) (i : ℕ)
      → build_manifest version total_chunks now session_id repo ≡ ok manifest
      → i < total_chunks
      → (r : ReceivedChunkRecord) × (latest i (chunks_of es) ≡ some r) × InManifest r manifest
  unfolding build_records
  build_manifest_complete version total_chunks now manifest i e l =
      let m : List (ℕ × ReceivedChunkRecord) = by_global (chunks_of es) [] in
      let (c, d) =
        checked (check_indices total_chunks 0 m) _ manifest
          (sym (build_manifest-IsIndex version total_chunks now) ∙ e) in
      let (r, f) = check_indices-found total_chunks 0 i i m c l (omega arith) in
      (
        r,
        sym (find-by_global (chunks_of es) i) ∙ f,
        subst (λ (x : Manifest). InManifest r x) d
            (manifest_of-InManifest version now session_id m i r f),
      )

  -- On a well-formed session file, when for some index below the total the file has no chunk with
  -- that index, `buildManifest` throws the error for a missing chunk.
  pub build_manifest_missing :
      (version total_chunks now i : ℕ)
      → i < total_chunks
      → latest i (chunks_of es) ≡ none
      → build_manifest version total_chunks now session_id repo ≡ err session_missing_chunk
  unfolding build_records
  build_manifest_missing version total_chunks now i l e =
      build_manifest-IsIndex version total_chunks now
      ∙ rw
          (check_indices_missing total_chunks 0 i i (by_global (chunks_of es) []) l (omega arith)
            (find-by_global (chunks_of es) i ∙ e))
          refl
