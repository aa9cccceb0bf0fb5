-- ===== src/Session/Laws.antt =====
-- `SessionIndex::appendChunk` and `SessionIndex::markCommitted` against the list of the lines of the
-- session file.
use cpp_data_protection_core.Base.{
  ℕ, ltb, ◌==◌, if◌then◌else◌, ◌≡◌, ◌⊎◌, inl, inr, refl, ap, ◌∙◌, sym, arith, true, false,
  Bool-cases, none, some, Option, List, [], ◌∷◌, ◌++◌, append-nil, Bytes, equal, equal_iff, All,
  All-append,
}
use cpp_data_protection_core.Common.Error.{Result, ok, err, session_duplicate_checksum}
use cpp_data_protection_core.Common.Map.{find, assign, same, ltb-IsOrder, find-assign}
use cpp_data_protection_core.Repo.{Repo}
use cpp_data_protection_core.Repo.Directory.{read, read-write_self}
use cpp_data_protection_core.Session.{
  ReceivedChunkRecord, session_name, records_of, records, received_of, received, append_text,
  append_found, append_received, append_chunk,
}
use cpp_data_protection_core.Session.Text.{
  IsReceived, Entry, chunk, IsEntry, entry_text, text_of, chunks_of, records_of-text_of,
  text_of-append, chunks_of-append,
}

-- The session file holds these lines; there is no file before the first.
pub record IsIndex (session_id : Bytes) (es : List Entry) (repo : Repo) : Type 0 where
  pub entries : All IsEntry es
  pub text :
      (read (session_name session_id) repo.sessions ≡ some (text_of es))
      ⊎ ((read (session_name session_id) repo.sessions ≡ none) × (es ≡ []))

records_of-nil : records_of none ≡ ok []
unfolding records_of
records_of-nil = refl

pub records-IsIndex :
    (session_id : Bytes) (es : List Entry) (repo : Repo)
    → IsIndex session_id es repo
    → records session_id repo ≡ ok (chunks_of es)
unfolding records
records-IsIndex session_id es repo h = elim h.text [
  | inl e ↦ ap records_of e ∙ records_of-text_of es h.entries
  | inr e ↦ ap records_of e.0 ∙ rw e.1 (unfold chunks_of in records_of-nil)
]

pub received-IsIndex :
    (session_id : Bytes) (es : List Entry) (repo : Repo)
    → IsIndex session_id es repo
    → received session_id repo ≡ ok (received_of (chunks_of es) [])
unfolding received
received-IsIndex session_id es repo h = rw (records-IsIndex session_id es repo h) refl

text_of-one : (e : Entry) → text_of (e ∷ []) ≡ entry_text e
unfolding text_of
text_of-one e = append-nil (entry_text e)

-- A line that is appended stands behind the others.
append_text-IsIndex :
    (session_id : Bytes) (es : List Entry) (e : Entry) (repo : Repo)
    → IsEntry e
    → IsIndex session_id es repo
    → IsIndex session_id (es ++ e ∷ []) (append_text session_id (entry_text e) repo)
unfolding append_text
append_text-IsIndex session_id es e repo k h = record {
  entries = All-append IsEntry es (e ∷ []) h.entries (k, tt);
  text = inl (elim h.text [
    | inl old ↦
        rw (old, read-write_self)
          (ap (λ (t : Bytes). some t) (rw (text_of-append es (e ∷ []), text_of-one e) refl))
    | inr old ↦
        rw (old.0, read-write_self, old.1) (ap (λ (t : Bytes). some t) (sym (text_of-one e)))
  ]);
}

-- What a session remembers of a chunk that the server acknowledges, on the lines of its file.
unfoldable pub remember :
    Option Bytes → List Entry → ReceivedChunkRecord → Result (Unit {0}) × List Entry
remember none es r = (ok tt, es ++ chunk r ∷ [])
remember (some sha256) es r =
    (elim (equal sha256 r.sha256) [ true ↦ ok tt | false ↦ err session_duplicate_checksum ], es)

unfoldable pub remembered : List Entry → ReceivedChunkRecord → Result (Unit {0}) × List Entry
unfolding remember
remembered es r = remember (find ltb r.global_index (received_of (chunks_of es) [])) es r

append_found-remember :
    (found : Option Bytes) (session_id : Bytes) (es : List Entry) (r : ReceivedChunkRecord)
    (repo : Repo)
    → IsReceived r
    → IsIndex session_id es repo
    → ((append_found found session_id r repo).0 ≡ (remember found es r).0)
      × IsIndex session_id (remember found es r).1 (append_found found session_id r repo).1
unfolding append_found remember
append_found-remember none session_id es r repo k h =
    (refl, append_text-IsIndex session_id es (chunk r) repo k h)
append_found-remember (some sha) session_id es r repo k h = (ground arith, h)

-- On a well-formed session file, `appendChunk` of a record within the ranges of its fields has the
-- outcome of `remembered`, which works on the list of the file's lines: a new index is added at
-- the end, the same hash changes nothing, and another hash is an error; the file afterwards holds
-- exactly the lines that `remembered` gives.
pub append_chunk-refines :
    (session_id : Bytes) (es : List Entry) (r : ReceivedChunkRecord) (repo : Repo)
    → IsReceived r
    → IsIndex session_id es repo
    → ((append_chunk session_id r repo).0 ≡ (remembered es r).0)
      × IsIndex session_id (remembered es r).1 (append_chunk session_id r repo).1
unfolding append_chunk append_received remembered
append_chunk-refines session_id es r repo k h = rw (received-IsIndex session_id es repo h) (
    append_found-remember (find ltb r.global_index (received_of (chunks_of es) [])) session_id es r
      repo k h)

received_of-append :
    (rs : List ReceivedChunkRecord) (r : ReceivedChunkRecord) (out : List (ℕ × Bytes))
    → received_of (rs ++ r ∷ []) out ≡ assign ltb r.global_index r.sha256 (received_of rs out)
unfolding received_of
received_of-append [] r out = refl
received_of-append (s ∷ rs) r out = received_of-append rs r _

same-eq : (i j : ℕ) → same ltb i j ≡ (i == j)
unfolding same
same-eq i j = ground arith

-- What the lines say of an index, behind a chunk that was accepted.
remember-found :
    (found : Option Bytes) (es : List Entry) (r : ReceivedChunkRecord) (j : ℕ)
    → find ltb r.global_index (received_of (chunks_of es) []) ≡ found
    → (remember found es r).0 ≡ ok tt
    → find ltb j (received_of (chunks_of (remember found es r).1) [])
      ≡ (if r.global_index == j then some r.sha256 else find ltb j (received_of (chunks_of es) []))
unfolding remember chunks_of
remember-found none es r j e h =
    rw (chunks_of-append es (chunk r ∷ []), sym (same-eq r.global_index j))
      (ap (λ (m : List (ℕ × Bytes)). find ltb j m) (received_of-append (chunks_of es) r [])
        ∙ find-assign ltb ltb-IsOrder r.global_index j r.sha256 (received_of (chunks_of es) []))
remember-found (some sha) es r j e h = elim (Bool-cases (r.global_index == j)) [
  | inr d ↦ rw d refl
  | inl d ↦
      let one : r.global_index ≡ j = ground arith in
      let key : sha ≡ r.sha256 = ground (arith, equal_iff sha r.sha256) in
      rw d (rw one at e ∙ ap (λ (t : Bytes). some t) key)
]

pub append_chunk-received :
    (session_id : Bytes) (es : List Entry) (r : ReceivedChunkRecord) (repo : Repo) (j : ℕ)
    → IsReceived r
    → IsIndex session_id es repo
    → (append_chunk session_id r repo).0 ≡ ok tt
    → (after : List (ℕ × Bytes)) × (received session_id (append_chunk session_id r repo).1
        ≡ ok after)
      × (find ltb j after ≡ (
          if r.global_index == j
          then some r.sha256
          else find ltb j (received_of (chunks_of es) [])))
append_chunk-received session_id es r repo j k h e =
    let (o, i) = append_chunk-refines session_id es r repo k h in
    let accepted : (remembered es r).0 ≡ ok tt = sym o ∙ e in
    (
      _,
      received-IsIndex session_id (remembered es r).1 _ i,
      unfold remembered in
          remember-found (find ltb r.global_index (received_of (chunks_of es) [])) es r j refl
            accepted,
    )
