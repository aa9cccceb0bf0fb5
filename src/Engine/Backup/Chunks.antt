-- ===== src/Engine/Backup/Chunks.antt =====
-- What a backup stores of the chunks of a file is assembled to the chunks again.
use cpp_data_protection_core.Base.{
  ℕ, ◌+◌, ◌≡◌, refl, sym, ap, ◌∙◌, Bool, ==_refl, List, [], ◌∷◌, ◌++◌, append_assoc, append-nil,
  Bytes, length, All, codes,
}
use cpp_data_protection_core.Common.Error.{Result, ok}
use cpp_data_protection_core.Common.Types.{ChunkRef}
use cpp_data_protection_core.Repo.{Repo}
use cpp_data_protection_core.Repo.Action.{Action, ◌>>=◌, pure}
use cpp_data_protection_core.Wal.Record.{put_object}
use cpp_data_protection_core.Metadata.Fault.{FaultInjector, after_object_write, trigger}
use cpp_data_protection_core.Metadata.Recovery.{wal_append}
use cpp_data_protection_core.Store.{PutObjectResult, sha256_hex, put_raw}
use cpp_data_protection_core.Store.Compressor.{Libraries, Documented}
use cpp_data_protection_core.Store.Laws.{place, Holds}
use cpp_data_protection_core.Engine.Check.{assemble}
use cpp_data_protection_core.Engine.Backup.{fault, chunk_ref, store_chunks, references, concat}
use cpp_data_protection_core.Engine.Backup.Stored.{
  bind-ok, IsStorable, IsPut, put_raw-IsPut, Keeps, put_raw-Keeps, lift-Keeps, wal_append-Keeps,
  bind-Keeps,
}

module _ (libs : Libraries) (doc : Documented libs) (injector : FaultInjector) where
  -- What one round does behind the put, behind the log and behind the fault.
  abbrev after_fault : ℕ → List Bytes → PutObjectResult → Unit {0} → Action (List (ChunkRef × Bool))
  after_fault chunk_index chunks put b =
      store_chunks libs injector (chunk_index + 1) chunks >>= λ others.
      pure ((chunk_ref chunk_index put, put.inserted) ∷ others)

  abbrev after_log : ℕ → List Bytes → PutObjectResult → Unit {0} → Action (List (ChunkRef × Bool))
  after_log chunk_index chunks put a =
      fault injector after_object_write >>= after_fault chunk_index chunks put

  abbrev log_text : PutObjectResult → Bytes
  log_text put = put.sha256 ++ (codes " " ++ (put.object_path ++ codes "\n"))

  abbrev rest_of : ℕ → List Bytes → PutObjectResult → Action (List (ChunkRef × Bool))
  rest_of chunk_index chunks put =
      wal_append put_object (log_text put) >>= after_log chunk_index chunks put

  store_chunks-cons :
      (chunk_index : ℕ) (raw : Bytes) (chunks : List Bytes)
      → store_chunks libs injector chunk_index (raw ∷ chunks)
        ≡ (put_raw libs raw >>= rest_of chunk_index chunks)
  unfolding store_chunks
  store_chunks-cons chunk_index raw chunks = refl

  pub store_chunks-Keeps :
      (chunk_index : ℕ) (chunks : List Bytes)
      → Keeps libs doc (store_chunks libs injector chunk_index chunks)
  unfolding store_chunks
  store_chunks-Keeps chunk_index [] = λ other repo h. h
  store_chunks-Keeps chunk_index (raw ∷ chunks) =
      bind-Keeps libs doc (put_raw libs raw) (rest_of chunk_index chunks)
        (put_raw-Keeps libs doc raw)
        (λ put.
          bind-Keeps libs doc {A = Unit {0}} {B = List (ChunkRef × Bool)}
            (wal_append put_object (log_text put)) (after_log chunk_index chunks put)
            (wal_append-Keeps libs doc put_object (log_text put))
            (λ a.
              bind-Keeps libs doc {A = Unit {0}} {B = List (ChunkRef × Bool)}
                (fault injector after_object_write) (after_fault chunk_index chunks put)
                (lift-Keeps libs doc {A = Unit {0}} (trigger after_object_write injector).0)
                (λ b.
                  bind-Keeps libs doc {A = List (ChunkRef × Bool)} {B = List (ChunkRef × Bool)}
                    (store_chunks libs injector (chunk_index + 1) chunks)
                    (λ others. pure ((chunk_ref chunk_index put, put.inserted) ∷ others))
                    (store_chunks-Keeps (chunk_index + 1) chunks) (λ others o r h. h))))

  -- The references and the chunks of a file, each with its object in the store.
  abbrev pub AllRefer : Repo → List ChunkRef → List Bytes → Type 0
  AllRefer repo [] [] = Unit
  AllRefer repo [] (raw ∷ chunks) = ⊥
  AllRefer repo (c ∷ cs) [] = ⊥
  AllRefer repo (c ∷ cs) (raw ∷ chunks) =
      ((c.sha256 ≡ sha256_hex libs raw)
        × (c.object_path ≡ place libs doc raw)
        × (c.raw_size ≡ length raw)
        × Holds libs doc repo raw)
      × AllRefer repo cs chunks

  -- A round that succeeds behind its put.
  record IsRound (chunk_index : ℕ) (chunks : List Bytes) (put : PutObjectResult) (before : Repo)
      (stored : List (ChunkRef × Bool)) : Type 0 where
    others : List (ChunkRef × Bool)
    middle : Repo
    later : (store_chunks libs injector (chunk_index + 1) chunks middle).0 ≡ ok others
    result :
        rest_of chunk_index chunks put before
        ≡ (ok stored, (store_chunks libs injector (chunk_index + 1) chunks middle).1)
    stored_is : stored ≡ (chunk_ref chunk_index put, put.inserted) ∷ others
    keeps : (other : Bytes) → Holds libs doc before other → Holds libs doc middle other

  rest_of-IsRound :
      (chunk_index : ℕ) (chunks : List Bytes) (put : PutObjectResult) (before : Repo)
      (stored : List (ChunkRef × Bool))
      → (rest_of chunk_index chunks put before).0 ≡ ok stored
      → IsRound chunk_index chunks put before stored
  rest_of-IsRound chunk_index chunks put before stored e =
      let text : Bytes = log_text put in
      let fst : Result (List (ChunkRef × Bool)) × Repo → Result (List (ChunkRef × Bool)) =
        λ p. p.0 in
      let (a, ea, qa) = bind-ok (wal_append put_object text) _ before stored e in
      let (b, eb, qb) =
        bind-ok (fault injector after_object_write) _ _ stored (sym (ap fst qa) ∙ e) in
      let (others, eo, qo) =
        bind-ok (store_chunks libs injector (chunk_index + 1) chunks) _ _ stored
          (sym (ap fst (qa ∙ qb)) ∙ e) in
      let done : ◌≡◌ {A = Result (List (ChunkRef × Bool))}
          (ok ((chunk_ref chunk_index put, put.inserted) ∷ others)) (ok stored) =
        sym (ap fst (qa ∙ qb ∙ qo)) ∙ e in
      let stored_is : stored ≡ (chunk_ref chunk_index put, put.inserted) ∷ others = cc in
      record {
        others = others;
        middle = (wal_append put_object text before).1;
        later = eo;
        result =
            qa
            ∙ qb
            ∙ qo
            ∙ ap
                (λ (r : List (ChunkRef × Bool)). (
                  ok r,
                  (store_chunks libs injector (chunk_index + 1) chunks
                      (wal_append put_object text before).1).1,
                ))
                (sym stored_is);
        stored_is = stored_is;
        keeps = λ other h. wal_append-Keeps libs doc put_object text other before h;
      }

  pub store_chunks-AllRefer :
      (chunk_index : ℕ) (chunks : List Bytes) (repo : Repo) (stored : List (ChunkRef × Bool))
      → All (IsStorable libs doc) chunks
      → (store_chunks libs injector chunk_index chunks repo).0 ≡ ok stored
      → AllRefer
          (store_chunks libs injector chunk_index chunks repo).1
          (references libs injector stored)
          chunks
  unfolding store_chunks references
  store_chunks-AllRefer chunk_index [] repo stored h e =
      let none_stored : stored ≡ [] = cc e in rw none_stored tt
  store_chunks-AllRefer chunk_index (raw ∷ chunks) repo stored h e =
      let (put, p, q) = bind-ok (put_raw libs raw) (rest_of chunk_index chunks) repo stored e in
      let before : Repo = (put_raw libs raw repo).1 in
      let r : IsRound chunk_index chunks put before stored =
        rest_of-IsRound chunk_index chunks put before stored
          (sym (ap (λ (t : Result (List (ChunkRef × Bool)) × Repo). t.0) q) ∙ e) in
      let is : IsPut libs doc raw put before = put_raw-IsPut libs doc raw repo put h.0 p in
      let after : Repo = (store_chunks libs injector (chunk_index + 1) chunks r.middle).1 in
      let all : AllRefer after
          (references libs injector ((chunk_ref chunk_index put, put.inserted) ∷ r.others))
          (raw ∷ chunks) =
        (
          (
            is.sha_is,
            is.path_is,
            is.size_is,
            store_chunks-Keeps (chunk_index + 1) chunks raw r.middle (r.keeps raw is.held),
          ),
          store_chunks-AllRefer (chunk_index + 1) chunks r.middle r.others h.1 r.later,
        ) in
      let final : (put_raw libs raw >>= rest_of chunk_index chunks) repo ≡ (ok stored, after) =
        q ∙ r.result in
      rw (ap (λ (t : Result (List (ChunkRef × Bool)) × Repo). t.1) final, r.stored_is) all

  pub assemble-AllRefer :
      (cs : List ChunkRef) (chunks : List Bytes) (front : Bytes) (repo : Repo)
      → AllRefer repo cs chunks
      → assemble libs cs front repo ≡ ok (front ++ concat libs injector chunks)
  unfolding assemble concat
  assemble-AllRefer [] [] front repo h = ap (λ (t : Bytes). ok t) (sym (append-nil front))
  assemble-AllRefer [] (raw ∷ chunks) front repo h = absurd h
  assemble-AllRefer (c ∷ cs) [] front repo h = absurd h
  assemble-AllRefer (c ∷ cs) (raw ∷ chunks) front repo h =
      rw (h.0.0, h.0.1, h.0.3, h.0.2, ==_refl (length raw))
        (assemble-AllRefer cs chunks (front ++ raw) repo h.1
          ∙ ap (λ (t : Bytes). ok t) (append_assoc front raw (concat libs injector chunks)))
