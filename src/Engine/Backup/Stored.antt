-- ===== src/Engine/Backup/Stored.antt =====
-- A put that succeeds leaves the object in the store, and the other steps of a backup leave the store.
use cpp_data_protection_core.Base.{
  ℕ, ◌<◌, ◌≡◌, refl, sym, ap, ◌∙◌, subst, Bool, true, false, not, ◌==◌, inl, inr, none, some, Bytes,
  equal_iff, length,
}
use cpp_data_protection_core.Common.Error.{
  Result, ok, err, throw_if, throw_if-eq-ok, >>=-eq-ok, existing_object_raw_size_mismatch,
  zstd_failed, Result-cases,
}
use cpp_data_protection_core.Common.Error as Fail
use cpp_data_protection_core.Repo.{Repo}
use cpp_data_protection_core.Repo.Directory.{read, read-write_self, Option-cases}
use cpp_data_protection_core.Repo.Action.{Action, go_on, ◌>>=◌, lift}
use cpp_data_protection_core.Wal.Log.{append}
use cpp_data_protection_core.Wal.Record.{WalRecordType}
use cpp_data_protection_core.Metadata.Recovery.{wal_append}
use cpp_data_protection_core.Store.{PutObjectResult, sha256_hex, read_raw, put_at, put_raw}
use cpp_data_protection_core.Store.Compressor.{Libraries, Documented, content_size_error, compress}
use cpp_data_protection_core.Store.Laws.{
  place, Holds, NoCollision, put_result, put_raw-put_at, put_raw_new, put_raw_keeps, Holds-compress,
}
use cpp_data_protection_core.Engine.Check.Laws.{read_raw-hash}
use cpp_data_protection_core.Server.Handle.Stored.{Holds-objects}

module _ {A B : Type 0} where
  -- Inversion of a chain that succeeds.
  pub bind-ok :
      (m : Action A) (f : A → Action B) (repo : Repo) (b : B)
      → ((m >>= f) repo).0 ≡ ok b
      → (a : A) × ((m repo).0 ≡ ok a) × ((m >>= f) repo ≡ f a (m repo).1)
  bind-ok m f repo b h = elim (Result-cases (m repo).0) [
    | inl (a, e) ↦ (a, e, ap (λ (r : Result A). go_on r f (m repo).1) e)
    | inr (e, d) ↦
        let bad : ◌≡◌ {A = Result B} (err e) (ok b) =
          sym (ap (λ (r : Result A). (go_on r f (m repo).1).0) d) ∙ h in
        cc
  ]

module _ (libs : Libraries) (doc : Documented libs) where
  -- What a chunk must be for a backup of it to be restored.
  abbrev pub IsStorable : Bytes → Type 0
  IsStorable raw = (length raw < content_size_error) × NoCollision libs doc raw

  pub record IsPut (raw : Bytes) (put : PutObjectResult) (after : Repo) : Type 0 where
    pub sha_is : put.sha256 ≡ sha256_hex libs raw
    pub path_is : put.object_path ≡ place libs doc raw
    pub size_is : put.raw_size ≡ length raw
    pub held : Holds libs doc after raw

  put_result-IsPut :
      (raw : Bytes) (stored_size : ℕ) (inserted : Bool) (put : PutObjectResult) (after : Repo)
      → put_result libs doc raw stored_size inserted ≡ put
      → Holds libs doc after raw
      → IsPut raw put after
  put_result-IsPut raw stored_size inserted put after e h = record {
    sha_is = ap (λ (p : PutObjectResult). p.sha256) (sym e);
    path_is = ap (λ (p : PutObjectResult). p.object_path) (sym e);
    size_is = ap (λ (p : PutObjectResult). p.raw_size) (sym e);
    held = h;
  }

  -- What `putCompressed` does where a file stands at the place.
  abbrev reuse : Bytes → Bytes → Repo → Result PutObjectResult
  reuse raw old repo =
      Fail.◌>>=◌ (read_raw libs (sha256_hex libs raw) (place libs doc raw) repo) (λ found.
        Fail.◌>>◌ (throw_if (not (length found == length raw)) existing_object_raw_size_mismatch)
          (ok (put_result libs doc raw (length old) false)))

  put_raw_old_is :
      (raw compressed old : Bytes) (repo : Repo)
      → libs.zstd_compress raw ≡ some compressed
      → read (place libs doc raw) repo.objects ≡ some old
      → put_raw libs raw repo ≡ (reuse raw old repo, repo)
  unfolding put_at
  put_raw_old_is raw compressed old repo e r =
      put_raw-put_at libs doc raw compressed repo e ∙ rw (put_at, r) refl

  reuse-IsPut :
      (raw old : Bytes) (repo : Repo) (put : PutObjectResult)
      → IsStorable raw
      → reuse raw old repo ≡ ok put
      → IsPut raw put repo
  reuse-IsPut raw old repo put h e =
      let (found, got, rest) =
        >>=-eq-ok (read_raw libs (sha256_hex libs raw) (place libs doc raw) repo) _ e in
      let (sized, result) =
        throw_if-eq-ok (not (length found == length raw)) existing_object_raw_size_mismatch _
          rest in
      let one : found ≡ raw = h.1 found (
        (equal_iff _ _).0
          (read_raw-hash libs (sha256_hex libs raw) (place libs doc raw) found repo got)) in
      let put_is : put_result libs doc raw (length old) false ≡ put = cc result in
      put_result-IsPut raw (length old) false put repo put_is (
        subst (λ (t : Bytes). read_raw libs (sha256_hex libs raw) (place libs doc raw) repo ≡ ok t)
          one got)

  put_raw-none :
      (raw : Bytes) (repo : Repo)
      → libs.zstd_compress raw ≡ none
      → put_raw libs raw repo ≡ (err zstd_failed, repo)
  unfolding put_raw compress
  put_raw-none raw repo e = rw (put_raw, e) refl

  pub put_raw-IsPut :
      (raw : Bytes) (repo : Repo) (put : PutObjectResult)
      → IsStorable raw
      → (put_raw libs raw repo).0 ≡ ok put
      → IsPut raw put (put_raw libs raw repo).1
  put_raw-IsPut raw repo put h e = elim (Option-cases (libs.zstd_compress raw)) [
    | inl failed ↦
        let bad : ◌≡◌ {A = Result PutObjectResult} (err zstd_failed) (ok put) =
          sym (ap (λ (p : Result PutObjectResult × Repo). p.0) (put_raw-none raw repo failed))
          ∙ e in
        cc
    | inr (compressed, c) ↦ elim (Option-cases (read (place libs doc raw) repo.objects)) [
      | inr (old, r) ↦
          let is : put_raw libs raw repo ≡ (reuse raw old repo, repo) =
            put_raw_old_is raw compressed old repo c r in
          rw is (
            reuse-IsPut raw old repo put h
              (sym (ap (λ (p : Result PutObjectResult × Repo). p.0) is) ∙ e))
      | inl free ↦
          let is : _ = put_raw_new libs doc raw compressed repo c free in
          let put_is : put_result libs doc raw (length compressed) true ≡ put =
            cc (sym (ap (λ (p : Result PutObjectResult × Repo). p.0) is) ∙ e) in
          rw is (
            put_result-IsPut raw (length compressed) true put _ put_is (
              Holds-compress libs doc raw compressed _ c h.0
                (read-write_self (place libs doc raw) compressed repo.objects)))
    ]
  ]

  -- An operation after which every object can still be read that could be read before.
  abbrev pub Keeps : {A : Type 0} → Action A → Type 0
  Keeps m =
      (other : Bytes) (repo : Repo) → Holds libs doc repo other → Holds libs doc (m repo).1 other

  pub put_raw-Keeps : (raw : Bytes) → Keeps (put_raw libs raw)
  put_raw-Keeps raw other repo h = put_raw_keeps libs doc raw other repo h

  pub lift-Keeps : {A : Type 0} (r : Result A) → Keeps (lift r)
  lift-Keeps r other repo h = h

  wal_append-objects :
      (type : WalRecordType) (payload : Bytes) (repo : Repo)
      → (wal_append type payload repo).1.objects ≡ repo.objects
  unfolding wal_append
  wal_append-objects type payload repo = elim (Result-cases (append type payload repo.wal)) [
    | inl (file, e) ↦ rw e refl
    | inr (bad, e) ↦ rw e refl
  ]

  pub wal_append-Keeps : (type : WalRecordType) (payload : Bytes) → Keeps (wal_append type payload)
  wal_append-Keeps type payload other repo h =
      Holds-objects libs doc other repo (wal_append type payload repo).1
        (wal_append-objects type payload repo) h

  pub bind-Keeps :
      {A B : Type 0} (m : Action A) (f : A → Action B)
      → Keeps m
      → ((a : A) → Keeps (f a))
      → Keeps (m >>= f)
  bind-Keeps m f k l other repo h = elim (Result-cases (m repo).0) [
    | inl (a, e) ↦ rw e (l a other (m repo).1 (k other repo h))
    | inr (bad, e) ↦ rw e (k other repo h)
  ]
