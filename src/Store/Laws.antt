-- ===== src/Store/Laws.antt =====
-- An object that was put is read back, and no put changes an object that can be read.
use cpp_data_protection_core.Base.{
  ℕ, ◌<◌, ◌≡◌, refl, sym, ◌∙◌, Bool, true, false, not, ==_refl, Bool-cases, inl, inr, ◌⊎◌, none,
  some, Option, Bytes, equal, equal_iff, equal_refl, length,
}
use cpp_data_protection_core.Common.Error.{
  ok, err, ◌>>=◌, ◌>>◌, throw_if, Result, object_missing, object_checksum_mismatch,
}
use cpp_data_protection_core.Common.Hex.{is_sha256_hex, require_sha256_hex}
use cpp_data_protection_core.Common.Hex.Laws.{bytes_to_hex-is_sha256_hex}
use cpp_data_protection_core.Repo.{Repo}
use cpp_data_protection_core.Repo.Directory.{
  read, exists, write, read-write, read-write_self, Option-cases,
}
use cpp_data_protection_core.Store.Compressor.{
  Libraries, Documented, content_size_error, compress, decompress, decompress-compress,
}
use cpp_data_protection_core.Store.{
  sha256_hex, object_path_for_hash, read_raw, PutObjectResult, put_at, put_compressed, put_raw,
}
use cpp_data_protection_core.Store.Paths.{
  object_path, absolute_object_path-object_path, object_place-ok,
}

module _ (libs : Libraries) (doc : Documented libs) where
  pub sha256_hex-is_sha256_hex : (raw : Bytes) → is_sha256_hex (sha256_hex libs raw) ≡ true
  unfolding sha256_hex
  sha256_hex-is_sha256_hex raw = bytes_to_hex-is_sha256_hex (libs.sha256 raw) (doc.digest_size raw)

  -- Where an object lies.
  abbrev pub place : Bytes → Bytes
  place raw = object_path (sha256_hex libs raw)

  -- The object can be read from the store.
  abbrev pub Holds : Repo → Bytes → Type 0
  Holds repo raw = read_raw libs (sha256_hex libs raw) (place raw) repo ≡ ok raw

  -- No other text has the same hash.
  abbrev pub NoCollision : Bytes → Type 0
  NoCollision raw = (other : Bytes) → sha256_hex libs other ≡ sha256_hex libs raw → other ≡ raw

  object_path_for_hash-ok :
      (raw : Bytes) → object_path_for_hash (sha256_hex libs raw) ≡ ok (place raw)
  unfolding object_path_for_hash require_sha256_hex object_path
  object_path_for_hash-ok raw = rw (sha256_hex-is_sha256_hex raw) refl

  -- What `readRaw` does at the object's own path.
  abbrev read_back : Bytes → Option Bytes → Result Bytes
  read_back raw none = err object_missing
  read_back raw (some text) = do
    found ← decompress libs text 0
    throw_if (not (equal (sha256_hex libs found) (sha256_hex libs raw))) object_checksum_mismatch
    ok found

  read_raw-read_back :
      (raw : Bytes) (repo : Repo)
      → read_raw libs (sha256_hex libs raw) (place raw) repo
        ≡ read_back raw (read (place raw) repo.objects)
  unfolding read_raw
  read_raw-read_back raw repo =
      rw
        (
          object_path_for_hash-ok raw,
          equal_refl (place raw),
          absolute_object_path-object_path (sha256_hex libs raw) (sha256_hex-is_sha256_hex raw),
        )
        (by_file (read (place raw) repo.objects))
    where
      by_file :
          (file : Option Bytes)
          → (elim file [ none ↦ err object_missing | some text ↦ ok text ] >>= λ text.
              read_back raw (some text))
            ≡ read_back raw file
      by_file none = refl
      by_file (some text) = refl

  pub put_raw-put_at :
      (raw compressed : Bytes) (repo : Repo)
      → libs.zstd_compress raw ≡ some compressed
      → put_raw libs raw repo
        ≡ put_at libs (sha256_hex libs raw) compressed (length raw) (place raw) (place raw) repo
  unfolding put_raw put_compressed compress
  put_raw-put_at raw compressed repo e =
      rw
        (
          put_raw,
          e,
          put_compressed,
          object_place-ok (sha256_hex libs raw) (sha256_hex-is_sha256_hex raw),
        )
        refl

  -- Where a file stands at an object's place, a put leaves the store.
  put_raw_old :
      (raw compressed old : Bytes) (repo : Repo)
      → libs.zstd_compress raw ≡ some compressed
      → read (place raw) repo.objects ≡ some old
      → (put_raw libs raw repo).1 ≡ repo
  unfolding put_at
  put_raw_old raw compressed old repo e r =
      rw (put_raw-put_at raw compressed repo e, put_at, r) refl

  pub put_raw_failed :
      (raw : Bytes) (repo : Repo) → libs.zstd_compress raw ≡ none → (put_raw libs raw repo).1 ≡ repo
  unfolding put_raw compress
  put_raw_failed raw repo e = rw (put_raw, e) refl

  -- The result of a put for the bytes in the store.
  abbrev pub put_result : Bytes → ℕ → Bool → PutObjectResult
  put_result raw stored_size inserted = record {
    sha256 = sha256_hex libs raw;
    object_path = place raw;
    raw_size = length raw;
    compressed_size = stored_size;
    inserted = inserted;
  }

  pub put_raw_new :
      (raw compressed : Bytes) (repo : Repo)
      → libs.zstd_compress raw ≡ some compressed
      → read (place raw) repo.objects ≡ none
      → put_raw libs raw repo ≡ (
        ok (put_result raw (length compressed) true),
        record repo { objects = write (place raw) compressed repo.objects },
      )
  unfolding put_at
  put_raw_new raw compressed repo e r = put_raw-put_at raw compressed repo e ∙ rw (put_at, r) refl

  -- A put of an object that is held gives its data, marked as a duplicate.
  pub put_raw_held :
      (raw compressed old : Bytes) (repo : Repo)
      → libs.zstd_compress raw ≡ some compressed
      → read (place raw) repo.objects ≡ some old
      → Holds repo raw
      → put_raw libs raw repo ≡ (ok (put_result raw (length old) false), repo)
  unfolding put_at
  put_raw_held raw compressed old repo e r h =
      put_raw-put_at raw compressed repo e ∙ rw (put_at, r) (rw (h, ==_refl (length raw)) refl)

  pub Holds-compress :
      (raw compressed : Bytes) (repo : Repo)
      → libs.zstd_compress raw ≡ some compressed
      → length raw < content_size_error
      → read (place raw) repo.objects ≡ some compressed
      → Holds repo raw
  Holds-compress raw compressed repo e l r =
      read_raw-read_back raw repo
      ∙ rw (r, decompress-compress libs doc raw compressed e l, equal_refl (sha256_hex libs raw))
          refl

  -- When the place of an object is free or the store holds the object already, and zstd compresses
  -- it, `putRaw` succeeds with its hash, path and size, `inserted` says whether the place was
  -- free, and `readRaw` gives the object back afterwards.
  pub put_raw-Holds :
      (raw compressed : Bytes) (repo : Repo)
      → libs.zstd_compress raw ≡ some compressed
      → length raw < content_size_error
      → (read (place raw) repo.objects ≡ none) ⊎ Holds repo raw
      → (stored_size : ℕ) × ((put_raw libs raw repo).0
          ≡ ok (put_result raw stored_size (not (exists (place raw) repo.objects))))
        × Holds (put_raw libs raw repo).1 raw
  put_raw-Holds raw compressed repo e l ready =
      elim (Option-cases (read (place raw) repo.objects)) [
        | inl free ↦
            let put = put_raw_new raw compressed repo e free in
            (
              length compressed,
              rw put (rw free refl),
              rw put (
                  Holds-compress raw compressed _ e l
                    (read-write_self (place raw) compressed repo.objects)),
            )
        | inr (old, r) ↦ elim ready [
          | inl free ↦ cc
          | inr held ↦
              let put = put_raw_held raw compressed old repo e r held in
              (length old, rw put (rw r refl), rw put held)
        ]
      ]

  -- A file written at a free place is not the one that an object is read from.
  Holds-write :
      (raw other text : Bytes) (repo : Repo)
      → read (place raw) repo.objects ≡ none
      → Holds repo other
      → Holds (record repo { objects = write (place raw) text repo.objects }) other
  Holds-write raw other text repo free h = elim (Bool-cases (equal (place raw) (place other))) [
    | inl same ↦
        let eq : place raw ≡ place other = (equal_iff (place raw) (place other)).0 same in
        let missing : read (place other) repo.objects ≡ none = rw (← eq) free in
        let e : read_back other (read (place other) repo.objects) ≡ ok other =
          sym (read_raw-read_back other repo) ∙ h in
        cc (rw missing at e)
    | inr apart ↦
        let e : read (place other) (write (place raw) text repo.objects)
            ≡ read (place other) repo.objects =
          rw (read-write (place raw) text (place other) repo.objects, apart) refl in
        read_raw-read_back other _ ∙ rw e (sym (read_raw-read_back other repo) ∙ h)
  ]

  -- Whatever is put, and whether or not the put succeeds, an object that can be read from the
  -- store stays readable with the same contents.
  pub put_raw_keeps :
      (raw other : Bytes) (repo : Repo) → Holds repo other → Holds (put_raw libs raw repo).1 other
  put_raw_keeps raw other repo h = elim (Option-cases (libs.zstd_compress raw)) [
    | inl failed ↦ rw (put_raw_failed raw repo failed) h
    | inr (compressed, e) ↦ elim (Option-cases (read (place raw) repo.objects)) [
      | inr (old, r) ↦ rw (put_raw_old raw compressed old repo e r) h
      | inl free ↦
          rw (put_raw_new raw compressed repo e free) (Holds-write raw other compressed repo free h)
    ]
  ]
