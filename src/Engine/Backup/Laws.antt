-- ===== src/Engine/Backup/Laws.antt =====
-- What a backup has stored of a file is restored as the contents of the file.
use cpp_data_protection_core.Base.{
  ◌<◌, ◌^◌, ltb, true, arith, ◌≡◌, refl, sym, ap, ◌∙◌, subst, Bool, ==_refl, List, [], ◌∷◌, ◌++◌,
  Bytes, equal_refl, length, All,
}
use cpp_data_protection_core.Common.Error.{Result, ok}
use cpp_data_protection_core.Common.Types.{ChunkRef, FileManifest}
use cpp_data_protection_core.Repo.{Repo}
use cpp_data_protection_core.Repo.Action.{Action, ◌>>=◌, pure}
use cpp_data_protection_core.Metadata.Fault.{FaultInjector}
use cpp_data_protection_core.Store.{sha256_hex}
use cpp_data_protection_core.Store.Compressor.{Libraries, Documented}
use cpp_data_protection_core.Store.Laws.{Holds}
use cpp_data_protection_core.Engine.Check.{restore_contents}
use cpp_data_protection_core.Engine.Backup.{
  SourceFile, store_chunks, references, concat, store_file, store_files,
}
use cpp_data_protection_core.Engine.Backup.Chunks.{
  AllRefer, store_chunks-Keeps, store_chunks-AllRefer, assemble-AllRefer,
}
use cpp_data_protection_core.Engine.Backup.Stored.{bind-ok, IsStorable, Keeps, bind-Keeps}

module _ (libs : Libraries) (doc : Documented libs) (injector : FaultInjector) where
  -- The entry of a file whose chunks were stored.
  abbrev entry : SourceFile → List (ChunkRef × Bool) → FileManifest
  entry file stored = record {
    relative_path = file.relative_path;
    file_size = file.file_size;
    file_mode = file.file_mode;
    file_sha256 = sha256_hex libs (concat libs injector file.chunks);
    chunks = references libs injector stored;
  }

  restore_contents-entry :
      (file : SourceFile) (stored : List (ChunkRef × Bool)) (repo : Repo)
      → length (concat libs injector file.chunks) ≡ file.file_size
      → file.file_size < 2 ^ 63
      → AllRefer libs doc injector repo (references libs injector stored) file.chunks
      → restore_contents libs (entry file stored) repo ≡ ok (concat libs injector file.chunks)
  unfolding restore_contents
  restore_contents-entry file stored repo l fits h =
      let below : ltb file.file_size (2 ^ 63) ≡ true = ground arith in
      rw
        (
          below,
          assemble-AllRefer libs doc injector (references libs injector stored) file.chunks [] repo
              h,
          l,
          ==_refl file.file_size,
          equal_refl (sha256_hex libs (concat libs injector file.chunks)),
        )
        refl

  -- What a call of `store_file` that succeeds leaves.
  record IsStored (file : SourceFile) (f : FileManifest) (after : Repo) : Type 0 where
    stored : List (ChunkRef × Bool)
    entry_is : entry file stored ≡ f
    refer : AllRefer libs doc injector after (references libs injector stored) file.chunks

  store_file-IsStored :
      (file : SourceFile) (repo : Repo) (f : FileManifest) (stored : List (ChunkRef × Bool))
      → All (IsStorable libs doc) file.chunks
      → (store_file libs injector file repo).0 ≡ ok (f, stored)
      → IsStored file f (store_file libs injector file repo).1
  unfolding store_file
  store_file-IsStored file repo f stored h e =
      let (got, p, q) = bind-ok (store_chunks libs injector 0 file.chunks) _ repo (f, stored) e in
      let done : ◌≡◌ {A = Result (FileManifest × List (ChunkRef × Bool))} (ok (entry file got, got))
          (ok (f, stored)) =
        sym (ap (λ (t : Result (FileManifest × List (ChunkRef × Bool)) × Repo). t.0) q) ∙ e in
      record {
        stored = got;
        entry_is = cc;
        refer = rw q (store_chunks-AllRefer libs doc injector 0 file.chunks repo got h p);
      }

  AllRefer-Holds :
      (cs : List ChunkRef) (chunks : List Bytes) (repo later : Repo)
      → ((other : Bytes) → Holds libs doc repo other → Holds libs doc later other)
      → AllRefer libs doc injector repo cs chunks
      → AllRefer libs doc injector later cs chunks
  AllRefer-Holds [] [] repo later k h = tt
  AllRefer-Holds [] (raw ∷ chunks) repo later k h = absurd h
  AllRefer-Holds (c ∷ cs) [] repo later k h = absurd h
  AllRefer-Holds (c ∷ cs) (raw ∷ chunks) repo later k h =
      ((h.0.0, h.0.1, h.0.2, k raw h.0.3), AllRefer-Holds cs chunks repo later k h.1)

  store_file-Keeps : (file : SourceFile) → Keeps libs doc (store_file libs injector file)
  unfolding store_file
  store_file-Keeps file =
      bind-Keeps libs doc {A = List (ChunkRef × Bool)} {B = FileManifest × List (ChunkRef × Bool)}
        (store_chunks libs injector 0 file.chunks) (λ got. pure (entry file got, got))
        (store_chunks-Keeps libs doc injector 0 file.chunks) (λ got other repo h. h)

  abbrev files_after :
      List SourceFile
      → FileManifest × List (ChunkRef × Bool)
      → Action (List FileManifest × List (ChunkRef × Bool))
  files_after files first =
      store_files libs injector files >>= λ later. pure (first.0 ∷ later.0, first.1 ++ later.1)

  store_files-Keeps : (files : List SourceFile) → Keeps libs doc (store_files libs injector files)
  unfolding store_files
  store_files-Keeps [] = λ other repo h. h
  store_files-Keeps (file ∷ files) =
      bind-Keeps libs doc {A = FileManifest × List (ChunkRef × Bool)}
        {B = List FileManifest × List (ChunkRef × Bool)} (store_file libs injector file)
        (files_after files) (store_file-Keeps file)
        (λ first.
          bind-Keeps libs doc {A = List FileManifest × List (ChunkRef × Bool)}
            {B = List FileManifest × List (ChunkRef × Bool)} (store_files libs injector files)
            (λ later. pure (first.0 ∷ later.0, first.1 ++ later.1)) (store_files-Keeps files)
            (λ later other repo h. h))

  -- A source file that a backup can be restored from.
  abbrev pub IsSource : SourceFile → Type 0
  IsSource file =
      All (IsStorable libs doc) file.chunks
      × (length (concat libs injector file.chunks) ≡ file.file_size)
      × (file.file_size < 2 ^ 63)

  -- Each entry is restored as the contents of its file.
  abbrev pub AllRestore : Repo → List FileManifest → List SourceFile → Type 0
  AllRestore repo [] [] = Unit
  AllRestore repo [] (file ∷ files) = ⊥
  AllRestore repo (f ∷ fs) [] = ⊥
  AllRestore repo (f ∷ fs) (file ∷ files) =
      (restore_contents libs f repo ≡ ok (concat libs injector file.chunks))
      × AllRestore repo fs files

  IsStored-restore :
      (file : SourceFile) (f : FileManifest) (repo later : Repo)
      → IsSource file
      → ((other : Bytes) → Holds libs doc repo other → Holds libs doc later other)
      → IsStored file f repo
      → restore_contents libs f later ≡ ok (concat libs injector file.chunks)
  IsStored-restore file f repo later h k s =
      subst
        (λ (t : FileManifest).
          restore_contents libs t later ≡ ok (concat libs injector file.chunks))
        s.entry_is
        (restore_contents-entry file s.stored later h.1 h.2
          (AllRefer-Holds (references libs injector s.stored) file.chunks repo later k s.refer))

  -- When the loop over the files of a backup succeeds, on any repository, every chunk is smaller
  -- than the limit of the frame's size field and no other text has its hash, and the size of each
  -- file is that of its contents and below 2^63, then for every file, the contents are restored
  -- from its manifest entry and the repository that the loop leaves.
  pub restore_contents-store_files :
      (files : List SourceFile) (repo : Repo) (fs : List FileManifest)
      (stored : List (ChunkRef × Bool))
      → All IsSource files
      → (store_files libs injector files repo).0 ≡ ok (fs, stored)
      → AllRestore (store_files libs injector files repo).1 fs files
  unfolding store_files
  restore_contents-store_files [] repo fs stored h e =
      let none_stored : fs ≡ [] = cc e in rw none_stored tt
  restore_contents-store_files (file ∷ files) repo fs stored h e =
      let fst : Result (List FileManifest × List (ChunkRef × Bool)) × Repo
          → Result (List FileManifest × List (ChunkRef × Bool)) =
        λ t. t.0 in
      let (first, p, q) =
        bind-ok (store_file libs injector file) (files_after files) repo (fs, stored) e in
      let middle : Repo = (store_file libs injector file repo).1 in
      let (later, p2, q2) =
        bind-ok (store_files libs injector files) (λ l. pure (first.0 ∷ l.0, first.1 ++ l.1)) middle
          (fs, stored) (sym (ap fst q) ∙ e) in
      let done : ◌≡◌ {A = Result (List FileManifest × List (ChunkRef × Bool))}
          (ok (first.0 ∷ later.0, first.1 ++ later.1)) (ok (fs, stored)) =
        sym (ap fst (q ∙ q2)) ∙ e in
      let fs_is : first.0 ∷ later.0 ≡ fs = cc in
      let after : Repo = (store_files libs injector files middle).1 in
      let all : AllRestore after (first.0 ∷ later.0) (file ∷ files) = (
        IsStored-restore file first.0 middle after h.0
            (λ other k. store_files-Keeps files other middle k)
            (store_file-IsStored file repo first.0 first.1 h.0.0 p),
        restore_contents-store_files files middle later.0 later.1 h.1 p2,
      ) in
      rw (q ∙ q2, ← fs_is) all
