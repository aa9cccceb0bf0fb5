-- ===== src/Metadata/Checkpoint/Laws.antt =====
-- A checkpoint that was written is loaded.
use cpp_data_protection_core.Base.{
  ℕ, zero, suc, ◌^◌, ◌<◌, ◌≤◌, ◌≡◌, refl, ◌∙◌, arith, none, some, List, [], ◌∷◌, ◌++◌, All, Bytes,
  codes, equal_refl, length, length-append,
}
use cpp_data_protection_core.Common.Error.{ok, ◌>>=◌}
use cpp_data_protection_core.Common.Text.{decimal}
use cpp_data_protection_core.Common.Hex.{all_of}
use cpp_data_protection_core.Common.Text.Laws.{IsWord}
use cpp_data_protection_core.Common.Stream.{
  Stream, get_word, get_unsigned, get_u64, skip_spaces, sign, span,
}
use cpp_data_protection_core.Common.Stream.Laws.{
  get_word-word, get_word-space, get_u64-space, get_u64-decimal,
}
use cpp_data_protection_core.Repo.{Repo}
use cpp_data_protection_core.Metadata.Checkpoint.{
  CheckpointData, versions_text, checkpoint_text, write_checkpoint, read_versions, parse_checkpoint,
  load_checkpoint,
}

abbrev pub IsU64 : ℕ → Type 0
IsU64 n = n < 2 ^ 64

-- What follows a number in the text begins with a space or a newline.
get_u64-versions :
    (n old : ℕ) (versions : List ℕ)
    → n < 2 ^ 64
    → get_u64 (some (decimal n ++ versions_text versions)) old ≡ (n, some (versions_text versions))
unfolding versions_text
get_u64-versions n old [] h = get_u64-decimal n old b'\n' [] h refl
get_u64-versions n old (v ∷ vs) h = get_u64-decimal n old b' ' _ h refl

get_u64-newline : get_u64 (some (b'\n' ∷ [])) 0 ≡ (0, none)
unfolding get_u64 get_unsigned skip_spaces sign span
get_u64-newline = refl

read_versions-step :
    (fuel : ℕ) (in_stream : Stream) (v : ℕ) (rest : Bytes)
    → get_u64 in_stream 0 ≡ (v, some rest)
    → read_versions (suc fuel) in_stream
      ≡ (read_versions fuel (some rest) >>= λ versions. ok (v ∷ versions))
unfolding read_versions
read_versions-step fuel in_stream v rest e = rw (read_versions, e) refl

read_versions-versions_text :
    (fuel : ℕ) (versions : List ℕ)
    → length versions < fuel
    → All IsU64 versions
    → read_versions fuel (some (versions_text versions)) ≡ ok versions
unfolding read_versions versions_text
read_versions-versions_text zero versions l h = absurd (omega arith)
read_versions-versions_text (suc fuel) [] l h = rw (read_versions, get_u64-newline) refl
read_versions-versions_text (suc fuel) (v ∷ vs) l (hv, h) =
    let e : get_u64 (some (versions_text (v ∷ vs))) 0 ≡ (v, some (versions_text vs)) =
      get_u64-space (decimal v ++ versions_text vs) 0 b' ' refl ∙ get_u64-versions v 0 vs hv in
    read_versions-step fuel (some (versions_text (v ∷ vs))) v (versions_text vs) e
    ∙ rw (read_versions-versions_text fuel vs (omega arith) h) refl

length-versions_text_le : (versions : List ℕ) → length versions ≤ length (versions_text versions)
unfolding versions_text
length-versions_text_le [] = omega arith
length-versions_text_le (v ∷ vs) =
    omega (arith, length-versions_text_le vs, length-append (decimal v) (versions_text vs))

length-checkpoint_text_le :
    (d : CheckpointData) → length d.committed_versions ≤ length (checkpoint_text d)
unfolding checkpoint_text
length-checkpoint_text_le d =
    let shown = decimal d.latest_committed_version in
    let tail = b'\n' ∷ (codes "committed_versions" ++ versions_text d.committed_versions) in
    omega (arith, length-append shown tail, length-versions_text_le d.committed_versions)

header-IsWord : IsWord (codes "DPC_CHECKPOINT_V1")
unfolding all_of
header-IsWord = (refl, refl)

latest-IsWord : IsWord (codes "latest_committed_version")
unfolding all_of
latest-IsWord = (refl, refl)

versions-IsWord : IsWord (codes "committed_versions")
unfolding all_of
versions-IsWord = (refl, refl)

get_word-key :
    (old : Bytes) (versions : List ℕ)
    → get_word old (some (codes "committed_versions" ++ versions_text versions))
      ≡ (codes "committed_versions", some (versions_text versions))
unfolding versions_text
get_word-key old [] = get_word-word old (codes "committed_versions") [] b'\n' versions-IsWord refl
get_word-key old (v ∷ vs) =
    get_word-word old (codes "committed_versions") _ b' ' versions-IsWord refl

parse_checkpoint-checkpoint_text :
    (d : CheckpointData)
    → d.latest_committed_version < 2 ^ 64
    → All IsU64 d.committed_versions
    → parse_checkpoint (checkpoint_text d) ≡ ok d
parse_checkpoint-checkpoint_text d l h =
    let n = d.latest_committed_version in
    let tail = b'\n' ∷ (codes "committed_versions" ++ versions_text d.committed_versions) in
    let r1 : get_word [] (some (checkpoint_text d)) ≡ (
      codes "DPC_CHECKPOINT_V1",
      some (b'\n' ∷ (codes "latest_committed_version" ++ (b' ' ∷ (decimal n ++ tail)))),
    ) =
      unfold checkpoint_text in
      get_word-word [] (codes "DPC_CHECKPOINT_V1")
        (codes "latest_committed_version" ++ (b' ' ∷ (decimal n ++ tail))) b'\n' header-IsWord
        refl in
    let r2 =
      get_word-space [] (codes "latest_committed_version" ++ (b' ' ∷ (decimal n ++ tail))) b'\n'
        refl
      ∙ get_word-word [] (codes "latest_committed_version") (decimal n ++ tail) b' ' latest-IsWord
          refl in
    let r3 =
      get_u64-space (decimal n ++ tail) 0 b' ' refl
      ∙ get_u64-decimal n 0 b'\n' (codes "committed_versions" ++ versions_text d.committed_versions)
          l refl in
    let key = codes "latest_committed_version" in
    let r4 =
      get_word-space key (codes "committed_versions" ++ versions_text d.committed_versions) b'\n'
        refl
      ∙ get_word-key key d.committed_versions in
    let r5 =
      read_versions-versions_text (suc (length (checkpoint_text d))) d.committed_versions
        (omega (arith, length-checkpoint_text_le d)) h in
    unfold parse_checkpoint in
    rw
      (
        r1,
        r2,
        r3,
        r4,
        equal_refl (codes "DPC_CHECKPOINT_V1"),
        equal_refl key,
        equal_refl (codes "committed_versions"),
        r5,
      )
      refl

-- After `write` of a checkpoint whose numbers fit 64 bits, `load` gives the same checkpoint.
pub load_checkpoint-write_checkpoint :
    (d : CheckpointData) (repo : Repo)
    → d.latest_committed_version < 2 ^ 64
    → All IsU64 d.committed_versions
    → load_checkpoint (write_checkpoint d repo).1 ≡ ok d
unfolding load_checkpoint write_checkpoint
load_checkpoint-write_checkpoint d repo l h = parse_checkpoint-checkpoint_text d l h
