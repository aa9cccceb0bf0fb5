-- ===== src/Manifest/Versions.antt =====
-- `versionFileName`, `listCommittedVersions`, `nextVersion`, `isCommitted`, `load`, `writeTmp` and
-- `renameTmpToManifest` of src/core/ManifestStore.cpp, and src/metadata/CommitMarker.cpp.
pub mod Names
pub mod Laws
use cpp_data_protection_core.Base.{
  ℕ, zero, suc, ◌+◌, ◌-◌, ◌^◌, ◌%◌, Bool, true, false, not, ◌&&◌, ◌||◌, ltb, leb, ◌==◌, Option,
  none, some, List, [], ◌∷◌, ◌++◌, Bytes, codes, equal, null, length, take, drop, if◌then◌else◌,
}
use cpp_data_protection_core.Common.Error.{
  Result, ok, err, ◌>>=◌, ◌>>◌, throw_if, version_not_committed, open_file_failed, rename_failed,
}
use cpp_data_protection_core.Common.Types.{Manifest}
use cpp_data_protection_core.Common.Text.{decimal}
use cpp_data_protection_core.Manifest.Serialize.{serialize}
use cpp_data_protection_core.Manifest.Parse.{u64_max, parse_number, parse}
use cpp_data_protection_core.Repo.{Repo}
use cpp_data_protection_core.Repo.Directory.{Files, read, exists, write, remove, names}
use cpp_data_protection_core.Repo.Action.{Action, modify}

-- `std::setw(6) << std::setfill('0')`: zeros in front of a text shorter than six characters.
unfoldable pub pad : ℕ → Bytes → Bytes
pad zero text = text
pad (suc n) text = b'0' ∷ pad n text

unfoldable pub zero_pad_version : ℕ → Bytes
unfolding pad
zero_pad_version version = pad (6 - length (decimal version)) (decimal version)

unfoldable pub version_file_name : ℕ → Bytes → Bytes
unfolding zero_pad_version
version_file_name version suffix = codes "version-" ++ zero_pad_version version ++ suffix

abbrev pub manifest_name : ℕ → Bytes
manifest_name version = version_file_name version (codes ".manifest")

abbrev pub tmp_manifest_name : ℕ → Bytes
tmp_manifest_name version = version_file_name version (codes ".manifest.tmp")

abbrev pub commit_name : ℕ → Bytes
commit_name version = version_file_name version (codes ".commit")

-- The two tests of the loop on a file name, which `continue` where they fail.
unfoldable pub is_commit_name : Bytes → Bool
is_commit_name name =
    equal (take 8 name) (codes "version-")
    && length name == 21
    && equal (drop (length name - 7) name) (codes ".commit")

-- The loop over the directory's entries, before the sort.
unfoldable pub commit_versions : List Bytes → Result (List ℕ)
unfolding is_commit_name
commit_versions [] = ok []
commit_versions (name ∷ rest) =
    let here = parse_number u64_max (take 6 (drop 8 name)) in
    let later = commit_versions rest in
    if is_commit_name name then (here >>= λ n. later >>= λ ns. ok (n ∷ ns)) else later

-- `std::sort` on numbers.
unfoldable pub insert_sorted : ℕ → List ℕ → List ℕ
insert_sorted n [] = n ∷ []
insert_sorted n (m ∷ ms) = if leb n m then n ∷ m ∷ ms else m ∷ insert_sorted n ms

unfoldable pub sort : List ℕ → List ℕ
unfolding insert_sorted
sort [] = []
sort (n ∷ ns) = insert_sorted n (sort ns)

unfoldable pub list_committed_versions : Repo → Result (List ℕ)
unfolding commit_versions sort
list_committed_versions repo =
    commit_versions (names repo.manifests) >>= λ versions. ok (sort versions)

-- `versions.back()` behind a test for `empty()`, with the value for no versions.
unfoldable pub back_or : ℕ → List ℕ → ℕ
back_or default [] = default
back_or default (n ∷ []) = n
back_or default (n ∷ m ∷ ms) = back_or default (m ∷ ms)

-- `versions.empty() ? 1 : versions.back() + 1`, at 64 bits.
unfoldable pub next_version : Repo → Result ℕ
unfolding back_or
next_version repo = list_committed_versions repo >>= λ versions.
    ok (if null versions then 1 else (back_or 0 versions + 1) % 2 ^ 64)

abbrev pub is_committed : ℕ → Repo → Bool
is_committed version repo = exists (commit_name version) repo.manifests

abbrev pub read_file : Bytes → Files → Result Bytes
read_file name files = elim (read name files) [ none ↦ err open_file_failed | some text ↦ ok text ]

unfoldable pub load : ℕ → Repo → Result Manifest
load version repo = do
  throw_if (not (is_committed version repo)) version_not_committed
  text ← read_file (manifest_name version) repo.manifests
  parse text

unfoldable pub write_tmp : ℕ → Manifest → Action (Unit {0})
write_tmp version manifest =
    modify (λ repo. record repo {
      tmp = write (tmp_manifest_name version) (serialize manifest) repo.tmp;
    })

-- `rename` fails when there is no such file.
unfoldable pub rename_tmp_to_manifest : ℕ → Action (Unit {0})
rename_tmp_to_manifest version repo = elim (read (tmp_manifest_name version) repo.tmp) [
  | none ↦ (err rename_failed, repo)
  | some text ↦ (
    ok tt,
    record repo {
      tmp = remove (tmp_manifest_name version) repo.tmp;
      manifests = write (manifest_name version) text repo.manifests;
    },
  )
]

-- `CommitMarker::create`.
unfoldable pub create_commit_marker : ℕ → Action (Unit {0})
create_commit_marker version = modify (λ repo. record repo {
  manifests = write (commit_name version) (codes "committed\n") repo.manifests;
})
