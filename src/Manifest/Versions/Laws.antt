-- ===== src/Manifest/Versions/Laws.antt =====
-- What `listCommittedVersions` and `nextVersion` show after `CommitMarker::create`.
use cpp_data_protection_core.Base.{
  ℕ, ltb, not, ◌||◌, ◌+◌, ◌^◌, ◌%◌, ◌<◌, ◌≤◌, ◌≡◌, refl, ap, sym, ◌∙◌, subst, arith, true, false,
  Bool-cases, inl, inr, ◌⊎◌, leb, max, All, List, [], ◌∷◌, Bytes, codes, null, take, drop, equal,
  equal_iff, if◌then◌else◌,
}
use cpp_data_protection_core.Common.Error.{
  ok, >>=-eq-ok, throw_if-eq-ok, manifest_number_invalid, manifest_number_out_of_range,
}
use cpp_data_protection_core.Common.Hex.{all_of}
use cpp_data_protection_core.Common.Text.{is_digit, digits_value}
use cpp_data_protection_core.Repo.{Repo}
use cpp_data_protection_core.Repo.Directory.{Files, write, names}
use cpp_data_protection_core.Manifest.Parse.{u64_max, parse_number}
use cpp_data_protection_core.Manifest.Versions.{
  commit_name, is_commit_name, commit_versions, insert_sorted, sort, list_committed_versions,
  back_or, next_version, create_commit_marker,
}
use cpp_data_protection_core.Manifest.Versions.Names.{
  is_commit_name-commit_name, not_is_commit_name, parse_number-commit_name,
}

-- In ascending order, from `low` on.
abbrev pub Ascending : ℕ → List ℕ → Type 0
Ascending low [] = Unit
Ascending low (n ∷ ns) = (low ≤ n) × Ascending n ns

-- The greatest of the versions, 0 for none.
unfoldable pub newest : List ℕ → ℕ
newest [] = 0
newest (n ∷ ns) = max n (newest ns)

insert_sorted-Ascending :
    (low n : ℕ) (ns : List ℕ) → low ≤ n → Ascending low ns → Ascending low (insert_sorted n ns)
unfolding insert_sorted
insert_sorted-Ascending low n [] l h = (l, tt)
insert_sorted-Ascending low n (m ∷ ms) l (k, h) = elim (Bool-cases (leb n m)) [
  | inl e ↦ rw e (l, (ground arith, h))
  | inr e ↦ rw e (k, insert_sorted-Ascending m n ms (ground arith) h)
]

sort-Ascending : (ns : List ℕ) → Ascending 0 (sort ns)
unfolding sort
sort-Ascending [] = tt
sort-Ascending (n ∷ ns) = insert_sorted-Ascending 0 n (sort ns) (omega arith) (sort-Ascending ns)

newest-insert_sorted : (n : ℕ) (ns : List ℕ) → newest (insert_sorted n ns) ≡ max n (newest ns)
unfolding newest insert_sorted
newest-insert_sorted n [] = refl
newest-insert_sorted n (m ∷ ms) = ground (arith, newest-insert_sorted n ms)

newest-sort : (ns : List ℕ) → newest (sort ns) ≡ newest ns
unfolding newest sort
newest-sort [] = refl
newest-sort (n ∷ ns) = newest-insert_sorted n (sort ns) ∙ ap (max n) (newest-sort ns)

back_or-newest : (low n : ℕ) (ns : List ℕ) → Ascending n ns → back_or low (n ∷ ns) ≡ newest (n ∷ ns)
unfolding back_or newest
back_or-newest low n [] h = omega arith
back_or-newest low n (m ∷ ms) (l, h) = back_or-newest low m ms h ∙ unfold newest in omega arith

back_or-sort : (ns : List ℕ) → back_or 0 (sort ns) ≡ newest ns
back_or-sort ns = last_is (sort ns) (sort-Ascending ns) ∙ newest-sort ns
  where
    last_is : (ms : List ℕ) → Ascending 0 ms → back_or 0 ms ≡ newest ms
    last_is [] h = unfold back_or newest in refl
    last_is (m ∷ ms) h = back_or-newest 0 m ms h.1

next_of :
    (ns : List ℕ)
    → (if null ns then 1 else (back_or 0 ns + 1) % 2 ^ 64) ≡ (back_or 0 ns + 1) % 2 ^ 64
unfolding back_or
next_of [] = refl
next_of (n ∷ ns) = refl

-- One entry of the directory, seen or passed over.
abbrev pub Listed : Bytes → List Bytes → List ℕ → Type 0
Listed name rest vs =
    (is_commit_name name ≡ true)
    × (n : ℕ) × (ns : List ℕ) × (parse_number u64_max (take 6 (drop 8 name)) ≡ ok n)
    × (commit_versions rest ≡ ok ns)
    × (n ∷ ns ≡ vs)

abbrev pub Passed : Bytes → List Bytes → List ℕ → Type 0
Passed name rest vs = (is_commit_name name ≡ false) × (commit_versions rest ≡ ok vs)

commit_versions-cases :
    (name : Bytes) (rest : List Bytes) (vs : List ℕ)
    → commit_versions (name ∷ rest) ≡ ok vs
    → Listed name rest vs ⊎ Passed name rest vs
unfolding commit_versions
commit_versions-cases name rest vs h = elim (Bool-cases (is_commit_name name)) [
  | inl e ↦
      let (n, hn, h1) = >>=-eq-ok (parse_number u64_max (take 6 (drop 8 name))) _ (rw e at h) in
      let (ns, hns, h2) = >>=-eq-ok (commit_versions rest) _ h1 in inl (e, n, ns, hn, hns, cc)
  | inr e ↦ inr (e, rw e at h)
]

commit_versions-listed :
    (name : Bytes) (rest : List Bytes) (n : ℕ) (ns : List ℕ)
    → is_commit_name name ≡ true
    → parse_number u64_max (take 6 (drop 8 name)) ≡ ok n
    → commit_versions rest ≡ ok ns
    → commit_versions (name ∷ rest) ≡ ok (n ∷ ns)
unfolding commit_versions
commit_versions-listed name rest n ns e hn hns = rw (e, hn, hns) refl

commit_versions-passed :
    (name : Bytes) (rest : List Bytes)
    → is_commit_name name ≡ false
    → commit_versions (name ∷ rest) ≡ commit_versions rest
unfolding commit_versions
commit_versions-passed name rest e = rw e refl

-- The listing `vs` once the version `v` has its marker.
abbrev pub With : ℕ → List Bytes → List ℕ → Type 0
With v after vs = (ws : List ℕ) × (commit_versions after ≡ ok ws) × (newest ws ≡ max v (newest vs))

-- A marker that was there before.
commit_versions-again :
    (v : ℕ) (rest : List Bytes) (vs : List ℕ)
    → v < 1000000
    → commit_versions (commit_name v ∷ rest) ≡ ok vs
    → newest vs ≡ max v (newest vs)
unfolding newest
commit_versions-again v rest vs l h = elim (commit_versions-cases (commit_name v) rest vs h) [
  | inl (e, n, ns, hn, hns, q) ↦
      let same : n ≡ v = cc (hn, parse_number-commit_name v l) in
      subst (λ (t : List ℕ). newest t ≡ max v (newest t)) q (unfold newest in omega (arith, same))
  | inr (e, hr) ↦ cc (e, is_commit_name-commit_name v l)
]

commit_versions-later :
    (v : ℕ) (name : Bytes) (rest after : List Bytes) (vs : List ℕ)
    → commit_versions (name ∷ rest) ≡ ok vs
    → ((us : List ℕ) → commit_versions rest ≡ ok us → With v after us)
    → With v (name ∷ after) vs
commit_versions-later v name rest after vs h go_on = elim (commit_versions-cases name rest vs h) [
  | inl (e, n, ns, hn, hns, q) ↦
      let (ws, hw, hm) = go_on ns hns in
      (
        n ∷ ws,
        commit_versions-listed name after n ws e hn hw,
        subst (λ (t : List ℕ). newest (n ∷ ws) ≡ max v (newest t)) q
            (unfold newest in omega (arith, hm)),
      )
  | inr (e, hr) ↦
      let (ws, hw, hm) = go_on vs hr in (ws, commit_versions-passed name after e ∙ hw, hm)
]

commit_versions-write :
    (v : ℕ) (text : Bytes) (files : Files) (vs : List ℕ)
    → v < 1000000
    → commit_versions (names files) ≡ ok vs
    → With v (names (write (commit_name v) text files)) vs
unfolding names write
commit_versions-write v text [] vs l h =
    let e : commit_versions [] ≡ ok [] = unfold commit_versions in refl in
    let same : [] ≡ vs = cc in
    (
      v ∷ [],
      commit_versions-listed (commit_name v) [] v [] (is_commit_name-commit_name v l)
          (parse_number-commit_name v l) e,
      subst (λ (t : List ℕ). newest (v ∷ []) ≡ max v (newest t)) same (unfold newest in refl),
    )
commit_versions-write v text ((n, old) ∷ files) vs l h =
    elim (Bool-cases (equal n (commit_name v))) [
      | inl e ↦
          let same : n ≡ commit_name v = (equal_iff n (commit_name v)).0 e in
          rw e (vs, h, commit_versions-again v (names files) vs l (rw same at h))
      | inr e ↦ rw e (
          commit_versions-later v n (names files) _ vs h
            (λ us hu. commit_versions-write v text files us l hu))
    ]

-- Above six digits the marker's name is passed over.
commit_versions-write_beyond :
    (v : ℕ) (text : Bytes) (files : Files)
    → 1000000 ≤ v
    → commit_versions (names (write (commit_name v) text files)) ≡ commit_versions (names files)
unfolding names write
commit_versions-write_beyond v text [] l =
    commit_versions-passed (commit_name v) [] (not_is_commit_name v l)
commit_versions-write_beyond v text ((n, old) ∷ files) l =
    elim (Bool-cases (equal n (commit_name v))) [
      | inl e ↦ rw e refl
      | inr e ↦ rw e (commit_versions-cons n _ _ (commit_versions-write_beyond v text files l))
    ]
  where
    commit_versions-cons :
        (name : Bytes) (xs ys : List Bytes)
        → commit_versions xs ≡ commit_versions ys
        → commit_versions (name ∷ xs) ≡ commit_versions (name ∷ ys)
    commit_versions-cons name xs ys q = unfold commit_versions in rw q refl

-- The listing is in ascending order.
pub list_committed_versions-Ascending :
    (repo : Repo) (vs : List ℕ) → list_committed_versions repo ≡ ok vs → Ascending 0 vs
unfolding list_committed_versions
list_committed_versions-Ascending repo vs h =
    let (us, hu, q) = >>=-eq-ok (commit_versions (names repo.manifests)) _ h in
    let same : sort us ≡ vs = cc in subst (Ascending 0) same (sort-Ascending us)

next_version-read :
    (repo : Repo) (us : List ℕ)
    → commit_versions (names repo.manifests) ≡ ok us
    → next_version repo ≡ ok ((newest us + 1) % 2 ^ 64)
unfolding next_version list_committed_versions
next_version-read repo us h = rw (h, next_of (sort us), back_or-sort us) refl

next_version-reads :
    (repo : Repo) (v : ℕ)
    → next_version repo ≡ ok v
    → (us : List ℕ) × (commit_versions (names repo.manifests) ≡ ok us)
unfolding next_version list_committed_versions
next_version-reads repo v h =
    let (vs, hv, q) = >>=-eq-ok (list_committed_versions repo) _ h in
    let (us, hu, r) = >>=-eq-ok (commit_versions (names repo.manifests)) _ hv in (us, hu)

parse_number_le : (value : Bytes) (n : ℕ) → parse_number u64_max value ≡ ok n → n ≤ u64_max
unfolding parse_number
parse_number_le value n h =
    let (h0, h1) =
      throw_if-eq-ok (null value || not (all_of is_digit value)) manifest_number_invalid _ h in
    let parsed = digits_value 0 value in
    let (h2, h3) =
      throw_if-eq-ok (ltb u64_max parsed || ltb u64_max parsed) manifest_number_out_of_range
        (ok parsed) h1 in
    let same : parsed ≡ n = cc in ground (arith, same)

newest_le : (ns : List Bytes) (us : List ℕ) → commit_versions ns ≡ ok us → newest us ≤ u64_max
unfolding newest
newest_le [] us h =
    let same : [] ≡ us = unfold commit_versions in cc in
    subst (λ (t : List ℕ). newest t ≤ u64_max) same (omega arith)
newest_le (name ∷ rest) us h = elim (commit_versions-cases name rest us h) [
  | inl (e, n, ms, hn, hms, q) ↦
      subst (λ (t : List ℕ). newest t ≤ u64_max) q
        (unfold newest in
          omega (arith, newest_le rest ms hms, parse_number_le (take 6 (drop 8 name)) n hn))
  | inr (e, hr) ↦ newest_le rest us hr
]

-- The listed versions, the last of which is the newest, fit 64 bits.
pub list_committed_versions-newest :
    (repo : Repo) (vs : List ℕ)
    → list_committed_versions repo ≡ ok vs
    → (back_or 0 vs ≡ newest vs) × (newest vs < 2 ^ 64)
unfolding list_committed_versions
list_committed_versions-newest repo vs h =
    let (us, hu, q) = >>=-eq-ok (commit_versions (names repo.manifests)) _ h in
    let same : sort us ≡ vs = cc in
    let bound = newest_le (names repo.manifests) us hu in
    subst (λ (t : List ℕ). (back_or 0 t ≡ newest t) × (newest t < 2 ^ 64)) same
      (back_or-sort us ∙ sym (newest-sort us), omega (arith, bound, newest-sort us))

pub newest-All : (ns : List ℕ) → newest ns < 2 ^ 64 → All (λ (n : ℕ). n < 2 ^ 64) ns
unfolding newest
newest-All [] h = tt
newest-All (n ∷ ns) h = (omega arith, newest-All ns (omega arith))

-- When the version that `nextVersion` gives is not 0 and has at most six digits, then after its
-- commit marker is created `nextVersion` gives the number after it.
pub next_version-create :
    (repo : Repo) (v : ℕ)
    → next_version repo ≡ ok v
    → 0 < v
    → v < 1000000
    → next_version (create_commit_marker v repo).1 ≡ ok (v + 1)
unfolding next_version create_commit_marker
next_version-create repo v h p l =
    let (us, hu) = next_version-reads repo v h in
    let same : (newest us + 1) % 2 ^ 64 ≡ v = cc (next_version-read repo us hu, h) in
    let (ws, hw, hm) = commit_versions-write v (codes "committed\n") repo.manifests us l hu in
    next_version-read (create_commit_marker v repo).1 ws hw
    ∙ ap ok (omega (arith, same, hm, newest_le (names repo.manifests) us hu))

-- From version 1000000 on, creating the commit marker changes neither the list of committed
-- versions nor the next version.
pub list-create_beyond :
    (repo : Repo) (v : ℕ)
    → 1000000 ≤ v
    → (list_committed_versions (create_commit_marker v repo).1 ≡ list_committed_versions repo)
      × (next_version (create_commit_marker v repo).1 ≡ next_version repo)
unfolding list_committed_versions next_version create_commit_marker
list-create_beyond repo v l =
    let q = commit_versions-write_beyond v (codes "committed\n") repo.manifests l in
    (rw q refl, rw q refl)
