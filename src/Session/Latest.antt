-- ===== src/Session/Latest.antt =====
-- What a session has received under an index, told from its chunks alone: the last chunk with that
-- index. The maps that the code builds show the same.
use cpp_data_protection_core.Base.{
  ℕ, ltb, ◌==◌, ◌≡◌, refl, ◌∙◌, arith, Bool-cases, inl, inr, none, some, Option, List, [], ◌∷◌,
  Bytes, if◌then◌else◌,
}
use cpp_data_protection_core.Common.Map.{find, assign, same, ltb-IsOrder, find-assign}
use cpp_data_protection_core.Session.{ReceivedChunkRecord, received_of}
use cpp_data_protection_core.Session.Build.{by_global}

-- The last of the chunks with this global index.
unfoldable pub latest : ℕ → List ReceivedChunkRecord → Option ReceivedChunkRecord
latest i [] = none
latest i (r ∷ rs) = elim (latest i rs) [
  | none ↦ if r.global_index == i then some r else none
  | some later ↦ some later
]

-- Its hash.
unfoldable pub latest_sha : ℕ → List ReceivedChunkRecord → Option Bytes
unfolding latest
latest_sha i rs = elim (latest i rs) [ none ↦ none | some r ↦ some r.sha256 ]

same_ltb : (j i : ℕ) → same ltb j i ≡ (j == i)
unfolding same
same_ltb j i = ground arith

-- The found one, or another.
abbrev or_else :
    Option ReceivedChunkRecord → Option ReceivedChunkRecord → Option ReceivedChunkRecord
or_else none other = other
or_else (some r) other = some r

latest-cons :
    (i : ℕ) (r : ReceivedChunkRecord) (rs : List ReceivedChunkRecord)
    → latest i (r ∷ rs) ≡ or_else (latest i rs) (if r.global_index == i then some r else none)
unfolding latest
latest-cons i r rs = cases (latest i rs)
  where
    cases :
        (found : Option ReceivedChunkRecord)
        → elim found [
          | none ↦ if r.global_index == i then some r else none
          | some later ↦ some later
        ]
          ≡ or_else found (if r.global_index == i then some r else none)
    cases none = refl
    cases (some later) = refl

or_else-if :
    (found other : Option ReceivedChunkRecord) (i j : ℕ) (r : ReceivedChunkRecord)
    → or_else found (if j == i then some r else other)
      ≡ or_else (or_else found (if j == i then some r else none)) other
or_else-if (some s) other i j r = refl
or_else-if none other i j r = elim (Bool-cases (j == i)) [ inl e ↦ rw e refl | inr e ↦ rw e refl ]

find-by_global_onto :
    (rs : List ReceivedChunkRecord) (out : List (ℕ × ReceivedChunkRecord)) (i : ℕ)
    → find ltb i (by_global rs out) ≡ or_else (latest i rs) (find ltb i out)
unfolding by_global
find-by_global_onto [] out i = unfold latest in refl
find-by_global_onto (r ∷ rs) out i =
    find-by_global_onto rs (assign ltb r.global_index r out) i
    ∙ rw
        (
          find-assign ltb ltb-IsOrder r.global_index i r out,
          same_ltb r.global_index i,
          latest-cons i r rs,
        )
        (or_else-if (latest i rs) (find ltb i out) i r.global_index r)

or_else-none : (found : Option ReceivedChunkRecord) → or_else found none ≡ found
or_else-none none = refl
or_else-none (some r) = refl

pub find-by_global :
    (rs : List ReceivedChunkRecord) (i : ℕ) → find ltb i (by_global rs []) ≡ latest i rs
find-by_global rs i = find-by_global_onto rs [] i ∙ unfold find in or_else-none (latest i rs)

abbrev sha_of : Option ReceivedChunkRecord → Option Bytes → Option Bytes
sha_of none other = other
sha_of (some r) other = some r.sha256

sha_of-if :
    (found : Option ReceivedChunkRecord) (other : Option Bytes) (i j : ℕ) (r : ReceivedChunkRecord)
    → sha_of found (if j == i then some r.sha256 else other)
      ≡ sha_of (or_else found (if j == i then some r else none)) other
sha_of-if (some s) other i j r = refl
sha_of-if none other i j r = elim (Bool-cases (j == i)) [ inl e ↦ rw e refl | inr e ↦ rw e refl ]

find-received_of_onto :
    (rs : List ReceivedChunkRecord) (out : List (ℕ × Bytes)) (i : ℕ)
    → find ltb i (received_of rs out) ≡ sha_of (latest i rs) (find ltb i out)
unfolding received_of
find-received_of_onto [] out i = unfold latest in refl
find-received_of_onto (r ∷ rs) out i =
    find-received_of_onto rs (assign ltb r.global_index r.sha256 out) i
    ∙ rw
        (
          find-assign ltb ltb-IsOrder r.global_index i r.sha256 out,
          same_ltb r.global_index i,
          latest-cons i r rs,
        )
        (sha_of-if (latest i rs) (find ltb i out) i r.global_index r)

pub find-received_of :
    (rs : List ReceivedChunkRecord) (i : ℕ) → find ltb i (received_of rs []) ≡ latest_sha i rs
unfolding latest_sha find
find-received_of rs i = find-received_of_onto rs [] i ∙ cases (latest i rs)
  where
    cases :
        (found : Option ReceivedChunkRecord)
        → sha_of found none ≡ elim found [ none ↦ none | some r ↦ some r.sha256 ]
    cases none = refl
    cases (some r) = refl
