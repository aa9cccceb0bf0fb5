-- ===== src/Repo/Directory.antt =====
-- The files of one directory.
use cpp_data_protection_core.Base.{
  ◌≡◌, refl, arith, Bool, true, false, ◌⊎◌, inl, inr, Option, none, some, List, [], ◌∷◌, Bytes,
  equal, equal_iff, equal_refl, if◌then◌else◌,
}

abbrev pub Files : Type 0
Files = List (Bytes × Bytes)

pub Option-cases : (file : Option Bytes) → (file ≡ none) ⊎ ((text : Bytes) × (file ≡ some text))
Option-cases none = inl refl
Option-cases (some text) = inr (text, refl)

unfoldable pub read : Bytes → Files → Option Bytes
read name [] = none
read name ((n, text) ∷ files) = if equal n name then some text else read name files

abbrev pub is_some : Option Bytes → Bool
is_some none = false
is_some (some text) = true

-- `std::filesystem::exists`.
abbrev pub exists : Bytes → Files → Bool
exists name files = is_some (read name files)

-- `writeFileAtomic`, and `rename` onto a name.
unfoldable pub write : Bytes → Bytes → Files → Files
write name text [] = (name, text) ∷ []
write name text ((n, old) ∷ files) =
    if equal n name then (n, text) ∷ files else (n, old) ∷ write name text files

unfoldable pub remove : Bytes → Files → Files
remove name [] = []
remove name ((n, text) ∷ files) =
    let rest = remove name files in if equal n name then rest else (n, text) ∷ rest

-- The names that `directory_iterator` goes through.
unfoldable pub names : Files → List Bytes
names [] = []
names ((n, text) ∷ files) = n ∷ names files

pub read-write :
    (name text other : Bytes) (files : Files)
    → read other (write name text files)
      ≡ (if equal name other then some text else read other files)
unfolding read write
read-write name text other [] = refl
read-write name text other ((n, old) ∷ files) = ground (
  arith,
  read-write name text other files,
  equal_iff n name,
  equal_iff n other,
  equal_iff name other,
)

pub read-write_self :
    (name text : Bytes) (files : Files) → read name (write name text files) ≡ some text
read-write_self name text files = rw (read-write name text name files, equal_refl name)

pub read-remove :
    (name other : Bytes) (files : Files)
    → read other (remove name files) ≡ (if equal name other then none else read other files)
unfolding read remove
read-remove name other [] = ground arith
read-remove name other ((n, text) ∷ files) =
    ground (
      arith,
      read-remove name other files,
      equal_iff n name,
      equal_iff n other,
      equal_iff name other,
    )
