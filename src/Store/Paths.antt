-- ===== src/Store/Paths.antt =====
-- The path of an object is a safe one below `objects`, and distinct objects have distinct paths.
use cpp_data_protection_core.Base.{
  ℕ, ◌≡◌, refl, ap, subst, append-nil, ◌∙◌, arith, true, false, ◌&&◌, ◌||◌, ◌==◌, ==_iff,
  Bool-cases, inl, inr, List, [], ◌∷◌, ◌++◌, All, Bytes, codes, equal, null, take,
}
use cpp_data_protection_core.Common.Error.{ok}
use cpp_data_protection_core.Common.Hex.{is_xdigit, all_of, is_sha256_hex, require_sha256_hex}
use cpp_data_protection_core.Common.Path.{
  attach, split_at, contains, normal_names, reverse_onto, ends_in_directory, lexically_normal,
  is_absolute, any_dot_dot, safe_relative_path,
}
use cpp_data_protection_core.Common.Path.Laws.{IsPlain}
use cpp_data_protection_core.Common.Text.Laws.{split_at-append}
use cpp_data_protection_core.Store.{object_path_for_hash, join, absolute_object_path, object_place}

-- A file name: not empty, no dot names, no slash and no null byte.
pub record IsName (name : Bytes) : Type 0 where
  pub plain : IsPlain name
  pub no_slash : contains b'/' name ≡ false
  pub no_null : contains 0 name ≡ false

split_at-whole : (sep : ℕ) (w : Bytes) → contains sep w ≡ false → split_at sep w ≡ w ∷ []
unfolding split_at contains attach
split_at-whole sep [] h = refl
split_at-whole sep (c ∷ w) h = rw (split_at-whole sep w (ground arith)) (ground arith)

split_at-join :
    (name : Bytes) (names : List Bytes)
    → All IsName (name ∷ names)
    → split_at b'/' (join (name ∷ names)) ≡ name ∷ names
unfolding join
split_at-join name [] (h, t) = split_at-whole b'/' name h.no_slash
split_at-join name (next ∷ names) (h, t) =
    split_at-append b'/' name (join (next ∷ names)) h.no_slash
    ∙ ap (◌∷◌ name) (split_at-join next names t)

normal_names-plain :
    (names done : List Bytes)
    → All IsName names
    → reverse_onto (normal_names done names) [] ≡ reverse_onto done names
unfolding normal_names reverse_onto
normal_names-plain [] done h = refl
normal_names-plain (name ∷ names) done (h, t) =
    rw (h.plain.0, h.plain.1, h.plain.2) (normal_names-plain names (name ∷ done) t)

ends_in_directory-plain : (names : List Bytes) → All IsName names → ends_in_directory names ≡ false
unfolding ends_in_directory
ends_in_directory-plain [] h = refl
ends_in_directory-plain (name ∷ []) (h, t) = rw (h.plain.0, h.plain.1, h.plain.2) refl
ends_in_directory-plain (name ∷ next ∷ names) (h, t) = ends_in_directory-plain (next ∷ names) t

any_dot_dot-plain : (names : List Bytes) → All IsName names → any_dot_dot names ≡ false
unfolding any_dot_dot
any_dot_dot-plain [] h = refl
any_dot_dot-plain (name ∷ names) (h, t) = rw (h.plain.2, any_dot_dot-plain names t) refl

contains-append :
    (c : ℕ) (v w : Bytes)
    → contains c v ≡ false
    → contains c w ≡ false
    → contains c (v ++ w) ≡ false
unfolding contains
contains-append c [] w h k = k
contains-append c (x ∷ v) w h k = ground (arith, contains-append c v w)

join-no_null : (names : List Bytes) → All IsName names → contains 0 (join names) ≡ false
unfolding join contains
join-no_null [] h = refl
join-no_null (name ∷ []) (h, t) = h.no_null
join-no_null (name ∷ next ∷ names) (h, t) =
    contains-append 0 name (b'/' ∷ join (next ∷ names)) h.no_null (join-no_null (next ∷ names) t)

starts_plain :
    (name rest : Bytes) → IsName name → (null (name ++ rest) || is_absolute (name ++ rest)) ≡ false
unfolding contains is_absolute
starts_plain [] rest h = cc h.plain.0
starts_plain (c ∷ name) rest h = let e = h.no_slash in ground arith

join-relative :
    (name : Bytes) (names : List Bytes)
    → IsName name
    → (null (join (name ∷ names)) || is_absolute (join (name ∷ names))) ≡ false
unfolding join
join-relative name [] h =
    subst (λ (t : Bytes). (null t || is_absolute t) ≡ false) (append-nil name)
      (starts_plain name [] h)
join-relative name (next ∷ names) h = starts_plain name (b'/' ∷ join (next ∷ names)) h

-- A text of names with single slashes between them is accepted as it is.
pub safe_relative_path-join :
    (name : Bytes) (names : List Bytes)
    → All IsName (name ∷ names)
    → safe_relative_path (join (name ∷ names))
      ≡ ok (record { names = name ∷ names; trailing_slash = false })
unfolding safe_relative_path lexically_normal reverse_onto
safe_relative_path-join name names h =
    rw
      (
        join-no_null (name ∷ names) h,
        join-relative name names h.0,
        split_at-join name names h,
        normal_names-plain (name ∷ names) [] h,
        any_dot_dot-plain (name ∷ names) h,
        ends_in_directory-plain (name ∷ names) h,
      )
      refl

-- A digit of a hash makes no slash, no dot and no null byte.
xdigits-no :
    (c : ℕ) (w : Bytes) → all_of is_xdigit w ≡ true → is_xdigit c ≡ false → contains c w ≡ false
unfolding all_of contains
xdigits-no c [] h e = refl
xdigits-no c (x ∷ w) h e = elim (Bool-cases (x == c)) [
  | inl same ↦
      let eq : x ≡ c = (==_iff x c).0 same in
      let no : is_xdigit x ≡ false = rw eq e in cc (no, h_digit x w h)
  | inr other ↦ rw other (xdigits-no c w (ground arith) e)
]
  where
    h_digit : (x : ℕ) (w : Bytes) → (is_xdigit x && all_of is_xdigit w) ≡ true → is_xdigit x ≡ true
    h_digit x w h = ground arith

xdigit-IsPlain : (c : ℕ) (rest : Bytes) → is_xdigit c ≡ true → IsPlain (c ∷ rest)
unfolding equal
xdigit-IsPlain c rest h = (refl, ground arith, ground arith)

xdigits-IsName :
    (c : ℕ) (w suffix : Bytes)
    → all_of is_xdigit (c ∷ w) ≡ true
    → contains b'/' suffix ≡ false
    → contains 0 suffix ≡ false
    → IsName (c ∷ w ++ suffix)
unfolding all_of
xdigits-IsName c w suffix h s n = record {
  plain = xdigit-IsPlain c (w ++ suffix) (ground arith);
  no_slash = contains-append b'/' (c ∷ w) suffix (xdigits-no b'/' (c ∷ w) h refl) s;
  no_null = contains-append 0 (c ∷ w) suffix (xdigits-no 0 (c ∷ w) h refl) n;
}

objects-IsName : IsName (codes "objects")
unfolding contains equal
objects-IsName = record { plain = (refl, refl, refl); no_slash = refl; no_null = refl }

-- The path of the object with a hash.
unfoldable pub object_path : Bytes → Bytes
object_path sha256 = codes "objects/" ++ (take 2 sha256 ++ (codes "/" ++ (sha256 ++ codes ".zst")))

pub absolute_object_path-object_path :
    (sha256 : Bytes)
    → is_sha256_hex sha256 ≡ true
    → absolute_object_path (object_path sha256) ≡ ok (object_path sha256)
absolute_object_path-object_path [] h = unfold is_sha256_hex in cc h
absolute_object_path-object_path (c ∷ []) h = unfold is_sha256_hex in cc h
absolute_object_path-object_path (c ∷ d ∷ w) h =
    let digits : all_of is_xdigit (c ∷ d ∷ w) ≡ true = unfold is_sha256_hex in ground arith in
    let two : all_of is_xdigit (c ∷ d ∷ []) ≡ true = unfold all_of in ground arith in
    let suffix : (contains b'/' (codes ".zst") ≡ false) × (contains 0 (codes ".zst") ≡ false) =
      unfold contains in (refl, refl) in
    let dir : IsName (c ∷ d ∷ []) =
      xdigits-IsName c (d ∷ []) [] two (unfold contains in refl) (unfold contains in refl) in
    let file : IsName (c ∷ d ∷ w ++ codes ".zst") =
      xdigits-IsName c (d ∷ w) (codes ".zst") digits suffix.0 suffix.1 in
    let e =
      safe_relative_path-join (codes "objects") ((c ∷ d ∷ []) ∷ (c ∷ d ∷ w ++ codes ".zst") ∷ [])
        (objects-IsName, (dir, (file, tt))) in
    unfold object_path absolute_object_path join equal in rw e refl

-- The path that `objectPathForHash` makes from a well-formed hash is accepted by
-- `absoluteObjectPath` and is kept as it is, below the directory `objects`.
pub object_place-ok :
    (sha256 : Bytes)
    → is_sha256_hex sha256 ≡ true
    → object_place sha256 ≡ ok (object_path sha256, object_path sha256)
unfolding object_place object_path_for_hash require_sha256_hex
object_place-ok sha256 h =
    let e = absolute_object_path-object_path sha256 h in rw h (unfold object_path in rw e refl)
