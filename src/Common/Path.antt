-- ===== src/Common/Path.antt =====
-- `safeRelativePath` and `safeJoinUnderRoot` of include/dpc/common/FileUtils.hpp, over what they
-- use of `std::filesystem::path` on POSIX: a path is its text, cut at the slashes.
pub mod Walk
pub mod Laws
use cpp_data_protection_core.Base.{
  ℕ, Bool, true, false, not, ◌&&◌, ◌||◌, ◌==◌, List, [], ◌∷◌, ◌++◌, Bytes, codes, equal, null,
  if◌then◌else◌,
}
use cpp_data_protection_core.Common.Error.{
  Result, ok, ◌>>=◌, ◌>>◌, throw_if, null_byte_in_path, path_not_relative,
  path_is_current_directory, path_has_parent_traversal,
}

-- One more character in front of the pieces.
unfoldable pub attach : ℕ → ℕ → List Bytes → List Bytes
attach sep c [] = [] ∷ []
attach sep c (piece ∷ pieces) = if c == sep then [] ∷ piece ∷ pieces else (c ∷ piece) ∷ pieces

-- The pieces between the separators `sep`, empty ones included; at least one.
unfoldable pub split_at : ℕ → Bytes → List Bytes
unfolding attach
split_at sep [] = [] ∷ []
split_at sep (c ∷ rest) = attach sep c (split_at sep rest)

unfoldable pub contains : ℕ → Bytes → Bool
contains c [] = false
contains c (x ∷ rest) = x == c || contains c rest

abbrev pub is_dot : Bytes → Bool
is_dot name = equal name (codes ".")

abbrev pub is_dot_dot : Bytes → Bool
is_dot_dot name = equal name (codes "..")

-- `lexically_normal` of a relative path. `done` holds the names so far, the last one in front. An
-- empty name or a dot is dropped; a `..` takes the name before it away.
unfoldable pub parent : List Bytes → List Bytes
parent [] = codes ".." ∷ []
parent (name ∷ done) = if is_dot_dot name then codes ".." ∷ name ∷ done else done

unfoldable pub normal_names : List Bytes → List Bytes → List Bytes
unfolding parent
normal_names done [] = done
normal_names done (name ∷ rest) =
    normal_names
      (if null name || is_dot name
        then done
        else if is_dot_dot name
        then parent done
        else name ∷ done)
      rest

unfoldable pub reverse_onto : List Bytes → List Bytes → List Bytes
reverse_onto [] names = names
reverse_onto (name ∷ done) names = reverse_onto done (name ∷ names)

-- Whether the last name is followed by a slash in the normal form.
unfoldable pub ends_in_directory : List Bytes → Bool
ends_in_directory [] = false
ends_in_directory (name ∷ []) = null name || is_dot name || is_dot_dot name
ends_in_directory (name ∷ next ∷ rest) = ends_in_directory (next ∷ rest)

-- A normalised relative path; "." is the one with no names.
pub record NormalPath : Type 0 where
  pub names : List Bytes
  pub trailing_slash : Bool

unfoldable pub lexically_normal : Bytes → NormalPath
unfolding ends_in_directory
lexically_normal input = record {
  names = reverse_onto (normal_names [] (split_at b'/' input)) [];
  trailing_slash = ends_in_directory (split_at b'/' input);
}

unfoldable pub is_absolute : Bytes → Bool
is_absolute [] = false
is_absolute (c ∷ rest) = c == b'/'

unfoldable pub any_dot_dot : List Bytes → Bool
any_dot_dot [] = false
any_dot_dot (name ∷ rest) = is_dot_dot name || any_dot_dot rest

unfoldable pub safe_relative_path : Bytes → Result NormalPath
unfolding is_absolute
safe_relative_path value = do
  throw_if (contains 0 value) null_byte_in_path
  throw_if (null value || is_absolute value) path_not_relative
  let normalized = lexically_normal value
  throw_if (null normalized.names) path_is_current_directory
  throw_if (any_dot_dot normalized.names) path_has_parent_traversal
  ok normalized

-- `root / safeRelativePath(relative)`, with the names of the root in front.
unfoldable pub safe_join_under_root : List Bytes → Bytes → Result (List Bytes)
safe_join_under_root root relative = do safe ← safe_relative_path relative; ok (root ++ safe.names)
