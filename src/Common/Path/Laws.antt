-- ===== src/Common/Path/Laws.antt =====
-- A path that `safeRelativePath` lets through names something below the root.
use cpp_data_protection_core.Base.{
  ◌≡◌, refl, sym, ap, ◌∙◌, arith, false, Bool-cases, ◌||◌, inl, inr, List, [], ◌∷◌, ◌++◌,
  append-nil, Bytes, equal, null, All, subst,
}
use cpp_data_protection_core.Common.Error.{
  null_byte_in_path, path_not_relative, path_is_current_directory, path_has_parent_traversal, ok,
  throw_if-eq-ok, >>=-eq-ok,
}
use cpp_data_protection_core.Common.Path.{
  split_at, contains, is_dot, is_dot_dot, parent, normal_names, reverse_onto, NormalPath,
  lexically_normal, is_absolute, any_dot_dot, safe_relative_path, safe_join_under_root,
}
use cpp_data_protection_core.Common.Path.Walk.{
  walk, push_name, walk-normal_names, any_dot_dot-in_order,
}

-- A name that goes down.
abbrev pub IsPlain : Bytes → Type 0
IsPlain name = (null name ≡ false) × (is_dot name ≡ false) × (is_dot_dot name ≡ false)

-- A name that the normal form keeps.
abbrev IsKept : Bytes → Type 0
IsKept name = (null name ≡ false) × (is_dot name ≡ false)

parent-All : (done : List Bytes) → All IsKept done → All IsKept (parent done)
unfolding parent equal
parent-All [] h = ((refl, refl), tt)
parent-All (name ∷ done) h = elim (Bool-cases (is_dot_dot name)) [
  | inl e ↦ rw e ((refl, refl), h)
  | inr e ↦ rw e h.1
]

push_name-All :
    (name : Bytes) (done : List Bytes) → All IsKept done → All IsKept (push_name name done)
push_name-All [] done h = h
push_name-All (c ∷ name) done h = elim (Bool-cases (is_dot (c ∷ name))) [
  | inl e ↦ rw e h
  | inr e ↦ elim (Bool-cases (is_dot_dot (c ∷ name))) [
    | inl d ↦ rw (e, d) (parent-All done h)
    | inr d ↦ rw (e, d) ((refl, e), h)
  ]
]

normal_names-All :
    (names done : List Bytes) → All IsKept done → All IsKept (normal_names done names)
unfolding normal_names
normal_names-All [] done h = h
normal_names-All (name ∷ rest) done h =
    normal_names-All rest (push_name name done) (push_name-All name done h)

reverse_onto-All :
    (done names : List Bytes)
    → All IsKept done
    → All IsKept names
    → All IsKept (reverse_onto done names)
unfolding reverse_onto
reverse_onto-All [] names h k = k
reverse_onto-All (name ∷ done) names h k = reverse_onto-All done (name ∷ names) h.1 (h.0, k)

all_plain : (names : List Bytes) → All IsKept names → any_dot_dot names ≡ false → All IsPlain names
unfolding any_dot_dot
all_plain [] h e = tt
all_plain (name ∷ rest) h e = ((h.0.0, h.0.1, ground arith), all_plain rest h.1 (ground arith))

-- What `safeRelativePath` has tested when it returns a path.
pub record IsSafe (p : NormalPath) : Type 0 where
  pub some_name : null p.names ≡ false
  pub plain : All IsPlain p.names

-- A path that `safeRelativePath` returns has at least one name, and none of its names is empty, a
-- dot or "..".
pub safe_relative_path-IsSafe :
    (value : Bytes) (p : NormalPath) → safe_relative_path value ≡ ok p → IsSafe p
unfolding safe_relative_path lexically_normal
safe_relative_path-IsSafe value p h =
    let n = lexically_normal value in
    let (t0, h) = throw_if-eq-ok (contains 0 value) null_byte_in_path _ h in
    let (t1, h) = throw_if-eq-ok (null value || is_absolute value) path_not_relative _ h in
    let (t2, h) = throw_if-eq-ok (null n.names) path_is_current_directory _ h in
    let (t3, h) = throw_if-eq-ok (any_dot_dot n.names) path_has_parent_traversal (ok n) h in
    let e : n ≡ p = cc h in
    subst IsSafe e (record {
      some_name = t2;
      plain =
          all_plain _
            (reverse_onto-All (normal_names [] (split_at b'/' value)) []
              (normal_names-All (split_at b'/' value) [] tt) tt)
            t3;
    })

safe_relative_path-lexically_normal :
    (value : Bytes) (p : NormalPath)
    → safe_relative_path value ≡ ok p
    → (lexically_normal value ≡ p) × (any_dot_dot (lexically_normal value).names ≡ false)
unfolding safe_relative_path
safe_relative_path-lexically_normal value p h =
    let n = lexically_normal value in
    let (t0, h) = throw_if-eq-ok (contains 0 value) null_byte_in_path _ h in
    let (t1, h) = throw_if-eq-ok (null value || is_absolute value) path_not_relative _ h in
    let (t2, h) = throw_if-eq-ok (null n.names) path_is_current_directory _ h in
    let (t3, h) = throw_if-eq-ok (any_dot_dot n.names) path_has_parent_traversal (ok n) h in
    (cc h, t3)

-- Whatever text `safeJoinUnderRoot` accepts, walking from the root through the pieces of the text
-- between its slashes, where `..` goes up and an empty piece or a dot stays, ends exactly at the
-- joined path, which is the root followed by at least one name, none of which is empty, a dot or
-- `..`.
pub safe_join_under_root_below :
    (root : List Bytes) (value : Bytes) (joined : List Bytes)
    → safe_join_under_root root value ≡ ok joined
    → (walk root (split_at b'/' value) ≡ joined)
      × (names : List Bytes) × (null names ≡ false)
      × All IsPlain names
      × (joined ≡ root ++ names)
unfolding safe_join_under_root lexically_normal any_dot_dot reverse_onto
safe_join_under_root_below root value joined h =
    let (p, e, last) = >>=-eq-ok (safe_relative_path value) _ h in
    let safe = safe_relative_path-IsSafe value p e in
    let same : root ++ p.names ≡ joined = cc last in
    let normal = safe_relative_path-lexically_normal value p e in
    (
      sym (ap (λ (t : List Bytes). walk t (split_at b'/' value)) (append-nil root))
          ∙ (walk-normal_names root (split_at b'/' value) [] refl
                (sym (any_dot_dot-in_order (normal_names [] (split_at b'/' value))) ∙ normal.1)
              ∙ (ap (λ (t : NormalPath). root ++ t.names) normal.0 ∙ same)),
      p.names,
      safe.some_name,
      safe.plain,
      sym same,
    )
