-- ===== src/Common/Path/Walk.antt =====
-- Walking through the pieces of a path leads where its normal form leads.
use cpp_data_protection_core.Base.{
  ◌≡◌, refl, sym, ap, ◌∙◌, arith, true, false, Bool-cases, ◌||◌, inl, inr, List, [], ◌∷◌, ◌++◌,
  append_assoc, Bytes, equal, null, if◌then◌else◌,
}
use cpp_data_protection_core.Common.Path.{
  is_dot, is_dot_dot, parent, normal_names, reverse_onto, any_dot_dot,
}

-- The directory that a list of names leads to from another one, as the operating system walks it:
-- a dot stays, `..` goes up, any other name goes down.
abbrev pub up : List Bytes → List Bytes
up [] = []
up (name ∷ []) = []
up (name ∷ next ∷ rest) = name ∷ up (next ∷ rest)

abbrev pub walk : List Bytes → List Bytes → List Bytes
walk here [] = here
walk here (name ∷ rest) =
    walk
      (if null name || is_dot name
        then here
        else if is_dot_dot name
        then up here
        else here ++ name ∷ [])
      rest

abbrev pub push_name : Bytes → List Bytes → List Bytes
push_name name done =
    if null name || is_dot name then done else if is_dot_dot name then parent done else name ∷ done

-- The names that were done, in the order of the path.
abbrev in_order : List Bytes → List Bytes
in_order done = reverse_onto done []

reverse_onto-append : (done names : List Bytes) → reverse_onto done names ≡ in_order done ++ names
unfolding reverse_onto
reverse_onto-append [] names = refl
reverse_onto-append (name ∷ done) names =
    reverse_onto-append done (name ∷ names)
    ∙ (sym (append_assoc (in_order done) (name ∷ []) names)
        ∙ ap (λ (t : List Bytes). t ++ names) (sym (reverse_onto-append done (name ∷ []))))

up-last : (here : List Bytes) (name : Bytes) → up (here ++ name ∷ []) ≡ here
up-last [] name = refl
up-last (a ∷ []) name = refl
up-last (a ∷ b ∷ here) name = ap (◌∷◌ a) (up-last (b ∷ here) name)

-- Where the names that were done lead from the root.
abbrev below : List Bytes → List Bytes → List Bytes
below root done = root ++ in_order done

below-push :
    (root done : List Bytes) (name : Bytes)
    → below root (name ∷ done) ≡ below root done ++ name ∷ []
unfolding reverse_onto
below-push root done name =
    ap (λ (t : List Bytes). root ++ t) (reverse_onto-append done (name ∷ []))
    ∙ sym (append_assoc root (in_order done) (name ∷ []))

parent-dot_dot : (done : List Bytes) → any_dot_dot done ≡ true → any_dot_dot (parent done) ≡ true
unfolding parent any_dot_dot equal
parent-dot_dot [] h = cc
parent-dot_dot (name ∷ done) h = elim (Bool-cases (is_dot_dot name)) [
  | inl e ↦ rw e refl
  | inr e ↦ rw e (rw e at h)
]

push_name-dot_dot :
    (name : Bytes) (done : List Bytes)
    → any_dot_dot done ≡ true
    → any_dot_dot (push_name name done) ≡ true
unfolding any_dot_dot
push_name-dot_dot name done h = elim (Bool-cases (null name || is_dot name)) [
  | inl e ↦ rw e h
  | inr e ↦ elim (Bool-cases (is_dot_dot name)) [
    | inl d ↦ rw (e, d) (parent-dot_dot done h)
    | inr d ↦ rw (e, d) (rw (d, h) refl)
  ]
]

-- A `..` that was kept stays.
normal_names-dot_dot :
    (names done : List Bytes)
    → any_dot_dot done ≡ true
    → any_dot_dot (normal_names done names) ≡ true
unfolding normal_names
normal_names-dot_dot [] done h = h
normal_names-dot_dot (name ∷ rest) done h =
    normal_names-dot_dot rest (push_name name done) (push_name-dot_dot name done h)

up-parent :
    (root done : List Bytes)
    → any_dot_dot done ≡ false
    → any_dot_dot (parent done) ≡ false
    → up (below root done) ≡ below root (parent done)
unfolding parent any_dot_dot equal
up-parent root [] h k = cc
up-parent root (name ∷ done) h k =
    let plain : is_dot_dot name ≡ false = ground arith in
    rw (plain, below-push root done name) (up-last (below root done) name)

-- Where one more name leads.
abbrev step : List Bytes → Bytes → List Bytes
step here name =
    if null name || is_dot name
    then here
    else if is_dot_dot name
    then up here
    else here ++ name ∷ []

step-push_name :
    (root done : List Bytes) (name : Bytes)
    → any_dot_dot done ≡ false
    → any_dot_dot (push_name name done) ≡ false
    → step (below root done) name ≡ below root (push_name name done)
step-push_name root done name h k = elim (Bool-cases (null name || is_dot name)) [
  | inl e ↦ rw e refl
  | inr e ↦ elim (Bool-cases (is_dot_dot name)) [
    | inl d ↦ rw (e, d) (up-parent root done h (rw (e, d) at k))
    | inr d ↦ rw (e, d) (sym (below-push root done name))
  ]
]

-- The names lead where their normal form leads.
pub walk-normal_names :
    (root names done : List Bytes)
    → any_dot_dot done ≡ false
    → any_dot_dot (normal_names done names) ≡ false
    → walk (below root done) names ≡ below root (normal_names done names)
unfolding normal_names
walk-normal_names root [] done h k = refl
walk-normal_names root (name ∷ rest) done h k =
    elim (Bool-cases (any_dot_dot (push_name name done))) [
      | inl e ↦ absurd (cc (k, normal_names-dot_dot rest (push_name name done) e))
      | inr e ↦
          ap (λ (t : List Bytes). walk t rest) (step-push_name root done name h e)
          ∙ walk-normal_names root rest (push_name name done) e k
    ]

any_dot_dot-append :
    (front back : List Bytes)
    → any_dot_dot (front ++ back) ≡ (any_dot_dot front || any_dot_dot back)
unfolding any_dot_dot
any_dot_dot-append [] back = refl
any_dot_dot-append (name ∷ front) back = rw (any_dot_dot-append front back) (ground arith)

pub any_dot_dot-in_order : (done : List Bytes) → any_dot_dot (in_order done) ≡ any_dot_dot done
unfolding reverse_onto any_dot_dot
any_dot_dot-in_order [] = refl
any_dot_dot-in_order (name ∷ done) =
    rw
      (
        reverse_onto-append done (name ∷ []),
        any_dot_dot-append (in_order done) (name ∷ []),
        any_dot_dot-in_order done,
      )
      (ground arith)
