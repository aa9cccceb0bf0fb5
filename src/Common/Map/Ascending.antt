-- ===== src/Common/Map/Ascending.antt =====
-- Maps whose keys are numbers, in ascending order.
use cpp_data_protection_core.Base.{
  ℕ, ltb, ◌<◌, ◌≡◌, refl, sym, ◌∙◌, ap, arith, true, false, Bool-cases, inl, inr, List, [], ◌∷◌,
  ◌++◌, append_assoc, append-nil, All, All-append,
}
use cpp_data_protection_core.Common.Map.{assign}

module _ {A : Type 0} where
  abbrev pub Above : ℕ → ℕ × A → Type 0
  Above k e = k < e.0

  abbrev pub IsAscending : List (ℕ × A) → Type 0
  IsAscending [] = Unit
  IsAscending ((k, v) ∷ m) = All (Above k) m × IsAscending m

  All_mono :
      (P Q : ℕ × A → Type 0) (m : List (ℕ × A)) → ((e : ℕ × A) → P e → Q e) → All P m → All Q m
  All_mono P Q [] f h = tt
  All_mono P Q (e ∷ m) f h = (f e h.0, All_mono P Q m f h.1)

  pub assign-All :
      (P : ℕ × A → Type 0) (k : ℕ) (v : A) (m : List (ℕ × A))
      → P (k, v)
      → ((j : ℕ) → j ≡ k → P (j, v))
      → All P m
      → All P (assign ltb k v m)
  unfolding assign
  assign-All P k v [] p q h = (p, tt)
  assign-All P k v ((j, w) ∷ m) p q h = elim (Bool-cases (ltb k j)) [
    | inl e ↦ rw e (p, h)
    | inr e ↦ elim (Bool-cases (ltb j k)) [
      | inl d ↦ rw (e, d) (h.0, assign-All P k v m p q h.1)
      | inr d ↦ rw (e, d) (q j (ground arith), h.1)
    ]
  ]

  pub assign-IsAscending :
      (k : ℕ) (v : A) (m : List (ℕ × A)) → IsAscending m → IsAscending (assign ltb k v m)
  unfolding assign
  assign-IsAscending k v [] h = (tt, tt)
  assign-IsAscending k v ((j, w) ∷ m) h = elim (Bool-cases (ltb k j)) [
    | inl e ↦
        let less : k < j = ground arith in
        rw e ((less, All_mono (Above j) (Above k) m (λ x l. omega arith) h.0), h)
    | inr e ↦ elim (Bool-cases (ltb j k)) [
      | inl d ↦
          let less : j < k = ground arith in
          rw (e, d)
            (assign-All (Above j) k v m less (λ i s. omega arith) h.0, assign-IsAscending k v m h.1)
      | inr d ↦ rw (e, d) h
    ]
  ]

  -- The assignments of a map's entries in turn.
  unfoldable pub assign_all : List (ℕ × A) → List (ℕ × A) → List (ℕ × A)
  assign_all [] out = out
  assign_all ((k, v) ∷ m) out = assign_all m (assign ltb k v out)

  assign-last :
      (k : ℕ) (v : A) (out : List (ℕ × A))
      → All (λ e. e.0 < k) out
      → assign ltb k v out ≡ out ++ (k, v) ∷ []
  unfolding assign
  assign-last k v [] h = refl
  assign-last k v ((j, w) ∷ out) h =
      let e : ltb k j ≡ false = ground (arith, h.0) in
      let d : ltb j k ≡ true = ground (arith, h.0) in
      rw (e, d) (ap (◌∷◌ (j, w)) (assign-last k v out h.1))

  -- The keys of the second map are above those of the first.
  abbrev Below : List (ℕ × A) → List (ℕ × A) → Type 0
  Below out m = All (λ e. All (λ f. f.0 < e.0) out) m

  append-Below :
      (k : ℕ) (v : A) (out m : List (ℕ × A))
      → Below out m
      → All (Above k) m
      → Below (out ++ (k, v) ∷ []) m
  append-Below k v out [] b h = tt
  append-Below k v out (e ∷ m) b h =
      (All-append (λ f. f.0 < e.0) out ((k, v) ∷ []) b.0 (h.0, tt), append-Below k v out m b.1 h.1)

  assign_all-append :
      (m out : List (ℕ × A)) → IsAscending m → Below out m → assign_all m out ≡ out ++ m
  unfolding assign_all
  assign_all-append [] out h b = sym (append-nil out)
  assign_all-append ((k, v) ∷ m) out h b =
      ap (assign_all m) (assign-last k v out b.0)
      ∙ (assign_all-append m (out ++ (k, v) ∷ []) h.1 (append-Below k v out m b.1 h.0)
          ∙ append_assoc out ((k, v) ∷ []) m)

  empty-Below : (m : List (ℕ × A)) → Below [] m
  empty-Below [] = tt
  empty-Below (e ∷ m) = (tt, empty-Below m)

  pub assign_all_ascending : (m : List (ℕ × A)) → IsAscending m → assign_all m [] ≡ m
  assign_all_ascending m h = assign_all-append m [] h (empty-Below m)
