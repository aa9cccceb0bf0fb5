-- ===== src/Common/Map.antt =====
-- `std::map` as the list of its entries in the order of the keys, by the comparison of the keys.
pub mod Ascending
use cpp_data_protection_core.Base.{
  ℕ, Bool, true, false, not, ◌&&◌, ltb, ◌<◌, ◌≡◌, refl, sym, ◌∙◌, arith, Bool-cases, inl, inr,
  Option, none, some, List, [], ◌∷◌, Bytes, if◌then◌else◌,
}

-- `operator<` of `std::string`.
unfoldable pub lt_bytes : Bytes → Bytes → Bool
lt_bytes [] [] = false
lt_bytes [] (d ∷ w) = true
lt_bytes (c ∷ v) [] = false
lt_bytes (c ∷ v) (d ∷ w) = if ltb c d then true else if ltb d c then false else lt_bytes v w

-- Neither key is less than the other.
unfoldable pub same : {K : Type 0} → (K → K → Bool) → K → K → Bool
same lt j k = not (lt j k) && not (lt k j)

module _ {K : Type 0} {V : Type 0} (lt : K → K → Bool) where
  unfoldable pub find : K → List (K × V) → Option V
  unfolding same
  find k [] = none
  find k ((j, w) ∷ m) = if same lt j k then some w else find k m

  -- `map[k] = v`
  unfoldable pub assign : K → V → List (K × V) → List (K × V)
  assign k v [] = (k, v) ∷ []
  assign k v ((j, w) ∷ m) =
      let later = (j, w) ∷ assign k v m in
      if lt k j then (k, v) ∷ (j, w) ∷ m else if lt j k then later else (j, v) ∷ m

-- The comparison of a key type tells its values apart.
pub record IsOrder {K : Type 0} (lt : K → K → Bool) : Type 0 where
  pub antisym : (j k : K) → lt j k ≡ false → lt k j ≡ false → j ≡ k
  pub irrefl : (k : K) → lt k k ≡ false

lt_bytes-antisym : (v w : Bytes) → lt_bytes v w ≡ false → lt_bytes w v ≡ false → v ≡ w
unfolding lt_bytes
lt_bytes-antisym [] [] h k = refl
lt_bytes-antisym [] (d ∷ w) h k = cc
lt_bytes-antisym (c ∷ v) [] h k = cc
lt_bytes-antisym (c ∷ v) (d ∷ w) h k = ground (arith, lt_bytes-antisym v w)

lt_bytes_irrefl : (v : Bytes) → lt_bytes v v ≡ false
unfolding lt_bytes
lt_bytes_irrefl [] = refl
lt_bytes_irrefl (c ∷ v) = ground (arith, lt_bytes_irrefl v)

pub lt_bytes-IsOrder : IsOrder lt_bytes
lt_bytes-IsOrder = record { antisym = lt_bytes-antisym; irrefl = lt_bytes_irrefl }

pub ltb-IsOrder : IsOrder ltb
ltb-IsOrder = record { antisym = λ j k h l. ground arith; irrefl = λ k. ground arith }

module _ {K : Type 0} (lt : K → K → Bool) (o : IsOrder lt) where
  pub same_refl : (k : K) → same lt k k ≡ true
  unfolding same
  same_refl k = rw (o.irrefl k) refl

  pub eq_of_same : (j k : K) → same lt j k ≡ true → j ≡ k
  unfolding same
  eq_of_same j k h = o.antisym j k (ground arith) (ground arith)

  apart : (j k : K) → lt j k ≡ true → same lt j k ≡ false
  unfolding same
  apart j k h = rw h refl

  -- The two ways in which an entry stays in front of the assigned key.
  stays :
      {W : Type 0} (i j k : K) (w v : W) (found rest : Option W)
      → found ≡ (if same lt k j then some v else rest)
      → same lt i k ≡ false
      → (if same lt i j then some w else found)
        ≡ (if same lt k j then some v else if same lt i j then some w else rest)
  stays i j k w v found rest ih ne = elim (Bool-cases (same lt i j)) [
    | inr e ↦ rw e ih
    | inl e ↦ elim (Bool-cases (same lt k j)) [
      | inr d ↦ rw (e, d) refl
      | inl d ↦
          let one : i ≡ k = eq_of_same i j e ∙ sym (eq_of_same k j d) in
          let yes_same : same lt i k ≡ true = rw one (same_refl k) in cc
    ]
  ]

  replaced :
      {W : Type 0} (i j k : K) (w v : W) (rest : Option W)
      → k ≡ i
      → (if same lt i j then some v else rest)
        ≡ (if same lt k j then some v else if same lt i j then some w else rest)
  replaced i j k w v rest e =
      rw e (elim (Bool-cases (same lt i j)) [ inl d ↦ rw d refl | inr d ↦ rw d refl ])

  -- An assignment shows at its key and nowhere else.
  pub find-assign :
      {W : Type 0} (k j : K) (v : W) (m : List (K × W))
      → find lt j (assign lt k v m) ≡ (if same lt k j then some v else find lt j m)
  unfolding find assign
  find-assign k j v [] = refl
  find-assign k j v ((i, w) ∷ m) = elim (Bool-cases (lt k i)) [
    | inl e ↦ rw e refl
    | inr e ↦ elim (Bool-cases (lt i k)) [
      | inl d ↦ rw (e, d) (stays i j k w v _ (find lt j m) (find-assign k j v m) (apart i k d))
      | inr d ↦ rw (e, d) (replaced i j k w v (find lt j m) (o.antisym k i e d))
    ]
  ]

  pub find-assign_self :
      {W : Type 0} (k : K) (v : W) (m : List (K × W)) → find lt k (assign lt k v m) ≡ some v
  find-assign_self k v m = find-assign k k v m ∙ rw (same_refl k) refl
