-- ===== src/Common/Stream/Laws.antt =====
-- A printed word or number is read back, up to the character behind it.
use cpp_data_protection_core.Base.{
  ℕ, ◌-◌, ◌^◌, ◌<◌, ◌≡◌, refl, arith, Bool, true, false, Bool-cases, inl, inr, not_ltb, not, some,
  [], ◌∷◌, ◌++◌, Bytes, null,
}
use cpp_data_protection_core.Common.Hex.{all_of}
use cpp_data_protection_core.Common.Text.{is_space, is_digit, decimal}
use cpp_data_protection_core.Common.Text.Laws.{IsWord}
use cpp_data_protection_core.Common.Text.Decimal.{
  decimal-all_of, decimal-null, digits_value-decimal,
}
use cpp_data_protection_core.Common.Stream.{
  skip_spaces, span, get_word, sign, get_unsigned, get_u64, get_u32,
}

span-append :
    (p : ℕ → Bool) (w rest : Bytes) (c : ℕ)
    → all_of p w ≡ true
    → p c ≡ false
    → span p (w ++ c ∷ rest) ≡ (w, c ∷ rest)
unfolding span all_of
span-append p [] rest c h e = rw e refl
span-append p (d ∷ w) rest c h e = elim (Bool-cases (p d)) [
  | inl k ↦ rw (k, span-append p w rest c (rw k at h) e) refl
  | inr k ↦ cc
]

skip_spaces-word : (w rest : Bytes) → IsWord w → skip_spaces (w ++ rest) ≡ w ++ rest
unfolding skip_spaces all_of
skip_spaces-word [] rest (n, h) = cc
skip_spaces-word (c ∷ w) rest (n, h) = ground arith

-- One space in front is skipped.
pub get_word-word :
    (old w rest : Bytes) (c : ℕ)
    → IsWord w
    → is_space c ≡ true
    → get_word old (some (w ++ c ∷ rest)) ≡ (w, some (c ∷ rest))
unfolding get_word
get_word-word old w rest c h e =
    rw
      (
        skip_spaces-word w (c ∷ rest) h,
        span-append (λ d. not (is_space d)) w rest c h.1 (rw e refl),
        h.0,
      )
      refl

pub get_word-space :
    (old rest : Bytes) (c : ℕ)
    → is_space c ≡ true
    → get_word old (some (c ∷ rest)) ≡ get_word old (some rest)
unfolding get_word skip_spaces
get_word-space old rest c e = rw e refl

get_unsigned-space :
    (bits old c : ℕ) (rest : Bytes)
    → is_space c ≡ true
    → get_unsigned bits (some (c ∷ rest)) old ≡ get_unsigned bits (some rest) old
unfolding get_unsigned skip_spaces
get_unsigned-space bits old c rest e = rw e refl

pub get_u64-space :
    (rest : Bytes) (old c : ℕ)
    → is_space c ≡ true
    → get_u64 (some (c ∷ rest)) old ≡ get_u64 (some rest) old
unfolding get_u64
get_u64-space rest old c e = get_unsigned-space 64 old c rest e

pub get_u32-space :
    (rest : Bytes) (old c : ℕ)
    → is_space c ≡ true
    → get_u32 (some (c ∷ rest)) old ≡ get_u32 (some rest) old
unfolding get_u32
get_u32-space rest old c e = get_unsigned-space 32 old c rest e

pub digits-skip :
    (w rest : Bytes)
    → null w ≡ false
    → all_of is_digit w ≡ true
    → skip_spaces (w ++ rest) ≡ w ++ rest
unfolding skip_spaces all_of
digits-skip [] rest n h = cc
digits-skip (c ∷ w) rest n h = ground arith

pub digits-sign :
    (w rest : Bytes)
    → null w ≡ false
    → all_of is_digit w ≡ true
    → sign (w ++ rest) ≡ (false, w ++ rest)
unfolding sign all_of
digits-sign [] rest n h = cc
digits-sign (c ∷ w) rest n h = ground arith

get_unsigned-decimal :
    (bits n old c : ℕ) (rest : Bytes)
    → n < 2 ^ 64
    → n < 2 ^ bits
    → is_digit c ≡ false
    → get_unsigned bits (some (decimal n ++ c ∷ rest)) old ≡ (n, some (c ∷ rest))
unfolding get_unsigned
get_unsigned-decimal bits n old c rest h k e =
    rw
      (
        digits-skip (decimal n) (c ∷ rest) (decimal-null n) (decimal-all_of n),
        digits-sign (decimal n) (c ∷ rest) (decimal-null n) (decimal-all_of n),
        span-append is_digit (decimal n) rest c (decimal-all_of n) e,
        decimal-null n,
        digits_value-decimal n h,
        not_ltb (2 ^ bits - 1) n (omega arith),
      )
      refl

pub get_u64-decimal :
    (n old c : ℕ) (rest : Bytes)
    → n < 2 ^ 64
    → is_digit c ≡ false
    → get_u64 (some (decimal n ++ c ∷ rest)) old ≡ (n, some (c ∷ rest))
unfolding get_u64
get_u64-decimal n old c rest h e = get_unsigned-decimal 64 n old c rest h h e

pub get_u32-decimal :
    (n old c : ℕ) (rest : Bytes)
    → n < 2 ^ 32
    → is_digit c ≡ false
    → get_u32 (some (decimal n ++ c ∷ rest)) old ≡ (n, some (c ∷ rest))
unfolding get_u32
get_u32-decimal n old c rest h e = get_unsigned-decimal 32 n old c rest (omega arith) h e
