-- ===== src/Common/Text/Laws.antt =====
-- Words and lines that were joined are split again.
use cpp_data_protection_core.Base.{
  ℕ, ◌≡◌, refl, ap, sym, ◌∙◌, arith, Bool, true, false, not, Bool-cases, inl, inr, ◌&&◌, ◌==◌,
  ==_refl, List, [], ◌∷◌, ◌++◌, append_assoc, append-nil, Bytes, null,
}
use cpp_data_protection_core.Common.Hex.{all_of, is_xdigit}
use cpp_data_protection_core.Common.Path.{attach, split_at, contains}
use cpp_data_protection_core.Common.Text.{
  is_space, is_digit, words_from, words, strip_return, getlines, split_lines,
}

-- A word: no character of it is a space, and it has one.
abbrev pub IsWord : Bytes → Type 0
IsWord w = (null w ≡ false) × (all_of (λ c. not (is_space c)) w ≡ true)

words_from-append :
    (w current rest : Bytes)
    → all_of (λ c. not (is_space c)) w ≡ true
    → words_from current (w ++ rest) ≡ words_from (current ++ w) rest
unfolding words_from all_of
words_from-append [] current rest h =
    ap (λ (t : Bytes). words_from t rest) (sym (append-nil current))
words_from-append (c ∷ w) current rest h = elim (Bool-cases (is_space c)) [
  | inl s ↦ cc
  | inr s ↦ rw s (
      words_from-append w (current ++ c ∷ []) rest (ground arith)
      ∙ ap (λ (t : Bytes). words_from t rest) (append_assoc current (c ∷ []) w))
]

-- The first word of a text, and what follows the space behind it.
pub words-word :
    (w rest : Bytes) (c : ℕ) → IsWord w → is_space c ≡ true → words (w ++ c ∷ rest) ≡ w ∷ words rest
unfolding words words_from
words-word w rest c h e = words_from-append w [] (c ∷ rest) h.1 ∙ rw (e, h.0) refl

pub words-skip : (c : ℕ) (rest : Bytes) → is_space c ≡ true → words (c ∷ rest) ≡ words rest
unfolding words words_from
words-skip c rest e = rw e refl

pub words-space : (w rest : Bytes) → IsWord w → words (w ++ b' ' ∷ rest) ≡ w ∷ words rest
words-space w rest h = words-word w rest b' ' h refl

pub words-last : (w : Bytes) → IsWord w → words w ≡ w ∷ []
unfolding words
words-last w h = ap (words_from []) (sym (append-nil w)) ∙ words_from-append w [] [] h.1 ∙ rw h.0

IsCons : List Bytes → Type 0
IsCons ps = (p : Bytes) × (others : List Bytes) × (ps ≡ p ∷ others)

attach-IsCons : (sep c : ℕ) (ps : List Bytes) → IsCons (attach sep c ps)
unfolding attach IsCons
attach-IsCons sep c [] = (_, _, refl)
attach-IsCons sep c (p ∷ ps) = elim (Bool-cases (c == sep)) [
  | inl e ↦ rw e (_, _, refl)
  | inr e ↦ rw e (_, _, refl)
]

split_at-IsCons : (sep : ℕ) (d : Bytes) → IsCons (split_at sep d)
split_at-IsCons sep [] = unfold IsCons split_at in (_, _, refl)
split_at-IsCons sep (c ∷ d) = unfold split_at in attach-IsCons sep c (split_at sep d)

attach-sep : (sep : ℕ) (ps : List Bytes) → IsCons ps → attach sep sep ps ≡ [] ∷ ps
unfolding attach IsCons
attach-sep sep ps h = rw (h.2, ==_refl sep)

pub split_at-append :
    (sep : ℕ) (w rest : Bytes)
    → contains sep w ≡ false
    → split_at sep (w ++ sep ∷ rest) ≡ w ∷ split_at sep rest
unfolding split_at contains
split_at-append sep [] rest h = attach-sep sep (split_at sep rest) (split_at-IsCons sep rest)
split_at-append sep (c ∷ w) rest h =
    ap (attach sep c) (split_at-append sep w rest (ground arith)) ∙ ground arith

pub strip_return-no_return : (w : Bytes) → contains 13 w ≡ false → strip_return w ≡ w
unfolding strip_return contains
strip_return-no_return [] h = refl
strip_return-no_return (c ∷ []) h = ground arith
strip_return-no_return (c ∷ d ∷ rest) h =
    ap (λ (t : Bytes). c ∷ t) (strip_return-no_return (d ∷ rest) (ground arith))

-- A line: it holds no newline and no carriage return.
abbrev pub IsLine : Bytes → Type 0
IsLine w = (contains 10 w ≡ false) × (contains 13 w ≡ false)

getlines-cons :
    (w : Bytes) (ps : List Bytes) (p : Bytes)
    → getlines (w ∷ p ∷ ps) ≡ strip_return w ∷ getlines (p ∷ ps)
unfolding getlines
getlines-cons w ps p = refl

-- A line that ends in a newline is the first of the lines.
pub split_lines-line :
    (w rest : Bytes) → IsLine w → split_lines (w ++ 10 ∷ rest) ≡ w ∷ split_lines rest
unfolding split_lines IsCons
split_lines-line w rest h =
    let (p, ps, e) = split_at-IsCons 10 rest in
    ap getlines (split_at-append 10 w rest h.0)
    ∙ rw e (
        getlines-cons w ps p
        ∙ ap (λ (t : Bytes). t ∷ getlines (p ∷ ps)) (strip_return-no_return w h.1))

pub split_lines-nil : split_lines [] ≡ []
unfolding split_lines
split_lines-nil = refl

pub all_of_mono :
    (p q : ℕ → Bool) (w : Bytes)
    → ((c : ℕ) → p c ≡ true → q c ≡ true)
    → all_of p w ≡ true
    → all_of q w ≡ true
unfolding all_of
all_of_mono p q [] f h = refl
all_of_mono p q (c ∷ w) f h = ground (arith, f c, all_of_mono p q w f)

pub all_of-append :
    (p : ℕ → Bool) (v w : Bytes) → all_of p v ≡ true → all_of p w ≡ true → all_of p (v ++ w) ≡ true
unfolding all_of
all_of-append p [] w h k = k
all_of-append p (c ∷ v) w h k = ground (arith, all_of-append p v w)

-- Characters that stand in a line.
abbrev pub in_line : ℕ → Bool
in_line c = not (c == 10) && not (c == 13)

pub all_of-IsLine : (w : Bytes) → all_of in_line w ≡ true → IsLine w
unfolding all_of contains
all_of-IsLine [] h = (refl, refl)
all_of-IsLine (c ∷ w) h = ground (arith, all_of-IsLine w)

pub IsWord-in_line : (w : Bytes) → IsWord w → all_of in_line w ≡ true
IsWord-in_line w h = all_of_mono _ in_line w (λ c e. ground arith) h.1

pub xdigits-IsWord : (w : Bytes) → null w ≡ false → all_of is_xdigit w ≡ true → IsWord w
xdigits-IsWord w n h = (n, all_of_mono is_xdigit _ w (λ c e. ground arith) h)

pub digits-IsWord : (w : Bytes) → null w ≡ false → all_of is_digit w ≡ true → IsWord w
digits-IsWord w n h = (n, all_of_mono is_digit _ w (λ c e. ground arith) h)
