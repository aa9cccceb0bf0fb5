-- ===== src/Client/Payload/Marker.antt =====
-- The lines of a payload: where the marker behind them is found, and what words they hold.
use cpp_data_protection_core.Base.{
  ℕ, ◌-◌, ◌^◌, ◌<◌, ◌≡◌, refl, ap, ◌∙◌, arith, Bool, true, false, Bool-cases, inl, inr, not, ◌==◌,
  not_ltb, some, List, [], ◌∷◌, ◌++◌, append-nil, Bytes, All,
}
use cpp_data_protection_core.Common.Error.{ok}
use cpp_data_protection_core.Common.Hex.{all_of}
use cpp_data_protection_core.Common.Text.{words, is_space, decimal, is_digit}
use cpp_data_protection_core.Common.Text.Laws.{IsWord, words-word, words-last}
use cpp_data_protection_core.Common.Text.Decimal.{
  decimal-all_of, decimal-null, digits_value-decimal,
}
use cpp_data_protection_core.Common.Stream.{span, skip_spaces, sign}
use cpp_data_protection_core.Common.Stream.Laws.{digits-skip, digits-sign}
use cpp_data_protection_core.Server.Fields.{stoull}
use cpp_data_protection_core.Server.Put.{before, search_marker}
use cpp_data_protection_core.Client.Payload.{lines_text}

-- The words of the lines.
unfoldable pub words_of : List (Bytes × Bytes) → List Bytes
words_of [] = []
words_of ((key, value) ∷ fields) = key ∷ value ∷ words_of fields

-- The lines without the newline of the last.
pub joined : Bytes → Bytes → List (Bytes × Bytes) → Bytes
joined key value [] = key ++ (b' ' ∷ value)
joined key value ((k, v) ∷ fields) = key ++ (b' ' ∷ (value ++ (10 ∷ joined k v fields)))

abbrev pub AreWords : Bytes × Bytes → Type 0
AreWords (key, value) = IsWord key × IsWord value

pub words-joined :
    (key value : Bytes) (fields : List (Bytes × Bytes))
    → All AreWords ((key, value) ∷ fields)
    → words (joined key value fields) ≡ key ∷ value ∷ words_of fields
unfolding joined words_of
words-joined key value [] h =
    words-word key value b' ' h.0.0 refl ∙ ap (◌∷◌ key) (words-last value h.0.1)
words-joined key value ((k, v) ∷ fields) h =
    words-word key _ b' ' h.0.0 refl
    ∙ ap (◌∷◌ key) (words-word value _ 10 h.0.1 refl ∙ ap (◌∷◌ value) (words-joined k v fields h.1))

pub search_marker-char :
    (c : ℕ) (rest : Bytes)
    → (c == 10) ≡ false
    → search_marker (c ∷ rest) ≡ before c (search_marker rest)
unfolding search_marker
search_marker-char c [] e = refl
search_marker-char c (d ∷ rest) e = rw e refl

pub search_marker-word :
    (w rest front back : Bytes)
    → all_of (λ c. not (is_space c)) w ≡ true
    → search_marker rest ≡ some (front, back)
    → search_marker (w ++ rest) ≡ some (w ++ front, back)
unfolding all_of
search_marker-word [] rest front back h e = e
search_marker-word (c ∷ w) rest front back h e =
    search_marker-char c (w ++ rest) (ground arith)
    ∙ ap (before c) (search_marker-word w rest front back (ground arith) e)

-- A newline in front of a word is not the marker.
pub search_marker-newline :
    (w rest front back : Bytes)
    → IsWord w
    → search_marker (w ++ rest) ≡ some (front, back)
    → search_marker (10 ∷ (w ++ rest)) ≡ some (10 ∷ front, back)
unfolding search_marker all_of
search_marker-newline [] rest front back (n, h) e = cc
search_marker-newline (c ∷ w) rest front back (n, h) e =
    let other : (c == 10) ≡ false = ground arith in rw other (ap (before 10) e)

pub search_marker-lines :
    (key value : Bytes) (fields : List (Bytes × Bytes)) (rest : Bytes)
    → All AreWords ((key, value) ∷ fields)
    → search_marker (lines_text ((key, value) ∷ fields) (10 ∷ rest))
      ≡ some (joined key value fields, rest)
unfolding lines_text joined
search_marker-lines key value [] rest h = search_marker-word key _ (b' ' ∷ value) rest h.0.0.1 (
    search_marker-char b' ' _ refl
    ∙ ap (before b' ') (
        search_marker-word value (10 ∷ 10 ∷ rest) [] rest h.0.1.1 (unfold search_marker in refl)
        ∙ ap (λ (t : Bytes). some (t, rest)) (append-nil value)))
search_marker-lines key value ((k, v) ∷ fields) rest h =
    search_marker-word key _ (b' ' ∷ (value ++ (10 ∷ joined k v fields))) rest h.0.0.1 (
      search_marker-char b' ' _ refl
      ∙ ap (before b' ') (
          search_marker-word value _ (10 ∷ joined k v fields) rest h.0.1.1 (
            search_marker-newline k _ (joined k v fields) rest h.1.0.0
              (search_marker-lines k v fields rest h.1))))

span-all : (p : ℕ → Bool) (w : Bytes) → all_of p w ≡ true → span p w ≡ (w, [])
unfolding span all_of
span-all p [] h = refl
span-all p (c ∷ w) h = elim (Bool-cases (p c)) [
  | inl e ↦ rw (e, span-all p w (rw e at h)) refl
  | inr e ↦ cc
]

pub stoull-decimal : (n : ℕ) → n < 2 ^ 64 → stoull (decimal n) ≡ ok n
unfolding stoull
stoull-decimal n h =
    let skip : skip_spaces (decimal n) ≡ decimal n =
      rw (append-nil (decimal n)) at
        (digits-skip (decimal n) [] (decimal-null n) (decimal-all_of n)) in
    let signed : sign (decimal n) ≡ (false, decimal n) =
      rw (append-nil (decimal n)) at
        (digits-sign (decimal n) [] (decimal-null n) (decimal-all_of n)) in
    rw
      (
        skip,
        signed,
        span-all is_digit (decimal n) (decimal-all_of n),
        decimal-null n,
        digits_value-decimal n h,
        not_ltb (2 ^ 64 - 1) n (omega arith),
      )
      refl
