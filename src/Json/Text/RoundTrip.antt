-- ===== src/Json/Text/RoundTrip.antt =====
-- Reading a written string of mcp/json.c gives the string, whatever stands behind it.
use mathlib.Core.List.{append_assoc}
use mathlib.Core.Bool.{false≢true}
use asterism_asper.Base.{
  ℕ, zero, suc, ◌+◌, ◌≤◌, ◌≡◌, refl, sym, ap, ◌∙◌, true, false, List, [], ◌∷◌, ◌++◌, some, ◌==◌,
  length-append, length, drop, arith, inl, inr, IsBytes,
}
use asterism_asper.Json.Text.{
  quote, utf8_seq, valid_loop, utf8_valid, string_loop, p_string_raw, w_char, w_chars, w_string,
}
use asterism_asper.Json.Text.Laws.{
  prepend, string_loop-w_char, string_loop-two, string_loop-three, string_loop-four, seq-lt, seq-le,
  seq_one, five_cases,
}

w_chars-cons : (c : ℕ) (s t : List ℕ) → w_chars (c ∷ s) ++ t ≡ w_char c ++ (w_chars s ++ t)
unfolding w_chars
w_chars-cons c s t = append_assoc (w_char c) (w_chars s) t

valid_rest :
    (k c n : ℕ) (s : List ℕ)
    → utf8_seq (c ∷ s) ≡ suc n
    → valid_loop (suc k) (c ∷ s) ≡ true
    → valid_loop k (drop n s) ≡ true
unfolding valid_loop
valid_rest k c n s e v =
    let there : (suc n == 0) ≡ false = ground arith in sym (rw (valid_loop, e, there) refl) ∙ v

not_valid : (k c : ℕ) (s : List ℕ) → utf8_seq (c ∷ s) ≡ 0 → valid_loop (suc k) (c ∷ s) ≡ false
unfolding valid_loop
not_valid k c s e = rw (valid_loop, e) refl

not_valid_zero : (c : ℕ) (s : List ℕ) → valid_loop 0 (c ∷ s) ≡ false
unfolding valid_loop
not_valid_zero c s = ground arith

-- The rest is read, so that a sequence before it is read as well.
module _ (k r : ℕ) (rest : List ℕ)
    (ih : (u : List ℕ)
      → IsBytes u
      → valid_loop k u ≡ true
      → length u ≤ r
      → string_loop (suc r) (w_chars u ++ (quote ∷ rest)) ≡ some (u, rest)) where
  abbrev tail : List ℕ → List ℕ
  tail s = w_chars s ++ (quote ∷ rest)

  abbrev IsRead : List ℕ → Type 0
  IsRead s = string_loop (suc (suc r)) (tail s) ≡ some (s, rest)

  IsRead-one :
      (c : ℕ) (s : List ℕ)
      → IsBytes (c ∷ s)
      → utf8_seq (c ∷ s) ≡ 1
      → valid_loop k s ≡ true
      → length s ≤ r
      → IsRead (c ∷ s)
  IsRead-one c s (b, bs) e v h =
      ap (λ t. string_loop (suc (suc r)) t) (w_chars-cons c s (quote ∷ rest))
      ∙ string_loop-w_char (suc r) c (tail s) (seq_one c s e)
      ∙ ap (λ o. prepend (c ∷ []) o) (ih s bs v h)

  IsRead-two :
      (c : ℕ) (s : List ℕ)
      → IsBytes (c ∷ s)
      → utf8_seq (c ∷ s) ≡ 2
      → valid_loop k (drop 1 s) ≡ true
      → length s ≤ r
      → IsRead (c ∷ s)
  IsRead-two c [] b e v h = absurd (omega (arith, e, seq-le c []))
  IsRead-two c (a ∷ s) (b, (x, bs)) e v h =
      ap (λ t. string_loop (suc (suc r)) t)
        (w_chars-cons c (a ∷ s) (quote ∷ rest)
          ∙ ap (λ t. w_char c ++ t) (w_chars-cons a s (quote ∷ rest)))
      ∙ string_loop-two (suc r) c a s (tail s) x e
      ∙ ap (λ o. prepend (c ∷ a ∷ []) o) (ih s bs v (omega arith))

  IsRead-three :
      (c : ℕ) (s : List ℕ)
      → IsBytes (c ∷ s)
      → utf8_seq (c ∷ s) ≡ 3
      → valid_loop k (drop 2 s) ≡ true
      → length s ≤ r
      → IsRead (c ∷ s)
  IsRead-three c [] b e v h = absurd (omega (arith, e, seq-le c []))
  IsRead-three c (a ∷ []) b e v h = absurd (omega (arith, e, seq-le c (a ∷ [])))
  IsRead-three c (a ∷ d ∷ s) (b, (x, (y, bs))) e v h =
      ap (λ t. string_loop (suc (suc r)) t)
        (w_chars-cons c (a ∷ d ∷ s) (quote ∷ rest)
          ∙ ap (λ t. w_char c ++ t)
              (w_chars-cons a (d ∷ s) (quote ∷ rest)
                ∙ ap (λ t. w_char a ++ t) (w_chars-cons d s (quote ∷ rest))))
      ∙ string_loop-three (suc r) c a d s (tail s) x y e
      ∙ ap (λ o. prepend (c ∷ a ∷ d ∷ []) o) (ih s bs v (omega arith))

  IsRead-four :
      (c : ℕ) (s : List ℕ)
      → IsBytes (c ∷ s)
      → utf8_seq (c ∷ s) ≡ 4
      → valid_loop k (drop 3 s) ≡ true
      → length s ≤ r
      → IsRead (c ∷ s)
  IsRead-four c [] b e v h = absurd (omega (arith, e, seq-le c []))
  IsRead-four c (a ∷ []) b e v h = absurd (omega (arith, e, seq-le c (a ∷ [])))
  IsRead-four c (a ∷ d ∷ []) b e v h = absurd (omega (arith, e, seq-le c (a ∷ d ∷ [])))
  IsRead-four c (a ∷ d ∷ f ∷ s) (b, (x, (y, (z, bs)))) e v h =
      ap (λ t. string_loop (suc (suc r)) t)
        (w_chars-cons c (a ∷ d ∷ f ∷ s) (quote ∷ rest)
          ∙ ap (λ t. w_char c ++ t)
              (w_chars-cons a (d ∷ f ∷ s) (quote ∷ rest)
                ∙ ap (λ t. w_char a ++ t)
                    (w_chars-cons d (f ∷ s) (quote ∷ rest)
                      ∙ ap (λ t. w_char d ++ t) (w_chars-cons f s (quote ∷ rest)))))
      ∙ string_loop-four (suc r) c a d f s (tail s) x y z e
      ∙ ap (λ o. prepend (c ∷ a ∷ d ∷ f ∷ []) o) (ih s bs v (omega arith))

string_loop-w_chars :
    (k r : ℕ) (s rest : List ℕ)
    → IsBytes s
    → valid_loop k s ≡ true
    → length s ≤ r
    → string_loop (suc r) (w_chars s ++ (quote ∷ rest)) ≡ some (s, rest)
unfolding string_loop w_chars
string_loop-w_chars k r [] rest b v h = refl
string_loop-w_chars zero r (c ∷ s) rest b v h = absurd (false≢true (sym (not_valid_zero c s) ∙ v))
string_loop-w_chars (suc k) zero (c ∷ s) rest b v h = absurd (omega arith)
string_loop-w_chars (suc k) (suc r) (c ∷ s) rest b v h =
    let ih : (u : List ℕ)
        → IsBytes u
        → valid_loop k u ≡ true
        → length u ≤ r
        → string_loop (suc r) (w_chars u ++ (quote ∷ rest)) ≡ some (u, rest) =
      λ u w x y. string_loop-w_chars k r u rest w x y in
    let more : length s ≤ r = omega arith in
    elim (five_cases (utf8_seq (c ∷ s)) (seq-lt c s)) [
      | inl e ↦ absurd (false≢true (sym (not_valid k c s e) ∙ v))
      | inr (inl e) ↦ IsRead-one k r rest ih c s b e (valid_rest k c 0 s e v) more
      | inr (inr (inl e)) ↦ IsRead-two k r rest ih c s b e (valid_rest k c 1 s e v) more
      | inr (inr (inr (inl e))) ↦ IsRead-three k r rest ih c s b e (valid_rest k c 2 s e v) more
      | inr (inr (inr (inr e))) ↦ IsRead-four k r rest ih c s b e (valid_rest k c 3 s e v) more
    ]

length-w_chars : (s : List ℕ) → length s ≤ length (w_chars s)
unfolding w_chars
length-w_chars [] = omega arith
length-w_chars (c ∷ s) =
    let one : 1 ≤ length (w_char c) = ground arith in
    omega (arith, one, length-append (w_char c) (w_chars s), length-w_chars s)

-- A string of bytes that are valid UTF-8 is written so that it is read back whole, whatever bytes
-- stand behind it, and the text behind it is left.
pub p_string_raw-w_string :
    (s rest : List ℕ)
    → IsBytes s
    → utf8_valid s ≡ true
    → p_string_raw (drop 1 (w_string s ++ rest)) ≡ some (s, rest)
unfolding p_string_raw w_string utf8_valid
p_string_raw-w_string s rest b v =
    let left : List ℕ = w_chars s ++ (quote ∷ rest) in
    let size : length left ≡ suc (length (w_chars s) + length rest) =
      omega (arith, length-append (w_chars s) (quote ∷ rest)) in
    ap (λ t. string_loop (length t) t) (append_assoc (w_chars s) (quote ∷ []) rest)
    ∙ ap (λ n. string_loop n left) size
    ∙ string_loop-w_chars (length s) (length (w_chars s) + length rest) s rest b v
        (omega (arith, length-w_chars s))
