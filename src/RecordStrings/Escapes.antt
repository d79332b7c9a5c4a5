-- ===== src/RecordStrings/Escapes.antt =====
-- What `esc_encode` writes, `asper_record_unescape` reads back.
use asterism_asper.Base.{
  ℕ, zero, suc, ◌≤◌, ◌≡◌, refl, ap, ◌∙◌, true, false, List, [], ◌∷◌, ◌++◌, ◌==◌, length-append,
  length, arith, Bool-cases, inl, inr, IsText,
}
use asterism_asper.Base.Text.{until_zero, until_zero_text}
use asterism_asper.RecordStrings.{
  backslash, escaped, escape_all, has_backslash, esc_encode, decode_round, decode_loop, esc_decode,
}

is_byte : (c d : ℕ) → (c == d) ≡ true → c ≡ d
is_byte c d e = ground arith

decode_round-other :
    (c : ℕ) (s : List ℕ) → (c == backslash) ≡ false → decode_round c s ≡ (c ∷ [], s)
unfolding decode_round
decode_round-other c [] e = refl
decode_round-other c (d ∷ s) e = rw e refl

-- Without a backslash every byte stands for itself.
decode_loop-plain :
    (rounds : ℕ) (s : List ℕ)
    → length s ≤ rounds
    → has_backslash s ≡ false
    → decode_loop rounds s ≡ s
unfolding decode_loop has_backslash
decode_loop-plain zero [] h e = refl
decode_loop-plain zero (c ∷ s) h e = absurd (omega arith)
decode_loop-plain (suc rounds) [] h e = refl
decode_loop-plain (suc rounds) (c ∷ s) h e =
    let other : (c == backslash) ≡ false = ground (arith, e) in
    let rest : has_backslash s ≡ false = ground (arith, e) in
    ap (λ p. p.0 ++ decode_loop rounds p.1) (decode_round-other c s other)
    ∙ ap (λ t. c ∷ t) (decode_loop-plain rounds s (omega arith) rest)

-- A byte and its escape, whatever comes behind it.
decode_loop-escaped :
    (rounds c : ℕ) (s : List ℕ)
    → decode_loop (suc rounds) (escaped c ++ s) ≡ c ∷ decode_loop rounds s
unfolding decode_loop decode_round
decode_loop-escaped rounds c s = elim (Bool-cases (c == backslash)) [
  | inl slash ↦ rw (is_byte c backslash slash) refl
  | inr a ↦ elim (Bool-cases (c == 0x0a)) [
    | inl newline ↦ rw (is_byte c 0x0a newline) refl
    | inr b ↦ elim (Bool-cases (c == 0x0d)) [
      | inl ret ↦ rw (is_byte c 0x0d ret) refl
      | inr d ↦ elim (Bool-cases (c == 0x09)) [
        | inl tab ↦ rw (is_byte c 0x09 tab) refl
        | inr e ↦
            rw (a, b, d, e) (ap (λ p. p.0 ++ decode_loop rounds p.1) (decode_round-other c s a))
      ]
    ]
  ]
]

decode_loop-escape_all :
    (rounds : ℕ) (s : List ℕ) → length s ≤ rounds → decode_loop rounds (escape_all s) ≡ s
unfolding escape_all decode_loop
decode_loop-escape_all zero [] h = refl
decode_loop-escape_all zero (c ∷ s) h = absurd (omega arith)
decode_loop-escape_all (suc rounds) [] h = refl
decode_loop-escape_all (suc rounds) (c ∷ s) h =
    decode_loop-escaped rounds c (escape_all s)
    ∙ ap (λ t. c ∷ t) (decode_loop-escape_all rounds s (omega arith))

length-escaped : (c : ℕ) → 1 ≤ length (escaped c)
length-escaped c = ground arith

length-escape_all : (s : List ℕ) → length s ≤ length (escape_all s)
unfolding escape_all
length-escape_all [] = omega arith
length-escape_all (c ∷ s) =
    omega (arith, length-append (escaped c) (escape_all s), length-escaped c, length-escape_all s)

-- Decoding what the escapes made of a text gives the text back.
pub esc_decode-esc_encode : (s : List ℕ) → IsText s → esc_decode (esc_encode s) ≡ s
unfolding esc_decode esc_encode
esc_decode-esc_encode s t = elim (Bool-cases (has_backslash s)) [
  | inl slashed ↦ rw slashed (
      ap (λ r. until_zero r)
        (decode_loop-escape_all (length (escape_all s)) s (length-escape_all s))
      ∙ until_zero_text s t)
  | inr plain ↦ rw plain (
      ap (λ r. until_zero r) (decode_loop-plain (length s) s (omega arith) plain)
      ∙ until_zero_text s t)
]
