-- ===== src/Json/Text/Laws.antt =====
-- What `w_string` writes, `p_string_raw` reads back.
use asterism_asper.Base.{
  ℕ, suc, ◌/◌, ◌%◌, ◌≤◌, ◌<◌, ◌≡◌, refl, Bool, true, false, not, ◌||◌, List, [], ◌∷◌, ◌++◌, Option,
  none, some, ltb, leb, ◌==◌, ◌⊎◌, length, take, drop, arith, Bool-cases, inl, inr, in_range,
  all_below, all_below_sound, u8, ltb→lt, lt→ltb, IsByte,
}
use asterism_asper.Json.Text.{
  quote, backslash, continues, utf8_seq, utf8_encode, hex_value, p_hex4, unicode_escape,
  escape_round, string_round, string_loop, hex_char, w_char,
}
use asterism_asper.Base.Maybe.{◌>>=◌}

-- `%04x` of a control character, read back.
abbrev hex_test : ℕ → Bool
hex_test c = elim (hex_value 0x30 0x30 (hex_char (c / 16)) (hex_char (c % 16))) [
  | none ↦ false
  | some v ↦ v == c
]

hex_tests : all_below 32 hex_test ≡ true
unfolding all_below hex_value
hex_tests = refl

test_value : (o : Option ℕ) (c : ℕ) → elim o [ none ↦ false | some v ↦ v == c ] ≡ true → o ≡ some c
test_value none c e = cc
test_value (some v) c e = ground (arith, e)

hex_value-hex_char :
    (c : ℕ) → c < 32 → hex_value 0x30 0x30 (hex_char (c / 16)) (hex_char (c % 16)) ≡ some c
hex_value-hex_char c h = test_value _ c (all_below_sound 32 hex_test c hex_tests h)

p_hex4-control :
    (c : ℕ) (t : List ℕ)
    → c < 32
    → p_hex4 (0x30 ∷ 0x30 ∷ hex_char (c / 16) ∷ hex_char (c % 16) ∷ t) ≡ some (c, t)
unfolding p_hex4
p_hex4-control c t h =
    let enough : leb 4 (length (0x30 ∷ 0x30 ∷ hex_char (c / 16) ∷ hex_char (c % 16) ∷ t)) ≡ true =
      ground arith in
    rw (p_hex4, enough, hex_value-hex_char c h) refl

unicode_escape-control :
    (c : ℕ) (t : List ℕ)
    → c < 32
    → unicode_escape (0x30 ∷ 0x30 ∷ hex_char (c / 16) ∷ hex_char (c % 16) ∷ t) ≡ some (c ∷ [], t)
unfolding unicode_escape utf8_encode
unicode_escape-control c t h =
    let low : in_range 0xdc00 0xdfff c ≡ false = ground arith in
    let high : in_range 0xd800 0xdbff c ≡ false = ground arith in
    let short : ltb c 0x80 ≡ true = ground arith in
    let same : u8 c ≡ c = omega arith in
    rw (unicode_escape, p_hex4-control c t h, low, high, utf8_encode, short, same) refl

-- What comes of the rest, behind the bytes of a round.
abbrev pub prepend : List ℕ → Option (List ℕ × List ℕ) → Option (List ℕ × List ℕ)
prepend out o = o >>= λ (more, rest). some (out ++ more, rest)

string_loop-round :
    (r c : ℕ) (p out left : List ℕ)
    → (c == quote) ≡ false
    → string_round c p ≡ some (out, left)
    → string_loop (suc r) (c ∷ p) ≡ prepend out (string_loop r left)
unfolding string_loop
string_loop-round r c p out left e k = rw (string_loop, e, k) refl

is_byte : (c d : ℕ) → (c == d) ≡ true → c ≡ d
is_byte c d e = ground arith

string_round-plain :
    (c : ℕ) (t : List ℕ)
    → (c == backslash) ≡ false
    → ltb c 0x20 ≡ false
    → ltb c 0x80 ≡ true
    → string_round c t ≡ some (c ∷ [], t)
unfolding string_round utf8_seq
string_round-plain c t e k h = rw (string_round, e, k, utf8_seq, h) refl

-- A byte that the writer escapes, or writes as it is.
pub string_loop-w_char :
    (r c : ℕ) (t : List ℕ)
    → c < 0x80
    → string_loop (suc r) (w_char c ++ t) ≡ prepend (c ∷ []) (string_loop r t)
unfolding string_loop string_round escape_round utf8_seq
string_loop-w_char r c t h = elim (Bool-cases (c == quote)) [
  | inl q ↦ rw (is_byte c quote q) refl
  | inr n₁ ↦ elim (Bool-cases (c == backslash)) [
    | inl q ↦ rw (is_byte c backslash q) refl
    | inr n₂ ↦ elim (Bool-cases (c == 0x08)) [
      | inl q ↦ rw (is_byte c 0x08 q) refl
      | inr n₃ ↦ elim (Bool-cases (c == 0x0c)) [
        | inl q ↦ rw (is_byte c 0x0c q) refl
        | inr n₄ ↦ elim (Bool-cases (c == 0x0a)) [
          | inl q ↦ rw (is_byte c 0x0a q) refl
          | inr n₅ ↦ elim (Bool-cases (c == 0x0d)) [
            | inl q ↦ rw (is_byte c 0x0d q) refl
            | inr n₆ ↦ elim (Bool-cases (c == 0x09)) [
              | inl q ↦ rw (is_byte c 0x09 q) refl
              | inr n₇ ↦ elim (Bool-cases (ltb c 0x20)) [
                | inl control ↦
                    rw (n₁, n₂, n₃, n₄, n₅, n₆, n₇, control)
                      (string_loop-round r backslash
                        (0x75 ∷ 0x30 ∷ 0x30 ∷ hex_char (c / 16) ∷ hex_char (c % 16) ∷ t) (c ∷ []) t
                        refl (unicode_escape-control c t (ltb→lt c 32 control)))
                | inr plain ↦
                    rw (n₁, n₂, n₃, n₄, n₅, n₆, n₇, plain)
                      (string_loop-round r c t (c ∷ []) t n₁
                        (string_round-plain c t n₂ plain (lt→ltb c 0x80 h)))
              ]
            ]
          ]
        ]
      ]
    ]
  ]
]

seq_two :
    (c a : ℕ) (s t : List ℕ)
    → utf8_seq (c ∷ a ∷ s) ≡ 2
    → (utf8_seq (c ∷ a ∷ t) ≡ 2) × (continues a ≡ true) × (0x80 ≤ c)
unfolding utf8_seq
seq_two c a s t e = (ground (arith, e), ground (arith, e), ground (arith, e))

seq_three :
    (c a b : ℕ) (s t : List ℕ)
    → utf8_seq (c ∷ a ∷ b ∷ s) ≡ 3
    → (utf8_seq (c ∷ a ∷ b ∷ t) ≡ 3) × (continues a ≡ true) × (continues b ≡ true) × (0x80 ≤ c)
unfolding utf8_seq
seq_three c a b s t e = (ground (arith, e), ground (arith, e), ground (arith, e), ground (arith, e))

seq_four :
    (c a b d : ℕ) (s t : List ℕ)
    → utf8_seq (c ∷ a ∷ b ∷ d ∷ s) ≡ 4
    → (utf8_seq (c ∷ a ∷ b ∷ d ∷ t) ≡ 4)
      × (continues a ≡ true)
      × (continues b ≡ true)
      × (continues d ≡ true)
      × (0x80 ≤ c)
unfolding utf8_seq
seq_four c a b d s t e =
    (ground (arith, e), ground (arith, e), ground (arith, e), ground (arith, e), ground (arith, e))

continues_test : all_below 256 (λ a. not (continues a) || leb 0x80 a) ≡ true
unfolding all_below
continues_test = refl

continues-ge : (a : ℕ) → a < 256 → continues a ≡ true → 0x80 ≤ a
continues-ge a h e =
    let either = all_below_sound 256 (λ a. not (continues a) || leb 0x80 a) a continues_test h in
    ground (arith, e, either)

w_char-high : (a : ℕ) → 0x80 ≤ a → w_char a ≡ a ∷ []
w_char-high a h = ground arith

string_round-high :
    (c n : ℕ) (p : List ℕ)
    → 0x80 ≤ c
    → utf8_seq (c ∷ p) ≡ suc n
    → string_round c p ≡ some (take (suc n) (c ∷ p), drop (suc n) (c ∷ p))
unfolding string_round
string_round-high c n p h e =
    let slash : (c == backslash) ≡ false = ground arith in
    let control : ltb c 0x20 ≡ false = ground arith in
    let there : (suc n == 0) ≡ false = ground arith in
    rw (string_round, slash, control, e, there) refl

pub seq-lt : (c : ℕ) (s : List ℕ) → utf8_seq (c ∷ s) < 5
unfolding utf8_seq
seq-lt c s = ground arith

pub seq-le : (c : ℕ) (s : List ℕ) → utf8_seq (c ∷ s) ≤ length (c ∷ s)
unfolding utf8_seq
seq-le c s = ground arith

pub seq_one : (c : ℕ) (s : List ℕ) → utf8_seq (c ∷ s) ≡ 1 → c < 0x80
unfolding utf8_seq
seq_one c s e = ground (arith, e)

pub five_cases : (n : ℕ) → n < 5 → (n ≡ 0) ⊎ (n ≡ 1) ⊎ (n ≡ 2) ⊎ (n ≡ 3) ⊎ (n ≡ 4)
five_cases n h = ground arith

-- A whole sequence of two, three or four bytes is read as the writer wrote it.
pub string_loop-two :
    (r c a : ℕ) (s t : List ℕ)
    → IsByte a
    → utf8_seq (c ∷ a ∷ s) ≡ 2
    → string_loop (suc r) (w_char c ++ (w_char a ++ t)) ≡ prepend (c ∷ a ∷ []) (string_loop r t)
string_loop-two r c a s t b e =
    let (again, follows, high) = seq_two c a s t e in
    let plain : (c == quote) ≡ false = ground arith in
    rw (w_char-high c high, w_char-high a (continues-ge a b follows))
      (string_loop-round r c (a ∷ t) (c ∷ a ∷ []) t plain
        (string_round-high c 1 (a ∷ t) high again))

pub string_loop-three :
    (r c a b : ℕ) (s t : List ℕ)
    → IsByte a
    → IsByte b
    → utf8_seq (c ∷ a ∷ b ∷ s) ≡ 3
    → string_loop (suc r) (w_char c ++ (w_char a ++ (w_char b ++ t)))
      ≡ prepend (c ∷ a ∷ b ∷ []) (string_loop r t)
string_loop-three r c a b s t x y e =
    let (again, one, two, high) = seq_three c a b s t e in
    let plain : (c == quote) ≡ false = ground arith in
    rw
      (
        w_char-high c high,
        w_char-high a (continues-ge a x one),
        w_char-high b (continues-ge b y two),
      )
      (string_loop-round r c (a ∷ b ∷ t) (c ∷ a ∷ b ∷ []) t plain
        (string_round-high c 2 (a ∷ b ∷ t) high again))

pub string_loop-four :
    (r c a b d : ℕ) (s t : List ℕ)
    → IsByte a
    → IsByte b
    → IsByte d
    → utf8_seq (c ∷ a ∷ b ∷ d ∷ s) ≡ 4
    → string_loop (suc r) (w_char c ++ (w_char a ++ (w_char b ++ (w_char d ++ t))))
      ≡ prepend (c ∷ a ∷ b ∷ d ∷ []) (string_loop r t)
string_loop-four r c a b d s t x y z e =
    let (again, one, two, three, high) = seq_four c a b d s t e in
    let plain : (c == quote) ≡ false = ground arith in
    rw
      (
        w_char-high c high,
        w_char-high a (continues-ge a x one),
        w_char-high b (continues-ge b y two),
        w_char-high d (continues-ge d z three),
      )
      (string_loop-round r c (a ∷ b ∷ d ∷ t) (c ∷ a ∷ b ∷ d ∷ []) t plain
        (string_round-high c 3 (a ∷ b ∷ d ∷ t) high again))
