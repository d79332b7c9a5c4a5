-- ===== src/Json/Parse.antt =====
-- The parser of mcp/json.c. The position of the parser is the list of the bytes left.
use asterism_asper.Base.{
  ℕ, zero, suc, ◌+◌, ◌-◌, ◌*◌, ◌^◌, Bool, true, false, not, ◌&&◌, ◌||◌, List, [], ◌∷◌, ◌++◌, Option,
  none, some, ltb, leb, ◌==◌, if◌then◌else◌, length, take, drop, in_range, char_at,
}
use asterism_asper.Base.Int.{ℤ, pos, negsuc}
use asterism_asper.Base.Maybe.{◌>>=◌, require}
use asterism_asper.Base.Text.{str_eq, codes, until_zero}
use asterism_asper.Json.Text.{quote, p_string_raw}
use asterism_asper.Json.Value.{Value, Items, Members, Number, items_push, obj_put}

abbrev pub max_depth : ℕ
max_depth = 64

abbrev pub isdig : ℕ → Bool
isdig c = in_range 0x30 0x39 c

unfoldable pub skip_ws : List ℕ → List ℕ
skip_ws [] = []
skip_ws (c ∷ p) =
    let rest = skip_ws p in
    if (c == 0x20) || (c == 0x09) || (c == 0x0a) || (c == 0x0d) then rest else c ∷ p

-- The text behind a literal.
unfoldable pub p_lit : List ℕ → List ℕ → Option (List ℕ)
p_lit lit p =
    if leb (length lit) (length p) && str_eq (take (length lit) p) lit
    then some (drop (length lit) p)
    else none

-- `while (isdig(s[pos])) pos++;`: the digits and the text behind them.
unfoldable pub digit_run : List ℕ → List ℕ × List ℕ
digit_run [] = ([], [])
digit_run (c ∷ p) =
    let (run, rest) = digit_run p in if isdig c then (c ∷ run, rest) else ([], c ∷ p)

abbrev pub number_sign : List ℕ → List ℕ × List ℕ
number_sign p = if char_at p 0 == 0x2d then (0x2d ∷ [], drop 1 p) else ([], p)

-- A zero, or digits.
unfoldable pub number_int : List ℕ → Option (List ℕ × List ℕ)
number_int p =
    if char_at p 0 == 0x30
    then some (0x30 ∷ [], drop 1 p)
    else if isdig (char_at p 0)
    then some (digit_run p)
    else none

unfoldable pub number_frac : List ℕ → Option (List ℕ × List ℕ)
number_frac p =
    let (run, rest) = digit_run (drop 1 p) in
    if char_at p 0 == 0x2e
    then (if isdig (char_at p 1) then some (0x2e ∷ run, rest) else none)
    else some ([], p)

abbrev pub exponent_sign : List ℕ → List ℕ × List ℕ
exponent_sign p =
    if (char_at p 0 == 0x2b) || (char_at p 0 == 0x2d) then (char_at p 0 ∷ [], drop 1 p) else ([], p)

unfoldable pub number_exp : List ℕ → Option (List ℕ × List ℕ)
number_exp p =
    let (sign, digits) = exponent_sign (drop 1 p) in
    let (run, rest) = digit_run digits in
    if (char_at p 0 == 0x65) || (char_at p 0 == 0x45)
    then (if isdig (char_at digits 0) then some (char_at p 0 ∷ (sign ++ run), rest) else none)
    else some ([], p)

-- The number that digits stand for, and `strtoll` of a token without fraction and exponent, `none`
-- being ERANGE.
unfoldable pub decimal : ℕ → List ℕ → ℕ
decimal n [] = n
decimal n (c ∷ s) = decimal (n * 10 + (c - 0x30)) s

abbrev pub negated : ℕ → ℤ
negated zero = pos 0
negated (suc n) = negsuc n

unfoldable pub strtoll : List ℕ → Option ℤ
strtoll tok =
    if char_at tok 0 == 0x2d
    then (if leb (decimal 0 (drop 1 tok)) (2 ^ 63)
        then some (negated (decimal 0 (drop 1 tok)))
        else none)
    else if ltb (decimal 0 tok) (2 ^ 63)
    then some (pos (decimal 0 tok))
    else none

abbrev pub is_zero : ℤ → Bool
is_zero (pos zero) = true
is_zero (pos (suc n)) = false
is_zero (negsuc n) = false

-- The value of a token. `strtod` is `none` where the result is not finite.
unfoldable pub number_value : {D : Type 0} → (List ℕ → Option D) → List ℕ → Bool → Option (Number D)
number_value strtod tok whole = do
  d ← strtod tok
  some (elim (if whole then strtoll tok else none) [
    | none ↦ record { d = d; i = pos 0; is_int = false }
    | some t ↦ record { d = d; i = t; is_int = not (is_zero t && (char_at tok 0 == 0x2d)) }
  ])

-- A number behind its sign.
unfoldable pub p_unsigned :
    {D : Type 0} → (List ℕ → Option D) → List ℕ → List ℕ → Option (Number D × List ℕ)
p_unsigned strtod sign p = do
  (int, p₂) ← number_int p
  (frac, p₃) ← number_frac p₂
  (exp, p₄) ← number_exp p₃
  n ← number_value strtod (sign ++ (int ++ (frac ++ exp))) ((length frac == 0) && (length exp == 0))
  some (n, p₄)

unfoldable pub p_number : {D : Type 0} → (List ℕ → Option D) → List ℕ → Option (Number D × List ℕ)
p_number strtod p = p_unsigned strtod (number_sign p).0 (number_sign p).1

pub data Kind : Type 0 where
  null_word true_word false_word text array object digits other : Kind

-- The switch of `p_value`.
abbrev pub kind_at : ℕ → Kind
kind_at c =
    if c == 0x6e
    then Kind.null_word
    else if c == 0x74
    then Kind.true_word
    else if c == 0x66
    then Kind.false_word
    else if c == quote
    then Kind.text
    else if c == 0x5b
    then Kind.array
    else if c == 0x7b
    then Kind.object
    else if (c == 0x2d) || isdig c
    then Kind.digits
    else Kind.other

-- The parser by `p_value`, `p_array` and `p_object` with their loops. Every second call takes a
-- byte at least.
unfoldable mutual
  pub p_value : {D : Type 0} → (List ℕ → Option D) → ℕ → ℕ → List ℕ → Option (Value D × List ℕ)
  p_value strtod zero depth p = none
  p_value strtod (suc rounds) depth p =
      let q = skip_ws p in
      elim (kind_at (char_at q 0)) [
        | Kind.null_word ↦ do rest ← p_lit (codes "null") q; some (Value.null, rest)
        | Kind.true_word ↦ do rest ← p_lit (codes "true") q; some (Value.boolean true, rest)
        | Kind.false_word ↦ do rest ← p_lit (codes "false") q; some (Value.boolean false, rest)
        | Kind.text ↦ do (s, rest) ← p_string_raw (drop 1 q); some (Value.string s, rest)
        | Kind.array ↦ elim (leb max_depth depth) [
          | true ↦ none
          | false ↦ elim (char_at (skip_ws (drop 1 q)) 0 == 0x5d) [
            | true ↦ some (Value.array Items.nil, drop 1 (skip_ws (drop 1 q)))
            | false ↦ p_items strtod rounds (suc depth) Items.nil (skip_ws (drop 1 q))
          ]
        ]
        | Kind.object ↦ elim (leb max_depth depth) [
          | true ↦ none
          | false ↦ elim (char_at (skip_ws (drop 1 q)) 0 == 0x7d) [
            | true ↦ some (Value.object Members.end, drop 1 (skip_ws (drop 1 q)))
            | false ↦ p_members strtod rounds (suc depth) Members.end (skip_ws (drop 1 q))
          ]
        ]
        | Kind.digits ↦ do (n, rest) ← p_number strtod q; some (Value.number n, rest)
        | Kind.other ↦ none
      ]

  -- The loop of `p_array`.
  pub p_items :
      {D : Type 0} → (List ℕ → Option D) → ℕ → ℕ → Items D → List ℕ → Option (Value D × List ℕ)
  p_items strtod zero depth acc p = none
  p_items strtod (suc rounds) depth acc p = do
    (v, left) ← p_value strtod rounds depth p
    let q = skip_ws left in
        elim (char_at q 0 == 0x2c) [
          | true ↦ p_items strtod rounds depth (items_push acc v) (drop 1 q)
          | false ↦
              if char_at q 0 == 0x5d then some (Value.array (items_push acc v), drop 1 q) else none
        ]

  -- The loop of `p_object`. A key is a C string from here on.
  pub p_members :
      {D : Type 0} → (List ℕ → Option D) → ℕ → ℕ → Members D → List ℕ → Option (Value D × List ℕ)
  p_members strtod zero depth acc p = none
  p_members strtod (suc rounds) depth acc p = do
    _ ← require (char_at (skip_ws p) 0 == quote)
    (key, r) ← p_string_raw (drop 1 (skip_ws p))
    _ ← require (char_at (skip_ws r) 0 == 0x3a)
    (v, left) ← p_value strtod rounds depth (drop 1 (skip_ws r))
    let q = skip_ws left in
        elim (char_at q 0 == 0x2c) [
          | true ↦ p_members strtod rounds depth (obj_put acc (until_zero key) v) (drop 1 q)
          | false ↦
              if char_at q 0 == 0x7d
              then some (Value.object (obj_put acc (until_zero key) v), drop 1 q)
              else none
        ]

-- `jx_parse`: one value and nothing but white space behind it.
unfoldable pub jx_parse : {D : Type 0} → (List ℕ → Option D) → List ℕ → Option (Value D)
jx_parse strtod bytes = do
  (v, rest) ← p_value strtod (length bytes * 2 + 2) 0 bytes
  _ ← require (length (skip_ws rest) == 0)
  some v
