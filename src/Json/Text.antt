-- ===== src/Json/Text.antt =====
-- UTF-8 and the strings of mcp/json.c. A position in a text is the list of the bytes left.
pub mod Laws
pub mod RoundTrip
use asterism_asper.Base.{
  ℕ, zero, suc, ◌+◌, ◌-◌, ◌*◌, ◌/◌, ◌%◌, Bool, true, false, not, ◌&&◌, ◌||◌, List, [], ◌∷◌, ◌++◌,
  Option, none, some, ltb, leb, ◌==◌, if◌then◌else◌, length, take, drop, in_range, char_at, bit_and,
  bit_or, ◌<<◌, ◌>>>◌, u8,
}
use asterism_asper.Base.Maybe.{◌>>=◌, ◌>>◌, require}

abbrev pub quote : ℕ
quote = 0x22

abbrev pub backslash : ℕ
backslash = 0x5c

-- `(c & 0xC0) == 0x80`.
abbrev pub continues : ℕ → Bool
continues c = bit_and c 0xc0 == 0x80

-- The length of the sequence at the start of `p`, and 0 where it is not well formed.
unfoldable pub utf8_seq : List ℕ → ℕ
utf8_seq p =
    let c = char_at p 0 in
    let avail = length p in
    if ltb c 0x80
    then 1
    else if ltb c 0xc2
    then 0
    else if ltb c 0xe0
    then (if ltb avail 2 || not (continues (char_at p 1)) then 0 else 2)
    else if ltb c 0xf0
    then (if ltb avail 3
          || not (continues (char_at p 1))
          || not (continues (char_at p 2))
          || ((c == 0xe0) && ltb (char_at p 1) 0xa0)
          || ((c == 0xed) && ltb 0x9f (char_at p 1))
        then 0
        else 3)
    else if ltb c 0xf5
    then (if ltb avail 4
          || not (continues (char_at p 1))
          || not (continues (char_at p 2))
          || not (continues (char_at p 3))
          || ((c == 0xf0) && ltb (char_at p 1) 0x90)
          || ((c == 0xf4) && ltb 0x8f (char_at p 1))
        then 0
        else 4)
    else 0

-- The loop of `utf8_valid`. Every round takes a byte at least, or stops.
unfoldable pub valid_loop : ℕ → List ℕ → Bool
valid_loop zero s = length s == 0
valid_loop (suc rounds) [] = true
valid_loop (suc rounds) (c ∷ s) =
    let n = utf8_seq (c ∷ s) in not (n == 0) && valid_loop rounds (drop n (c ∷ s))

unfoldable pub utf8_valid : List ℕ → Bool
utf8_valid s = valid_loop (length s) s

unfoldable pub utf8_encode : ℕ → List ℕ
utf8_encode cp =
    if ltb cp 0x80
    then u8 cp ∷ []
    else if ltb cp 0x800
    then u8 (bit_or 0xc0 (cp >>> 6)) ∷ u8 (bit_or 0x80 (bit_and cp 0x3f)) ∷ []
    else if ltb cp 0x10000
    then u8 (bit_or 0xe0 (cp >>> 12))
      ∷ u8 (bit_or 0x80 (bit_and (cp >>> 6) 0x3f))
      ∷ u8 (bit_or 0x80 (bit_and cp 0x3f))
      ∷ []
    else u8 (bit_or 0xf0 (cp >>> 18))
      ∷ u8 (bit_or 0x80 (bit_and (cp >>> 12) 0x3f))
      ∷ u8 (bit_or 0x80 (bit_and (cp >>> 6) 0x3f))
      ∷ u8 (bit_or 0x80 (bit_and cp 0x3f))
      ∷ []

abbrev pub hex_digit : ℕ → Option ℕ
hex_digit c =
    if in_range 0x30 0x39 c
    then some (c - 0x30)
    else if in_range 0x61 0x66 c
    then some (c - 0x61 + 10)
    else if in_range 0x41 0x46 c
    then some (c - 0x41 + 10)
    else none

-- `v <<= 4; v |= d;` for the next digit.
abbrev pub hex_step : ℕ → ℕ → Option ℕ
hex_step v c = do d ← hex_digit c; some (bit_or (v << 4) d)

unfoldable pub hex_value : ℕ → ℕ → ℕ → ℕ → Option ℕ
hex_value a b c d = do v ← hex_step 0 a; w ← hex_step v b; x ← hex_step w c; hex_step x d

-- The value of four digits and the text after them.
unfoldable pub p_hex4 : List ℕ → Option (ℕ × List ℕ)
p_hex4 p = do
  _ ← require (leb 4 (length p))
  v ← hex_value (char_at p 0) (char_at p 1) (char_at p 2) (char_at p 3)
  some (v, drop 4 p)

-- The low half behind a high surrogate, and the code point of both.
unfoldable pub low_half : ℕ → List ℕ → Option (ℕ × List ℕ)
low_half cp p = do
  _ ← require (leb 2 (length p) && (char_at p 0 == backslash) && (char_at p 1 == 0x75))
  (lo, rest) ← p_hex4 (drop 2 p)
  _ ← require (in_range 0xdc00 0xdfff lo)
  some (0x10000 + (cp - 0xd800) * 1024 + (lo - 0xdc00), rest)

-- The escape `u`: the bytes written and the text left.
unfoldable pub unicode_escape : List ℕ → Option (List ℕ × List ℕ)
unicode_escape p = do
  (cp, rest) ← p_hex4 p
  _ ← require (not (in_range 0xdc00 0xdfff cp))
  (full, rest') ← if in_range 0xd800 0xdbff cp then low_half cp rest else some (cp, rest)
  some (utf8_encode full, rest')

-- The byte that an escape of one letter writes.
abbrev pub simple_escape : ℕ → Option ℕ
simple_escape e =
    if (e == quote) || (e == backslash) || (e == 0x2f)
    then some e
    else if e == 0x62
    then some 0x08
    else if e == 0x66
    then some 0x0c
    else if e == 0x6e
    then some 0x0a
    else if e == 0x72
    then some 0x0d
    else if e == 0x74
    then some 0x09
    else none

unfoldable pub escape_round : List ℕ → Option (List ℕ × List ℕ)
escape_round [] = none
escape_round (e ∷ p) = elim (simple_escape e) [
  | some b ↦ some (b ∷ [], p)
  | none ↦ if e == 0x75 then unicode_escape p else none
]

-- One round of the loop of `p_string_raw` at a byte that is not the closing quote.
unfoldable pub string_round : ℕ → List ℕ → Option (List ℕ × List ℕ)
string_round c p =
    if c == backslash
    then escape_round p
    else if ltb c 0x20
    then none
    else let n = utf8_seq (c ∷ p) in if n == 0 then none else some (take n (c ∷ p), drop n (c ∷ p))

unfoldable pub string_loop : ℕ → List ℕ → Option (List ℕ × List ℕ)
string_loop zero p = none
string_loop (suc rounds) [] = none
string_loop (suc rounds) (c ∷ p) = elim (c == quote) [
  | true ↦ some ([], p)
  | false ↦ do
    (out, left) ← string_round c p
    (more, rest) ← string_loop rounds left
    some (out ++ more, rest)
]

-- `p_string_raw` behind its opening quote. Every round takes a byte at least.
unfoldable pub p_string_raw : List ℕ → Option (List ℕ × List ℕ)
p_string_raw p = string_loop (length p) p

-- A digit of `%04x`.
abbrev pub hex_char : ℕ → ℕ
hex_char n = if ltb n 10 then 0x30 + n else 0x61 + (n - 10)

-- The switch of `w_string`.
abbrev pub w_char : ℕ → List ℕ
w_char c =
    if c == quote
    then backslash ∷ quote ∷ []
    else if c == backslash
    then backslash ∷ backslash ∷ []
    else if c == 0x08
    then backslash ∷ 0x62 ∷ []
    else if c == 0x0c
    then backslash ∷ 0x66 ∷ []
    else if c == 0x0a
    then backslash ∷ 0x6e ∷ []
    else if c == 0x0d
    then backslash ∷ 0x72 ∷ []
    else if c == 0x09
    then backslash ∷ 0x74 ∷ []
    else if ltb c 0x20
    then backslash ∷ 0x75 ∷ 0x30 ∷ 0x30 ∷ hex_char (c / 16) ∷ hex_char (c % 16) ∷ []
    else c ∷ []

unfoldable pub w_chars : List ℕ → List ℕ
w_chars [] = []
w_chars (c ∷ s) = w_char c ++ w_chars s

unfoldable pub w_string : List ℕ → List ℕ
w_string s = quote ∷ (w_chars s ++ quote ∷ [])
