-- ===== src/RecordStrings.antt =====
-- The escapes of src/record_strings.c around the strings of a record file.
pub mod Escapes
use asterism_asper.Base.{
  ℕ, zero, suc, ◌+◌, ◌-◌, ◌*◌, Bool, true, false, ◌&&◌, ◌||◌, List, [], ◌∷◌, ◌++◌, Option, none,
  some, ltb, leb, ◌==◌, if◌then◌else◌, length, drop, in_range, char_at,
}
use asterism_asper.Base.Text.{until_zero}
use asterism_asper.Util.Utf8.{utf8_put}

-- The bytes `\`, newline, carriage return, tab, backspace, form feed, quote, `/`, and the letters
-- of the escapes.
abbrev pub backslash : ℕ
backslash = 0x5c

-- The switch of `esc_encode`.
abbrev pub escaped : ℕ → List ℕ
escaped c =
    if c == backslash
    then backslash ∷ backslash ∷ []
    else if c == 0x0a
    then backslash ∷ 0x6e ∷ []
    else if c == 0x0d
    then backslash ∷ 0x72 ∷ []
    else if c == 0x09
    then backslash ∷ 0x74 ∷ []
    else c ∷ []

pub escape_all : List ℕ → List ℕ
escape_all [] = []
escape_all (c ∷ s) = escaped c ++ escape_all s

-- `strchr(s, '\\') != NULL`.
pub has_backslash : List ℕ → Bool
has_backslash [] = false
has_backslash (c ∷ s) = (c == backslash) || has_backslash s

pub esc_encode : List ℕ → List ℕ
esc_encode s = if has_backslash s then escape_all s else s

-- The value of a hexadecimal digit, in either case.
abbrev pub hex_digit : ℕ → Option ℕ
hex_digit c =
    if in_range 0x30 0x39 c
    then some (c - 0x30)
    else if in_range 0x61 0x66 c
    then some (c - 0x61 + 10)
    else if in_range 0x41 0x46 c
    then some (c - 0x41 + 10)
    else none

pub hex_digits : ℕ → List ℕ → ℕ → Option ℕ
hex_digits zero p v = some v
hex_digits (suc n) p v = elim (hex_digit (char_at p 0)) [
  | none ↦ none
  | some d ↦ hex_digits n (drop 1 p) (v * 16 + d)
]

abbrev pub hex4 : List ℕ → Option ℕ
hex4 p = hex_digits 4 p 0

-- A high surrogate that its low half follows, and the code point of the two. `p` starts at the
-- backslash.
abbrev pub surrogate_pair : List ℕ → ℕ → Option ℕ
surrogate_pair p cp =
    if in_range 0xd800 0xdbff cp
      && leb 12 (length p)
      && (char_at p 6 == backslash)
      && (char_at p 7 == 0x75)
    then elim (hex4 (drop 8 p)) [
      | none ↦ none
      | some lo ↦
          if in_range 0xdc00 0xdfff lo
          then some (0x10000 + (cp - 0xd800) * 1024 + (lo - 0xdc00))
          else none
    ]
    else none

-- The case `u`: the bytes written and the text left.
pub unicode_escape : List ℕ → List ℕ × List ℕ
unicode_escape p =
    let raw : List ℕ × List ℕ = (char_at p 0 ∷ [], drop 1 p) in
    elim (if leb 6 (length p) then hex4 (drop 2 p) else none) [
      | none ↦ raw
      | some cp ↦ elim (surrogate_pair p cp) [
        | some full ↦ (utf8_put full, drop 12 p)
        | none ↦ (utf8_put cp, drop 6 p)
      ]
    ]

-- The byte that a two-byte escape stands for.
abbrev pub simple_escape : ℕ → Option ℕ
simple_escape e =
    if (e == backslash) || (e == 0x22) || (e == 0x2f)
    then some e
    else if e == 0x6e
    then some 0x0a
    else if e == 0x72
    then some 0x0d
    else if e == 0x74
    then some 0x09
    else if e == 0x62
    then some 0x08
    else if e == 0x66
    then some 0x0c
    else none

-- One round of the loop of `esc_decode` at the text `c ∷ s`: the bytes written and the text left.
pub decode_round : ℕ → List ℕ → List ℕ × List ℕ
decode_round c [] = (c ∷ [], [])
decode_round c (e ∷ s) =
    if c == backslash
    then elim (simple_escape e) [
      | some b ↦ (b ∷ [], s)
      | none ↦ if e == 0x75 then unicode_escape (c ∷ e ∷ s) else (c ∷ [], e ∷ s)
    ]
    else (c ∷ [], e ∷ s)

-- The loop. Every round takes a byte at least.
pub decode_loop : ℕ → List ℕ → List ℕ
decode_loop zero s = []
decode_loop (suc rounds) [] = []
decode_loop (suc rounds) (c ∷ s) =
    let (out, rest) = decode_round c s in out ++ decode_loop rounds rest

pub esc_decode : List ℕ → List ℕ
esc_decode s = until_zero (decode_loop (length s) s)

-- Whether a control character shows that the text is raw.
pub has_control : List ℕ → Bool
has_control [] = false
has_control (c ∷ s) = ltb c 0x20 || has_control s

pub record_unescape : List ℕ → List ℕ
record_unescape s = if has_control s then s else esc_decode s
