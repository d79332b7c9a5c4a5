-- ===== src/Util/Utf8.antt =====
-- `asper_utf8_count` of src/util.c and the encoder `utf8_put` of src/record_strings.c.
use asterism_asper.Base.{
  ℕ, zero, suc, ◌+◌, Bool, ◌&&◌, ◌||◌, List, [], ◌∷◌, Option, none, some, ltb, leb, ◌==◌,
  if◌then◌else◌, length, drop, ◌-◌, in_range, bit_and, bit_or, ◌<<◌, ◌>>>◌, u8, u32,
}

-- The length that a lead byte announces, and 0 where the byte leads nothing.
unfoldable pub sequence_length : ℕ → ℕ
sequence_length b =
    if ltb b 0x80
    then 1
    else if in_range 0xc2 0xdf b
    then 2
    else if in_range 0xe0 0xef b
    then 3
    else if in_range 0xf0 0xf4 b
    then 4
    else 0

-- The bits of the code point that stand in the lead byte.
unfoldable pub lead_bits : ℕ → ℕ
lead_bits b =
    if ltb b 0x80
    then b
    else if leb b 0xdf
    then bit_and b 0x1f
    else if leb b 0xef
    then bit_and b 0x0f
    else bit_and b 0x07

-- The inner loop: `n` continuation bytes are still wanted. The end of the text is the byte 0, which
-- is none.
unfoldable pub continuation : ℕ → ℕ → List ℕ → Option ℕ
continuation zero cp s = some cp
continuation (suc n) cp [] = none
continuation (suc n) cp (b ∷ s) =
    if bit_and b 0xc0 == 0x80
    then continuation n (bit_or (u32 (cp << 6)) (bit_and b 0x3f)) s
    else none

-- Overlong forms, surrogates and values past the last code point.
unfoldable pub rejected : ℕ → ℕ → Bool
rejected need cp =
    ((need == 3) && ltb cp 0x800)
    || ((need == 4) && ltb cp 0x10000)
    || in_range 0xd800 0xdfff cp
    || ltb 0x10ffff cp

-- One round of the loop at a byte and what follows it: the code point and its length.
unfoldable pub utf8_next : ℕ → List ℕ → Option (ℕ × ℕ)
utf8_next b s =
    let need = sequence_length b in
    if need == 0 then none else elim (continuation (need - 1) (lead_bits b) s) [
      | none ↦ none
      | some cp ↦ if rejected need cp then none else some (cp, need)
    ]

-- The outer loop. Each round takes a byte at least, so the length of the text is enough fuel.
unfoldable pub utf8_loop : ℕ → List ℕ → ℕ → Option ℕ
utf8_loop fuel [] n = some n
utf8_loop zero (b ∷ s) n = none
utf8_loop (suc fuel) (b ∷ s) n = elim (utf8_next b s) [
  | none ↦ none
  | some (cp, need) ↦ utf8_loop fuel (drop (need - 1) s) (n + 1)
]

-- `none` is the result `false`.
unfoldable pub utf8_count : List ℕ → Option ℕ
utf8_count s = utf8_loop (length s) s 0

pub utf8_put : ℕ → List ℕ
utf8_put cp =
    if ltb cp 0x80
    then u8 cp ∷ []
    else if ltb cp 0x800
    then u8 (bit_or 0xc0 (cp >>> 6)) ∷ u8 (bit_or 0x80 (bit_and cp 0x3f)) ∷ []
    else if ltb cp 0x10000
    then u8 (bit_or 0xe0 (cp >>> 12))
      ∷ u8 (bit_or 0x80 (bit_and (cp >>> 6) 0x3f))
      ∷ u8 (bit_or 0x80 (bit_and cp 0x3f))
      ∷ []
    else u8 (bit_or 0xf0 (cp >>> 18))
      ∷ u8 (bit_or 0x80 (bit_and (cp >>> 12) 0x3f))
      ∷ u8 (bit_or 0x80 (bit_and (cp >>> 6) 0x3f))
      ∷ u8 (bit_or 0x80 (bit_and cp 0x3f))
      ∷ []
