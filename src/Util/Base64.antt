-- ===== src/Util/Base64.antt =====
-- The Base64 codec of src/util.c.
pub mod RoundTrip
use asterism_asper.Base.{
  ℕ, ◌+◌, ◌-◌, ◌%◌, Bool, true, false, not, List, [], ◌∷◌, ◌++◌, Option, none, some, ◌==◌,
  if◌then◌else◌, length, take, char_at, in_range, bit_and, bit_or, ◌<<◌, ◌>>>◌, u8, get_or,
}
use asterism_asper.Base.Text.{codes}

abbrev pub b64_alpha : List ℕ
b64_alpha = codes "ABCDEFGHIJKLMNOPQRSTUVWXYZabcdefghijklmnopqrstuvwxyz0123456789+/"

-- `b64_alpha[(v >> k) & 63]`.
pub b64_char : ℕ → ℕ → ℕ
b64_char v k = get_or b64_alpha (bit_and (v >>> k) 63) 0

-- The 24-bit group of three bytes.
pub join_bytes : ℕ → ℕ → ℕ → ℕ
join_bytes a b c = bit_or (bit_or (a << 16) (b << 8)) c

-- `asper_base64_encode`, group by group. The bytes that a last group lacks count as 0.
pub base64_encode : List ℕ → List ℕ
base64_encode [] = []
base64_encode (a ∷ []) = let v = a << 16 in b64_char v 18 ∷ b64_char v 12 ∷ b'=' ∷ b'=' ∷ []
base64_encode (a ∷ b ∷ []) =
    let v = bit_or (a << 16) (b << 8) in b64_char v 18 ∷ b64_char v 12 ∷ b64_char v 6 ∷ b'=' ∷ []
base64_encode (a ∷ b ∷ c ∷ rest) =
    let v = join_bytes a b c in
    b64_char v 18 ∷ b64_char v 12 ∷ b64_char v 6 ∷ b64_char v 0 ∷ base64_encode rest

-- `none` is the result -1.
pub b64_val : ℕ → Option ℕ
b64_val ch =
    if in_range b'A' b'Z' ch
    then some (ch - b'A')
    else if in_range b'a' b'z' ch
    then some (ch - b'a' + 26)
    else if in_range b'0' b'9' ch
    then some (ch - b'0' + 52)
    else if ch == b'+'
    then some 62
    else if ch == b'/'
    then some 63
    else none

-- The value of a character that has passed the check.
abbrev pub value_of : Option ℕ → ℕ
value_of none = 0
value_of (some v) = v

pub b64_digit : ℕ → ℕ
b64_digit ch = value_of (b64_val ch)

-- The loop that rejects characters outside the alphabet.
pub all_digits : List ℕ → Bool
all_digits [] = true
all_digits (ch ∷ s) = elim (b64_val ch) [ none ↦ false | some v ↦ all_digits s ]

-- The number of '=' that end a text of `n` characters.
pub padding : List ℕ → ℕ → ℕ
padding s n = if char_at s (n - 1) == b'=' then (if char_at s (n - 2) == b'=' then 2 else 1) else 0

-- The 24-bit group of four characters.
pub join_digits : ℕ → ℕ → ℕ → ℕ → ℕ
join_digits a b c d = bit_or (bit_or (bit_or (a << 18) (b << 12)) (c << 6)) d

-- The last group of a text that ends in `pad` times '='.
pub decode_last : ℕ → ℕ → ℕ → ℕ → ℕ → Option (List ℕ)
decode_last pad s0 s1 s2 s3 =
    let a = b64_digit s0 in
    let b = b64_digit s1 in
    let c = b64_digit s2 in
    let d = b64_digit s3 in
    if pad == 0
    then (let v = join_digits a b c d in some (u8 (v >>> 16) ∷ u8 (v >>> 8) ∷ u8 v ∷ []))
    else if pad == 1
    then (if bit_and c 0x03 == 0
        then (let v = bit_or (bit_or (a << 18) (b << 12)) (c << 6) in
            some (u8 (v >>> 16) ∷ u8 (v >>> 8) ∷ []))
        else none)
    else if bit_and b 0x0f == 0
    then some (u8 (bit_or (a << 18) (b << 12) >>> 16) ∷ [])
    else none

-- A full group before the last one.
pub decode_group : ℕ → ℕ → ℕ → ℕ → List ℕ
decode_group s0 s1 s2 s3 =
    let v = join_digits (b64_digit s0) (b64_digit s1) (b64_digit s2) (b64_digit s3) in
    u8 (v >>> 16) ∷ u8 (v >>> 8) ∷ u8 v ∷ []

-- The loop over groups; a text of another length has been rejected before.
pub decode_loop : ℕ → List ℕ → Option (List ℕ)
decode_loop pad (s0 ∷ s1 ∷ s2 ∷ s3 ∷ []) = decode_last pad s0 s1 s2 s3
decode_loop pad (s0 ∷ s1 ∷ s2 ∷ s3 ∷ s4 ∷ s) = elim (decode_loop pad (s4 ∷ s)) [
  | none ↦ none
  | some out ↦ some (decode_group s0 s1 s2 s3 ++ out)
]
decode_loop pad _ = some []

-- `asper_base64_decode`, where memory does not run out.
pub base64_decode : List ℕ → Option (List ℕ)
base64_decode s =
    let n = length s in
    let pad = padding s n in
    if not (n % 4 == 0)
    then none
    else if n == 0
    then some []
    else if all_digits (take (n - pad) s)
    then decode_loop pad s
    else none
