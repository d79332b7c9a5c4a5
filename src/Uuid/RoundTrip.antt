-- ===== src/Uuid/RoundTrip.antt =====
-- Printing raw bytes as a UUID and reading them back, for src/uuid.c.
use asterism_asper.Base.{
  ℕ, zero, suc, ◌+◌, ◌-◌, ◌*◌, ◌%◌, ◌≤◌, ◌<◌, ◌≡◌, refl, Bool, true, false, ◌&&◌, ◌||◌, not, List,
  [], ◌∷◌, some, arith, ltb, ◌==◌, if◌then◌else◌, length, get_or, set, IsBytes, bit_and, bit_or,
  bit_or-shift, bit_and-mask, ◌<<◌, ◌>>>◌, u8, all_below, all_below_sound, Bool-cases, inl, inr,
  length-set, ap, ◌≢◌, ◌∙◌,
}
use asterism_asper.Uuid.{
  hex_char, dash_before, from_bytes_loop, uuid_from_bytes, v4_bytes, uuid_v4, hex_val, is_some,
  is_dash_at, valid_loop, uuid_valid, nibble, to_bytes_loop, uuid_to_bytes,
}

-- What the tables say of one digit.
hex_ok : ℕ → Bool
hex_ok x =
    is_some (hex_val (hex_char x))
    && (nibble (hex_val (hex_char x)) == x)
    && not (hex_char x == b'-')

hex_table : all_below 16 hex_ok ≡ true
unfolding all_below hex_ok hex_char hex_val
hex_table = refl

-- A digit is read back, and is no dash.
pub record IsHex (x : ℕ) : Type 0 where
  pub read : is_some (hex_val (hex_char x)) ≡ true
  pub value : nibble (hex_val (hex_char x)) ≡ x
  pub no_dash : (hex_char x == b'-') ≡ false

digit-IsHex : (x : ℕ) → x < 16 → IsHex x
unfolding hex_ok
digit-IsHex x h = ground (arith, all_below_sound 16 hex_ok x hex_table h)

high : (b : ℕ) → b < 256 → IsHex (b >>> 4)
high b h = digit-IsHex (b >>> 4) (omega arith)

low : (b : ℕ) → IsHex (bit_and b 0x0f)
low b = digit-IsHex (bit_and b 0x0f) (omega (arith, bit_and-mask 4 b))

join_nibbles : (b : ℕ) → b < 256 → u8 (bit_or (b >>> 4 << 4) (bit_and b 0x0f)) ≡ b
join_nibbles b h = omega (
  arith,
  bit_and-mask 4 b,
  bit_or-shift 4 (b >>> 4) (bit_and b 0x0f) (omega (arith, bit_and-mask 4 b)),
)

to_bytes_pair :
    (b : ℕ) (s : List ℕ)
    → b < 256
    → to_bytes_loop (hex_char (b >>> 4) ∷ hex_char (bit_and b 0x0f) ∷ s) ≡ b ∷ to_bytes_loop s
unfolding to_bytes_loop
to_bytes_pair b s h = rw ((high b h).no_dash, (high b h).value, (low b).value, join_nibbles b h)

to_bytes_dash : (d : ℕ) (s : List ℕ) → to_bytes_loop (b'-' ∷ d ∷ s) ≡ to_bytes_loop (d ∷ s)
unfolding to_bytes_loop
to_bytes_dash d s = refl

to_bytes-from_bytes_loop :
    (i : ℕ) (bs : List ℕ) → IsBytes bs → to_bytes_loop (from_bytes_loop i bs) ≡ bs
unfolding from_bytes_loop
to_bytes-from_bytes_loop i [] h = unfold to_bytes_loop in refl
to_bytes-from_bytes_loop i (b ∷ bs) h = elim (Bool-cases (dash_before i)) [
  | inl dash ↦
      rw (dash, to_bytes_dash, to_bytes_pair b _ h.0, to_bytes-from_bytes_loop (i + 1) bs h.1)
  | inr plain ↦ rw (plain, to_bytes_pair b _ h.0, to_bytes-from_bytes_loop (i + 1) bs h.1)
]

-- The position in the text of the first character that byte `i` contributes.
position : ℕ → ℕ
position i =
    if ltb i 5
    then i * 2
    else if ltb i 7
    then i * 2 + 1
    else if ltb i 9
    then i * 2 + 2
    else if ltb i 11
    then i * 2 + 3
    else i * 2 + 4

valid_pair :
    (left p b : ℕ) (s : List ℕ)
    → b < 256
    → is_dash_at p ≡ false
    → is_dash_at (p + 1) ≡ false
    → valid_loop (suc (suc left)) p (hex_char (b >>> 4) ∷ hex_char (bit_and b 0x0f) ∷ s)
      ≡ valid_loop left (p + 1 + 1) s
unfolding valid_loop
valid_pair left p b s h d e = rw (d, e, (high b h).read, (low b).read)

valid_dash :
    (left p : ℕ) (s : List ℕ)
    → is_dash_at p ≡ true
    → valid_loop (suc left) p (b'-' ∷ s) ≡ valid_loop left (p + 1) s
unfolding valid_loop
valid_dash left p s d = rw d

-- Where the dashes fall, for a byte of the sixteen.
plain_places :
    (i : ℕ)
    → i < 16
    → dash_before i ≡ false
    → (is_dash_at (position i) ≡ false)
      × (is_dash_at (position i + 1) ≡ false)
      × (position i + 1 + 1 ≡ position (i + 1))
unfolding dash_before is_dash_at position
plain_places i h d = ground arith

dash_places :
    (i : ℕ)
    → i < 16
    → dash_before i ≡ true
    → (is_dash_at (position i) ≡ true)
      × (is_dash_at (position i + 1) ≡ false)
      × (is_dash_at (position i + 1 + 1) ≡ false)
      × (position i + 1 + 1 + 1 ≡ position (i + 1))
unfolding dash_before is_dash_at position
dash_places i h d = ground arith

dash_bounds : (i : ℕ) → i < 16 → dash_before i ≡ true → position i + 3 ≤ 36
unfolding position dash_before
dash_bounds i h d = ground arith

position_bounds : (i : ℕ) → i < 16 → position i + 2 ≤ 36
unfolding position
position_bounds i h = ground arith

position_end : position 16 ≡ 36
unfolding position
position_end = refl

valid-from_bytes_loop :
    (left i : ℕ) (bs : List ℕ)
    → IsBytes bs
    → i + length bs ≡ 16
    → left + position i ≡ 36
    → valid_loop left (position i) (from_bytes_loop i bs) ≡ true
unfolding from_bytes_loop
valid-from_bytes_loop left i [] h m k =
    let at_end : i ≡ 16 = omega arith in
    let none_left : left ≡ 0 = omega (arith, position_end, ap position at_end) in
    rw none_left (unfold valid_loop in refl)
valid-from_bytes_loop left i (b ∷ bs) h m k = elim (Bool-cases (dash_before i)) [
  | inr plain ↦
      let (p, q, next) = plain_places i (omega arith) plain in
      let e : left ≡ suc (suc (left - 2)) = omega (arith, position_bounds i (omega arith)) in
      rw (plain, e, valid_pair (left - 2) (position i) b _ h.0 p q, next)
        (valid-from_bytes_loop (left - 2) (i + 1) bs h.1 (omega arith) (omega arith))
  | inl dash ↦
      let (p, q, r, next) = dash_places i (omega arith) dash in
      let e : left ≡ suc (suc (suc (left - 3))) = omega (arith, dash_bounds i (omega arith) dash) in
      rw
        (
          dash,
          e,
          valid_dash (suc (suc (left - 3))) (position i) _ p,
          valid_pair (left - 3) (position i + 1) b _ h.0 q r,
          next,
        )
        (valid-from_bytes_loop (left - 3) (i + 1) bs h.1 (omega arith) (omega arith))
]

-- Every text printed from 16 raw bytes is a valid UUID, and reading it gives the bytes back.
pub to_bytes-from_bytes :
    (bs : List ℕ)
    → IsBytes bs
    → length bs ≡ 16
    → (uuid_valid (uuid_from_bytes bs) ≡ true) × (uuid_to_bytes (uuid_from_bytes bs) ≡ some bs)
unfolding uuid_valid uuid_from_bytes uuid_to_bytes position
to_bytes-from_bytes bs h n =
    let valid : valid_loop 36 0 (from_bytes_loop 0 bs) ≡ true =
      valid-from_bytes_loop 36 0 bs h (omega arith) refl in
    (valid, rw (valid, to_bytes-from_bytes_loop 0 bs h))

IsBytes-set : (bs : List ℕ) (i v : ℕ) → IsBytes bs → v < 256 → IsBytes (set bs i v)
IsBytes-set [] i v h k = h
IsBytes-set (b ∷ bs) zero v h k = (k, h.1)
IsBytes-set (b ∷ bs) (suc i) v h k = (h.0, IsBytes-set bs i v h.1 k)

pub v4_bytes-IsBytes : (bs : List ℕ) → IsBytes bs → IsBytes (v4_bytes bs)
unfolding v4_bytes
v4_bytes-IsBytes bs h = IsBytes-set _ 8 _ (IsBytes-set bs 6 _ h (omega arith)) (omega arith)

pub length-v4_bytes : (bs : List ℕ) → length (v4_bytes bs) ≡ length bs
unfolding v4_bytes
length-v4_bytes bs = length-set _ 8 _ ∙ length-set bs 6 _

get_or-set_ne : (bs : List ℕ) (i j v : ℕ) → i ≢ j → get_or (set bs i v) j 0 ≡ get_or bs j 0
get_or-set_ne [] i j v h = refl
get_or-set_ne (b ∷ bs) zero zero v h = absurd (h refl)
get_or-set_ne (b ∷ bs) zero (suc j) v h = refl
get_or-set_ne (b ∷ bs) (suc i) zero v h = refl
get_or-set_ne (b ∷ bs) (suc i) (suc j) v h = get_or-set_ne bs i j v (λ e. h (ap suc e))

get_or-set_self : (bs : List ℕ) (i v : ℕ) → i < length bs → get_or (set bs i v) i 0 ≡ v
get_or-set_self [] i v h = absurd (omega arith)
get_or-set_self (b ∷ bs) zero v h = refl
get_or-set_self (b ∷ bs) (suc i) v h = get_or-set_self bs i v (omega arith)

-- The mark bits and the masked random bits do not meet.
marks : ℕ → Bool
marks x = (bit_or x 0x80 == 128 + x) && (not (ltb x 16) || (bit_or x 0x40 == 64 + x))

marks_table : all_below 64 marks ≡ true
unfolding all_below marks
marks_table = refl

mark_bits : (x : ℕ) → x < 64 → (bit_or x 0x80 ≡ 128 + x) × (x < 16 → bit_or x 0x40 ≡ 64 + x)
unfolding marks
mark_bits x h =
    let t = all_below_sound 64 marks x marks_table h in (ground (arith, t), λ k. ground (arith, t))

version_byte : (x : ℕ) → u8 (bit_or (bit_and x 0x0f) 0x40) ≡ 64 + x % 16
version_byte x =
    rw (bit_and-mask 4 x, (mark_bits (x % 16) (omega arith)).1 (omega arith)) (omega arith)

variant_byte : (x : ℕ) → u8 (bit_or (bit_and x 0x3f) 0x80) ≡ 128 + x % 64
variant_byte x = rw (bit_and-mask 6 x, (mark_bits (x % 64) (omega arith)).0) (omega arith)

two_writes :
    (bs : List ℕ) (u w : ℕ)
    → length bs ≡ 16
    → (get_or (set (set bs 6 u) 8 w) 6 0 ≡ u)
      × (get_or (set (set bs 6 u) 8 w) 8 0 ≡ w)
      × (get_or (set bs 6 u) 8 0 ≡ get_or bs 8 0)
two_writes bs u w n = (
  get_or-set_ne (set bs 6 u) 8 6 w (omega arith) ∙ get_or-set_self bs 6 u (omega arith),
  get_or-set_self (set bs 6 u) 8 w (omega (arith, length-set bs 6 u)),
  get_or-set_ne bs 6 8 u (omega arith),
)

v4_bytes_marks :
    (bs : List ℕ)
    → length bs ≡ 16
    → (get_or (v4_bytes bs) 6 0 ≡ 64 + get_or bs 6 0 % 16)
      × (get_or (v4_bytes bs) 8 0 ≡ 128 + get_or bs 8 0 % 64)
unfolding v4_bytes
v4_bytes_marks bs n =
    let u = u8 (bit_or (bit_and (get_or bs 6 0) 0x0f) 0x40) in
    let w = u8 (bit_or (bit_and (get_or (set bs 6 u) 8 0) 0x3f) 0x80) in
    let (six, eight, old) = two_writes bs u w n in
    (
      six ∙ version_byte (get_or bs 6 0),
      eight ∙ variant_byte (get_or (set bs 6 u) 8 0) ∙ ap (λ (x : ℕ). 128 + x % 64) old,
    )

-- The bytes that the marks leave alone.
v4_bytes-else :
    (bs : List ℕ) (i : ℕ)
    → (i == 6) ≡ false
    → (i == 8) ≡ false
    → get_or (v4_bytes bs) i 0 ≡ get_or bs i 0
unfolding v4_bytes
v4_bytes-else bs i p q =
    get_or-set_ne _ 8 i _ (ground (arith, q)) ∙ get_or-set_ne bs 6 i _ (ground (arith, p))

v4_bytes-place :
    (bs : List ℕ) (i : ℕ)
    → length bs ≡ 16
    → get_or (v4_bytes bs) i 0 ≡ (
        if i == 6
        then 64 + get_or bs 6 0 % 16
        else if i == 8
        then 128 + get_or bs 8 0 % 64
        else get_or bs i 0)
v4_bytes-place bs i n =
    let (six, eight) = v4_bytes_marks bs n in
    elim (Bool-cases (i == 6)) [
      | inl first ↦ let here : i ≡ 6 = ground (arith, first) in rw here six
      | inr more ↦ elim (Bool-cases (i == 8)) [
        | inl second ↦ let here : i ≡ 8 = ground (arith, second) in rw here eight
        | inr other ↦ rw (more, other) (v4_bytes-else bs i more other)
      ]
    ]

-- The text of sixteen random bytes is a valid UUID.
pub uuid_v4-valid :
    (random : List ℕ) → IsBytes random → length random ≡ 16 → uuid_valid (uuid_v4 random) ≡ true
unfolding uuid_v4
uuid_v4-valid random h n =
    (to_bytes-from_bytes (v4_bytes random) (v4_bytes-IsBytes random h)
      (length-v4_bytes random ∙ n)).0

-- A version-4 UUID of sixteen random bytes is valid text. The bytes it stands for are sixteen, and
-- at every place they are the random ones, but that byte 6 has 4 for its upper half and byte 8 has
-- 10 for its top two bits.
pub uuid_v4_lem :
    (random : List ℕ) (i : ℕ)
    → IsBytes random
    → length random ≡ 16
    → (uuid_valid (uuid_v4 random) ≡ true)
      × ((bytes : List ℕ) × (uuid_to_bytes (uuid_v4 random) ≡ some bytes)
          × (length bytes ≡ 16)
          × (get_or bytes i 0 ≡ (
              if i == 6
              then 64 + get_or random 6 0 % 16
              else if i == 8
              then 128 + get_or random 8 0 % 64
              else get_or random i 0)))
unfolding uuid_v4
uuid_v4_lem random i h n =
    let (valid, back) =
      to_bytes-from_bytes (v4_bytes random) (v4_bytes-IsBytes random h)
        (length-v4_bytes random ∙ n) in
    let (six, eight) = v4_bytes_marks random n in
    (valid, (v4_bytes random, back, length-v4_bytes random ∙ n, v4_bytes-place random i n))
