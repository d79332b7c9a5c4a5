-- ===== src/Util/Base64/RoundTrip.antt =====
-- Decoding what was encoded gives the bytes back.
use asterism_asper.Base.{
  ℕ, suc, ◌+◌, ◌-◌, ◌*◌, ◌/◌, ◌%◌, ◌^◌, ◌≤◌, ◌<◌, ◌≡◌, refl, ap, ◌∙◌, Bool, true, false, not, ◌&&◌,
  List, [], ◌∷◌, ◌++◌, Option, none, some, ◌==◌, arith, length, take, bit_and, bit_or, ◌<<◌, get_or,
  bit_or-shift, bit_and-mask, all_below, all_below_sound, IsBytes,
}
use asterism_asper.Util.Base64.{
  b64_alpha, b64_char, join_bytes, base64_encode, b64_val, b64_digit, all_digits, padding,
  join_digits, decode_last, decode_group, decode_loop, base64_decode,
}

-- A character of the alphabet: its value, and that it is no padding.
char_ok : ℕ → Bool
char_ok x =
    elim (b64_val (get_or b64_alpha x 0)) [ none ↦ false | some v ↦ v == x ]
    && not (get_or b64_alpha x 0 == b'=')

char_table : all_below 64 char_ok ≡ true
unfolding all_below char_ok b64_val
char_table = refl

char_test :
    (x y : ℕ) (o : Option ℕ)
    → (elim o [ none ↦ false | some v ↦ v == x ] && not (y == b'=')) ≡ true
    → (o ≡ some x) × ((y == b'=') ≡ false)
char_test x y none h = cc
char_test x y (some v) h = (ground (arith, h), ground (arith, h))

val_of_alpha :
    (x : ℕ)
    → x < 64
    → (b64_val (get_or b64_alpha x 0) ≡ some x) × ((get_or b64_alpha x 0 == b'=') ≡ false)
unfolding char_ok
val_of_alpha x h =
    char_test x (get_or b64_alpha x 0) (b64_val (get_or b64_alpha x 0))
      (all_below_sound 64 char_ok x char_table h)

b64_val-char :
    (v k : ℕ) → (b64_val (b64_char v k) ≡ some (v / 2 ^ k % 64)) × ((b64_char v k == b'=') ≡ false)
unfolding b64_char
b64_val-char v k = rw (bit_and-mask 6 (v / 2 ^ k)) (val_of_alpha (v / 2 ^ k % 64) (omega arith))

b64_digit-char : (v k : ℕ) → b64_digit (b64_char v k) ≡ v / 2 ^ k % 64
unfolding b64_digit
b64_digit-char v k = rw (b64_val-char v k).0 refl

join_bytes_lem : (a b c : ℕ) → b < 256 → c < 256 → join_bytes a b c ≡ a * 65536 + b * 256 + c
unfolding join_bytes
join_bytes_lem a b c hb hc =
    ap (λ t. bit_or t c) (bit_or-shift 16 a (b * 256) (omega arith) ∙ omega arith)
    ∙ bit_or-shift 8 (a * 256 + b) c hc
    ∙ omega arith

join_digits_lem :
    (a b c d : ℕ)
    → b < 64
    → c < 64
    → d < 64
    → join_digits a b c d ≡ a * 262144 + b * 4096 + c * 64 + d
unfolding join_digits
join_digits_lem a b c d hb hc hd =
    ap (λ t. bit_or (bit_or t (c * 64)) d)
      (bit_or-shift 18 a (b * 4096) (omega arith) ∙ omega arith)
    ∙ ap (λ t. bit_or t d) (bit_or-shift 12 (a * 64 + b) (c * 64) (omega arith) ∙ omega arith)
    ∙ bit_or-shift 6 (a * 4096 + b * 64 + c) d hd
    ∙ omega arith

module _ (a b c : ℕ) (ha : a < 256) (hb : b < 256) (hc : c < 256) where
  join-again :
      (v : ℕ)
      → v < 2 ^ 24
      → join_digits
          (b64_digit (b64_char v 18))
          (b64_digit (b64_char v 12))
          (b64_digit (b64_char v 6))
          (b64_digit (b64_char v 0))
        ≡ v
  join-again v h =
      rw (b64_digit-char v 18, b64_digit-char v 12, b64_digit-char v 6, b64_digit-char v 0)
        (join_digits_lem (v / 2 ^ 18 % 64) (v / 2 ^ 12 % 64) (v / 2 ^ 6 % 64) (v / 2 ^ 0 % 64)
            (omega arith) (omega arith) (omega arith)
          ∙ omega arith)

  decode_group-encode :
      let v = join_bytes a b c in
      decode_group (b64_char v 18) (b64_char v 12) (b64_char v 6) (b64_char v 0) ≡ a ∷ b ∷ c ∷ []
  unfolding decode_group
  decode_group-encode =
      let v = join_bytes a b c in
      let e = join_bytes_lem a b c hb hc in
      let small : v < 2 ^ 24 = omega (arith, e) in
      let x : v / 2 ^ 16 % 2 ^ 8 ≡ a = omega (arith, e) in
      let y : v / 2 ^ 8 % 2 ^ 8 ≡ b = omega (arith, e) in
      let z : v % 2 ^ 8 ≡ c = omega (arith, e) in rw (join-again v small, x, y, z) refl

-- How many characters of padding the bytes need.
abbrev pad_of : List ℕ → ℕ
pad_of [] = 0
pad_of (a ∷ []) = 2
pad_of (a ∷ b ∷ []) = 1
pad_of (a ∷ b ∷ c ∷ rest) = pad_of rest

decode_last-one :
    (a : ℕ)
    → a < 256
    → decode_last 2 (b64_char (a << 16) 18) (b64_char (a << 16) 12) b'=' b'=' ≡ some (a ∷ [])
unfolding decode_last
decode_last-one a h =
    let v = a << 16 in
    let low : bit_and (v / 2 ^ 12 % 64) 0x0f ≡ 0 = bit_and-mask 4 (v / 2 ^ 12 % 64) ∙ omega arith in
    let whole : bit_or ((v / 2 ^ 18 % 64) << 18) ((v / 2 ^ 12 % 64) << 12) ≡ a * 65536 =
      bit_or-shift 18 (v / 2 ^ 18 % 64) ((v / 2 ^ 12 % 64) * 4096) (omega arith) ∙ omega arith in
    let back : a * 65536 / 2 ^ 16 % 2 ^ 8 ≡ a = omega arith in
    rw (b64_digit-char v 18, b64_digit-char v 12, low, whole, back) refl

decode_last-two :
    (a b : ℕ)
    → a < 256
    → b < 256
    → let v = bit_or (a << 16) (b << 8) in
      decode_last 1 (b64_char v 18) (b64_char v 12) (b64_char v 6) b'=' ≡ some (a ∷ b ∷ [])
unfolding decode_last
decode_last-two a b ha hb =
    let v = bit_or (a << 16) (b << 8) in
    let e : v ≡ a * 65536 + b * 256 = bit_or-shift 16 a (b * 256) (omega arith) in
    let low : bit_and (v / 2 ^ 6 % 64) 0x03 ≡ 0 =
      bit_and-mask 2 (v / 2 ^ 6 % 64) ∙ omega (arith, e) in
    let whole : bit_or (bit_or ((v / 2 ^ 18 % 64) << 18) ((v / 2 ^ 12 % 64) << 12))
          ((v / 2 ^ 6 % 64) << 6)
        ≡ v =
      ap (λ t. bit_or t ((v / 2 ^ 6 % 64) * 64))
        (bit_or-shift 18 (v / 2 ^ 18 % 64) ((v / 2 ^ 12 % 64) * 4096) (omega arith) ∙ omega arith)
      ∙ bit_or-shift 12 (v / 2 ^ 18 % 64 * 64 + v / 2 ^ 12 % 64) ((v / 2 ^ 6 % 64) * 64)
          (omega arith)
      ∙ omega (arith, e) in
    let x : v / 2 ^ 16 % 2 ^ 8 ≡ a = omega (arith, e) in
    let y : v / 2 ^ 8 % 2 ^ 8 ≡ b = omega (arith, e) in
    rw (b64_digit-char v 18, b64_digit-char v 12, b64_digit-char v 6, low, whole, x, y) refl

decode_last-three :
    (a b c : ℕ)
    → a < 256
    → b < 256
    → c < 256
    → let v = join_bytes a b c in
      decode_last 0 (b64_char v 18) (b64_char v 12) (b64_char v 6) (b64_char v 0)
      ≡ some (a ∷ b ∷ c ∷ [])
unfolding decode_last decode_group
decode_last-three a b c ha hb hc = ap some (decode_group-encode a b c ha hb hc)

decode_loop-cons :
    (pad s0 s1 s2 s3 : ℕ) (enc out : List ℕ)
    → (s : ℕ) × (t : List ℕ) × (enc ≡ s ∷ t)
    → decode_loop pad enc ≡ some out
    → decode_loop pad (s0 ∷ s1 ∷ s2 ∷ s3 ∷ enc) ≡ some (decode_group s0 s1 s2 s3 ++ out)
unfolding decode_loop
decode_loop-cons pad s0 s1 s2 s3 [] out (s, t, e) run = cc
decode_loop-cons pad s0 s1 s2 s3 (x ∷ xs) out c run = rw run refl

encode-cons : (b : ℕ) (bs : List ℕ) → (s : ℕ) × (t : List ℕ) × (base64_encode (b ∷ bs) ≡ s ∷ t)
unfolding base64_encode
encode-cons a [] = (_, _, refl)
encode-cons a (b ∷ []) = (_, _, refl)
encode-cons a (b ∷ c ∷ rest) = (_, _, refl)

decode_loop-encode :
    (b : ℕ) (bs : List ℕ)
    → IsBytes (b ∷ bs)
    → decode_loop (pad_of (b ∷ bs)) (base64_encode (b ∷ bs)) ≡ some (b ∷ bs)
unfolding base64_encode decode_loop
decode_loop-encode a [] h = decode_last-one a h.0
decode_loop-encode a (b ∷ []) h = decode_last-two a b h.0 h.1.0
decode_loop-encode a (b ∷ c ∷ []) h = decode_last-three a b c h.0 h.1.0 h.1.1.0
decode_loop-encode a (b ∷ c ∷ d ∷ rest) h =
    decode_loop-cons _ _ _ _ _ _ (d ∷ rest) (encode-cons d rest) (decode_loop-encode d rest h.1.1.1)
    ∙ ap (λ g. some (g ++ d ∷ rest)) (decode_group-encode a b c h.0 h.1.0 h.1.1.0)

length-encode : (bs : List ℕ) → length (base64_encode bs) ≡ (length bs + 2) / 3 * 4
unfolding base64_encode
length-encode [] = refl
length-encode (a ∷ []) = refl
length-encode (a ∷ b ∷ []) = refl
length-encode (a ∷ b ∷ c ∷ rest) = omega (arith, length-encode rest)

-- A character that is a digit passes the check.
all_digits-char :
    (v k : ℕ) (s : List ℕ) → all_digits s ≡ true → all_digits (b64_char v k ∷ s) ≡ true
unfolding all_digits
all_digits-char v k s h = rw ((b64_val-char v k).0, all_digits) h

all_digits-nil : all_digits [] ≡ true
unfolding all_digits
all_digits-nil = refl

pad_of-le : (bs : List ℕ) → pad_of bs ≤ length (base64_encode bs)
unfolding base64_encode
pad_of-le [] = omega arith
pad_of-le (a ∷ []) = omega arith
pad_of-le (a ∷ b ∷ []) = omega arith
pad_of-le (a ∷ b ∷ c ∷ rest) = omega (arith, pad_of-le rest)

all_digits-encode :
    (bs : List ℕ)
    → all_digits (take (length (base64_encode bs) - pad_of bs) (base64_encode bs)) ≡ true
unfolding base64_encode
all_digits-encode [] = all_digits-nil
all_digits-encode (a ∷ []) = all_digits-char _ 18 _ (all_digits-char _ 12 [] all_digits-nil)
all_digits-encode (a ∷ b ∷ []) =
    all_digits-char _ 18 _ (all_digits-char _ 12 _ (all_digits-char _ 6 [] all_digits-nil))
all_digits-encode (a ∷ b ∷ c ∷ rest) =
    let n = length (base64_encode rest) in
    let cut : suc (suc (suc (suc n))) - pad_of rest ≡ suc (suc (suc (suc (n - pad_of rest)))) =
      omega (arith, pad_of-le rest) in
    rw cut (
      all_digits-char _ 18 _ (
        all_digits-char _ 12 _
          (all_digits-char _ 6 _ (all_digits-char _ 0 _ (all_digits-encode rest)))))

-- The padding stands at the end.
padding-skip :
    (s0 s1 s2 s3 : ℕ) (enc : List ℕ)
    → 2 ≤ length enc
    → padding (s0 ∷ s1 ∷ s2 ∷ s3 ∷ enc) (suc (suc (suc (suc (length enc)))))
      ≡ padding enc (length enc)
unfolding padding
padding-skip s0 s1 s2 s3 [] h = absurd (omega arith)
padding-skip s0 s1 s2 s3 (x ∷ []) h = absurd (omega arith)
padding-skip s0 s1 s2 s3 (x ∷ y ∷ enc) h =
    let m = length enc in
    let e1 : suc (suc (suc (suc (suc (suc m))))) - 1 ≡ suc (suc (suc (suc (suc m)))) =
      omega arith in
    let e2 : suc (suc (suc (suc (suc (suc m))))) - 2 ≡ suc (suc (suc (suc m))) = omega arith in
    let e3 : suc (suc m) - 1 ≡ suc m = omega arith in
    let e4 : suc (suc m) - 2 ≡ m = omega arith in rw (e1, e2, e3, e4) refl

padding-encode :
    (b : ℕ) (bs : List ℕ)
    → padding (base64_encode (b ∷ bs)) (length (base64_encode (b ∷ bs))) ≡ pad_of (b ∷ bs)
unfolding padding base64_encode
padding-encode a [] = refl
padding-encode a (b ∷ []) = rw (b64_val-char _ 6).1 refl
padding-encode a (b ∷ c ∷ []) = rw (b64_val-char _ 0).1 refl
padding-encode a (b ∷ c ∷ d ∷ rest) =
    padding-skip _ _ _ _ (base64_encode (d ∷ rest)) (omega (arith, length-encode (d ∷ rest)))
    ∙ padding-encode d rest

decode_nil : base64_decode (base64_encode []) ≡ some []
unfolding base64_decode base64_encode
decode_nil = refl

-- Decoding the encoding of any bytes gives the bytes back, where memory does not run out.
pub decode-encode : (bs : List ℕ) → IsBytes bs → base64_decode (base64_encode bs) ≡ some bs
unfolding base64_decode
decode-encode [] h = decode_nil
decode-encode (b ∷ bs) h =
    let enc = base64_encode (b ∷ bs) in
    let size = length-encode (b ∷ bs) in
    let whole : (length enc % 4 == 0) ≡ true = ground (arith, size) in
    let some_chars : (length enc == 0) ≡ false = ground (arith, size) in
    rw (whole, some_chars, padding-encode b bs, all_digits-encode (b ∷ bs))
      (decode_loop-encode b bs h)
