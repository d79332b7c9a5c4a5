-- ===== src/EventFrame/Line.antt =====
-- The line of a frame of src/event_frame.c: its bytes, its length, and `fgets` on it.
use asterism_asper.Base.{
  ℕ, zero, suc, ◌+◌, ◌*◌, ◌^◌, ◌≤◌, ◌<◌, ◌≡◌, refl, sym, ap, Bool, true, false, ◌||◌, ◌&&◌, List,
  [], ◌∷◌, ◌++◌, ltb, leb, ◌==◌, length, length-append, arith, subst, bit_and, bit_and-mask, ◌>>>◌,
  IsByte, IsBytes, IsText, IsChar, All, All-append, all_below, all_below_sound,
}
use asterism_asper.Base.Int.{ℤ, pos, negsuc}
use asterism_asper.Base.Text.{codes, until_zero, until_zero_text}
use asterism_asper.Json.Write.{print_int}
use asterism_asper.Json.Numbers.{IsDigit, IsSmall, digits_before-IsDigit}
use asterism_asper.Sha256.{Words, word_bytes, digest, sha256_final}
use asterism_asper.Uuid.{hex_char, hex_val, valid_loop, uuid_valid}
use asterism_asper.EventFrame.{
  Event, kind_number, print_unsigned, prefix, prefix_fields, hex_digest,
}
use asterism_asper.EventFrame.Read.{gets, has_newline}
use asterism_asper.EventFrame.Numbers.{length-digits_before, kind_bound}

-- A byte that neither ends the line nor the C string.
abbrev pub IsPlain : ℕ → Type 0
IsPlain c = (0x20 ≤ c) × (c < 256)

plain-IsText : (s : List ℕ) → All IsPlain s → IsText s
plain-IsText [] h = tt
plain-IsText (c ∷ s) ((h, k), t) = ((omega arith, k), plain-IsText s t)

digit-IsPlain : (s : List ℕ) → All IsDigit s → All IsPlain s
digit-IsPlain [] h = tt
digit-IsPlain (c ∷ s) (d, h) = ((ground (arith, d), ground (arith, d)), digit-IsPlain s h)

print_unsigned-IsPlain : (n : ℕ) → All IsPlain (print_unsigned n)
print_unsigned-IsPlain n = digit-IsPlain (print_unsigned n) (digits_before-IsDigit 20 n [] tt)

print_int-IsPlain : (i : ℤ) → All IsPlain (print_int i)
unfolding print_int
print_int-IsPlain (pos n) = print_unsigned-IsPlain n
print_int-IsPlain (negsuc n) = ((omega arith, omega arith), print_unsigned-IsPlain (suc n))

valid_loop-IsPlain :
    (left i : ℕ) (s : List ℕ) → valid_loop left i s ≡ true → All IsPlain s × (length s ≡ left)
unfolding valid_loop hex_val
valid_loop-IsPlain zero i [] e = (tt, refl)
valid_loop-IsPlain zero i (c ∷ s) e = absurd (ground arith)
valid_loop-IsPlain (suc left) i [] e = absurd (ground arith)
valid_loop-IsPlain (suc left) i (c ∷ s) e =
    let tail : valid_loop left (i + 1) s ≡ true = ground (arith, e) in
    let (p, l) = valid_loop-IsPlain left (i + 1) s tail in
    (((ground (arith, e), ground (arith, e)), p), omega (arith, l))

pub uuid_valid-IsPlain : (s : List ℕ) → uuid_valid s ≡ true → All IsPlain s × (length s ≡ 36)
unfolding uuid_valid
uuid_valid-IsPlain s e = valid_loop-IsPlain 36 0 s e

plain_digit : ℕ → Bool
plain_digit x = leb 0x20 (hex_char x) && ltb (hex_char x) 256

plain_digits : all_below 16 plain_digit ≡ true
unfolding all_below plain_digit hex_char
plain_digits = refl

hex_char-IsPlain : (x : ℕ) → x < 16 → IsPlain (hex_char x)
unfolding plain_digit
hex_char-IsPlain x h =
    let t : plain_digit x ≡ true = all_below_sound 16 plain_digit x plain_digits h in
    (ground (arith, t), ground (arith, t))

pub hex_digest-IsPlain : (s : List ℕ) → IsBytes s → All IsPlain (hex_digest s)
unfolding hex_digest
hex_digest-IsPlain [] h = tt
hex_digest-IsPlain (b ∷ s) (h, k) = (
  hex_char-IsPlain (b >>> 4) (omega arith),
  (hex_char-IsPlain (bit_and b 15) (omega (arith, bit_and-mask 4 b)), hex_digest-IsPlain s k),
)

pub length-hex_digest : (s : List ℕ) → length (hex_digest s) ≡ 2 * length s
unfolding hex_digest
length-hex_digest [] = refl
length-hex_digest (b ∷ s) = omega (arith, length-hex_digest s)

word_bytes-IsBytes : (w : ℕ) → IsBytes (word_bytes w)
word_bytes-IsBytes w = (omega arith, (omega arith, (omega arith, (omega arith, tt))))

word_before : (w : ℕ) (rest : List ℕ) → IsBytes rest → IsBytes (word_bytes w ++ rest)
word_before w rest h = All-append IsByte (word_bytes w) rest (word_bytes-IsBytes w) h

eight_words : (s : Words) → IsBytes (digest s) × (length (digest s) ≡ 32)
eight_words s =
    let last : IsBytes (word_bytes s.h) = word_bytes-IsBytes s.h in
    let from_g : IsBytes (word_bytes s.g ++ word_bytes s.h) =
      word_before s.g (word_bytes s.h) last in
    let from_f : IsBytes (word_bytes s.f ++ word_bytes s.g ++ word_bytes s.h) =
      word_before s.f (word_bytes s.g ++ word_bytes s.h) from_g in
    let from_e : IsBytes (word_bytes s.e ++ word_bytes s.f ++ word_bytes s.g ++ word_bytes s.h) =
      word_before s.e (word_bytes s.f ++ word_bytes s.g ++ word_bytes s.h) from_f in
    let from_d : IsBytes
        (word_bytes s.d ++ word_bytes s.e ++ word_bytes s.f ++ word_bytes s.g ++ word_bytes s.h) =
      word_before s.d (word_bytes s.e ++ word_bytes s.f ++ word_bytes s.g ++ word_bytes s.h)
        from_e in
    let from_c : IsBytes (
        word_bytes s.c
        ++ word_bytes s.d
        ++ word_bytes s.e
        ++ word_bytes s.f
        ++ word_bytes s.g
        ++ word_bytes s.h) =
      word_before s.c
        (word_bytes s.d ++ word_bytes s.e ++ word_bytes s.f ++ word_bytes s.g ++ word_bytes s.h)
        from_d in
    let from_b : IsBytes (
        word_bytes s.b
        ++ word_bytes s.c
        ++ word_bytes s.d
        ++ word_bytes s.e
        ++ word_bytes s.f
        ++ word_bytes s.g
        ++ word_bytes s.h) =
      word_before s.b
        (word_bytes s.c
          ++ word_bytes s.d
          ++ word_bytes s.e
          ++ word_bytes s.f
          ++ word_bytes s.g
          ++ word_bytes s.h)
        from_c in
    (
      word_before s.a
          (word_bytes s.b
            ++ word_bytes s.c
            ++ word_bytes s.d
            ++ word_bytes s.e
            ++ word_bytes s.f
            ++ word_bytes s.g
            ++ word_bytes s.h)
          from_b,
      refl,
    )

pub sha256_final-IsBytes : (ctx : _) → IsBytes (sha256_final ctx) × (length (sha256_final ctx) ≡ 32)
unfolding sha256_final
sha256_final-IsBytes ctx = eight_words _

-- `fgets` takes a plain line with its newline.
pub gets-line :
    (n : ℕ) (line rest : List ℕ)
    → All IsPlain line
    → length line < n
    → gets n (line ++ 0x0a ∷ rest) ≡ (line ++ 0x0a ∷ [], rest, false)
unfolding gets
gets-line zero line rest h k = absurd (omega arith)
gets-line (suc n) [] rest h k = refl
gets-line (suc n) (c ∷ line) rest ((l, u), h) k =
    let other : (c == 0x0a) ≡ false = ground arith in
    rw other (ap (λ p. (c ∷ p.0, p.1, p.2)) (gets-line n line rest h (omega arith)))

-- Without a newline it takes all there is, and meets the end.
pub gets-torn :
    (n : ℕ) (line : List ℕ) → All IsPlain line → length line < n → gets n line ≡ (line, [], true)
unfolding gets
gets-torn zero line h k = absurd (omega arith)
gets-torn (suc n) [] h k = refl
gets-torn (suc n) (c ∷ line) ((l, u), h) k =
    let other : (c == 0x0a) ≡ false = ground arith in
    rw other (ap (λ p. (c ∷ p.0, p.1, p.2)) (gets-torn n line h (omega arith)))

pub has_newline-line : (line : List ℕ) → has_newline (line ++ 0x0a ∷ []) ≡ true
unfolding has_newline
has_newline-line [] = refl
has_newline-line (c ∷ line) = ground (arith, has_newline-line line)

pub has_newline-plain : (line : List ℕ) → All IsPlain line → has_newline line ≡ false
unfolding has_newline
has_newline-plain [] h = refl
has_newline-plain (c ∷ line) (p, h) = ground (arith, p, has_newline-plain line h)

pub until_zero-line :
    (line : List ℕ) → All IsPlain line → until_zero (line ++ 0x0a ∷ []) ≡ line ++ 0x0a ∷ []
until_zero-line line h =
    until_zero_text (line ++ 0x0a ∷ [])
      (All-append IsChar line (0x0a ∷ []) (plain-IsText line h) ((omega arith, omega arith), tt))

pub until_zero-plain : (line : List ℕ) → All IsPlain line → until_zero line ≡ line
until_zero-plain line h = until_zero_text line (plain-IsText line h)

short : (n : ℕ) → n < 10 ^ 20 → length (print_unsigned n) ≤ 20
short n h = omega (arith, length-digits_before 20 20 n [] h (omega arith))

length-print_int : (i : ℤ) → IsSmall i → length (print_int i) ≤ 21
unfolding print_int
length-print_int (pos n) h = omega (arith, short n (omega arith))
length-print_int (negsuc n) h = omega (arith, short (suc n) (omega arith))

-- The values that the fields of a line hold.
pub record IsFields (e : Event) (obj text : ℕ) : Type 0 where
  pub sequence_pos : 0 < e.sequence
  pub sequence_small : e.sequence < 2 ^ 64
  pub at_small : IsSmall e.at
  pub pinned_flag : (b : ℕ) × (b ≤ 1) × (e.pinned ≡ pos b)
  pub id_valid : uuid_valid e.id ≡ true
  pub object_size : ((obj == 0) || (obj == 71)) ≡ true
  pub text_size : text ≤ 16 * 1024 * 1024

pub length-prefix :
    (e : Event) (obj text : ℕ) → IsFields e obj text → length (prefix e obj text) < 192
unfolding prefix prefix_fields print_int
length-prefix e obj text w =
    let (b, h, eq) = w.pinned_flag in
    let pinned : length (print_int e.pinned) ≤ 20 =
      subst (λ i. length (print_int i) ≤ 20) (sym eq) (short b (omega arith)) in
    let size : obj ≤ 71 = ground (arith, w.object_size) in
    rw
      (
        prefix, prefix_fields, length-append, length-append, length-append, length-append,
        length-append, length-append, length-append,
      )
      (omega (
        arith,
        short e.sequence (omega (arith, w.sequence_small)),
        length-print_int e.at w.at_small,
        short (kind_number e.kind) (omega (arith, kind_bound e.kind)),
        pinned,
        (uuid_valid-IsPlain e.id w.id_valid).1,
        short obj (omega (arith, size)),
        short text (omega (arith, w.text_size)),
      ))

space : IsPlain 0x20
space = (omega arith, omega arith)

magic : All IsPlain (codes "AEV2 ")
magic =
    let c : (c : ℕ) → 0x20 ≤ c → c < 256 → IsPlain c = λ c h k. (h, k) in
    (
      c 65 (omega arith) (omega arith),
      (
        c 69 (omega arith) (omega arith),
        (c 86 (omega arith) (omega arith), (c 50 (omega arith) (omega arith), (space, tt))),
      ),
    )

join_field : (s rest : List ℕ) → All IsPlain s → All IsPlain rest → All IsPlain (s ++ 0x20 ∷ rest)
join_field s rest h k = All-append IsPlain s (0x20 ∷ rest) h (space, k)

pub prefix-IsPlain :
    (e : Event) (obj text : ℕ) → IsFields e obj text → All IsPlain (prefix e obj text)
unfolding prefix prefix_fields
prefix-IsPlain e obj text w =
    let (id_plain, size) = uuid_valid-IsPlain e.id w.id_valid in
    All-append IsPlain (codes "AEV2 ") (prefix_fields e obj text) magic
      (search (join_field, print_unsigned-IsPlain, print_int-IsPlain, id_plain) depth 8)
