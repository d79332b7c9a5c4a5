-- ===== src/Json/Numbers.antt =====
-- The integers that mcp/json.c writes with `%lld`, read back by `p_number`.
use mathlib.Core.List.{append-nil}
use native.Mathlib.Nat.{pow-suc}
use asterism_asper.Base.{
  ℕ, zero, suc, ◌+◌, ◌/◌, ◌%◌, ◌^◌, ◌<◌, ◌≡◌, refl, sym, ap, ◌∙◌, Bool, true, false, not, ◌&&◌,
  ◌||◌, List, [], ◌∷◌, ◌++◌, Option, some, ltb, leb, ◌==◌, arith, Bool-cases, inl, inr, All,
  char_at, subst, lt→ltb,
}
use asterism_asper.Base.Int.{ℤ, pos, negsuc}
use asterism_asper.Json.Value.{Number}
use asterism_asper.Json.Parse.{
  isdig, digit_run, number_sign, number_int, number_frac, number_exp, decimal, strtoll, is_zero,
  number_value, p_number, p_unsigned,
}
use asterism_asper.Json.Write.{digits_before, print_int}

abbrev pub IsDigit : ℕ → Type 0
IsDigit c = isdig c ≡ true

pub digits_before-IsDigit :
    (r n : ℕ) (acc : List ℕ) → All IsDigit acc → All IsDigit (digits_before r n acc)
unfolding digits_before
digits_before-IsDigit zero n acc a = a
digits_before-IsDigit (suc r) n acc a = elim (Bool-cases (ltb n 10)) [
  | inl last ↦ rw (digits_before, last) (ground (arith, last), a)
  | inr more ↦
      rw (digits_before, more)
        (digits_before-IsDigit r (n / 10) ((0x30 + n % 10) ∷ acc) (ground arith, a))
]

pub decimal-digits_before :
    (r n : ℕ) (acc : List ℕ) → n < 10 ^ r → decimal 0 (digits_before r n acc) ≡ decimal n acc
unfolding digits_before decimal
decimal-digits_before zero n acc h = ap (λ k. decimal k acc) (omega arith)
decimal-digits_before (suc r) n acc h = elim (Bool-cases (ltb n 10)) [
  | inl last ↦ rw (digits_before, last) (ap (λ k. decimal k acc) (omega arith))
  | inr more ↦
      rw (digits_before, more)
        (decimal-digits_before r (n / 10) ((0x30 + n % 10) ∷ acc) (omega (arith, pow-suc 10 r))
          ∙ ap (λ k. decimal k acc) (omega arith))
]

-- The first digit is no zero, but for the number zero.
first_digit :
    (r n : ℕ) (acc : List ℕ)
    → 0 < n
    → n < 10 ^ suc r
    → (c : ℕ) × (s : List ℕ) × (digits_before (suc r) n acc ≡ c ∷ s) × ((c == 0x30) ≡ false)
unfolding digits_before
first_digit zero n acc p h =
    let last : ltb n 10 ≡ true = ground arith in
    (0x30 + n, acc, rw (digits_before, last) refl, ground arith)
first_digit (suc r) n acc p h = elim (Bool-cases (ltb n 10)) [
  | inl last ↦ (0x30 + n, acc, rw (digits_before, last) refl, ground arith)
  | inr more ↦
      let (c, s, e, k) =
        first_digit r (n / 10) ((0x30 + n % 10) ∷ acc) (ground (arith, more))
          (omega (arith, pow-suc 10 (suc r))) in
      (c, s, rw (digits_before, more) e, k)
]

pub digit_run-append :
    (ds rest : List ℕ)
    → All IsDigit ds
    → isdig (char_at rest 0) ≡ false
    → digit_run (ds ++ rest) ≡ (ds, rest)
unfolding digit_run
digit_run-append [] [] a e = refl
digit_run-append [] (c ∷ rest) a e = rw e refl
digit_run-append (d ∷ ds) rest (h, a) e =
    rw h (ap (λ p. (d ∷ p.0, p.1)) (digit_run-append ds rest a e))

-- A byte that cannot go on a number.
abbrev pub stops : ℕ → Bool
stops c = not (isdig c) && not (c == 0x2e) && not (c == 0x65) && not (c == 0x45)

-- The digits of a number, read whole.
number_int-digits_before :
    (n : ℕ) (rest : List ℕ)
    → n < 2 ^ 64
    → stops (char_at rest 0) ≡ true
    → number_int (digits_before 20 n [] ++ rest) ≡ some (digits_before 20 n [], rest)
unfolding number_int digits_before
number_int-digits_before zero rest h e = refl
number_int-digits_before (suc n) rest h e =
    let (c, s, eq, k) = first_digit 19 (suc n) [] (omega arith) (omega arith) in
    let all : All IsDigit (c ∷ s) =
      subst (All IsDigit) eq (digits_before-IsDigit 20 (suc n) [] tt) in
    let stop : isdig (char_at rest 0) ≡ false = ground (arith, e) in
    subst (λ ds. number_int (ds ++ rest) ≡ some (ds, rest)) (sym eq)
      (rw (number_int, k, all.0) (ap (λ p. some p) (digit_run-append (c ∷ s) rest all stop)))

pub digits_shape :
    (n : ℕ) → n < 2 ^ 64 → (c : ℕ) × (s : List ℕ) × (digits_before 20 n [] ≡ c ∷ s) × IsDigit c
unfolding digits_before
digits_shape zero h = (0x30, [], refl, refl)
digits_shape (suc n) h =
    let (c, s, eq, k) = first_digit 19 (suc n) [] (omega arith) (omega arith) in
    (c, s, eq, (subst (All IsDigit) eq (digits_before-IsDigit 20 (suc n) [] tt)).0)

sign_digits :
    (n : ℕ) (rest : List ℕ)
    → n < 2 ^ 64
    → (char_at (digits_before 20 n [] ++ rest) 0 == 0x2d) ≡ false
sign_digits n rest h =
    let (c, s, eq, k) = digits_shape n h in
    subst (λ ds. (char_at (ds ++ rest) 0 == 0x2d) ≡ false) (sym eq) (ground (arith, k))

number_frac-stops :
    (rest : List ℕ) → stops (char_at rest 0) ≡ true → number_frac rest ≡ some ([], rest)
unfolding number_frac
number_frac-stops rest e =
    let point : (char_at rest 0 == 0x2e) ≡ false = ground (arith, e) in rw (number_frac, point) refl

number_exp-stops :
    (rest : List ℕ) → stops (char_at rest 0) ≡ true → number_exp rest ≡ some ([], rest)
unfolding number_exp
number_exp-stops rest e =
    let letter : ((char_at rest 0 == 0x65) || (char_at rest 0 == 0x45)) ≡ false =
      ground (arith, e) in
    rw (number_exp, letter) refl

and_false : (a : Bool) {b : Bool} → b ≡ false → (a && b) ≡ false
and_false true e = e
and_false false e = refl

-- The range of a signed number of 64 bits.
abbrev pub IsSmall : ℤ → Type 0
IsSmall (pos n) = n < 2 ^ 63
IsSmall (negsuc n) = n < 2 ^ 63

module _ {D : Type 0} (strtod : List ℕ → Option D) where
  -- An integer of 64 bits whose text `strtod` reads as its double.
  pub record IsReadable (n : Number D) : Type 0 where
    pub int : n.is_int ≡ true
    pub small : IsSmall n.i
    pub double : strtod (print_int n.i) ≡ some n.d

  number_value-strtoll :
      (tok : List ℕ) (d : D) (t : ℤ)
      → strtod tok ≡ some d
      → strtoll tok ≡ some t
      → (is_zero t && (char_at tok 0 == 0x2d)) ≡ false
      → number_value strtod tok true ≡ some (record { d = d; i = t; is_int = true })
  unfolding number_value
  number_value-strtoll tok d t e k z = rw (number_value, e, k, z) refl

  p_number-parts :
      (p sign int rest : List ℕ)
      → number_sign p ≡ (sign, int ++ rest)
      → number_int (int ++ rest) ≡ some (int, rest)
      → stops (char_at rest 0) ≡ true
      → (n : Number D) → number_value strtod (sign ++ int) true ≡ some n
      → p_number strtod p ≡ some (n, rest)
  unfolding p_number p_unsigned
  p_number-parts p sign int rest e k s n v =
      ap (λ q. p_unsigned strtod q.0 q.1) e
      ∙ rw (p_unsigned, k, number_frac-stops rest s, number_exp-stops rest s, append-nil int, v)
          refl

  p_number-pos :
      (n : ℕ) (d : D) (rest : List ℕ)
      → n < 2 ^ 63
      → strtod (print_int (pos n)) ≡ some d
      → stops (char_at rest 0) ≡ true
      → p_number strtod (print_int (pos n) ++ rest)
        ≡ some (record { d = d; i = pos n; is_int = true }, rest)
  unfolding print_int strtoll decimal
  p_number-pos n d rest h e s =
      let ds : List ℕ = digits_before 20 n [] in
      let plain : (char_at ds 0 == 0x2d) ≡ false =
        subst (λ t. (char_at t 0 == 0x2d) ≡ false) (append-nil ds)
          (sign_digits n [] (omega arith)) in
      let plain' : (char_at (ds ++ rest) 0 == 0x2d) ≡ false = sign_digits n rest (omega arith) in
      let value : decimal 0 ds ≡ n = decimal-digits_before 20 n [] (omega arith) in
      let small : ltb n (2 ^ 63) ≡ true = lt→ltb n (2 ^ 63) h in
      p_number-parts (ds ++ rest) [] ds rest (rw plain' refl)
        (number_int-digits_before n rest (omega arith) s) s _
        (number_value-strtoll ds d (pos n) e (rw (strtoll, plain, value, small) refl)
          (and_false (is_zero (pos n)) plain))

  p_number-negsuc :
      (n : ℕ) (d : D) (rest : List ℕ)
      → n < 2 ^ 63
      → strtod (print_int (negsuc n)) ≡ some d
      → stops (char_at rest 0) ≡ true
      → p_number strtod (print_int (negsuc n) ++ rest)
        ≡ some (record { d = d; i = negsuc n; is_int = true }, rest)
  unfolding print_int strtoll decimal
  p_number-negsuc n d rest h e s =
      let ds : List ℕ = digits_before 20 (suc n) [] in
      let value : decimal 0 ds ≡ suc n = decimal-digits_before 20 (suc n) [] (omega arith) in
      let small : leb (suc n) (2 ^ 63) ≡ true = ground arith in
      p_number-parts (0x2d ∷ (ds ++ rest)) (0x2d ∷ []) ds rest refl
        (number_int-digits_before (suc n) rest (omega arith) s) s _
        (number_value-strtoll (0x2d ∷ ds) d (negsuc n) e (rw (strtoll, value, small) refl) refl)

  by_sign :
      (i : ℤ) (d : D) (rest : List ℕ)
      → IsSmall i
      → strtod (print_int i) ≡ some d
      → stops (char_at rest 0) ≡ true
      → p_number strtod (print_int i ++ rest) ≡ some (record { d = d; i = i; is_int = true }, rest)
  by_sign (pos n) d rest h e s = p_number-pos n d rest h e s
  by_sign (negsuc n) d rest h e s = p_number-negsuc n d rest h e s

  -- A 64-bit integer that is written is read back, where `strtod` reads its text as its double and
  -- what stands behind it cannot go on a number. The text behind it is left.
  pub p_number-print_int :
      (n : Number D) (rest : List ℕ)
      → IsReadable n
      → stops (char_at rest 0) ≡ true
      → p_number strtod (print_int n.i ++ rest) ≡ some (n, rest)
  p_number-print_int n rest v s =
      by_sign n.i n.d rest v.small v.double s
      ∙ ap (λ b. some (record { d = n.d; i = n.i; is_int = b }, rest)) (sym v.int)
