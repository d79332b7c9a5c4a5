-- ===== src/EventFrame/Numbers.antt =====
-- The numbers of a frame of src/event_frame.c, printed and read.
use mathlib.Core.List.{append-nil}
use native.Mathlib.Nat.{pow-suc}
use asterism_asper.Base.{
  ℕ, zero, suc, ◌+◌, ◌-◌, ◌/◌, ◌%◌, ◌^◌, ◌≤◌, ◌<◌, ◌≡◌, refl, sym, true, false, not, ◌&&◌, List, [],
  ◌∷◌, ◌++◌, some, ltb, leb, ◌==◌, length, arith, char_at, subst, ok, All, Bool-cases, inl, inr,
}
use asterism_asper.Base.Int.{ℤ, pos, negsuc}
use asterism_asper.Json.Parse.{isdig, digit_run, decimal, strtoll}
use asterism_asper.Json.Write.{digits_before, print_int}
use asterism_asper.Json.Numbers.{
  IsDigit, IsSmall, digits_shape, digits_before-IsDigit, decimal-digits_before, digit_run-append,
}
use asterism_asper.EventFrame.{EventKind, kind_number, kind_from, print_unsigned}
use asterism_asper.EventFrame.Read.{number, signed_run, signed_number}

print_unsigned-IsDigit : (n : ℕ) → All IsDigit (print_unsigned n)
print_unsigned-IsDigit n = digits_before-IsDigit 20 n [] tt

run-print_unsigned :
    (n : ℕ) (rest : List ℕ)
    → digit_run (print_unsigned n ++ 0x20 ∷ rest) ≡ (print_unsigned n, 0x20 ∷ rest)
run-print_unsigned n rest =
    digit_run-append (print_unsigned n) (0x20 ∷ rest) (print_unsigned-IsDigit n) refl

value-print_unsigned : (n : ℕ) → n < 2 ^ 64 → decimal 0 (print_unsigned n) ≡ n
unfolding decimal
value-print_unsigned n h = decimal-digits_before 20 n [] (omega arith)

starts : (n : ℕ) (rest : List ℕ) → n < 2 ^ 64 → isdig (char_at (print_unsigned n ++ rest) 0) ≡ true
starts n rest h =
    let (c, s, eq, d) = digits_shape n h in
    subst (λ ds. isdig (char_at (ds ++ rest) 0) ≡ true) (sym eq) d

pub number-print_unsigned :
    (n max : ℕ) (rest : List ℕ)
    → n < 2 ^ 64
    → n ≤ max
    → number (print_unsigned n ++ 0x20 ∷ rest) max ≡ ok (n, rest)
unfolding number
number-print_unsigned n max rest h k =
    let below : ltb (2 ^ 64 - 1) n ≡ false = ground arith in
    let within : ltb max n ≡ false = ground arith in
    rw
      (
        number,
        run-print_unsigned n rest,
        starts n (0x20 ∷ rest) h,
        value-print_unsigned n h,
        below,
        within,
      )
      refl

no_dash :
    (n : ℕ) (rest : List ℕ) → n < 2 ^ 64 → (char_at (print_unsigned n ++ rest) 0 == 0x2d) ≡ false
no_dash n rest h =
    let d : isdig (char_at (print_unsigned n ++ rest) 0) ≡ true = starts n rest h in
    ground (arith, d)

strtoll-pos : (n : ℕ) → n < 2 ^ 63 → strtoll (print_unsigned n) ≡ some (pos n)
unfolding strtoll
strtoll-pos n h =
    let plain : (char_at (print_unsigned n) 0 == 0x2d) ≡ false =
      subst (λ t. (char_at t 0 == 0x2d) ≡ false) (append-nil (print_unsigned n))
        (no_dash n [] (omega arith)) in
    let small : ltb n (2 ^ 63) ≡ true = ground arith in
    rw (strtoll, plain, value-print_unsigned n (omega arith), small) refl

strtoll-negsuc : (n : ℕ) → n < 2 ^ 63 → strtoll (0x2d ∷ print_unsigned (suc n)) ≡ some (negsuc n)
unfolding strtoll
strtoll-negsuc n h =
    let small : leb (suc n) (2 ^ 63) ≡ true = ground arith in
    rw (strtoll, value-print_unsigned (suc n) (omega arith), small) refl

signed_number-parts :
    (p token end : List ℕ) (value : ℤ)
    → (not (char_at p 0 == 0x2d) && not (isdig (char_at p 0))) ≡ false
    → signed_run p ≡ (token, 0x20 ∷ end)
    → strtoll token ≡ some value
    → ((char_at p 0 == 0x2d) && (length token == 1)) ≡ false
    → signed_number p ≡ ok (value, end)
unfolding signed_number
signed_number-parts p token end value start run v more =
    rw (signed_number, run, start, v, run, more) refl

pub signed_number-print_int :
    (i : ℤ) (rest : List ℕ) → IsSmall i → signed_number (print_int i ++ 0x20 ∷ rest) ≡ ok (i, rest)
unfolding signed_run print_int
signed_number-print_int (pos n) rest h =
    let plain : (char_at (print_unsigned n ++ 0x20 ∷ rest) 0 == 0x2d) ≡ false =
      no_dash n (0x20 ∷ rest) (omega arith) in
    signed_number-parts (print_unsigned n ++ 0x20 ∷ rest) (print_unsigned n) rest (pos n)
      (rw (plain, starts n (0x20 ∷ rest) (omega arith)) refl)
      (rw (signed_run, plain) (run-print_unsigned n rest)) (strtoll-pos n h) (rw plain refl)
signed_number-print_int (negsuc n) rest h =
    let (c, s, eq, d) = digits_shape (suc n) (omega arith) in
    let more : (length (0x2d ∷ print_unsigned (suc n)) == 1) ≡ false =
      subst (λ ds. (length (0x2d ∷ ds) == 1) ≡ false) (sym eq) (ground arith) in
    signed_number-parts (0x2d ∷ (print_unsigned (suc n) ++ 0x20 ∷ rest))
      (0x2d ∷ print_unsigned (suc n)) rest (negsuc n) refl
      (rw (signed_run, run-print_unsigned (suc n) rest) refl) (strtoll-negsuc n h) more

pub kind_from-number : (kind : EventKind) → kind_from (kind_number kind) ≡ kind
kind_from-number EventKind.user = refl
kind_from-number EventKind.assistant = refl
kind_from-number EventKind.decision = refl
kind_from-number EventKind.tool_call = refl
kind_from-number EventKind.tool_result = refl
kind_from-number EventKind.diagnostic = refl
kind_from-number EventKind.checkpoint = refl
kind_from-number EventKind.artifact = refl

pub kind_bound : (kind : EventKind) → kind_number kind ≤ 7
kind_bound EventKind.user = omega arith
kind_bound EventKind.assistant = omega arith
kind_bound EventKind.decision = omega arith
kind_bound EventKind.tool_call = omega arith
kind_bound EventKind.tool_result = omega arith
kind_bound EventKind.diagnostic = omega arith
kind_bound EventKind.checkpoint = omega arith
kind_bound EventKind.artifact = omega arith

-- A number below a power of ten has at most that many digits.
pub length-digits_before :
    (r k n : ℕ) (acc : List ℕ)
    → n < 10 ^ k
    → 0 < k
    → length (digits_before r n acc) ≤ k + length acc
unfolding digits_before
length-digits_before zero k n acc h p = omega arith
length-digits_before (suc r) zero n acc h p = absurd (omega arith)
length-digits_before (suc r) (suc zero) n acc h p =
    let last : ltb n 10 ≡ true = ground arith in rw (digits_before, last) (omega arith)
length-digits_before (suc r) (suc (suc k)) n acc h p = elim (Bool-cases (ltb n 10)) [
  | inl last ↦ rw (digits_before, last) (omega arith)
  | inr more ↦
      rw (digits_before, more)
        (omega (
          arith,
          length-digits_before r (suc k) (n / 10) ((0x30 + n % 10) ∷ acc)
              (omega (arith, pow-suc 10 (suc k))) (omega arith),
        ))
]
