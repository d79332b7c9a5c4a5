-- ===== src/Base/Text.antt =====
-- Comparison of C strings: `strcmp` by its sign, and the two lengths that guard a buffer.
use Prim.Native.Char.{code}
use Prim.Native.String.{String}
use asterism_asper.Base.{
  ℕ, zero, suc, ◌≡◌, refl, ap, IsText, Bool, true, false, ◌&&◌, List, [], ◌∷◌, arith, ltb, ◌==◌,
  take, if◌then◌else◌,
}

-- `!strcmp(a, b)`, and the equality of two fixed blocks of bytes.
unfoldable pub str_eq : List ℕ → List ℕ → Bool
str_eq [] [] = true
str_eq [] (b ∷ bs) = false
str_eq (a ∷ as') [] = false
str_eq (a ∷ as') (b ∷ bs) = (a == b) && str_eq as' bs

-- `strcmp(a, b) < 0`.
unfoldable pub str_lt : List ℕ → List ℕ → Bool
str_lt [] [] = false
str_lt [] (b ∷ bs) = true
str_lt (a ∷ as') [] = false
str_lt (a ∷ as') (b ∷ bs) = if ltb a b then true else if a == b then str_lt as' bs else false

pub str_eq→≡ : (a b : List ℕ) → str_eq a b ≡ true → a ≡ b
unfolding str_eq
str_eq→≡ [] [] h = refl
str_eq→≡ [] (b ∷ bs) h = ground arith
str_eq→≡ (a ∷ as') [] h = ground arith
str_eq→≡ (a ∷ as') (b ∷ bs) h = ground (arith, str_eq→≡ as' bs)

pub str_eq_refl : (a : List ℕ) → str_eq a a ≡ true
unfolding str_eq
str_eq_refl [] = refl
str_eq_refl (a ∷ as') = ground (arith, str_eq_refl as')

pub str_lt_irrefl : (a : List ℕ) → str_lt a a ≡ false
unfolding str_lt
str_lt_irrefl [] = refl
str_lt_irrefl (a ∷ as') = ground (arith, str_lt_irrefl as')

pub str_lt_trans : (a b c : List ℕ) → str_lt a b ≡ true → str_lt b c ≡ true → str_lt a c ≡ true
unfolding str_lt
str_lt_trans [] [] c h k = ground arith
str_lt_trans [] (b ∷ bs) [] h k = ground arith
str_lt_trans [] (b ∷ bs) (c ∷ cs) h k = refl
str_lt_trans (a ∷ as') [] c h k = ground arith
str_lt_trans (a ∷ as') (b ∷ bs) [] h k = ground arith
str_lt_trans (a ∷ as') (b ∷ bs) (c ∷ cs) h k = ground (arith, str_lt_trans as' bs cs)

-- Exactly one of less, equal and greater holds.
pub str_lt_total : (a b : List ℕ) → str_lt a b ≡ false → str_eq a b ≡ false → str_lt b a ≡ true
unfolding str_lt str_eq
str_lt_total [] [] h k = ground arith
str_lt_total [] (b ∷ bs) h k = ground arith
str_lt_total (a ∷ as') [] h k = refl
str_lt_total (a ∷ as') (b ∷ bs) h k = ground (arith, str_lt_total as' bs)

-- `snprintf(dst, size, "%s", s)`: what fits before the terminator.
abbrev pub truncated : ℕ → List ℕ → List ℕ
truncated zero s = []
truncated (suc n) s = take n s

-- The bytes of an ASCII literal.
abbrev pub codes : String → List ℕ
codes String.[] = []
codes (String.◌∷◌ c s) = code c ∷ codes s

-- A C string ends at its first zero byte.
unfoldable pub until_zero : List ℕ → List ℕ
until_zero [] = []
until_zero (zero ∷ s) = []
until_zero (suc c ∷ s) = suc c ∷ until_zero s

pub until_zero_text : (s : List ℕ) → IsText s → until_zero s ≡ s
unfolding until_zero
until_zero_text [] t = refl
until_zero_text (zero ∷ s) ((h, l), t) = absurd (omega (arith, h))
until_zero_text (suc c ∷ s) (h, t) = ap (λ r. suc c ∷ r) (until_zero_text s t)
