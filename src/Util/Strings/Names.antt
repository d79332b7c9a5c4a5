-- ===== src/Util/Strings/Names.antt =====
-- Names that pass the checks fit the buffers of 65 bytes that hold them.
use asterism_asper.Base.{
  ℕ, zero, suc, ◌+◌, ◌-◌, ◌≤◌, ◌≡◌, refl, ap, true, List, [], ◌∷◌, length, take, arith,
}
use asterism_asper.Base.Text.{truncated}
use asterism_asper.Util.Strings.{slug_valid, slug_tail, is_lower_alnum, scope_valid}

take-all : (n : ℕ) (s : List ℕ) → length s ≤ n → take n s ≡ s
take-all zero [] h = refl
take-all zero (c ∷ s) h = absurd (omega arith)
take-all (suc n) [] h = refl
take-all (suc n) (c ∷ s) h = ap (λ t. c ∷ t) (take-all n s (omega arith))

slug_tail-le : (i : ℕ) (s : List ℕ) → i ≤ 64 → slug_tail i s ≡ true → length s ≤ 64 - i
unfolding slug_tail
slug_tail-le i [] h e = omega arith
slug_tail-le i (c ∷ s) h e =
    let small : i ≤ 63 = ground (arith, e) in
    let rest : slug_tail (i + 1) s ≡ true = ground (arith, e) in
    omega (arith, slug_tail-le (i + 1) s (omega arith) rest)

-- A valid slug has 1 to 64 characters and is copied whole into a field of 65 bytes.
pub slug_valid-fits :
    (s : List ℕ) → slug_valid s ≡ true → (1 ≤ length s) × (length s ≤ 64) × (truncated 65 s ≡ s)
unfolding slug_valid is_lower_alnum
slug_valid-fits [] e = absurd (cc)
slug_valid-fits (c ∷ s) e =
    let tail : slug_tail 1 s ≡ true = ground (arith, e) in
    let short = slug_tail-le 1 s (omega arith) tail in
    (omega arith, omega arith, take-all 64 (c ∷ s) (omega arith))

-- A valid scope has 1 to 64 characters and is copied whole into a field of 65 bytes.
pub scope_valid-fits :
    (s : List ℕ) → scope_valid s ≡ true → (1 ≤ length s) × (length s ≤ 64) × (truncated 65 s ≡ s)
unfolding scope_valid
scope_valid-fits s e =
    let short : length s ≤ 64 = ground (arith, e) in (ground (arith, e), short, take-all 64 s short)
