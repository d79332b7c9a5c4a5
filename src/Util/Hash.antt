-- ===== src/Util/Hash.antt =====
-- `asper_fnv1a64` of src/util.c.
use asterism_asper.Base.{ℕ, ◌*◌, ◌^◌, ◌<◌, ◌≡◌, refl, List, [], ◌∷◌, ◌++◌, arith, u64, bit_xor}

-- One round, in 64 bits.
pub fnv_step : ℕ → ℕ → ℕ
fnv_step h b = u64 (bit_xor h b * 0x100000001b3)

pub fnv_loop : ℕ → List ℕ → ℕ
fnv_loop h [] = h
fnv_loop h (b ∷ s) = fnv_loop (fnv_step h b) s

pub fnv1a64 : List ℕ → ℕ
fnv1a64 s = fnv_loop 0xcbf29ce484222325 s

pub fnv_loop-append : (h : ℕ) (s t : List ℕ) → fnv_loop h (s ++ t) ≡ fnv_loop (fnv_loop h s) t
unfolding fnv_loop
fnv_loop-append h [] t = refl
fnv_loop-append h (b ∷ s) t = fnv_loop-append (fnv_step h b) s t

fnv_loop-lt : (h : ℕ) (s : List ℕ) → h < 2 ^ 64 → fnv_loop h s < 2 ^ 64
unfolding fnv_loop fnv_step
fnv_loop-lt h [] lt = lt
fnv_loop-lt h (b ∷ s) lt = fnv_loop-lt (u64 (bit_xor h b * 0x100000001b3)) s (omega arith)

-- The hash fits 64 bits.
pub fnv1a64-lt : (s : List ℕ) → fnv1a64 s < 2 ^ 64
unfolding fnv1a64
fnv1a64-lt s = fnv_loop-lt 0xcbf29ce484222325 s (omega arith)

fnv_empty_and_a : (fnv1a64 [] ≡ 0xcbf29ce484222325) × (fnv1a64 (b'a' ∷ []) ≡ 0xaf63dc4c8601ec8c)
unfolding fnv1a64 fnv_loop fnv_step
fnv_empty_and_a = (refl, refl)
