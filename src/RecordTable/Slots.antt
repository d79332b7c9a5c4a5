-- ===== src/RecordTable/Slots.antt =====
-- Walking over the slots of the id map: the slots after one another reach every slot.
use native.Mathlib.Nat.{mod-eq_of_lt, mod_self, mod-lt, one-le-pow}
use asterism_asper.Base.{
  ℕ, zero, suc, ◌+◌, ◌-◌, ◌%◌, ◌^◌, ◌≤◌, ◌<◌, ◌≡◌, ◌≢◌, refl, ap, ◌∙◌, ◌&&◌, List, [], ◌∷◌, ltb,
  leb, ◌==◌, if◌then◌else◌, length, get_or, set, replicate, bit_and, bit_and-mask, arith,
  Bool-cases, inl, inr, ◌⊎◌,
}
use asterism_asper.RecordTable.{home, next_slot, free_slot}

-- A capacity that is a power of two.
abbrev pub IsCap : ℕ → Type 0
IsCap cap = (k : ℕ) × (cap ≡ 2 ^ k)

pub cap_pos : (cap : ℕ) → IsCap cap → 0 < cap
cap_pos cap (k, e) = omega (arith, e, one-le-pow k 2)

pub home-lt : (cap : ℕ) (id : List ℕ) → IsCap cap → home cap id < cap
home-lt cap id (k, e) = rw (e, bit_and-mask k _) (mod-lt _ (omega (arith, one-le-pow k 2)))

-- The slot after `pos`, where the last one is followed by the first.
abbrev pub after : ℕ → ℕ → ℕ
after cap pos = if pos + 1 == cap then 0 else pos + 1

pub next_slot-after : (cap pos : ℕ) → IsCap cap → pos < cap → next_slot cap pos ≡ after cap pos
next_slot-after cap pos (k, e) h =
    let m : bit_and (pos + 1) (cap - 1) ≡ (pos + 1) % cap = rw e (bit_and-mask k (pos + 1)) in
    elim (Bool-cases (pos + 1 == cap)) [
      | inl last ↦ ground (arith, m, last, mod_self cap)
      | inr more ↦
          ground (arith, m, more, λ (q : pos + 1 < cap). mod-eq_of_lt {n = pos + 1} {m = cap} q)
    ]

abbrev pub walk : ℕ → ℕ → ℕ → ℕ
walk cap zero pos = pos
walk cap (suc k) pos = walk cap k (after cap pos)

pub walk_lem :
    (cap k pos : ℕ)
    → pos < cap
    → k ≤ cap
    → walk cap k pos ≡ (if ltb (pos + k) cap then pos + k else pos + k - cap)
walk_lem cap zero pos h l = ground arith
walk_lem cap (suc k) pos h l = ground (arith, walk_lem cap k (pos + 1), walk_lem cap k 0)

pub get_or-set :
    (xs : List ℕ) (i j v : ℕ)
    → get_or (set xs i v) j 0 ≡ (if (i == j) && ltb j (length xs) then v else get_or xs j 0)
get_or-set [] i j v = ground arith
get_or-set (x ∷ xs) zero zero v = ground arith
get_or-set (x ∷ xs) zero (suc j) v = ground arith
get_or-set (x ∷ xs) (suc i) zero v = ground arith
get_or-set (x ∷ xs) (suc i) (suc j) v = ground (arith, get_or-set xs i j v)

-- How many slots are in use.
abbrev pub filled : List ℕ → ℕ
filled [] = 0
filled (zero ∷ xs) = filled xs
filled (suc v ∷ xs) = suc (filled xs)

pub filled-set :
    (xs : List ℕ) (i v : ℕ)
    → i < length xs
    → get_or xs i 0 ≡ 0
    → filled (set xs i (suc v)) ≡ suc (filled xs)
filled-set [] i v h e = absurd (omega arith)
filled-set (zero ∷ xs) zero v h e = refl
filled-set (suc x ∷ xs) zero v h e = absurd (omega (arith, e))
filled-set (zero ∷ xs) (suc i) v h e = filled-set xs i v (omega arith) e
filled-set (suc x ∷ xs) (suc i) v h e = ap suc (filled-set xs i v (omega arith) e)

pub filled-replicate : (n : ℕ) → filled (replicate n 0) ≡ 0
filled-replicate zero = refl
filled-replicate (suc n) = filled-replicate n

abbrev pub no_slots : ℕ → List ℕ
no_slots n = replicate n 0

pub get_or-no_slots : (n i : ℕ) → get_or (no_slots n) i 0 ≡ 0
get_or-no_slots zero i = refl
get_or-no_slots (suc n) zero = refl
get_or-no_slots (suc n) (suc i) = get_or-no_slots n i

-- Where fewer slots are in use than there are, one is empty.
pub empty_slot :
    (xs : List ℕ) → filled xs < length xs → (p : ℕ) × (p < length xs) × (get_or xs p 0 ≡ 0)
empty_slot [] h = absurd (omega arith)
empty_slot (zero ∷ xs) h = (0, omega arith, refl)
empty_slot (suc x ∷ xs) h = let (p, lt, e) = empty_slot xs (omega arith) in (suc p, omega arith, e)

-- A walk from any slot comes to an empty one.
pub walk-empty :
    (xs : List ℕ) (pos : ℕ)
    → pos < length xs
    → filled xs < length xs
    → (k : ℕ) × (k < length xs) × (get_or xs (walk (length xs) k pos) 0 ≡ 0)
walk-empty xs pos h l =
    let (p, lt, e) = empty_slot xs l in
    let cap = length xs in
    let k : ℕ = if leb pos p then p - pos else p + cap - pos in
    let small : k < cap = ground arith in
    let there : walk cap k pos ≡ p = walk_lem cap k pos h (omega (arith, small)) ∙ ground arith in
    (k, small, ap (λ i. get_or xs i 0) there ∙ e)

-- `free_slot` stops at an empty slot, and passes over used ones only.
pub record IsFree (xs : List ℕ) (start found : ℕ) : Type 0 where
  pub steps : ℕ
  pub few : steps < length xs
  pub at : walk (length xs) steps start ≡ found
  pub empty : get_or xs found 0 ≡ 0
  pub passed : (j : ℕ) → j < steps → get_or xs (walk (length xs) j start) 0 ≢ 0

pub after-lt : (cap pos : ℕ) → pos < cap → after cap pos < cap
after-lt cap pos h = ground arith

pub zero_or_suc : (n : ℕ) → (n ≡ 0) ⊎ ((v : ℕ) × (n ≡ suc v))
zero_or_suc zero = inl refl
zero_or_suc (suc v) = inr (v, refl)

passed_more :
    (xs : List ℕ) (pos steps v : ℕ)
    → get_or xs pos 0 ≡ suc v
    → ((j : ℕ) → j < steps → get_or xs (walk (length xs) j (after (length xs) pos)) 0 ≢ 0)
    → (j : ℕ) → j < suc steps
    → get_or xs (walk (length xs) j pos) 0 ≢ 0
passed_more xs pos steps v u rest zero h = λ z. omega (arith, u, z)
passed_more xs pos steps v u rest (suc j) h = rest j (omega arith)

free_slot-walk :
    (rounds : ℕ) (xs : List ℕ) (pos k : ℕ)
    → IsCap (length xs)
    → pos < length xs
    → k < rounds
    → get_or xs (walk (length xs) k pos) 0 ≡ 0
    → (steps : ℕ) × (steps ≤ k)
      × (walk (length xs) steps pos ≡ free_slot rounds xs pos)
      × (get_or xs (free_slot rounds xs pos) 0 ≡ 0)
      × ((j : ℕ) → j < steps → get_or xs (walk (length xs) j pos) 0 ≢ 0)
unfolding free_slot
free_slot-walk zero xs pos k c h l e = absurd (omega arith)
free_slot-walk (suc rounds) xs pos zero c h l e =
    (0, omega arith, rw (e, free_slot) refl, rw (e, free_slot) e, λ j lt. absurd (omega arith))
free_slot-walk (suc rounds) xs pos (suc k) c h l e = elim (zero_or_suc (get_or xs pos 0)) [
  | inl z ↦
      (0, omega arith, rw (z, free_slot) refl, rw (z, free_slot) z, λ j lt. absurd (omega arith))
  | inr (v, u) ↦
      let next = next_slot-after (length xs) pos c h in
      let (steps, le, there, empty, passed) =
        free_slot-walk rounds xs (after (length xs) pos) k c (after-lt (length xs) pos h)
          (omega arith) e in
      (
        suc steps,
        omega arith,
        rw (u, free_slot, next) there,
        rw (u, free_slot, next) empty,
        passed_more xs pos steps v u passed,
      )
]

-- The empty slot that an insertion finds.
pub free_slot-IsFree :
    (xs : List ℕ) (pos : ℕ)
    → IsCap (length xs)
    → pos < length xs
    → filled xs < length xs
    → IsFree xs pos (free_slot (length xs) xs pos)
free_slot-IsFree xs pos c h l =
    let (k, lt, e) = walk-empty xs pos h l in
    let (steps, le, there, empty, passed) = free_slot-walk (length xs) xs pos k c h lt e in
    record { steps = steps; few = omega arith; at = there; empty = empty; passed = passed }

pub walk-lt : (cap k pos : ℕ) → pos < cap → walk cap k pos < cap
walk-lt cap zero pos h = h
walk-lt cap (suc k) pos h = walk-lt cap k (after cap pos) (after-lt cap pos h)
