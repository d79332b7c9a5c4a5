-- ===== src/Time/Duration.antt =====
-- `dur_number` and `asper_duration_parse` of src/time.c; `none` is the result `false`.
use asterism_asper.Base.{
  ℕ, zero, suc, ◌+◌, ◌-◌, ◌*◌, ◌^◌, ◌≤◌, ◌<◌, ◌≡◌, not, ◌&&◌, ◌||◌, List, [], ◌∷◌, Option, none,
  some, arith, ltb, ◌==◌, if◌then◌else◌, drop, char_at, length, in_range, some_inj, Bool-cases, inl,
  inr, ap,
}
use asterism_asper.Base.Maybe.{◌>>=◌, ◌>>◌, require, >>=-eq-some}
use native.Mathlib.Nat.{pow-suc, one-le-pow}

-- The digits of a number, of which `left` more are allowed: the value, how many are left, the rest.
unfoldable pub scan_digits : ℕ → ℕ → List ℕ → Option (ℕ × ℕ × List ℕ)
scan_digits left v [] = some (v, left, [])
scan_digits zero v (c ∷ s) = if in_range b'0' b'9' c then none else some (v, 0, c ∷ s)
scan_digits (suc left) v (c ∷ s) =
    if in_range b'0' b'9' c
    then scan_digits left (v * 10 + (c - b'0')) s
    else some (v, suc left, c ∷ s)

unfoldable pub dur_number : List ℕ → Option (ℕ × List ℕ)
dur_number p = do
  (v, left, q) ← scan_digits 12 0 p
  require (not (left == 12))
  require (not ((char_at q 0 == b'.') || (char_at q 0 == b',')))
  some (v, q)

-- One time component: the new sum and the new stage, or `none` for a unit out of order.
unfoldable pub time_part : ℕ → ℕ → ℕ → ℕ → Option (ℕ × ℕ)
time_part u stage acc v =
    if (u == b'H') && ltb stage 1
    then some (acc + v * 3600, 1)
    else if (u == b'M') && ltb stage 2
    then some (acc + v * 60, 2)
    else if (u == b'S') && ltb stage 3
    then some (acc + v, 3)
    else none

-- The loop. Every round takes a unit at least, so the length of the text is enough fuel.
unfoldable pub time_loop : ℕ → ℕ → ℕ → List ℕ → Option ℕ
time_loop fuel stage acc [] = some acc
time_loop zero stage acc (c ∷ s) = none
time_loop (suc fuel) stage acc (c ∷ s) = do
  (v, q) ← dur_number (c ∷ s)
  (acc', stage') ← time_part (char_at q 0) stage acc v
  time_loop fuel stage' acc' (drop 1 q)

-- From the "T" on.
unfoldable pub time_section : ℕ → List ℕ → Option ℕ
time_section acc p = do
  require (char_at p 0 == b'T')
  require (not (length (drop 1 p) == 0))
  time_loop (length p) 0 acc (drop 1 p)

unfoldable pub duration_parse : List ℕ → Option ℕ
duration_parse s = do
  require (char_at s 0 == b'P')
  let p = drop 1 s
  require (not (length p == 0))
  if char_at p 0 == b'T' then time_section 0 p else (do
    (v, q) ← dur_number p
    if char_at q 0 == b'W' then (do require (length (drop 1 q) == 0); some (v * 604800)) else (do
      require (char_at q 0 == b'D')
      let rest = drop 1 q
      if length rest == 0 then some (v * 86400) else time_section (v * 86400) rest))

digit_step : (v k x : ℕ) → k ≤ 9 → (v * 10 + k + 1) * x ≤ (v + 1) * (10 * x)
digit_step v k x h = grind arith

grows : (left v : ℕ) → v < (v + 1) * 10 ^ left
grows left v = grind (arith, one-le-pow left 10)

scan_digits-lt :
    (left v : ℕ) (s : List ℕ) (r : ℕ × ℕ × List ℕ)
    → scan_digits left v s ≡ some r
    → r.0 < (v + 1) * 10 ^ left
unfolding scan_digits
scan_digits-lt left v [] r e = ground (arith, grows left v)
scan_digits-lt zero v (c ∷ s) r e = ground (arith, grows 0 v)
scan_digits-lt (suc left) v (c ∷ s) r e = elim (Bool-cases (in_range b'0' b'9' c)) [
  | inl digit ↦
      let ih = scan_digits-lt left (v * 10 + (c - b'0')) s r (rw digit at e) in
      let small : c - b'0' ≤ 9 = ground arith in
      omega (
        arith,
        ih,
        digit_step v (c - b'0') (10 ^ left) small,
        pow-suc 10 left,
        ap (λ (x : ℕ). (v + 1) * x) (pow-suc 10 left),
      )
  | inr other ↦ ground (arith, grows (suc left) v)
]

dur_number-lt : (p : List ℕ) (r : ℕ × List ℕ) → dur_number p ≡ some r → r.0 < 10 ^ 12
unfolding dur_number
dur_number-lt p r e =
    let (scan, run, rest) = >>=-eq-some (scan_digits 12 0 p) _ e in
    let lt = scan_digits-lt 12 0 p scan run in
    let (_, _, e₁) = >>=-eq-some (require (not (scan.1 == 12))) _ rest in
    let (_, _, e₂) =
      >>=-eq-some (require (not ((char_at scan.2 0 == b'.') || (char_at scan.2 0 == b',')))) _ e₁ in
    let value : scan.0 ≡ r.0 = ap (λ (q : ℕ × List ℕ). q.0) (some_inj e₂) in omega arith

-- What the sum can be at most once the components up to a stage have been read.
abbrev stage_bound : ℕ → ℕ
stage_bound stage =
    if ltb stage 1
    then 10 ^ 12 * 86400
    else if ltb stage 2
    then 10 ^ 12 * 90000
    else if ltb stage 3
    then 10 ^ 12 * 90060
    else 10 ^ 12 * 90061

time_part-le :
    (u stage acc v : ℕ) (r : ℕ × ℕ)
    → acc ≤ stage_bound stage
    → v < 10 ^ 12
    → time_part u stage acc v ≡ some r
    → r.0 ≤ stage_bound r.1
unfolding time_part
time_part-le u stage acc v r h lt e = ground arith

time_loop-le :
    (fuel stage acc : ℕ) (p : List ℕ) (r : ℕ)
    → acc ≤ stage_bound stage
    → time_loop fuel stage acc p ≡ some r
    → r ≤ 10 ^ 12 * 90061
unfolding time_loop
time_loop-le fuel stage acc [] r h e = ground arith
time_loop-le zero stage acc (c ∷ s) r h e = cc
time_loop-le (suc fuel) stage acc (c ∷ s) r h e =
    let (n, run, rest) = >>=-eq-some (dur_number (c ∷ s)) _ e in
    let (part, step, more) = >>=-eq-some (time_part (char_at n.1 0) stage acc n.0) _ rest in
    time_loop-le fuel part.1 part.0 (drop 1 n.1) r
      (time_part-le (char_at n.1 0) stage acc n.0 part h (dur_number-lt (c ∷ s) n run) step) more

time_section-le :
    (acc : ℕ) (p : List ℕ) (r : ℕ)
    → acc ≤ 10 ^ 12 * 86400
    → time_section acc p ≡ some r
    → r ≤ 10 ^ 12 * 90061
unfolding time_section
time_section-le acc p r h e =
    let (_, _, e₁) = >>=-eq-some (require (char_at p 0 == b'T')) _ e in
    let (_, _, e₂) = >>=-eq-some (require (not (length (drop 1 p) == 0))) _ e₁ in
    time_loop-le (length p) 0 acc (drop 1 p) r h e₂

days_only :
    (v : ℕ) (p : List ℕ) (r : ℕ)
    → v < 10 ^ 12
    → (if length p == 0 then some (v * 86400) else time_section (v * 86400) p) ≡ some r
    → r < 2 ^ 63
days_only v p r lt e = elim (Bool-cases (length p == 0)) [
  | inl last ↦ omega (arith, some_inj (rw last at e))
  | inr more ↦ omega (arith, time_section-le (v * 86400) p r (omega arith) (rw more at e))
]

-- A duration that is accepted fits the signed 64 bits of the result.
pub duration_parse-lt : (s : List ℕ) (r : ℕ) → duration_parse s ≡ some r → r < 2 ^ 63
unfolding duration_parse
duration_parse-lt s r e =
    let (_, _, e₁) = >>=-eq-some (require (char_at s 0 == b'P')) _ e in
    let (_, _, e₂) = >>=-eq-some (require (not (length (drop 1 s) == 0))) _ e₁ in
    elim (Bool-cases (char_at (drop 1 s) 0 == b'T')) [
      | inl time ↦ omega (arith, time_section-le 0 (drop 1 s) r (omega arith) (rw time at e₂))
      | inr date ↦
          let (n, run, e₃) = >>=-eq-some (dur_number (drop 1 s)) _ (rw date at e₂) in
          let lt = dur_number-lt (drop 1 s) n run in
          elim (Bool-cases (char_at n.1 0 == b'W')) [
            | inl weeks ↦
                let (_, _, e₄) =
                  >>=-eq-some (require (length (drop 1 n.1) == 0)) _ (rw weeks at e₃) in
                omega (arith, some_inj e₄)
            | inr days ↦
                let (_, _, e₄) = >>=-eq-some (require (char_at n.1 0 == b'D')) _ (rw days at e₃) in
                days_only n.0 (drop 1 n.1) r lt e₄
          ]
    ]
