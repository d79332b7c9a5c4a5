-- ===== src/Sha256/Stream.antt =====
-- The stream of updates: what a context holds depends on the bytes alone, and not on their pieces.
use mathlib.Core.List.{append-nil, append_assoc}
use asterism_asper.Base.{
  ℕ, zero, suc, ◌+◌, ◌-◌, ◌*◌, ◌≤◌, ◌<◌, ◌≡◌, refl, sym, ap, ◌∙◌, true, false, ◌&&◌, List, [], ◌∷◌,
  ◌++◌, ltb, leb, ◌==◌, if◌then◌else◌, length, take, drop, arith, Bool-cases, inl, inr,
  length-append, u64, take-append-drop, length-take, length-drop,
}
use asterism_asper.Sha256.{Sha256, flushed, transformed, update_round, update_loop, sha256_update}

-- The same, one byte at a time.
abbrev pub take_in : Sha256 → ℕ → Sha256
take_in ctx x = flushed ctx (ctx.buffer ++ x ∷ [])

abbrev pub absorb : Sha256 → List ℕ → Sha256
absorb ctx [] = ctx
absorb ctx (x ∷ xs) = absorb (take_in ctx x) xs

pub absorb-append :
    (ctx : Sha256) (xs ys : List ℕ) → absorb ctx (xs ++ ys) ≡ absorb (absorb ctx xs) ys
absorb-append ctx [] ys = refl
absorb-append ctx (x ∷ xs) ys = absorb-append (take_in ctx x) xs ys

-- Bytes that do not fill the buffer stand in it, and bytes that fill it are a block with it.
absorb-fill :
    (ctx : Sha256) (xs : List ℕ)
    → length ctx.buffer + length xs ≤ 64
    → length ctx.buffer < 64
    → absorb ctx xs ≡ flushed ctx (ctx.buffer ++ xs)
absorb-fill ctx [] h l =
    let short : (length ctx.buffer == 64) ≡ false = ground arith in
    rw (append-nil ctx.buffer, short) refl
absorb-fill ctx (x ∷ []) h l = refl
absorb-fill ctx (x ∷ y ∷ ys) h l =
    let size = length-append ctx.buffer (x ∷ []) in
    let more : (length (ctx.buffer ++ x ∷ []) == 64) ≡ false = ground (arith, size) in
    let next : Sha256 = record ctx { buffer = ctx.buffer ++ x ∷ [] } in
    rw (more, ← append_assoc ctx.buffer (x ∷ []) (y ∷ ys))
      (absorb-fill next (y ∷ ys) (omega (arith, size)) (omega (arith, size)))

length-zero : (xs : List ℕ) → length xs ≡ 0 → xs ≡ []
length-zero [] e = refl
length-zero (x ∷ xs) e = absurd (omega (arith, e))

block_ready : (a b : ℕ) → ((a == 0) && leb 64 b) ≡ true → (a ≡ 0) × (64 ≤ b)
block_ready a b e = ground arith

-- A round takes in what it takes from the data.
update_round-absorb :
    (ctx : Sha256) (bytes : List ℕ)
    → length ctx.buffer < 64
    → (n : ℕ) × (update_round ctx bytes ≡ (absorb ctx (take n bytes), drop n bytes))
      × (0 < length bytes → 0 < n)
update_round-absorb ctx bytes l =
    let room : ℕ = 64 - length ctx.buffer in
    let n : ℕ = if ltb (length bytes) room then length bytes else room in
    elim (Bool-cases ((length ctx.buffer == 0) && leb 64 (length bytes))) [
      | inl whole ↦
          let (zero_long, enough) = block_ready (length ctx.buffer) (length bytes) whole in
          let none_yet : ctx.buffer ≡ [] = length-zero ctx.buffer zero_long in
          let cut : length (take 64 bytes) ≡ 64 = omega (arith, enough, length-take 64 bytes) in
          let full : (length (take 64 bytes) == 64) ≡ true = ground (arith, cut) in
          let block : flushed ctx (ctx.buffer ++ take 64 bytes)
              ≡ record ctx { state = transformed ctx.state (take 64 bytes) } =
            rw (none_yet, full) refl in
          (
            64,
            rw whole (
                ap (λ c. (c, drop 64 bytes))
                  (sym block
                    ∙ sym (absorb-fill ctx (take 64 bytes) (omega (arith, zero_long, cut)) l))),
            λ some_left. omega arith,
          )
      | inr part ↦
          let cut : length ctx.buffer + length (take n bytes) ≤ 64 =
            ground (arith, length-take n bytes) in
          (
            n,
            rw part (ap (λ c. (c, drop n bytes)) (sym (absorb-fill ctx (take n bytes) cut l))),
            λ some_left. ground arith,
          )
    ]

-- A context between calls: the buffer is not full.
abbrev pub IsOpen : Sha256 → Type 0
IsOpen ctx = length ctx.buffer < 64

pub absorb-IsOpen : (ctx : Sha256) (xs : List ℕ) → IsOpen ctx → IsOpen (absorb ctx xs)
absorb-IsOpen ctx [] l = l
absorb-IsOpen ctx (x ∷ xs) l =
    absorb-IsOpen (take_in ctx x) xs (elim (Bool-cases (length (ctx.buffer ++ x ∷ []) == 64)) [
      | inl full ↦ rw full (omega arith)
      | inr more ↦ rw more (ground (arith, more, length-append ctx.buffer (x ∷ [])))
    ])

-- With as many rounds as there are bytes, the loop takes all of them in.
pub update_loop-absorb :
    (rounds : ℕ) (ctx : Sha256) (bytes : List ℕ)
    → length bytes ≤ rounds
    → IsOpen ctx
    → update_loop rounds ctx bytes ≡ absorb ctx bytes
unfolding update_loop
update_loop-absorb zero ctx [] h l = refl
update_loop-absorb zero ctx (x ∷ xs) h l = absurd (omega arith)
update_loop-absorb (suc rounds) ctx [] h l = refl
update_loop-absorb (suc rounds) ctx (x ∷ xs) h l =
    let (n, eq, some_taken) = update_round-absorb ctx (x ∷ xs) l in
    let cut : length (drop n (x ∷ xs)) ≤ rounds =
      omega (arith, length-drop n (x ∷ xs), some_taken (omega arith)) in
    ap (λ p. update_loop rounds p.0 p.1) eq
    ∙ update_loop-absorb rounds (absorb ctx (take n (x ∷ xs))) (drop n (x ∷ xs)) cut
        (absorb-IsOpen ctx (take n (x ∷ xs)) l)
    ∙ sym (absorb-append ctx (take n (x ∷ xs)) (drop n (x ∷ xs)))
    ∙ ap (λ t. absorb ctx t) (take-append-drop n (x ∷ xs))

take_in-bitlen :
    (ctx : Sha256) (n x : ℕ)
    → take_in (record ctx { bitlen = n }) x ≡ record (take_in ctx x) { bitlen = n }
take_in-bitlen ctx n x = elim (Bool-cases (length (ctx.buffer ++ x ∷ []) == 64)) [
  | inl full ↦ rw full refl
  | inr more ↦ rw more refl
]

-- The count of bits is not looked at on the way.
pub absorb-bitlen :
    (ctx : Sha256) (n : ℕ) (xs : List ℕ)
    → absorb (record ctx { bitlen = n }) xs ≡ record (absorb ctx xs) { bitlen = n }
absorb-bitlen ctx n [] = refl
absorb-bitlen ctx n (x ∷ xs) =
    ap (λ c. absorb c xs) (take_in-bitlen ctx n x) ∙ absorb-bitlen (take_in ctx x) n xs

-- An update takes its bytes in and counts their bits.
pub sha256_update-absorb :
    (ctx : Sha256) (bytes : List ℕ)
    → IsOpen ctx
    → sha256_update ctx bytes
      ≡ record (absorb ctx bytes) { bitlen = u64 (ctx.bitlen + length bytes * 8) }
unfolding sha256_update
sha256_update-absorb ctx bytes l =
    update_loop-absorb (length bytes) (record ctx { bitlen = u64 (ctx.bitlen + length bytes * 8) })
      bytes (omega arith) l
    ∙ absorb-bitlen ctx (u64 (ctx.bitlen + length bytes * 8)) bytes

bits_add : (n a b : ℕ) → u64 (u64 (n + a * 8) + b * 8) ≡ u64 (n + (a + b) * 8)
bits_add n a b = omega arith

-- Two updates one after the other leave the context that one update with all the bytes leaves.
pub sha256_update-append :
    (ctx : Sha256) (xs ys : List ℕ)
    → IsOpen ctx
    → sha256_update (sha256_update ctx xs) ys ≡ sha256_update ctx (xs ++ ys)
sha256_update-append ctx xs ys l =
    let n = u64 (ctx.bitlen + length xs * 8) in
    let one = sha256_update-absorb ctx xs l in
    let open' : IsOpen (record (absorb ctx xs) { bitlen = n }) = absorb-IsOpen ctx xs l in
    let count : u64 (n + length ys * 8) ≡ u64 (ctx.bitlen + length (xs ++ ys) * 8) =
      bits_add ctx.bitlen (length xs) (length ys)
      ∙ ap (λ k. u64 (ctx.bitlen + k * 8)) (sym (length-append xs ys)) in
    ap (λ c. sha256_update c ys) one
    ∙ sha256_update-absorb (record (absorb ctx xs) { bitlen = n }) ys open'
    ∙ ap (λ (c : Sha256). record c { bitlen = u64 (n + length ys * 8) })
        (absorb-bitlen (absorb ctx xs) n ys
          ∙ ap (λ (c : Sha256). record c { bitlen = n }) (sym (absorb-append ctx xs ys)))
    ∙ ap (λ k. record (absorb ctx (xs ++ ys)) { bitlen = k }) count
    ∙ sym (sha256_update-absorb ctx (xs ++ ys) l)
