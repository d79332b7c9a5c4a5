-- ===== src/Sha256/Padding.antt =====
-- The padding of a message, the digest of the padded message, and the digest of a file.
use asterism_asper.Base.{
  ℕ, zero, suc, ◌+◌, ◌-◌, ◌*◌, ◌%◌, ◌<◌, ◌≡◌, refl, sym, ap, ◌∙◌, Bool, true, false, ◌&&◌, List, [],
  ◌∷◌, ◌++◌, ◌==◌, if◌then◌else◌, length, replicate, arith, Bool-cases, inl, inr, length-append,
  u64, ok, err, Error, not, ◌^◌,
}
use asterism_asper.Sha256.{
  Sha256, sha256_update, sha256_init, sha256_final, pad_zeros, bits_tail, digest, sha256, FileRead,
  sha256_file, update_pieces,
}
use asterism_asper.Sha256.Stream.{
  absorb, take_in, absorb-append, absorb-IsOpen, IsOpen, sha256_update-absorb, sha256_update-append,
  absorb-bitlen,
}

-- How full the buffer is follows from how many bytes came in.
pub absorb-room :
    (ctx : Sha256) (xs : List ℕ)
    → IsOpen ctx
    → length (absorb ctx xs).buffer ≡ (length ctx.buffer + length xs) % 64
absorb-room ctx [] l = omega arith
absorb-room ctx (x ∷ xs) l =
    let size = length-append ctx.buffer (x ∷ []) in
    let one : length (take_in ctx x).buffer ≡ (length ctx.buffer + 1) % 64 =
      elim (Bool-cases (length (ctx.buffer ++ x ∷ []) == 64)) [
        | inl full ↦ rw full (ground (arith, full, size))
        | inr more ↦ rw more (ground (arith, more, size))
      ] in
    let rest = absorb-room (take_in ctx x) xs (absorb-IsOpen ctx (x ∷ []) l) in
    omega (arith, one, rest)

-- The loop over zeros stops when the buffer holds 56 bytes, after fewer than 64 of them.
pad_zeros-absorb :
    (rounds z : ℕ) (ctx : Sha256)
    → IsOpen ctx
    → z < rounds
    → (length ctx.buffer + z) % 64 ≡ 56
    → z < 64
    → (n : ℕ) × (pad_zeros rounds ctx ≡ record (absorb ctx (replicate z 0)) { bitlen = n })
unfolding pad_zeros
pad_zeros-absorb zero z ctx l h e s = absurd (omega arith)
pad_zeros-absorb (suc rounds) zero ctx l h e s =
    let stop : (length ctx.buffer == 56) ≡ true = ground arith in
    (ctx.bitlen, rw (pad_zeros, stop) refl)
pad_zeros-absorb (suc rounds) (suc z) ctx l h e s =
    let go_on : (length ctx.buffer == 56) ≡ false = ground arith in
    let one = sha256_update-absorb ctx (0 ∷ []) l in
    let next : Sha256 = record (take_in ctx 0) { bitlen = u64 (ctx.bitlen + 8) } in
    let open' : IsOpen next = absorb-IsOpen ctx (0 ∷ []) l in
    let (n, rest) =
      pad_zeros-absorb rounds z next open' (omega arith) (omega (arith, absorb-room ctx (0 ∷ []) l))
        (omega arith) in
    (
      n,
      rw (pad_zeros, go_on)
          (ap (λ c. pad_zeros rounds c) one
            ∙ rest
            ∙ ap (λ (c : Sha256). record c { bitlen = n })
                (absorb-bitlen (take_in ctx 0) (u64 (ctx.bitlen + 8)) (replicate z 0))),
    )

-- The padding of FIPS 180-4 behind a message, `bits` being its count of bits and `n` the count of its bytes: a
-- one bit, zeros up to 56 bytes of a block, and the count.
abbrev pub padding : ℕ → ℕ → List ℕ
padding n bits = 0x80 ∷ replicate ((119 - n % 64) % 64) 0 ++ bits_tail bits

absorb-bitlen_state :
    (ctx : Sha256) (n : ℕ) (xs : List ℕ)
    → (absorb (record ctx { bitlen = n }) xs).state ≡ (absorb ctx xs).state
absorb-bitlen_state ctx n xs = ap (λ c. c.state) (absorb-bitlen ctx n xs)

pub sha256_final-padding :
    (ctx : Sha256)
    → IsOpen ctx
    → sha256_final ctx ≡ digest (absorb ctx (padding (length ctx.buffer) ctx.bitlen)).state
unfolding sha256_final
sha256_final-padding ctx l =
    let z : ℕ = (119 - length ctx.buffer % 64) % 64 in
    let tail = bits_tail ctx.bitlen in
    let count = u64 (ctx.bitlen + 8) in
    let marked : Sha256 = take_in ctx 0x80 in
    let first : Sha256 = record marked { bitlen = count } in
    let one = sha256_update-absorb ctx (0x80 ∷ []) l in
    let open' : IsOpen first = absorb-IsOpen ctx (0x80 ∷ []) l in
    let (n, eq) =
      pad_zeros-absorb 64 z first open' (omega arith) (omega (arith, absorb-room ctx (0x80 ∷ []) l))
        (omega arith) in
    let padded : Sha256 = record (absorb first (replicate z 0)) { bitlen = n } in
    let open'' : IsOpen padded = absorb-IsOpen first (replicate z 0) open' in
    ap (λ c. digest (sha256_update (pad_zeros 64 c) tail).state) one
    ∙ ap (λ c. digest (sha256_update c tail).state) eq
    ∙ ap (λ c. digest c.state) (sha256_update-absorb padded tail open'')
    ∙ ap (λ s. digest s)
        (absorb-bitlen_state (absorb first (replicate z 0)) n tail
          ∙ ap (λ c. c.state) (sym (absorb-append first (replicate z 0) tail))
          ∙ absorb-bitlen_state marked count (replicate z 0 ++ tail))

init-IsOpen : IsOpen sha256_init
init-IsOpen = omega arith

length-replicate_tail : (z n : ℕ) → length (replicate z 0 ++ bits_tail n) ≡ z + 8
length-replicate_tail zero n = refl
length-replicate_tail (suc z) n = omega (arith, length-replicate_tail z n)

length-padded :
    (bytes : List ℕ) (n bits : ℕ) → length bytes ≡ n → length (bytes ++ padding n bits) % 64 ≡ 0
length-padded bytes n bits e = omega (
  arith,
  length-append bytes (padding n bits),
  e,
  length-replicate_tail ((119 - n % 64) % 64) bits,
)

-- The digest of a message is the state after the padded message, taken in byte by byte, and the
-- padded message is a whole number of blocks.
pub sha256-padding :
    (bytes : List ℕ)
    → let padded = bytes ++ padding (length bytes) (u64 (length bytes * 8)) in
      (sha256 bytes ≡ digest (absorb sha256_init padded).state) × (length padded % 64 ≡ 0)
sha256-padding bytes =
    let bits = u64 (length bytes * 8) in
    let taken : Sha256 = absorb sha256_init bytes in
    let counted : Sha256 = record taken { bitlen = bits } in
    let open' : IsOpen counted = absorb-IsOpen sha256_init bytes init-IsOpen in
    let same : (119 - length taken.buffer % 64) % 64 ≡ (119 - length bytes % 64) % 64 =
      omega (arith, absorb-room sha256_init bytes init-IsOpen) in
    let whole = length-padded bytes (length bytes) bits refl in
    (
      ap (λ c. sha256_final c) (sha256_update-absorb sha256_init bytes init-IsOpen)
          ∙ ap (λ n. sha256_final (record taken { bitlen = u64 n })) (omega arith)
          ∙ sha256_final-padding counted open'
          ∙ ap (λ s. digest s)
              (absorb-bitlen_state taken bits (padding (length taken.buffer) bits)
                ∙ ap (λ c. c.state)
                    (sym (absorb-append sha256_init bytes (padding (length taken.buffer) bits)))
                ∙ ap
                    (λ z.
                      (absorb sha256_init
                        (bytes ++ (0x80 ∷ (replicate z 0 ++ bits_tail bits)))).state)
                    same),
      whole,
    )

abbrev pub joined : List (List ℕ) → List ℕ
joined [] = []
joined (p ∷ ps) = p ++ joined ps

pub update_pieces-joined :
    (ctx : Sha256) (pieces : List (List ℕ))
    → IsOpen ctx
    → ctx.bitlen < 2 ^ 64
    → update_pieces ctx pieces ≡ sha256_update ctx (joined pieces)
unfolding update_pieces
update_pieces-joined ctx [] l small =
    ap (λ n. record ctx { bitlen = n }) (omega (arith, small)) ∙ sym (sha256_update-absorb ctx [] l)
update_pieces-joined ctx (p ∷ ps) l small =
    let next : Sha256 = record (absorb ctx p) { bitlen = u64 (ctx.bitlen + length p * 8) } in
    let one = sha256_update-absorb ctx p l in
    ap (λ c. update_pieces c ps) one
    ∙ update_pieces-joined next ps (absorb-IsOpen ctx p l) (omega arith)
    ∙ ap (λ c. sha256_update c (joined ps)) (sym one)
    ∙ sha256_update-append ctx p (joined ps) l

file_answer :
    (opened exists granted failed : Bool) {d d' : List ℕ}
    → d ≡ d'
    → (if not opened
        then err (if exists then Error.io else Error.not_found)
        else if not granted
        then err Error.nomem
        else if failed
        then err Error.io
        else ok d)
      ≡ (if opened && granted && not failed
          then ok d'
          else err (
              if not opened && not exists
              then Error.not_found
              else if opened && not granted
              then Error.nomem
              else Error.io))
file_answer false false granted failed e = refl
file_answer false true granted failed e = refl
file_answer true false false failed e = refl
file_answer true true false failed e = refl
file_answer true exists true true e = refl
file_answer true exists true false e = ap (λ d. ok d) e

-- The digest of a file is the digest of its content, in whatever pieces it is read; without the
-- file, the memory or a whole read there is an error and no digest.
pub sha256_file_lem :
    (read : FileRead)
    → sha256_file read ≡ (
        if read.opened && read.granted && not read.failed
        then ok (sha256 (joined read.pieces))
        else err (
            if not read.opened && not read.exists
            then Error.not_found
            else if read.opened && not read.granted
            then Error.nomem
            else Error.io))
unfolding sha256_file
sha256_file_lem read = file_answer read.opened read.exists read.granted read.failed (
    ap (λ c. sha256_final c)
      (update_pieces-joined sha256_init read.pieces init-IsOpen (omega arith)))
