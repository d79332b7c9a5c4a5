-- ===== src/Sha256.antt =====
-- SHA-256 of src/sha256.c: one block, the stream of updates, the padding and the digest.
pub mod Stream
pub mod Padding
pub mod Tests
use asterism_asper.Base.{
  ℕ, zero, suc, ◌+◌, ◌-◌, ◌*◌, ◌%◌, ◌^◌, Bool, true, false, not, List, [], ◌∷◌, ◌++◌, Option, none,
  some, ltb, leb, ◌==◌, ◌&&◌, if◌then◌else◌, length, get_or, take, drop, replicate, min, bit_and,
  bit_or, bit_xor, ◌<<◌, ◌>>>◌, u8, u32, u64, Result, ok, err, Error,
}

-- `ROR`, for 0 < n < 32.
abbrev pub rotate_right : ℕ → ℕ → ℕ
rotate_right x n = bit_or (x >>> n) (u32 (x << (32 - n)))

abbrev pub sha256_k : List ℕ
sha256_k =
    0x428a2f98 ∷ 0x71374491 ∷ 0xb5c0fbcf ∷ 0xe9b5dba5 ∷ 0x3956c25b ∷ 0x59f111f1 ∷ 0x923f82a4
    ∷ 0xab1c5ed5 ∷ 0xd807aa98 ∷ 0x12835b01 ∷ 0x243185be ∷ 0x550c7dc3 ∷ 0x72be5d74 ∷ 0x80deb1fe
    ∷ 0x9bdc06a7 ∷ 0xc19bf174 ∷ 0xe49b69c1 ∷ 0xefbe4786 ∷ 0x0fc19dc6 ∷ 0x240ca1cc ∷ 0x2de92c6f
    ∷ 0x4a7484aa ∷ 0x5cb0a9dc ∷ 0x76f988da ∷ 0x983e5152 ∷ 0xa831c66d ∷ 0xb00327c8 ∷ 0xbf597fc7
    ∷ 0xc6e00bf3 ∷ 0xd5a79147 ∷ 0x06ca6351 ∷ 0x14292967 ∷ 0x27b70a85 ∷ 0x2e1b2138 ∷ 0x4d2c6dfc
    ∷ 0x53380d13 ∷ 0x650a7354 ∷ 0x766a0abb ∷ 0x81c2c92e ∷ 0x92722c85 ∷ 0xa2bfe8a1 ∷ 0xa81a664b
    ∷ 0xc24b8b70 ∷ 0xc76c51a3 ∷ 0xd192e819 ∷ 0xd6990624 ∷ 0xf40e3585 ∷ 0x106aa070 ∷ 0x19a4c116
    ∷ 0x1e376c08 ∷ 0x2748774c ∷ 0x34b0bcb5 ∷ 0x391c0cb3 ∷ 0x4ed8aa4a ∷ 0x5b9cca4f ∷ 0x682e6ff3
    ∷ 0x748f82ee ∷ 0x78a5636f ∷ 0x84c87814 ∷ 0x8cc70208 ∷ 0x90befffa ∷ 0xa4506ceb ∷ 0xbef9a3f7
    ∷ 0xc67178f2 ∷ []

-- The eight words of the state, and `a` to `h` of a block.
pub record Words : Type 0 where
  pub a : ℕ
  pub b : ℕ
  pub c : ℕ
  pub d : ℕ
  pub e : ℕ
  pub f : ℕ
  pub g : ℕ
  pub h : ℕ

-- The first sixteen words of the schedule: four bytes each, the high byte first.
pub block_words : ℕ → List ℕ → List ℕ
block_words zero block = []
block_words (suc n) block =
    bit_or
      (bit_or (bit_or (get_or block 0 0 << 24) (get_or block 1 0 << 16)) (get_or block 2 0 << 8))
      (get_or block 3 0)
    ∷ block_words n (drop 4 block)

-- The words after them. `w` holds the words so far, so that its length is `i`.
pub extended : ℕ → List ℕ → List ℕ
extended zero w = w
extended (suc n) w =
    let i = length w in
    let x = get_or w (i - 15) 0 in
    let y = get_or w (i - 2) 0 in
    let s0 = bit_xor (bit_xor (rotate_right x 7) (rotate_right x 18)) (x >>> 3) in
    let s1 = bit_xor (bit_xor (rotate_right y 17) (rotate_right y 19)) (y >>> 10) in
    extended n (w ++ u32 (get_or w (i - 16) 0 + s0 + get_or w (i - 7) 0 + s1) ∷ [])

abbrev pub sha_round : Words → ℕ → ℕ → Words
sha_round s k w =
    let s1 = bit_xor (bit_xor (rotate_right s.e 6) (rotate_right s.e 11)) (rotate_right s.e 25) in
    let ch = bit_xor (bit_and s.e s.f) (bit_and (2 ^ 32 - 1 - s.e) s.g) in
    let t1 = u32 (s.h + s1 + ch + k + w) in
    let s0 = bit_xor (bit_xor (rotate_right s.a 2) (rotate_right s.a 13)) (rotate_right s.a 22) in
    let maj = bit_xor (bit_xor (bit_and s.a s.b) (bit_and s.a s.c)) (bit_and s.b s.c) in
    let t2 = u32 (s0 + maj) in
    record {
      a = u32 (t1 + t2);
      b = s.a;
      c = s.b;
      d = s.c;
      e = u32 (s.d + t1);
      f = s.e;
      g = s.f;
      h = s.g;
    }

pub sha_rounds : Words → List ℕ → List ℕ → Words
sha_rounds s [] ws = s
sha_rounds s (k ∷ ks) [] = s
sha_rounds s (k ∷ ks) (w ∷ ws) = sha_rounds (sha_round s k w) ks ws

-- `sha256_transform` on the words of the state.
pub transformed : Words → List ℕ → Words
transformed s block =
    let n = sha_rounds s sha256_k (extended 48 (block_words 16 block)) in
    record {
      a = u32 (s.a + n.a);
      b = u32 (s.b + n.b);
      c = u32 (s.c + n.c);
      d = u32 (s.d + n.d);
      e = u32 (s.e + n.e);
      f = u32 (s.f + n.f);
      g = u32 (s.g + n.g);
      h = u32 (s.h + n.h);
    }

-- `asper_sha256_ctx`. `buffer` holds the first `buflen` bytes of the C buffer; the others are not
-- read before they are written.
pub record Sha256 : Type 0 where
  pub state : Words
  pub bitlen : ℕ
  pub buffer : List ℕ

abbrev pub sha256_init : Sha256
sha256_init = record {
  state = record {
    a = 0x6a09e667;
    b = 0xbb67ae85;
    c = 0x3c6ef372;
    d = 0xa54ff53a;
    e = 0x510e527f;
    f = 0x9b05688c;
    g = 0x1f83d9ab;
    h = 0x5be0cd19;
  };
  bitlen = 0;
  buffer = [];
}

-- A full buffer is a block.
abbrev pub flushed : Sha256 → List ℕ → Sha256
flushed ctx filled =
    if length filled == 64
    then record ctx { state = transformed ctx.state filled; buffer = [] }
    else record ctx { buffer = filled }

-- One round of the loop of `asper_sha256_update`: a whole block from the data, or bytes into the
-- buffer. The result holds the data left.
abbrev pub update_round : Sha256 → List ℕ → Sha256 × List ℕ
update_round ctx bytes =
    let room = 64 - length ctx.buffer in
    let n = if ltb (length bytes) room then length bytes else room in
    if (length ctx.buffer == 0) && leb 64 (length bytes)
    then (record ctx { state = transformed ctx.state (take 64 bytes) }, drop 64 bytes)
    else (flushed ctx (ctx.buffer ++ take n bytes), drop n bytes)

-- The loop of `asper_sha256_update`. Every round takes a byte at least.
pub update_loop : ℕ → Sha256 → List ℕ → Sha256
update_loop zero ctx bytes = ctx
update_loop (suc rounds) ctx [] = ctx
update_loop (suc rounds) ctx (x ∷ xs) =
    let (next, rest) = update_round ctx (x ∷ xs) in update_loop rounds next rest

pub sha256_update : Sha256 → List ℕ → Sha256
sha256_update ctx bytes =
    update_loop (length bytes) (record ctx { bitlen = u64 (ctx.bitlen + length bytes * 8) }) bytes

-- The loop of `asper_sha256_final` that pads with zeros.
pub pad_zeros : ℕ → Sha256 → Sha256
pad_zeros zero ctx = ctx
pad_zeros (suc rounds) ctx = elim (length ctx.buffer == 56) [
  | true ↦ ctx
  | false ↦ pad_zeros rounds (sha256_update ctx (0 ∷ []))
]

-- A word as four bytes and a count of bits as eight, the high byte first.
abbrev pub word_bytes : ℕ → List ℕ
word_bytes w = u8 (w >>> 24) ∷ u8 (w >>> 16) ∷ u8 (w >>> 8) ∷ u8 w ∷ []

abbrev pub bits_tail : ℕ → List ℕ
bits_tail bits =
    u8 (bits >>> 56)
    ∷ u8 (bits >>> 48)
    ∷ u8 (bits >>> 40)
    ∷ u8 (bits >>> 32)
    ∷ u8 (bits >>> 24)
    ∷ u8 (bits >>> 16)
    ∷ u8 (bits >>> 8)
    ∷ u8 bits
    ∷ []

abbrev pub digest : Words → List ℕ
digest s =
    word_bytes s.a
    ++ word_bytes s.b
    ++ word_bytes s.c
    ++ word_bytes s.d
    ++ word_bytes s.e
    ++ word_bytes s.f
    ++ word_bytes s.g
    ++ word_bytes s.h

unfoldable pub sha256_final : Sha256 → List ℕ
sha256_final ctx =
    let padded = pad_zeros 64 (sha256_update ctx (0x80 ∷ [])) in
    digest (sha256_update padded (bits_tail ctx.bitlen)).state

abbrev pub sha256 : List ℕ → List ℕ
sha256 bytes = sha256_final (sha256_update sha256_init bytes)

-- What the calls of `asper_sha256_file` to the system answer: the pieces that `fread` gives before
-- it gives none, and whether it stopped with an error.
pub record FileRead : Type 0 where
  pub opened : Bool
  pub exists : Bool
  pub granted : Bool
  pub pieces : List (List ℕ)
  pub failed : Bool

pub update_pieces : Sha256 → List (List ℕ) → Sha256
update_pieces ctx [] = ctx
update_pieces ctx (piece ∷ rest) = update_pieces (sha256_update ctx piece) rest

pub sha256_file : FileRead → Result (List ℕ)
sha256_file read =
    if not read.opened
    then err (if read.exists then Error.io else Error.not_found)
    else if not read.granted
    then err Error.nomem
    else if read.failed
    then err Error.io
    else ok (sha256_final (update_pieces sha256_init read.pieces))
