-- ===== src/Uuid.antt =====
-- src/uuid.c: textual and raw UUIDs.
pub mod RoundTrip
use asterism_asper.Base.{
  ℕ, zero, suc, ◌+◌, ◌-◌, Bool, true, false, ◌&&◌, ◌||◌, not, List, [], ◌∷◌, ◌++◌, Option, none,
  some, ltb, ◌==◌, if◌then◌else◌, length, char_at, in_range, bit_and, bit_or, ◌<<◌, ◌>>>◌, u8,
  get_or, set,
}
use asterism_asper.Base.Text.{codes}

abbrev pub hex_digits : List ℕ
hex_digits = codes "0123456789abcdef"

-- `uuid_hexd[x]`.
unfoldable pub hex_char : ℕ → ℕ
hex_char x = get_or hex_digits x 0

-- `dash_before[i]`.
pub dash_before : ℕ → Bool
dash_before i = (i == 4) || (i == 6) || (i == 8) || (i == 10)

-- The loop of `asper_uuid_from_bytes` from byte `i` on.
pub from_bytes_loop : ℕ → List ℕ → List ℕ
from_bytes_loop i [] = []
from_bytes_loop i (b ∷ bs) =
    let digits = hex_char (b >>> 4) ∷ hex_char (bit_and b 0x0f) ∷ from_bytes_loop (i + 1) bs in
    if dash_before i then b'-' ∷ digits else digits

pub uuid_from_bytes : List ℕ → List ℕ
uuid_from_bytes bs = from_bytes_loop 0 bs

-- The two assignments of `asper_uuid_v4` to 16 random bytes.
pub v4_bytes : List ℕ → List ℕ
v4_bytes b =
    let b' = set b 6 (u8 (bit_or (bit_and (get_or b 6 0) 0x0f) 0x40)) in
    set b' 8 (u8 (bit_or (bit_and (get_or b' 8 0) 0x3f) 0x80))

pub uuid_v4 : List ℕ → List ℕ
uuid_v4 random = uuid_from_bytes (v4_bytes random)

-- `hex_val`; `none` is -1.
unfoldable pub hex_val : ℕ → Option ℕ
hex_val ch =
    if in_range b'0' b'9' ch
    then some (ch - b'0')
    else if in_range b'a' b'f' ch
    then some (ch - b'a' + 10)
    else if in_range b'A' b'F' ch
    then some (ch - b'A' + 10)
    else none

abbrev pub is_some {ℓ} : {A : Type ℓ} → Option A → Bool
is_some none = false
is_some (some a) = true

unfoldable pub is_dash_at : ℕ → Bool
is_dash_at i = (i == 8) || (i == 13) || (i == 18) || (i == 23)

-- The loop of `asper_uuid_valid` at position `i`, with `left` positions to go, and its last test.
unfoldable pub valid_loop : ℕ → ℕ → List ℕ → Bool
valid_loop zero i [] = true
valid_loop zero i (ch ∷ s) = false
valid_loop (suc left) i [] = false
valid_loop (suc left) i (ch ∷ s) =
    (if is_dash_at i then ch == b'-' else is_some (hex_val ch)) && valid_loop left (i + 1) s

unfoldable pub uuid_valid : List ℕ → Bool
uuid_valid s = valid_loop 36 0 s

abbrev pub nibble : Option ℕ → ℕ
nibble none = 0
nibble (some v) = v

-- The loop of `asper_uuid_to_bytes` over a valid text.
pub to_bytes_loop : List ℕ → List ℕ
to_bytes_loop [] = []
to_bytes_loop (c ∷ []) = []
to_bytes_loop (c ∷ d ∷ s) =
    let pair = u8 (bit_or (nibble (hex_val c) << 4) (nibble (hex_val d))) ∷ to_bytes_loop s in
    let skip = to_bytes_loop (d ∷ s) in if c == b'-' then skip else pair

pub uuid_to_bytes : List ℕ → Option (List ℕ)
uuid_to_bytes s = if uuid_valid s then some (to_bytes_loop s) else none
