-- ===== src/Util/Strings.antt =====
-- The string helpers of src/util.c (trim, blank, bounded copy, slug, token estimate), and the name
-- checks of src/source_paths.c.
pub mod Names
use asterism_asper.Base.{
  ℕ, ◌+◌, ◌/◌, Bool, true, not, ◌&&◌, ◌||◌, List, [], ◌∷◌, Option, none, some, ltb, ◌==◌,
  if◌then◌else◌, length, take, drop, char_at, in_range,
}
use asterism_asper.Base.Text.{str_eq, codes}

unfoldable pub is_ascii_space : ℕ → Bool
is_ascii_space ch =
    (ch == b' ') || (ch == 0x09) || (ch == 0x0a) || (ch == 0x0d) || (ch == 0x0b) || (ch == 0x0c)

-- The loops of `asper_str_trim`: leading spaces, and trailing ones on the way back.
pub trim_start : List ℕ → List ℕ
trim_start [] = []
trim_start (c ∷ s) = if is_ascii_space c then trim_start s else c ∷ s

pub trim_end : List ℕ → List ℕ
trim_end [] = []
trim_end (c ∷ s) =
    let rest = trim_end s in
    elim rest [ [] ↦ if is_ascii_space c then [] else c ∷ [] | x ∷ r ↦ c ∷ x ∷ r ]

pub str_trim : List ℕ → List ℕ
str_trim s = trim_start (trim_end s)

-- `asper_str_blank`; `none` is a null pointer.
unfoldable pub all_space : List ℕ → Bool
all_space [] = true
all_space (c ∷ s) = is_ascii_space c && all_space s

unfoldable pub str_blank : Option (List ℕ) → Bool
str_blank none = true
str_blank (some s) = all_space s

-- `asper_strndup` of a text.
pub strndup : List ℕ → ℕ → List ℕ
strndup s n = take n s

unfoldable pub is_lower_alnum : ℕ → Bool
is_lower_alnum c = in_range b'a' b'z' c || in_range b'0' b'9' c

-- The loop of `asper_slug_valid`, at position `i`.
unfoldable pub slug_tail : ℕ → List ℕ → Bool
slug_tail i [] = true
slug_tail i (ch ∷ s) = not (ltb 63 i) && (is_lower_alnum ch || (ch == b'-')) && slug_tail (i + 1) s

unfoldable pub slug_valid : List ℕ → Bool
slug_valid s = is_lower_alnum (char_at s 0) && slug_tail 1 (drop 1 s)

-- `asper_token_heuristic`, with INT_MAX.
abbrev pub int_max : ℕ
int_max = 2147483647

pub token_heuristic : Option (List ℕ) → ℕ
token_heuristic none = 0
token_heuristic (some []) = 0
token_heuristic (some (c ∷ s)) =
    let t = length (c ∷ s) / 4 in
    let t' = if t == 0 then 1 else t in if ltb int_max t' then int_max else t'

-- `asper_source_scope_valid`.
unfoldable pub scope_char : ℕ → Bool
scope_char ch =
    in_range b'a' b'z' ch
    || in_range b'A' b'Z' ch
    || in_range b'0' b'9' ch
    || (ch == b'_')
    || (ch == b'-')
    || (ch == b'.')

unfoldable pub scope_chars : List ℕ → Bool
scope_chars [] = true
scope_chars (ch ∷ s) = scope_char ch && scope_chars s

unfoldable pub scope_valid : List ℕ → Bool
scope_valid s =
    not (length s == 0)
    && not (ltb 64 (length s))
    && scope_chars s
    && not (str_eq s (codes "."))
    && not (str_eq s (codes ".."))

-- `asper_source_object_valid`: "sha256:" and 64 lowercase hexadecimal digits.
unfoldable pub lower_hex_digits : List ℕ → Bool
lower_hex_digits [] = true
lower_hex_digits (ch ∷ s) = (in_range b'0' b'9' ch || in_range b'a' b'f' ch) && lower_hex_digits s

pub object_valid : List ℕ → Bool
object_valid s =
    str_eq (take 7 s) (codes "sha256:") && (length s == 71) && lower_hex_digits (drop 7 s)
