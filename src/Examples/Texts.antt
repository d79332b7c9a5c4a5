-- ===== src/Examples/Texts.antt =====
-- Base64 of three groups of bytes, and names of projects and scopes.
use asterism_asper.Base.{
  ℕ, ◌≤◌, true, refl, length, ◌≡◌, List, [], ◌∷◌, some, IsBytes, arith, IsText,
}
use asterism_asper.Util.Base64.{base64_encode, base64_decode}
use asterism_asper.Util.Base64.RoundTrip.{decode-encode}
use asterism_asper.Base.Text.{codes, truncated, str_eq}
use asterism_asper.Util.Strings.{
  slug_valid, slug_tail, is_lower_alnum, scope_valid, scope_chars, scope_char,
}
use asterism_asper.RecordStrings.{esc_encode, esc_decode}
use asterism_asper.RecordStrings.Escapes.{esc_decode-esc_encode}
use asterism_asper.Util.Strings.Names.{slug_valid-fits}

abbrev seven : List ℕ
seven = 0 ∷ 255 ∷ 16 ∷ 131 ∷ 16 ∷ 81 ∷ 135 ∷ []

seven-IsBytes : IsBytes seven
seven-IsBytes = omega arith

decode-encode_example : base64_decode (base64_encode seven) ≡ some seven
decode-encode_example = decode-encode seven seven-IsBytes

valid_slug : slug_valid (codes "my-app2") ≡ true
unfolding slug_valid slug_tail is_lower_alnum
valid_slug = refl

slug_valid-fits_example :
    (1 ≤ length (codes "my-app2"))
    × (length (codes "my-app2") ≤ 64)
    × (truncated 65 (codes "my-app2") ≡ codes "my-app2")
slug_valid-fits_example = slug_valid-fits (codes "my-app2") valid_slug

valid_scope : scope_valid (codes "Chat_1.a") ≡ true
unfolding scope_valid scope_chars scope_char str_eq
valid_scope = refl

-- A tab, a backslash and a letter.
abbrev slashed : List ℕ
slashed = 9 ∷ 0x5c ∷ 110 ∷ []

slashed-IsText : IsText slashed
slashed-IsText = omega arith

esc_decode-esc_encode_example : esc_decode (esc_encode slashed) ≡ slashed
esc_decode-esc_encode_example = esc_decode-esc_encode slashed slashed-IsText
