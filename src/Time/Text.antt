-- ===== src/Time/Text.antt =====
-- `asper_time_parse_rfc3339` and `asper_time_format_rfc3339` of src/time.c. A text is the list of
-- its bytes, a pointer into it what is left, and `none` is the result `false`.
pub mod RoundTrip
use asterism_asper.Base.{
  ℕ, zero, suc, ◌+◌, ◌-◌, ◌*◌, ◌/◌, ◌%◌, ◌≤◌, Bool, true, false, not, ◌&&◌, ◌||◌, List, [], ◌∷◌,
  ◌++◌, Option, none, some, ltb, leb, ◌==◌, if◌then◌else◌, drop, char_at, in_range, take, length,
}
use asterism_asper.Base.Int.{ℤ, pos, negsuc, pos_part, ◌+ℤ◌, ◌-ℤ◌, ◌*ℤ◌, ltb_ℤ}
use asterism_asper.Base.Maybe.{◌>>=◌, ◌>>◌, require}
use asterism_asper.Base.Text.{truncated}
use asterism_asper.Time.Calendar.{div_trunc, days_from_civil, civil_from_days, days_in_month}

abbrev pub is_digit : ℕ → Bool
is_digit c = in_range b'0' b'9' c

-- `parse_digits` after `v` has been read. The end of the text is the byte 0, which is no digit.
unfoldable pub parse_digits : ℕ → ℕ → List ℕ → Option ℕ
parse_digits zero v s = some v
parse_digits (suc n) v [] = none
parse_digits (suc n) v (c ∷ s) = if is_digit c then parse_digits n (v * 10 + (c - b'0')) s else none

unfoldable pub skip_digits : List ℕ → List ℕ
skip_digits [] = []
skip_digits (c ∷ s) = if is_digit c then skip_digits s else c ∷ s

-- The fraction of a second, at `p`.
unfoldable pub skip_fraction : List ℕ → Option (List ℕ)
unfolding skip_digits
skip_fraction p =
    if char_at p 0 == b'.'
    then (if is_digit (char_at p 1) then some (skip_digits (drop 1 p)) else none)
    else some p

-- The zone: the offset to add, and what follows.
unfoldable pub parse_zone : List ℕ → Option (ℤ × List ℕ)
unfolding parse_digits ◌-ℤ◌
parse_zone p =
    let sign = char_at p 0 in
    let q = drop 1 p in
    if (sign == b'Z') || (sign == b'z')
    then some (pos 0, q)
    else if (sign == b'+') || (sign == b'-')
    then (do
      offh ← parse_digits 2 0 q
      require (char_at q 2 == b':')
      offm ← parse_digits 2 0 (drop 3 q)
      require (not (ltb 23 offh || ltb 59 offm))
      let off = pos (offh * 3600 + offm * 60)
      some (if sign == b'+' then pos 0 -ℤ off else off, drop 5 q))
    else none

-- The tests of the fields, and the instant that they make up.
unfoldable pub instant : ℕ → ℕ → ℕ → ℕ → ℕ → ℕ → ℤ → Option ℤ
unfolding days_in_month days_from_civil
instant y mo d h mi se off = do
  require (not (ltb mo 1 || ltb 12 mo))
  require (not (ltb d 1 || ltb (days_in_month (pos y) mo) d))
  require (not (ltb 23 h || ltb 59 mi || ltb 60 se))
  some (days_from_civil (pos y) mo d *ℤ pos 86400 +ℤ pos (h * 3600 + mi * 60 + se) +ℤ off)

unfoldable pub parse_rfc3339 : List ℕ → Option ℤ
unfolding parse_digits skip_fraction parse_zone instant
parse_rfc3339 p = do
  y ← parse_digits 4 0 p
  require (char_at p 4 == b'-')
  mo ← parse_digits 2 0 (drop 5 p)
  require (char_at p 7 == b'-')
  d ← parse_digits 2 0 (drop 8 p)
  require ((char_at p 10 == b'T') || (char_at p 10 == b't'))
  h ← parse_digits 2 0 (drop 11 p)
  require (char_at p 13 == b':')
  mi ← parse_digits 2 0 (drop 14 p)
  require (char_at p 16 == b':')
  se ← parse_digits 2 0 (drop 17 p)
  zone ← skip_fraction (drop 19 p)
  (off, rest) ← parse_zone zone
  require (length rest == 0)
  instant y mo d h mi se off

abbrev pub digit_char : ℕ → ℕ
digit_char x = b'0' + x % 10

-- "%02d" of a number below 100.
abbrev pub two_digits : ℕ → List ℕ
two_digits x = digit_char (x / 10) ∷ digit_char x ∷ []

abbrev pub three_digits : ℕ → List ℕ
three_digits x = digit_char (x / 100) ∷ two_digits x

abbrev pub four_digits : ℕ → List ℕ
four_digits x = digit_char (x / 1000) ∷ three_digits x

-- "%lld" of a number with at most as many digits as there is fuel.
pub decimal : ℕ → ℕ → List ℕ
decimal zero x = []
decimal (suc fuel) x =
    let front = decimal fuel (x / 10) in
    if ltb x 10 then digit_char x ∷ [] else front ++ digit_char x ∷ []

-- "%04lld": the width counts the sign. A number of 64 bits has 19 digits at most.
unfoldable pub year_text : ℤ → List ℕ
unfolding decimal
year_text (pos y) = if ltb y 10000 then four_digits y else decimal 20 y
year_text (negsuc y) =
    b'-' ∷ (if ltb (suc y) 1000 then three_digits (suc y) else decimal 20 (suc y))

-- The day, and the second of the day, of an instant.
unfoldable pub split_instant : ℤ → ℤ × ℕ
unfolding ◌-ℤ◌ ◌*ℤ◌ ◌+ℤ◌
split_instant t =
    let days = div_trunc t 86400 in
    let sod = t -ℤ days *ℤ pos 86400 in
    if ltb_ℤ sod (pos 0) then (days -ℤ pos 1, pos_part (sod +ℤ pos 86400)) else (days, pos_part sod)

-- The `snprintf` call, for a date and a second of the day.
unfoldable pub fields_text : ℤ × ℕ × ℕ → ℕ → List ℕ
unfolding year_text
fields_text (y, m, d) sod =
    let h = sod / 3600 in
    let mi = sod / 60 % 60 in
    let se = sod % 60 in
    year_text y
    ++ b'-'
      ∷ (two_digits m
          ++ b'-'
            ∷ (two_digits d
                ++ b'T'
                  ∷ (two_digits h
                      ++ b':' ∷ (two_digits mi ++ b':' ∷ (two_digits se ++ b'Z' ∷ [])))))

-- The text without its terminator, cut to the 31 bytes of the buffer.
unfoldable pub format_rfc3339 : ℤ → List ℕ
format_rfc3339 t =
    let (days, sod) = split_instant t in truncated 32 (fields_text (civil_from_days days) sod)
