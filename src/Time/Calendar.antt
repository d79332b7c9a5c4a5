-- ===== src/Time/Calendar.antt =====
-- `days_from_civil`, `civil_from_days`, `is_leap` and `days_in_month` of src/time.c. Years and day
-- numbers are integers; a sum of 64 bits cannot overflow here, as every day number comes from
-- seconds of 64 bits and every year of a text has four digits.
pub mod Months
pub mod Dates
pub mod Days
use asterism_asper.Base.{
  ℕ, zero, suc, ◌+◌, ◌-◌, ◌*◌, ◌/◌, ◌%◌, ◌≤◌, Bool, not, ◌&&◌, ◌||◌, List, [], ◌∷◌, ltb, leb, ◌==◌,
  if◌then◌else◌, get_or,
}
use asterism_asper.Base.Int.{ℤ, pos, negsuc, pos_part, neg_part, ◌+ℤ◌, ◌-ℤ◌, ◌*ℤ◌, ltb_ℤ}
use asterism_asper.Time.Era.{year_of_era, year_start, month_of_year, month_start}

-- C's division of a signed number by a positive one, which drops the fraction.
abbrev pub div_trunc : ℤ → ℕ → ℤ
div_trunc (pos n) k = pos (n / k)
div_trunc (negsuc n) k = pos 0 -ℤ pos (suc n / k)

-- `(x >= 0 ? x : x - (k - 1)) / k`.
unfoldable pub floor_div : ℤ → ℕ → ℤ
unfolding ◌-ℤ◌
floor_div x k = div_trunc (if ltb_ℤ x (pos 0) then x -ℤ pos (k - 1) else x) k

-- `153 * (m + (m > 2 ? -3 : 9))`: the month counted from March.
abbrev pub from_march : ℕ → ℕ
from_march m = if ltb 2 m then m - 3 else m + 9

abbrev pub shifted_year : ℤ → ℕ → ℤ
shifted_year y m = if leb m 2 then y -ℤ pos 1 else y

-- The casts to `unsigned` apply to numbers that are not negative: `d` is at least 1 in a date.
unfoldable pub days_from_civil : ℤ → ℕ → ℕ → ℤ
days_from_civil y m d =
    let y' = shifted_year y m in
    let era = floor_div y' 400 in
    let yoe = pos_part (y' -ℤ era *ℤ pos 400) in
    let doy = month_start (from_march m) + d - 1 in
    let doe = year_start yoe + doy in era *ℤ pos 146097 +ℤ pos doe -ℤ pos 719468

unfoldable pub civil_from_days : ℤ → ℤ × ℕ × ℕ
civil_from_days z =
    let z' = z +ℤ pos 719468 in
    let era = floor_div z' 146097 in
    let doe = pos_part (z' -ℤ era *ℤ pos 146097) in
    let yoe = year_of_era doe in
    let y = pos yoe +ℤ era *ℤ pos 400 in
    let doy = doe - year_start yoe in
    let mp = month_of_year doy in
    let d = doy - month_start mp + 1 in
    let m = if ltb mp 10 then mp + 3 else mp - 9 in (if leb m 2 then y +ℤ pos 1 else y, m, d)

-- A remainder of C is 0 for `y` and `-y` alike.
abbrev pub magnitude : ℤ → ℕ
magnitude y = pos_part y + neg_part y

unfoldable pub is_leap : ℤ → Bool
is_leap y = ((magnitude y % 4 == 0) && not (magnitude y % 100 == 0)) || (magnitude y % 400 == 0)

abbrev pub month_days : List ℕ
month_days = 31 ∷ 28 ∷ 31 ∷ 30 ∷ 31 ∷ 30 ∷ 31 ∷ 31 ∷ 30 ∷ 31 ∷ 30 ∷ 31 ∷ []

-- `dm[m - 1]` for a month from 1 to 12.
unfoldable pub days_in_month : ℤ → ℕ → ℕ
unfolding is_leap
days_in_month y m = if (m == 2) && is_leap y then 29 else get_or month_days (m - 1) 0
