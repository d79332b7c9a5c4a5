-- ===== src/Time/Calendar/Dates.antt =====
-- A date is found again from its day number: `civil_from_days` after `days_from_civil`.
use asterism_asper.Base.{
  ℕ, suc, ◌+◌, ◌-◌, ◌≤◌, ◌<◌, ◌≡◌, refl, ap, true, arith, ltb, leb, if◌then◌else◌, inl, inr, ◌≢◌,
  Bool-cases,
}
use native.Mathlib.Decide.{ℕ_discrete}
use asterism_asper.Base.Int.{ℤ, pos, pos_part, neg_part, ◌+ℤ◌, ◌-ℤ◌, ◌*ℤ◌, int_laws}
use asterism_asper.Time.Era.{
  year_start, month_start, IsLeapEnd, year_of_era-year_start, month_of_year-month_start,
}
use asterism_asper.Time.Calendar.{
  floor_div, from_march, shifted_year, days_from_civil, civil_from_days, is_leap,
}
use asterism_asper.Time.Calendar.Months.{
  split_400, join_146097, IsDate, days_in_month_lem, leap_end,
}

abbrev pub month_of : ℕ → ℕ
month_of mp = if ltb mp 10 then mp + 3 else mp - 9

abbrev pub calendar_year : ℤ → ℕ → ℤ
calendar_year y' mp = if leb (month_of mp) 2 then y' +ℤ pos 1 else y'

abbrev pub day_number : ℤ → ℕ → ℤ
day_number era doe = era *ℤ pos 146097 +ℤ pos doe -ℤ pos 719468

pub era_of_day :
    (era : ℤ) (doe : ℕ) → day_number era doe +ℤ pos 719468 ≡ era *ℤ pos 146097 +ℤ pos doe
era_of_day era doe = omega int_laws

pub rest_of_day :
    (era : ℤ) (doe : ℕ) → pos_part (era *ℤ pos 146097 +ℤ pos doe -ℤ era *ℤ pos 146097) ≡ doe
rest_of_day era doe =
    let e : era *ℤ pos 146097 +ℤ pos doe -ℤ era *ℤ pos 146097 ≡ pos doe = omega int_laws in
    ap pos_part e

-- `civil_from_days` at the day number of an era, a year, a month from March and a day from 0.
pub civil_from_days-parts :
    (era : ℤ) (yoe mp k : ℕ)
    → yoe < 400
    → mp < 12
    → month_start mp + k < month_start (suc mp)
    → month_start mp + k ≤ 365
    → (month_start mp + k ≡ 365 → IsLeapEnd yoe)
    → civil_from_days (day_number era (year_start yoe + (month_start mp + k)))
      ≡ (calendar_year (pos yoe +ℤ era *ℤ pos 400) mp, month_of mp, k + 1)
unfolding civil_from_days
civil_from_days-parts era yoe mp k hy hm hk hd leap =
    let doy = month_start mp + k in
    let doe = year_start yoe + doy in
    let (small, year) = year_of_era-year_start yoe doy hy hd leap in
    let back : doe - year_start yoe ≡ doy = omega arith in
    let day : doy - month_start mp ≡ k = omega arith in
    rw (
      era_of_day era doe,
      join_146097 era doe small,
      rest_of_day era doe,
      year,
      back,
      month_of_year-month_start mp k hm hk,
      day,
    )

-- The parts of a date.
pub record Parts (y : ℤ) (m d : ℕ) : Type 0 where
  pub yoe : ℕ
  pub yoe_in : yoe < 400
  pub rest : shifted_year y m -ℤ floor_div (shifted_year y m) 400 *ℤ pos 400 ≡ pos yoe
  pub month_small : from_march m < 12
  pub month_back : month_of (from_march m) ≡ m
  pub in_month : month_start (from_march m) + (d - 1) < month_start (suc (from_march m))
  pub in_year : month_start (from_march m) + (d - 1) ≤ 365
  pub leap_day : month_start (from_march m) + (d - 1) ≡ 365 → IsLeapEnd yoe

pub from_march_february :
    (m : ℕ) → 1 ≤ m → m ≤ 12 → (from_march m ≤ 11) × (m ≢ 2 → from_march m ≤ 10)
from_march_february m h k = (ground arith, λ ne. ground arith)

-- The days of a date within its month and its year; the 366th day is February 29th.
pub date_places :
    (y : ℤ) (m d : ℕ)
    → IsDate y m d
    → (month_start (from_march m) + (d - 1) < month_start (suc (from_march m)))
      × (month_start (from_march m) + (d - 1) ≤ 365)
      × (month_start (from_march m) + (d - 1) ≡ 365 → (m ≡ 2) × (is_leap y ≡ true))
unfolding month_start
date_places y m d v =
    let (long, leap, common) = days_in_month_lem y m v.month_in.0 v.month_in.1 in
    let march = from_march_february m v.month_in.0 v.month_in.1 in
    elim (ℕ_discrete m 2) [
      | no other ↦
          let whole = long other in
          let low = march.1 other in (omega arith, omega arith, λ e. absurd (omega arith))
      | yes february ↦ elim (Bool-cases (is_leap y)) [
        | inl l ↦ let n = leap february l in (ground arith, ground arith, λ e. (february, l))
        | inr c ↦
            let n = common february c in (ground arith, ground arith, λ e. absurd (ground arith))
      ]
    ]

pub shift_back :
    (x y e : ℤ) (yoe : ℕ)
    → x ≡ y -ℤ pos 1
    → x -ℤ e *ℤ pos 400 ≡ pos yoe
    → e *ℤ pos 400 +ℤ pos yoe +ℤ pos 1 ≡ y
shift_back x y e yoe b r =
    omega (int_laws, ap pos_part b, ap neg_part b, ap pos_part r, ap neg_part r)

pub no_shift : (y e : ℤ) (yoe : ℕ) → y -ℤ e *ℤ pos 400 ≡ pos yoe → pos yoe +ℤ e *ℤ pos 400 ≡ y
no_shift y e yoe r = omega (int_laws, ap pos_part r, ap neg_part r)

pub leap_day_lem :
    (y : ℤ) (m d yoe : ℕ)
    → IsDate y m d
    → yoe < 400
    → shifted_year y m -ℤ floor_div (shifted_year y m) 400 *ℤ pos 400 ≡ pos yoe
    → month_start (from_march m) + (d - 1) ≡ 365
    → IsLeapEnd yoe
leap_day_lem y m d yoe v small rest e =
    let (february, leap) = (date_places y m d v).2 e in
    let era = floor_div (shifted_year y m) 400 in
    let back : shifted_year y m ≡ y -ℤ pos 1 = ground arith in
    let same = shift_back (shifted_year y m) y era yoe back rest in
    (leap_end era yoe small).0 (rw same leap)

IsDate-Parts : (y : ℤ) (m d : ℕ) → IsDate y m d → Parts y m d
IsDate-Parts y m d v =
    let (yoe, small, rest) = split_400 (shifted_year y m) in
    let places = date_places y m d v in
    record {
      yoe = yoe;
      yoe_in = small;
      rest = rest;
      month_small = ground arith;
      month_back = ground arith;
      in_month = places.0;
      in_year = places.1;
      leap_day = leap_day_lem y m d yoe v small rest;
    }

pub year_back :
    (y e : ℤ) (m yoe : ℕ)
    → 1 ≤ m
    → m ≤ 12
    → shifted_year y m -ℤ e *ℤ pos 400 ≡ pos yoe
    → calendar_year (pos yoe +ℤ e *ℤ pos 400) (from_march m) ≡ y
year_back y e m yoe lo hi r = elim (Bool-cases (leb m 2)) [
  | inl winter ↦
      let month : month_of (from_march m) ≡ m = ground arith in
      let next = shift_back (y -ℤ pos 1) y e yoe refl (rw winter at r) in
      rw (month, winter) (omega (int_laws, ap pos_part next, ap neg_part next))
  | inr rest ↦
      let month : month_of (from_march m) ≡ m = ground arith in
      rw (month, rest) (no_shift y e yoe (rw rest at r))
]

-- Converting a date of the calendar to its day number and back gives the date.
pub civil_from_days-days_from_civil :
    (y : ℤ) (m d : ℕ) → IsDate y m d → civil_from_days (days_from_civil y m d) ≡ (y, m, d)
unfolding days_from_civil
civil_from_days-days_from_civil y m d v =
    let p = IsDate-Parts y m d v in
    let era = floor_div (shifted_year y m) 400 in
    let mp = from_march m in
    let yoe : pos_part (shifted_year y m -ℤ era *ℤ pos 400) ≡ p.yoe = ap pos_part p.rest in
    let doy : month_start mp + d - 1 ≡ month_start mp + (d - 1) = omega (arith, v.day_in) in
    let day : d - 1 + 1 ≡ d = omega (arith, v.day_in) in
    let year : calendar_year (pos p.yoe +ℤ era *ℤ pos 400) mp ≡ y =
      year_back y era m p.yoe v.month_in.0 v.month_in.1 p.rest in
    rw (
      yoe,
      doy,
      civil_from_days-parts era p.yoe mp (d - 1) p.yoe_in p.month_small p.in_month p.in_year
          p.leap_day,
      year,
      p.month_back,
      day,
    )
