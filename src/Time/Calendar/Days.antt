-- ===== src/Time/Calendar/Days.antt =====
-- Every day number is found again from its date: `days_from_civil` after `civil_from_days`.
use asterism_asper.Base.{
  ℕ, suc, ◌+◌, ◌-◌, ◌≤◌, ◌<◌, ◌≡◌, sym, ap, subst, ◌∙◌, true, arith, leb, inl, inr, Bool-cases,
}
use native.Mathlib.Decide.{ℕ_discrete, dec_lt}
use asterism_asper.Base.Int.{ℤ, pos, pos_part, neg_part, ◌+ℤ◌, ◌-ℤ◌, ◌*ℤ◌, int_laws}
use asterism_asper.Time.Era.{
  year_of_era, year_start, month_of_year, month_start, IsLeapEnd, year_of_era_lem,
  month_of_year_lem,
}
use asterism_asper.Time.Calendar.{
  floor_div, from_march, shifted_year, days_from_civil, civil_from_days, is_leap,
}
use asterism_asper.Time.Calendar.Months.{
  split_146097, join_400, IsDate, days_in_month_lem, leap_end,
}
use asterism_asper.Time.Calendar.Dates.{month_of, calendar_year, day_number, civil_from_days-parts}

march_of_month :
    (mp : ℕ) → mp < 12 → (from_march (month_of mp) ≡ mp) × (1 ≤ month_of mp) × (month_of mp ≤ 12)
march_of_month mp h = ground arith

minus_one : (y : ℤ) → y +ℤ pos 1 -ℤ pos 1 ≡ y
minus_one y = omega int_laws

shift_of_year : (y' : ℤ) (mp : ℕ) → mp < 12 → shifted_year (calendar_year y' mp) (month_of mp) ≡ y'
shift_of_year y' mp h = elim (Bool-cases (leb (month_of mp) 2)) [
  | inl winter ↦ rw winter (minus_one y')
  | inr rest ↦ rw rest
]

rest_of_year : (era : ℤ) (yoe : ℕ) → pos_part (pos yoe +ℤ era *ℤ pos 400 -ℤ era *ℤ pos 400) ≡ yoe
rest_of_year era yoe =
    let e : pos yoe +ℤ era *ℤ pos 400 -ℤ era *ℤ pos 400 ≡ pos yoe = omega int_laws in ap pos_part e

join_400_swap : (era : ℤ) (yoe : ℕ) → yoe < 400 → floor_div (pos yoe +ℤ era *ℤ pos 400) 400 ≡ era
join_400_swap era yoe h =
    let e : pos yoe +ℤ era *ℤ pos 400 ≡ era *ℤ pos 400 +ℤ pos yoe = omega int_laws in
    rw e (join_400 era yoe h)

-- `days_from_civil` at the date of an era, a year, a month from March and a day from 0.
days_from_civil-parts :
    (era : ℤ) (yoe mp k : ℕ)
    → yoe < 400
    → mp < 12
    → days_from_civil (calendar_year (pos yoe +ℤ era *ℤ pos 400) mp) (month_of mp) (k + 1)
      ≡ day_number era (year_start yoe + (month_start mp + k))
unfolding days_from_civil
days_from_civil-parts era yoe mp k hy hm =
    let day : month_start mp + (k + 1) - 1 ≡ month_start mp + k = omega arith in
    rw (
      shift_of_year (pos yoe +ℤ era *ℤ pos 400) mp hm,
      join_400_swap era yoe hy,
      rest_of_year era yoe,
      (march_of_month mp hm).0,
      day,
    )

leap_of_end :
    (era : ℤ) (yoe : ℕ)
    → yoe < 400
    → IsLeapEnd yoe
    → is_leap (pos yoe +ℤ era *ℤ pos 400 +ℤ pos 1) ≡ true
leap_of_end era yoe h l =
    let e : pos yoe +ℤ era *ℤ pos 400 +ℤ pos 1 ≡ era *ℤ pos 400 +ℤ pos yoe +ℤ pos 1 =
      omega int_laws in
    rw e ((leap_end era yoe h).1 l)

-- The day of a month from March on lies within the month of that year.
parts-IsDate :
    (era : ℤ) (yoe mp k : ℕ)
    → yoe < 400
    → mp < 12
    → month_start mp + k < month_start (suc mp)
    → month_start mp + k ≤ 365
    → (month_start mp + k ≡ 365 → IsLeapEnd yoe)
    → IsDate (calendar_year (pos yoe +ℤ era *ℤ pos 400) mp) (month_of mp) (k + 1)
unfolding month_start
parts-IsDate era yoe mp k hy hm hk hd leap =
    let (march, lo, hi) = march_of_month mp hm in
    let y = calendar_year (pos yoe +ℤ era *ℤ pos 400) mp in
    let (long, leap_days, common) = days_in_month_lem y (month_of mp) lo hi in
    let at_march = ap month_start march in
    let at_next = ap (λ n. month_start (suc n)) march in
    record {
      month_in = (lo, hi);
      day_in = (
        omega arith,
        elim (ℕ_discrete (month_of mp) 2) [
          | no other ↦ let whole = long other in omega (arith, whole, at_march, at_next)
          | yes february ↦
              let eleven : mp ≡ 11 = ground arith in
              let year : y ≡ pos yoe +ℤ era *ℤ pos 400 +ℤ pos 1 = rw february in
              elim (Bool-cases (is_leap y)) [
                | inl l ↦ omega (arith, leap_days february l)
                | inr c ↦
                    let n = common february c in
                    elim (dec_lt k 28) [
                      | yes few ↦ omega arith
                      | no many ↦
                          let l = leap_of_end era yoe hy (leap (omega arith)) in
                          absurd (cc (l, c, year))
                    ]
              ]
        ],
      );
    }

day_number_of :
    (z era : ℤ) (doe : ℕ) → z +ℤ pos 719468 -ℤ era *ℤ pos 146097 ≡ pos doe → z ≡ day_number era doe
day_number_of z era doe r = omega (int_laws, ap pos_part r, ap neg_part r)

-- A day number taken apart.
record Split (z : ℤ) : Type 0 where
  era : ℤ
  yoe : ℕ
  mp : ℕ
  k : ℕ
  yoe_in : yoe < 400
  mp_in : mp < 12
  in_month : month_start mp + k < month_start (suc mp)
  in_year : month_start mp + k ≤ 365
  leap_day : month_start mp + k ≡ 365 → IsLeapEnd yoe
  whole : z ≡ day_number era (year_start yoe + (month_start mp + k))

Split-of : (z : ℤ) → Split z
Split-of z =
    let z' = z +ℤ pos 719468 in
    let (doe, small, rest) = split_146097 z' in
    let era = floor_div z' 146097 in
    let (yoe_in, start, last, leap) = year_of_era_lem doe small in
    let yoe = year_of_era doe in
    let doy = doe - year_start yoe in
    let (mp_in, from, to) = month_of_year_lem doy (omega arith) in
    let mp = month_of_year doy in
    let k = doy - month_start mp in
    let sum : year_start yoe + (month_start mp + k) ≡ doe = omega arith in
    record {
      era = era;
      yoe = yoe;
      mp = mp;
      k = k;
      yoe_in = yoe_in;
      mp_in = mp_in;
      in_month = omega arith;
      in_year = omega arith;
      leap_day = λ e. leap (omega arith);
      whole = rw sum (day_number_of z era doe rest);
    }

-- Every day number is that of a date, which `civil_from_days` finds.
pub days_from_civil-civil_from_days :
    (z : ℤ) → let (y, m, d) = civil_from_days z in IsDate y m d × (days_from_civil y m d ≡ z)
days_from_civil-civil_from_days z =
    let s = Split-of z in
    let date : civil_from_days z
        ≡ (calendar_year (pos s.yoe +ℤ s.era *ℤ pos 400) s.mp, month_of s.mp, s.k + 1) =
      ap civil_from_days s.whole
      ∙ civil_from_days-parts s.era s.yoe s.mp s.k s.yoe_in s.mp_in s.in_month s.in_year
          s.leap_day in
    subst (λ t. IsDate t.0 t.1 t.2 × (days_from_civil t.0 t.1 t.2 ≡ z)) (sym date)
      (
        parts-IsDate s.era s.yoe s.mp s.k s.yoe_in s.mp_in s.in_month s.in_year s.leap_day,
        days_from_civil-parts s.era s.yoe s.mp s.k s.yoe_in s.mp_in ∙ sym s.whole,
      )
