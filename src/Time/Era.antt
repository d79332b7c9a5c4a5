-- ===== src/Time/Era.antt =====
-- Years, months and days within a cycle of 400 years, which starts on March 1st.
use asterism_asper.Base.{ℕ, suc, ◌+◌, ◌-◌, ◌*◌, ◌/◌, ◌%◌, ◌≤◌, ◌<◌, ◌≡◌, arith, ◌⊎◌, inl, inr}
use native.Mathlib.Decide.{dec_lt}

-- `yoe` of `civil_from_days`.
unfoldable pub year_of_era : ℕ → ℕ
year_of_era doe = (doe - doe / 1460 + doe / 36524 - doe / 146096) / 365

-- `yoe * 365 + yoe / 4 - yoe / 100`.
unfoldable pub year_start : ℕ → ℕ
year_start yoe = yoe * 365 + yoe / 4 - yoe / 100

-- `mp`, the month counted from March, and the day of the year on which it starts.
unfoldable pub month_of_year : ℕ → ℕ
month_of_year doy = (5 * doy + 2) / 153

unfoldable pub month_start : ℕ → ℕ
month_start mp = (153 * mp + 2) / 5

-- The year ends in a leap day: the next calendar year is a leap year.
abbrev pub IsLeapEnd : ℕ → Type 0
IsLeapEnd yoe = ((suc yoe % 4 ≡ 0) × (1 ≤ suc yoe % 100)) ⊎ (suc yoe % 400 ≡ 0)

-- A day of an era lies in its year, and on the 366th day only if there is one.
pub year_of_era_lem :
    (doe : ℕ)
    → doe < 146097
    → (year_of_era doe < 400)
      × (year_start (year_of_era doe) ≤ doe)
      × (doe ≤ year_start (year_of_era doe) + 365)
      × (doe ≡ year_start (year_of_era doe) + 365 → IsLeapEnd (year_of_era doe))
unfolding year_start year_of_era
year_of_era_lem doe h = (omega arith, omega arith, omega arith, last)
  where
    last : doe ≡ year_start (year_of_era doe) + 365 → IsLeapEnd (year_of_era doe)
    last e = elim (dec_lt doe 146096) [
      | yes p ↦ inl (omega arith, omega arith)
      | no p ↦ inr (omega arith)
    ]

-- The year of the day that a year and a day of that year make up.
pub year_of_era-year_start :
    (yoe doy : ℕ)
    → yoe < 400
    → doy ≤ 365
    → (doy ≡ 365 → IsLeapEnd yoe)
    → (year_start yoe + doy < 146097) × (year_of_era (year_start yoe + doy) ≡ yoe)
unfolding year_start year_of_era
year_of_era-year_start yoe doy hy hd leap = elim (dec_lt doy 365) [
  | yes short ↦ (omega arith, omega arith)
  | no long ↦ elim (leap (omega arith)) [
    | inl fourth ↦ (omega arith, omega arith)
    | inr last ↦ (omega arith, omega arith)
  ]
]

-- Months are 30 or 31 days long but for the last, and a day lies in its month.
pub month_of_year_lem :
    (doy : ℕ)
    → doy ≤ 365
    → (month_of_year doy < 12)
      × (month_start (month_of_year doy) ≤ doy)
      × (doy < month_start (suc (month_of_year doy)))
unfolding month_start month_of_year
month_of_year_lem doy h = omega arith

pub month_of_year-month_start :
    (mp k : ℕ)
    → mp < 12
    → month_start mp + k < month_start (suc mp)
    → month_of_year (month_start mp + k) ≡ mp
unfolding month_start month_of_year
month_of_year-month_start mp k h lt = omega arith
