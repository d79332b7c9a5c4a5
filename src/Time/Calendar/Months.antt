-- ===== src/Time/Calendar/Months.antt =====
-- The month lengths of src/time.c against the starts of the months counted from March, and the
-- split of a number into eras and a rest.
use asterism_asper.Base.{
  ℕ, zero, suc, ◌+◌, ◌-◌, ◌%◌, ◌≤◌, ◌<◌, ◌≡◌, refl, Bool, true, false, ◌||◌, arith, leb, ◌==◌,
  get_or, inl, inr, ◌≢◌, all_below, all_below_sound, Bool-cases,
}
use asterism_asper.Base.Int.{ℤ, pos, pos_part, ◌+ℤ◌, ◌-ℤ◌, ◌*ℤ◌}
use asterism_asper.Time.Era.{month_start, IsLeapEnd}
use asterism_asper.Time.Calendar.{floor_div, from_march, is_leap, days_in_month, month_days}

-- A number splits into whole eras and a rest, in one way.
pub split_400 : (y : ℤ) → (r : ℕ) × (r < 400) × (y -ℤ floor_div y 400 *ℤ pos 400 ≡ pos r)
unfolding floor_div ◌-ℤ◌ ◌*ℤ◌
split_400 y = (pos_part (y -ℤ floor_div y 400 *ℤ pos 400), ground arith, ground arith)

pub split_146097 :
    (y : ℤ) → (r : ℕ) × (r < 146097) × (y -ℤ floor_div y 146097 *ℤ pos 146097 ≡ pos r)
unfolding floor_div ◌-ℤ◌ ◌*ℤ◌
split_146097 y = (pos_part (y -ℤ floor_div y 146097 *ℤ pos 146097), ground arith, ground arith)

pub join_400 : (e : ℤ) (r : ℕ) → r < 400 → floor_div (e *ℤ pos 400 +ℤ pos r) 400 ≡ e
unfolding floor_div ◌-ℤ◌ ◌*ℤ◌ ◌+ℤ◌
join_400 e r h = ground arith

pub join_146097 : (e : ℤ) (r : ℕ) → r < 146097 → floor_div (e *ℤ pos 146097 +ℤ pos r) 146097 ≡ e
unfolding floor_div ◌-ℤ◌ ◌*ℤ◌ ◌+ℤ◌
join_146097 e r h = ground arith

pub record IsDate (y : ℤ) (m d : ℕ) : Type 0 where
  pub month_in : (1 ≤ m) × (m ≤ 12)
  pub day_in : (1 ≤ d) × (d ≤ days_in_month y m)

-- The table of month lengths against the starts of the months.
pub month_ok : ℕ → Bool
month_ok i =
    (month_start (from_march (suc i)) + get_or month_days i 0
      == month_start (suc (from_march (suc i))))
    || (i == 1)

pub month_table : all_below 12 month_ok ≡ true
unfolding all_below month_ok month_start
month_table = refl

-- A month runs up to the start of the next one, but for February, which has 28 or 29 days.
pub days_in_month_lem :
    (y : ℤ) (m : ℕ)
    → 1 ≤ m
    → m ≤ 12
    → (m ≢ 2 → month_start (from_march m) + days_in_month y m ≡ month_start (suc (from_march m)))
      × (m ≡ 2 → is_leap y ≡ true → days_in_month y m ≡ 29)
      × (m ≡ 2 → is_leap y ≡ false → days_in_month y m ≡ 28)
unfolding days_in_month month_ok
days_in_month_lem y zero h k = absurd (omega arith)
days_in_month_lem y (suc i) h k =
    let t = all_below_sound 12 month_ok i month_table (omega arith) in
    (λ ne. ground (arith, t), λ e l. ground arith, λ e l. ground arith)

pub short_enough : ℕ → Bool
short_enough i = leb (get_or month_days i 0) 31

pub short_table : all_below 12 short_enough ≡ true
unfolding all_below short_enough
short_table = refl

pub days_in_month-le : (y : ℤ) (m : ℕ) → 1 ≤ m → m ≤ 12 → days_in_month y m ≤ 31
unfolding days_in_month short_enough
days_in_month-le y zero h k = absurd (omega arith)
days_in_month-le y (suc i) h k =
    let t = all_below_sound 12 short_enough i short_table (omega arith) in ground (arith, t)

-- The day of the shifted year, and where it lies.
pub day_of_year : ℕ → ℕ → ℕ
day_of_year m d = month_start (from_march m) + d - 1

pub leap_end :
    (era : ℤ) (yoe : ℕ)
    → yoe < 400
    → (is_leap (era *ℤ pos 400 +ℤ pos yoe +ℤ pos 1) ≡ true → IsLeapEnd yoe)
      × (IsLeapEnd yoe → is_leap (era *ℤ pos 400 +ℤ pos yoe +ℤ pos 1) ≡ true)
unfolding is_leap ◌-ℤ◌ ◌*ℤ◌ ◌+ℤ◌
leap_end era yoe h = (
  λ l. elim (Bool-cases (suc yoe % 400 == 0)) [
    | inl whole ↦ inr (ground arith)
    | inr broken ↦ inl (ground arith, ground arith)
  ],
  λ l. ground arith,
)
