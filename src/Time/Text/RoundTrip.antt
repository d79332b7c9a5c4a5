-- ===== src/Time/Text/RoundTrip.antt =====
-- Reading back what `asper_time_format_rfc3339` writes.
use asterism_asper.Base.{
  ℕ, suc, ◌+◌, ◌-◌, ◌*◌, ◌/◌, ◌%◌, ◌<◌, ◌≡◌, ap, subst, true, not, ◌||◌, List, [], ◌∷◌, ◌++◌, some,
  arith, ltb, lt→ltb,
}
use asterism_asper.Base.Int.{ℤ, pos, pos_part, neg_part, ◌+ℤ◌, ◌-ℤ◌, ◌*ℤ◌, int_laws}
use asterism_asper.Time.Calendar.{days_from_civil, civil_from_days, days_in_month}
use asterism_asper.Time.Calendar.Months.{IsDate, days_in_month-le}
use asterism_asper.Time.Calendar.Days.{days_from_civil-civil_from_days}
use asterism_asper.Time.Text.{
  is_digit, parse_digits, instant, parse_rfc3339, digit_char, two_digits, four_digits,
  split_instant, fields_text, format_rfc3339,
}

parse_digit :
    (n v x : ℕ) (s : List ℕ)
    → parse_digits (suc n) v (digit_char x ∷ s) ≡ parse_digits n (v * 10 + x % 10) s
unfolding parse_digits
parse_digit n v x s =
    let test : is_digit (digit_char x) ≡ true = ground arith in
    let value : digit_char x - 48 ≡ x % 10 = omega arith in rw (test, value)

parse_two : (x : ℕ) (s : List ℕ) → x < 100 → parse_digits 2 0 (two_digits x ++ s) ≡ some x
parse_two x s h =
    let value : (0 * 10 + x / 10 % 10) * 10 + x % 10 ≡ x = omega arith in
    rw (parse_digit, parse_digit) (unfold parse_digits in ap some value)

parse_four : (x : ℕ) (s : List ℕ) → x < 10000 → parse_digits 4 0 (four_digits x ++ s) ≡ some x
parse_four x s h =
    let value : (((0 * 10 + x / 1000 % 10) * 10 + x / 100 % 10) * 10 + x / 10 % 10) * 10 + x % 10
        ≡ x =
      omega arith in
    rw (parse_digit, parse_digit, parse_digit, parse_digit) (unfold parse_digits in ap some value)

-- The text of the fields of an instant.
abbrev rfc_text : ℕ → ℕ → ℕ → ℕ → ℕ → ℕ → List ℕ
rfc_text y m d h mi se =
    four_digits y
    ++ b'-'
      ∷ (two_digits m
          ++ b'-'
            ∷ (two_digits d
                ++ b'T'
                  ∷ (two_digits h
                      ++ b':' ∷ (two_digits mi ++ b':' ∷ (two_digits se ++ b'Z' ∷ [])))))

parse-rfc_text :
    (y m d h mi se : ℕ)
    → y < 10000
    → m < 100
    → d < 100
    → h < 100
    → mi < 100
    → se < 100
    → parse_rfc3339 (rfc_text y m d h mi se) ≡ instant y m d h mi se (pos 0)
parse-rfc_text y m d h mi se hy hm hd hh hmi hse =
    unfold parse_rfc3339 in
    rw (
      parse_four y _ hy,
      parse_two m _ hm,
      parse_two d _ hd,
      parse_two h _ hh,
      parse_two mi _ hmi,
      parse_two se _ hse,
    )

-- The fields of an instant pass the tests, and make up the instant.
instant_lem :
    (y m d h mi se : ℕ)
    → IsDate (pos y) m d
    → h < 24
    → mi < 60
    → se < 60
    → instant y m d h mi se (pos 0)
      ≡ some (days_from_civil (pos y) m d *ℤ pos 86400 +ℤ pos (h * 3600 + mi * 60 + se) +ℤ pos 0)
unfolding instant
instant_lem y m d h mi se v hh hmi hse =
    let month : not (ltb m 1 || ltb 12 m) ≡ true = ground (arith, v.month_in) in
    let day : not (ltb d 1 || ltb (days_in_month (pos y) m) d) ≡ true = ground (arith, v.day_in) in
    let time : not (ltb 23 h || ltb 59 mi || ltb 60 se) ≡ true = ground arith in
    rw (month, day, time)

split_instant_lem :
    (t : ℤ)
    → ((split_instant t).1 < 86400)
      × ((split_instant t).0 *ℤ pos 86400 +ℤ pos (split_instant t).1 ≡ t)
unfolding split_instant ◌-ℤ◌ ◌*ℤ◌ ◌+ℤ◌
split_instant_lem t = (ground arith, ground arith)

-- The instants whose year the format writes with four digits.
abbrev pub HasYear : ℤ → ℕ → Type 0
HasYear t y = (y < 10000) × ((civil_from_days (split_instant t).0).0 ≡ pos y)

format-rfc_text :
    (t : ℤ) (y m d : ℕ)
    → y < 10000
    → civil_from_days (split_instant t).0 ≡ (pos y, m, d)
    → let sod = (split_instant t).1 in
      format_rfc3339 t ≡ rfc_text y m d (sod / 3600) (sod / 60 % 60) (sod % 60)
unfolding format_rfc3339 fields_text
format-rfc_text t y m d h e = rw (e, lt→ltb y 10000 h)

fields_eq : (p : ℤ × ℕ × ℕ) (y : ℤ) → p.0 ≡ y → p ≡ (y, p.1, p.2)
fields_eq (x, m, d) y e = cc

plus_zero : (a t : ℤ) → a ≡ t → a +ℤ pos 0 ≡ t
plus_zero a t e = omega (int_laws, ap pos_part e, ap neg_part e)

-- Reading the text of an instant in the years 0 to 9999 gives the instant back, to the second.
pub parse-format_rfc3339 : (t : ℤ) (y : ℕ) → HasYear t y → parse_rfc3339 (format_rfc3339 t) ≡ some t
parse-format_rfc3339 t y h =
    let days = (split_instant t).0 in
    let sod = (split_instant t).1 in
    let m = (civil_from_days days).1 in
    let d = (civil_from_days days).2 in
    let (valid, same) = days_from_civil-civil_from_days days in
    let valid' : IsDate (pos y) m d = subst (λ w. IsDate w m d) h.1 valid in
    let same' : days_from_civil (pos y) m d ≡ days =
      subst (λ w. days_from_civil w m d ≡ days) h.1 same in
    let (small, whole) = split_instant_lem t in
    let fields : sod / 3600 * 3600 + sod / 60 % 60 * 60 + sod % 60 ≡ sod = omega arith in
    let bounds = valid'.month_in in
    let days_bound = days_in_month-le (pos y) m valid'.month_in.0 valid'.month_in.1 in
    rw
      (
        format-rfc_text t y m d h.0 (fields_eq (civil_from_days days) (pos y) h.1),
        parse-rfc_text y m d (sod / 3600) (sod / 60 % 60) (sod % 60) h.0 (omega arith)
            (omega (arith, valid'.day_in)) (omega arith) (omega arith) (omega arith),
        instant_lem y m d (sod / 3600) (sod / 60 % 60) (sod % 60) valid' (omega arith) (omega arith)
            (omega arith),
        same',
        fields,
      )
      (ap some (plus_zero _ t whole))
