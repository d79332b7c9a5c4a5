-- ===== src/Examples/Times.antt =====
-- The calendar and the texts of time at concrete inputs.
use asterism_asper.Base.{◌<◌, ◌*◌, ◌+◌, ◌^◌, ◌≡◌, refl, some, arith}
use asterism_asper.Base.Int.{pos}
use asterism_asper.Base.Text.{codes}
use asterism_asper.Time.Calendar.{
  days_from_civil, civil_from_days, days_in_month, is_leap, floor_div,
}
use asterism_asper.Time.Calendar.Months.{IsDate}
use asterism_asper.Time.Calendar.Dates.{civil_from_days-days_from_civil}
use asterism_asper.Time.Calendar.Days.{days_from_civil-civil_from_days}
use asterism_asper.Time.Text.{parse_rfc3339, format_rfc3339, split_instant}
use asterism_asper.Time.Text.RoundTrip.{parse-format_rfc3339}
use asterism_asper.Time.Era.{month_of_year, year_start, year_of_era}
use asterism_asper.Time.Duration.{
  duration_parse, dur_number, scan_digits, time_section, time_loop, time_part, duration_parse-lt,
}

leap_day-IsDate : IsDate (pos 2024) 2 29
unfolding days_in_month is_leap
leap_day-IsDate = record {
  month_in = (omega arith, omega arith);
  day_in = (omega arith, omega arith);
}

civil_from_days-days_from_civil_example :
    civil_from_days (days_from_civil (pos 2024) 2 29) ≡ (pos 2024, 2, 29)
civil_from_days-days_from_civil_example =
    civil_from_days-days_from_civil (pos 2024) 2 29 leap_day-IsDate

days_from_civil-civil_from_days_example :
    let (y, m, d) = civil_from_days (pos 19782) in
    IsDate y m d × (days_from_civil y m d ≡ pos 19782)
days_from_civil-civil_from_days_example = days_from_civil-civil_from_days (pos 19782)

year_2024 : (civil_from_days (split_instant (pos 1709210096)).0).0 ≡ pos 2024
unfolding civil_from_days split_instant floor_div month_of_year year_start year_of_era
year_2024 = refl

parse-format_rfc3339_example :
    parse_rfc3339 (format_rfc3339 (pos 1709210096)) ≡ some (pos 1709210096)
parse-format_rfc3339_example = parse-format_rfc3339 (pos 1709210096) 2024 (omega arith, year_2024)

two_days : duration_parse (codes "P2DT3H") ≡ some (2 * 86400 + 3 * 3600)
unfolding duration_parse dur_number scan_digits time_section time_loop time_part
two_days = refl

duration_parse-lt_example : 2 * 86400 + 3 * 3600 < 2 ^ 63
duration_parse-lt_example = duration_parse-lt (codes "P2DT3H") (2 * 86400 + 3 * 3600) two_days
