-- ===== src/Util/LocalTime.antt =====
-- rust_frp_util/src/localtime.rs: the conversion between days since 1970-01-01 and civil dates.
pub mod Calendar
mod Runs
use rust_frp.Common.{ℕ, ◌+◌, ◌-◌, ◌*◌, ◌/◌, Bool, leb, ltb, if◌then◌else◌}
use rust_frp.Common.Int.{ℤ, pos, ◌+ℤ◌, ◌-ℤ◌, times, quot, is_nonneg, as_u64}

-- The era of 400 years that a day, or a year, is in.
unfoldable pub era_of_day : ℤ → ℤ
era_of_day z = quot (if is_nonneg z then z else z -ℤ pos 146_096) 146_097

unfoldable pub era_of_year : ℤ → ℤ
era_of_year y = quot (if is_nonneg y then y else y -ℤ pos 399) 400

abbrev pub year_of_era : ℕ → ℕ
year_of_era doe = (doe - doe / 1460 + doe / 36_524 - doe / 146_096) / 365

abbrev pub day_of_year : ℕ → ℕ
day_of_year doe = let yoe = year_of_era doe in doe - (365 * yoe + yoe / 4 - yoe / 100)

-- The month and the day, of a day of a year that begins in March.
abbrev pub march_month : ℕ → ℕ
march_month doy = (5 * doy + 2) / 153

abbrev pub month_of : ℕ → ℕ
month_of mp = if ltb mp 10 then mp + 3 else mp - 9

abbrev pub day_of : ℕ → ℕ
day_of doy = doy - (153 * march_month doy + 2) / 5 + 1

-- The year, the month and the day of a day of an era.
abbrev pub civil_of_era : ℤ → ℕ → ℤ × ℕ × ℕ
civil_of_era era doe =
    let y = pos (year_of_era doe) +ℤ times era 400 in
    let doy = day_of_year doe in
    let m = month_of (march_month doy) in (if leb m 2 then y +ℤ pos 1 else y, m, day_of doy)

unfoldable pub civil_from_days : ℤ → ℤ × ℕ × ℕ
unfolding era_of_day
civil_from_days z =
    let shifted = z +ℤ pos 719_468 in
    let era = era_of_day shifted in civil_of_era era (as_u64 (shifted -ℤ times era 146_097))

-- The days of an era before a day of a year that begins in March.
abbrev pub days_of_era : ℕ → ℕ → ℕ → ℕ
days_of_era yoe m d =
    let mp = if ltb 2 m then m - 3 else m + 9 in
    let doy = (153 * mp + 2) / 5 + d - 1 in yoe * 365 + yoe / 4 - yoe / 100 + doy

abbrev pub days_at : ℤ → ℕ → ℕ → ℤ
days_at y m d =
    let era = era_of_year y in
    times era 146_097 +ℤ pos (days_of_era (as_u64 (y -ℤ times era 400)) m d) -ℤ pos 719_468

unfoldable pub days_from_civil : ℤ → ℕ → ℕ → ℤ
unfolding era_of_year
days_from_civil y m d = days_at (if leb m 2 then y -ℤ pos 1 else y) m d
