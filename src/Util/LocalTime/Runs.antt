-- ===== src/Util/LocalTime/Runs.antt =====
-- The dates of rust_frp_util/src/localtime.rs at concrete inputs.
use rust_frp.Common.{◌≤◌, ◌≡◌, refl}
use rust_frp.Common.Int.{pos, negsuc, ◌+ℤ◌, ◌-ℤ◌, times, quot}
use rust_frp.Util.LocalTime.{era_of_day, civil_from_days, days_from_civil}
use rust_frp.Util.LocalTime.Calendar.{days_from_civil-civil_from_days}

some_dates :
    (civil_from_days (pos 20_731) ≡ (pos 2026, 10, 5))
    × (civil_from_days (negsuc 0) ≡ (pos 1969, 12, 31))
    × (civil_from_days (pos 11_016) ≡ (pos 2000, 2, 29))
unfolding civil_from_days era_of_day ◌+ℤ◌ ◌-ℤ◌ times quot
some_dates = (refl, refl, refl)

days_from_civil-civil_from_days_example :
    let (y, m, d) = civil_from_days (negsuc 719_468) in
    (1 ≤ m) × (m ≤ 12) × (1 ≤ d) × (d ≤ 31) × (days_from_civil y m d ≡ negsuc 719_468)
days_from_civil-civil_from_days_example = days_from_civil-civil_from_days (negsuc 719_468)
