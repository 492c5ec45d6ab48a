-- ===== src/Util/LocalTime/Calendar.antt =====
-- The dates of rust_frp_util/src/localtime.rs and the days they are made from.
use rust_frp.Common.{
  ℕ, ◌+◌, ◌-◌, ◌*◌, ◌/◌, ◌≤◌, ◌<◌, Bool, true, false, leb, ltb, if◌then◌else◌, ◌≡◌, refl, ◌∙◌, ap,
  arith,
}
use rust_frp.Common.Int.{
  ℤ, pos, negsuc, up, down, ◌+ℤ◌, ◌-ℤ◌, times, quot, as_u64, +ℤ_parts, -ℤ_parts, times_parts,
  parts_injective,
}
use rust_frp.Util.LocalTime.{
  era_of_day, era_of_year, year_of_era, day_of_year, march_month, month_of, day_of, civil_from_days,
  days_of_era, days_at, days_from_civil,
}

-- A day is its era times 146097 and a day of that era.
era_of_day_parts :
    (z : ℤ)
    → let era = era_of_day z in
      let doe = as_u64 (z -ℤ times era 146_097) in
      (doe < 146_097) × (up z + down era * 146_097 ≡ down z + up era * 146_097 + doe)
unfolding era_of_day ◌-ℤ◌ times quot
era_of_day_parts (pos n) = (ground arith, ground arith)
era_of_day_parts (negsuc n) = (ground arith, ground arith)

era_of_year_parts :
    (y : ℤ)
    → let era = era_of_year y in
      let yoe = as_u64 (y -ℤ times era 400) in
      (yoe < 400) × (up y + down era * 400 ≡ down y + up era * 400 + yoe)
unfolding era_of_year ◌-ℤ◌ times quot
era_of_year_parts (pos n) = (ground arith, ground arith)
era_of_year_parts (negsuc n) = (ground arith, ground arith)

year_of_era_bounds :
    (doe : ℕ)
    → doe < 146_097
    → let yoe = year_of_era doe in
      (yoe < 400)
      × (365 * yoe + yoe / 4 - yoe / 100 ≤ doe)
      × (doe ≤ 365 * yoe + yoe / 4 - yoe / 100 + 365)
year_of_era_bounds doe in_era = (omega arith, omega arith, omega arith)

-- The month and the day of a day of a year, and the way back.
month_and_day :
    (doy : ℕ)
    → doy ≤ 365
    → let m = month_of (march_month doy) in
      let d = day_of doy in
      let mp = if ltb 2 m then m - 3 else m + 9 in
      (1 ≤ m) × (m ≤ 12) × (1 ≤ d) × (d ≤ 31) × ((153 * mp + 2) / 5 + d - 1 ≡ doy)
month_and_day doy in_year = (ground arith, ground arith, ground arith, ground arith, ground arith)

-- A year of an era belongs to that era only.
era_of_year_back :
    (era : ℤ) (yoe : ℕ)
    → yoe < 400
    → let y = pos yoe +ℤ times era 400 in
      (era_of_year y ≡ era) × (as_u64 (y -ℤ times (era_of_year y) 400) ≡ yoe)
era_of_year_back era yoe in_era =
    let y = pos yoe +ℤ times era 400 in
    let (below, parts) = era_of_year_parts y in
    let sum = +ℤ_parts (pos yoe) (times era 400) in
    let scaled = times_parts era 400 in
    (
      parts_injective (era_of_year y) era (omega (arith, below, parts, sum, scaled)),
      omega (arith, below, parts, sum, scaled),
    )

-- January and February count to the year before.
year_back :
    (y : ℤ) (early : Bool)
    → let shown : ℤ = if early then y +ℤ pos 1 else y in
      (if early then shown -ℤ pos 1 else shown) ≡ y
year_back y true =
    parts_injective (y +ℤ pos 1 -ℤ pos 1) y
      (omega (arith, -ℤ_parts (y +ℤ pos 1) (pos 1), +ℤ_parts y (pos 1)))
year_back y false = refl

days_at_back :
    (era : ℤ) (doe : ℕ)
    → doe < 146_097
    → let doy = day_of_year doe in
      days_at (pos (year_of_era doe) +ℤ times era 400) (month_of (march_month doy)) (day_of doy)
      ≡ times era 146_097 +ℤ pos doe -ℤ pos 719_468
days_at_back era doe in_era =
    let yoe = year_of_era doe in
    let doy = day_of_year doe in
    let (few, low, high) = year_of_era_bounds doe in_era in
    let (m1, m12, d1, d31, back) = month_and_day doy (omega (arith, low, high)) in
    let (same_era, same_year) = era_of_year_back era yoe few in
    let m = month_of (march_month doy) in
    let whole : days_of_era yoe m (day_of doy) ≡ doe =
      ap (λ n. yoe * 365 + yoe / 4 - yoe / 100 + n) back ∙ omega (arith, low) in
    ap
      (λ n.
        times (era_of_year (pos yoe +ℤ times era 400)) 146_097
        +ℤ pos (days_of_era n m (day_of doy))
        -ℤ pos 719_468)
      same_year
    ∙ ap (λ e. times e 146_097 +ℤ pos (days_of_era yoe m (day_of doy)) -ℤ pos 719_468) same_era
    ∙ ap (λ n. times era 146_097 +ℤ pos n -ℤ pos 719_468) whole

-- A day, before or after 1970, has a date with a month of 1 to 12 and a day of 1 to 31, and the day of
-- that date is the same day again.
pub days_from_civil-civil_from_days :
    (z : ℤ)
    → let (y, m, d) = civil_from_days z in
      (1 ≤ m) × (m ≤ 12) × (1 ≤ d) × (d ≤ 31) × (days_from_civil y m d ≡ z)
unfolding civil_from_days days_from_civil
days_from_civil-civil_from_days z =
    let shifted = z +ℤ pos 719_468 in
    let era = era_of_day shifted in
    let doe = as_u64 (shifted -ℤ times era 146_097) in
    let doy = day_of_year doe in
    let m = month_of (march_month doy) in
    let y = pos (year_of_era doe) +ℤ times era 400 in
    let (in_era, parts) = era_of_day_parts shifted in
    let (few, low, high) = year_of_era_bounds doe in_era in
    let (m1, m12, d1, d31, back) = month_and_day doy (omega (arith, low, high)) in
    let total = times era 146_097 +ℤ pos doe in
    (
      m1,
      m12,
      d1,
      d31,
      ap (λ v. days_at v m (day_of doy)) (year_back y (leb m 2))
          ∙ days_at_back era doe in_era
          ∙ parts_injective (total -ℤ pos 719_468) z (
              omega (
                arith,
                parts,
                -ℤ_parts total (pos 719_468),
                +ℤ_parts (times era 146_097) (pos doe),
                times_parts era 146_097,
                +ℤ_parts z (pos 719_468),
              )),
    )
