-- ===== src/TimeUtil/Era.antt =====
-- The arithmetic of the calendar in time_util.rs, on numbers: the day of a 400-year era, and the
-- year of the era and the day of that year. A year here begins on the first of March.
use mathlib.Core.Path.{ap₂}
use emergency_ration_webhook.Common.{
  ℕ, ◌∙◌, ◌+◌, ◌-◌, ◌*◌, ◌/◌, ◌≤◌, ◌<◌, ◌≡◌, arith, leb, ltb, if◌then◌else◌,
}

-- The year of an era that holds its day `doe`.
abbrev pub year_of_era : ℕ → ℕ
year_of_era doe = (doe - doe / 1460 + doe / 36524 - doe / 146096) / 365

-- The days of an era before its year `yoe`.
abbrev pub days_before : ℕ → ℕ
days_before yoe = yoe * 365 + yoe / 4 - yoe / 100

-- Each day of an era lies in the year that the formula names.
pub year_of_era_range :
    (doe : ℕ)
    → doe < 146097
    → (days_before (year_of_era doe) ≤ doe)
      × (doe ≤ days_before (year_of_era doe) + 365)
      × (year_of_era doe ≤ 399)
year_of_era_range doe h = omega arith

-- The month and the day of a day `doy` of a year: the month counts from March, and is then put
-- into the calendar's order.
abbrev pub month_index : ℕ → ℕ
month_index doy = (5 * doy + 2) / 153

abbrev pub month_of : ℕ → ℕ
month_of doy = if ltb (month_index doy) 10 then month_index doy + 3 else month_index doy - 9

abbrev pub day_of : ℕ → ℕ
day_of doy = doy - (153 * month_index doy + 2) / 5 + 1

-- The date of day `n` after 0000-03-01.
abbrev pub era_of : ℕ → ℕ
era_of n = n / 146097

abbrev pub day_in_era : ℕ → ℕ
day_in_era n = n - era_of n * 146097

abbrev pub day_in_year : ℕ → ℕ
day_in_year n = day_in_era n - days_before (year_of_era (day_in_era n))

abbrev pub march_year : ℕ → ℕ
march_year n = year_of_era (day_in_era n) + era_of n * 400

abbrev pub year_of : ℕ → ℕ
year_of n = if leb (month_of (day_in_year n)) 2 then march_year n + 1 else march_year n

-- The day of a date, counted from 0000-03-01.
abbrev pub shifted_month : ℕ → ℕ
shifted_month m = if ltb 2 m then m - 3 else m + 9

abbrev pub shifted_year : ℕ → ℕ → ℕ
shifted_year y m = if leb m 2 then y - 1 else y

-- The day of a year `y` that begins in March, a month counted from March and a day.
unfoldable pub march_day : ℕ → ℕ → ℕ → ℕ
march_day y mi d =
    y / 400 * 146097 + (days_before (y - y / 400 * 400) + ((153 * mi + 2) / 5 + d - 1))

abbrev pub day_number : ℕ → ℕ → ℕ → ℕ
day_number y m d = march_day (shifted_year y m) (shifted_month m) d

pub month_range :
    (doy : ℕ)
    → doy ≤ 365
    → (1 ≤ month_of doy)
      × (month_of doy ≤ 12)
      × (1 ≤ day_of doy)
      × (day_of doy ≤ 31)
      × (shifted_month (month_of doy) ≡ month_index doy)
      × ((153 * month_index doy + 2) / 5 ≤ doy)
month_range doy h = ground arith

pub day_in_era-lt : (n : ℕ) → day_in_era n < 146097
day_in_era-lt n = omega arith

pub day_in_year_range : (n : ℕ) → day_in_year n ≤ 365
day_in_year_range n = omega (arith, year_of_era_range (day_in_era n) (day_in_era-lt n))

pub march_year_lem : (n : ℕ) → shifted_year (year_of n) (month_of (day_in_year n)) ≡ march_year n
march_year_lem n = ground arith

pub march_year-div :
    (n : ℕ)
    → (march_year n / 400 ≡ era_of n) × (march_year n - era_of n * 400 ≡ year_of_era (day_in_era n))
march_year-div n = omega (arith, year_of_era_range (day_in_era n) (day_in_era-lt n))

march_day-civil :
    (n : ℕ) → march_day (march_year n) (month_index (day_in_year n)) (day_of (day_in_year n)) ≡ n
unfolding march_day
march_day-civil n =
    let (div, rest) = march_year-div n in
    let (_, _, _, _, _, fits) = month_range (day_in_year n) (day_in_year_range n) in
    let (before, _, _) = year_of_era_range (day_in_era n) (day_in_era-lt n) in
    rw (div, rest) (omega (arith, fits, before))

-- The date of a day has that day's number.
pub day_number-civil :
    (n : ℕ) → day_number (year_of n) (month_of (day_in_year n)) (day_of (day_in_year n)) ≡ n
day_number-civil n =
    let (_, _, _, _, same, _) = month_range (day_in_year n) (day_in_year_range n) in
    ap₂ (λ y m. march_day y m (day_of (day_in_year n))) (march_year_lem n) same ∙ march_day-civil n

-- The days of the years 1 to 9999 have years 1 to 9999.
pub year_of_range : (n : ℕ) → 306 ≤ n → n ≤ 3652364 → (1 ≤ year_of n) × (year_of n ≤ 9999)
year_of_range n lo hi =
    let (_, _, _) = year_of_era_range (day_in_era n) (day_in_era-lt n) in ground arith
