-- ===== src/Platform/Date/Calendar.antt =====
-- The calendar of the dates against the day numbers of ECMA-262, which count leap years.
use agregado.Base.{
  ℕ, zero, suc, ◌+◌, ◌-◌, ◌*◌, ◌/◌, ◌%◌, ◌≤◌, ◌<◌, ◌≡◌, refl, Bool, true, ◌&&◌, ◌||◌, not, ◌==◌,
  leb, if◌then◌else◌, arith, Bool-cases, inl, inr,
}
use agregado.Base.Tables.{is_table, look_up}
use agregado.Platform.Date.{Civil, civil_from_days, civil_of_year, year_of_cycle, day_of_year}

abbrev pub is_leap : ℕ → Bool
is_leap y = y % 4 == 0 && (not (y % 100 == 0) || y % 400 == 0)

abbrev year_start : ℕ → ℕ
year_start yoe = 365 * yoe + yoe / 4 - yoe / 100

cycle_bounds :
    (doe : ℕ)
    → doe < 146097
    → (year_of_cycle doe ≤ 399)
      × (year_start (year_of_cycle doe) ≤ doe)
      × (doe ≤ year_start (year_of_cycle doe) + 365)
cycle_bounds doe h = (omega arith, omega arith, omega arith)

-- The days of a year before a month.
unfoldable pub days_before_month : ℕ → ℕ → ℕ
days_before_month leap m =
    if m == 1
    then 0
    else if m == 2
    then 31
    else if m == 3
    then 59 + leap
    else if m == 4
    then 90 + leap
    else if m == 5
    then 120 + leap
    else if m == 6
    then 151 + leap
    else if m == 7
    then 181 + leap
    else if m == 8
    then 212 + leap
    else if m == 9
    then 243 + leap
    else if m == 10
    then 273 + leap
    else if m == 11
    then 304 + leap
    else 334 + leap

-- The days between 1 January of the year 0 and 1 January of a year.
unfoldable pub days_before_year : ℕ → ℕ
days_before_year y = 365 * y + (y + 3) / 4 - (y + 99) / 100 + (y + 399) / 400

unfoldable pub leap_day : ℕ → ℕ
leap_day y = if is_leap y then 1 else 0

-- The days between 1 January of the year 0 and a date.
abbrev pub day_number : Civil → ℕ
day_number c = days_before_year c.year + days_before_month (leap_day c.year) c.month + c.day - 1

days_before_year-suc_4 : (y : ℕ) → (y + 1 + 3) / 4 ≡ (y + 3) / 4 + (if y % 4 == 0 then 1 else 0)
days_before_year-suc_4 y = ground arith

days_before_year-suc_100 :
    (y : ℕ) → (y + 1 + 99) / 100 ≡ (y + 99) / 100 + (if y % 100 == 0 then 1 else 0)
days_before_year-suc_100 y = ground arith

days_before_year-suc_400 :
    (y : ℕ) → (y + 1 + 399) / 400 ≡ (y + 399) / 400 + (if y % 400 == 0 then 1 else 0)
days_before_year-suc_400 y = ground arith

leap_day_parts :
    (y : ℕ)
    → leap_day y + (if y % 100 == 0 then 1 else 0)
      ≡ (if y % 4 == 0 then 1 else 0) + (if y % 400 == 0 then 1 else 0)
unfolding leap_day
leap_day_parts y = ground arith

centuries_le : (y : ℕ) → (y + 99) / 100 ≤ y
centuries_le y = omega arith

-- A year has 365 days, and one more in a leap year.
pub days_before_year-suc :
    (y : ℕ) → days_before_year (y + 1) ≡ days_before_year y + 365 + leap_day y
unfolding days_before_year
days_before_year-suc y = omega (
  arith,
  days_before_year-suc_4 y,
  days_before_year-suc_100 y,
  days_before_year-suc_400 y,
  leap_day_parts y,
  centuries_le y,
)

-- What is to hold of the date of a day in a year that begins in March: the day number, and the
-- ranges of the month and the day.
abbrev fits_march : ℕ → ℕ → Civil → Bool
fits_march leap doy c =
    let n = days_before_month leap c.month + c.day in
    (c.year == 0 && n == 60 + leap + doy || c.year == 1 && n + 305 == doy)
    && (leb 1 c.month && leb c.month 12 && (leb 1 c.day && leb c.day 31))

march_date : ℕ → ℕ → Bool
unfolding civil_of_year days_before_month
march_date leap doy = fits_march leap doy (civil_of_year 0 doy)

march_table : (is_table (march_date 0) 366 ≡ true) × (is_table (march_date 1) 366 ≡ true)
unfolding is_table march_date
march_table = (refl, refl)

march_date_lem : (leap doy : ℕ) → leap ≤ 1 → doy ≤ 365 → march_date leap doy ≡ true
march_date_lem zero doy l h = look_up (march_date 0) 366 march_table.0 (omega arith)
march_date_lem (suc zero) doy l h = look_up (march_date 1) 366 march_table.1 (omega arith)
march_date_lem (suc (suc leap)) doy l h = absurd (omega arith)

civil_of_year-add :
    (y doy : ℕ)
    → civil_of_year y doy ≡ record (civil_of_year 0 doy) { year = y + (civil_of_year 0 doy).year }
unfolding civil_of_year
civil_of_year-add y doy = ground arith

-- A month from 1 to 12 and a day from 1 to 31.
abbrev pub IsDate : Civil → Type 0
IsDate c = (1 ≤ c.month) × (c.month ≤ 12) × (1 ≤ c.day) × (c.day ≤ 31)

leap_day_le : (y : ℕ) → leap_day y ≤ 1
unfolding leap_day
leap_day_le y = ground arith

fits_march_lem :
    (leap doy : ℕ) → leap ≤ 1 → doy ≤ 365 → fits_march leap doy (civil_of_year 0 doy) ≡ true
fits_march_lem leap doy l h = unfold march_date in march_date_lem leap doy l h

number_of_parts :
    (y doy n m d : ℕ)
    → fits_march (leap_day y) doy (record { year = n; month = m; day = d }) ≡ true
    → fits_march (leap_day (y + 1)) doy (record { year = n; month = m; day = d }) ≡ true
    → (day_number (record { year = y + n; month = m; day = d }) + 306
        ≡ days_before_year (y + 1) + doy)
      × IsDate (record { year = y + n; month = m; day = d })
number_of_parts y doy n m d f g = elim (Bool-cases (n == 0)) [
  | inl e ↦
      let same : y + n ≡ y = ground arith in
      rw same (ground (arith, days_before_year-suc y, leap_day_le y))
  | inr e ↦
      let same : y + n ≡ y + 1 = ground arith in
      rw same (ground (arith, days_before_year-suc y, leap_day_le y))
]

number_of_civil :
    (y doy : ℕ)
    → doy ≤ 365
    → (day_number (civil_of_year y doy) + 306 ≡ days_before_year (y + 1) + doy)
      × IsDate (civil_of_year y doy)
number_of_civil y doy h = rw (civil_of_year-add y doy) (
    number_of_parts y doy _ _ _ (fits_march_lem (leap_day y) doy (leap_day_le y) h)
      (fits_march_lem (leap_day (y + 1)) doy (leap_day_le (y + 1)) h))

cycle_start :
    (era yoe : ℕ)
    → yoe ≤ 399
    → days_before_year (era * 400 + yoe + 1) ≡ era * 146097 + year_start yoe + 366
unfolding days_before_year
cycle_start era yoe h = omega arith

-- The date of a day is a date, and ECMA-262's number of it is the day's.
pub day_number-civil_from_days :
    (z : ℕ) → (day_number (civil_from_days z) ≡ z + 60) × IsDate (civil_from_days z)
unfolding civil_from_days
day_number-civil_from_days z =
    let doe = z % 146097 in
    let yoe = year_of_cycle doe in
    let (few, start, last) = cycle_bounds doe (omega arith) in
    let (number, date) =
      number_of_civil (z / 146097 * 400 + yoe) (day_of_year doe yoe) (omega arith) in
    (omega (arith, number, cycle_start (z / 146097) yoe few), date)
