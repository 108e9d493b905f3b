-- ===== src/Platform/Date.antt =====
-- `new Date(ms).toISOString()`. A date is its time value, the milliseconds since 1970; the calendar
-- is computed on the days since 1 March of a year so early that every valid date lies after it.
pub mod Calendar
pub mod Iso
use agregado.Base.{
  ℕ, zero, suc, ◌+◌, ◌-◌, ◌*◌, ◌/◌, ◌%◌, ◌≡◌, refl, Bool, [], ◌∷◌, ◌++◌, ltb, leb, if◌then◌else◌,
}
use agregado.Base.Int.{ℤ, pos, negsuc, pos_part, neg_part}
use agregado.Base.Outcome.{Outcome, ok, throws, range_error}
use agregado.Text.{Str, codes}

pub record Civil : Type 0 where
  -- 400000 years are added to the year
  pub year : ℕ
  pub month : ℕ
  pub day : ℕ

abbrev pub ms_per_day : ℕ
ms_per_day = 86400000

-- From 1 March of the year -400000 to 1 January 1970.
abbrev pub epoch_days : ℕ
epoch_days = 719468 + 146097000

abbrev pub max_time : ℕ
max_time = 8640000000000000

abbrev pub is_valid : ℤ → Bool
is_valid t = leb (pos_part t + neg_part t) max_time

-- The year within a 400-year cycle that begins in March, for a day of the cycle.
abbrev pub year_of_cycle : ℕ → ℕ
year_of_cycle doe = (doe - doe / 1460 + doe / 36524 - doe / 146096) / 365

abbrev pub day_of_year : ℕ → ℕ → ℕ
day_of_year doe yoe = doe - (365 * yoe + yoe / 4 - yoe / 100)

-- The date in a year that begins in March.
unfoldable pub civil_of_year : ℕ → ℕ → Civil
civil_of_year y doy =
    let mp = (5 * doy + 2) / 153 in
    let d = doy - (153 * mp + 2) / 5 + 1 in
    if ltb mp 10
    then record { year = y; month = mp + 3; day = d }
    else record { year = y + 1; month = mp - 9; day = d }

unfoldable pub civil_from_days : ℕ → Civil
civil_from_days z =
    let doe = z % 146097 in
    let yoe = year_of_cycle doe in civil_of_year (z / 146097 * 400 + yoe) (day_of_year doe yoe)

-- `k` decimal digits of `n`.
unfoldable pub digits : ℕ → ℕ → Str
digits zero n = []
digits (suc k) n = digits k (n / 10) ++ (b'0' + n % 10) ∷ []

-- Four digits for the years 0 to 9999, a sign and six digits for all others.
unfoldable pub iso_year : ℕ → Str
iso_year y =
    if ltb y 400000
    then b'-' ∷ digits 6 (400000 - y)
    else if leb y 409999
    then digits 4 (y - 400000)
    else b'+' ∷ digits 6 (y - 400000)

-- The text of a date and a time of day in milliseconds.
unfoldable pub iso_text : Civil → ℕ → Str
iso_text c ms =
    iso_year c.year
    ++ (b'-'
        ∷ (digits 2 c.month
            ++ (b'-'
                ∷ (digits 2 c.day
                    ++ (b'T'
                        ∷ (digits 2 (ms / 3600000)
                            ++ (b':'
                                ∷ (digits 2 (ms / 60000 % 60)
                                    ++ (b':'
                                        ∷ (digits 2 (ms / 1000 % 60)
                                            ++ (b'.'
                                                ∷ (digits 3 (ms % 1000) ++ b'Z' ∷ []))))))))))))

-- A valid time value, counted from the beginning of the calendar above.
abbrev pub shifted : ℤ → ℕ
shifted t = pos_part t + epoch_days * ms_per_day - neg_part t

unfoldable pub to_iso_string : ℤ → Outcome Str
to_iso_string t =
    let n = shifted t in
    if is_valid t
    then ok (iso_text (civil_from_days (n / ms_per_day)) (n % ms_per_day))
    else throws range_error

-- For evaluation: what a date's text is computed by.
unfoldable pub date_code : Unit {0}
unfolding to_iso_string iso_text iso_year digits civil_from_days civil_of_year
date_code = tt

to_iso_string_test : to_iso_string (pos 1700000000000) ≡ ok (codes "2023-11-14T22:13:20.000Z")
unfolding date_code
to_iso_string_test = refl

to_iso_string_before : to_iso_string (negsuc 0) ≡ ok (codes "1969-12-31T23:59:59.999Z")
unfolding date_code
to_iso_string_before = refl

to_iso_string_last : to_iso_string (pos max_time) ≡ ok (codes "+275760-09-13T00:00:00.000Z")
unfolding date_code
to_iso_string_last = refl

to_iso_string_first :
    to_iso_string (negsuc (max_time - 1)) ≡ ok (codes "-271821-04-20T00:00:00.000Z")
unfolding date_code
to_iso_string_first = refl
