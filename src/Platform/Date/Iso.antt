-- ===== src/Platform/Date/Iso.antt =====
-- A reader of the texts that `toISOString` writes, by the day numbers of ECMA-262, and the round
-- trip.
use agregado.Base.{
  ℕ, zero, suc, ◌+◌, ◌-◌, ◌*◌, ◌/◌, ◌%◌, ◌^◌, ◌≤◌, ◌<◌, ◌≡◌, refl, ap, ◌∙◌, All, All-append, ◌||◌,
  Bool, true, ◌&&◌, [], ◌∷◌, ◌++◌, Option, none, some, leb, ◌==◌, if◌then◌else◌, arith,
  append_assoc,
}
use native.Mathlib.Nat.{pow-suc}
use agregado.Base.Int.{ℤ, pos, negsuc, pos_part, neg_part, sub_ℕ}
use agregado.Base.Outcome.{ok, throws, range_error}
use agregado.Text.{Str}
use agregado.Platform.Date.{
  Civil, ms_per_day, epoch_days, max_time, digits, iso_year, iso_text, shifted, to_iso_string,
  civil_from_days, civil_of_year, year_of_cycle, day_of_year,
}
use agregado.Platform.Date.Calendar.{day_number, IsDate, day_number-civil_from_days}

-- Reads `k` digits behind the number `acc` and goes on with the number and the rest.
unfoldable pub read_number {ℓ} : {B : Type ℓ} → ℕ → ℕ → Str → (ℕ → Str → Option B) → Option B
read_number zero acc s next = next acc s
read_number (suc k) acc [] next = none
read_number (suc k) acc (c ∷ s) next =
    let rest = read_number k (acc * 10 + (c - b'0')) s next in
    if leb b'0' c && leb c b'9' then rest else none

-- Reads one given character.
unfoldable pub read_char {ℓ} : {B : Type ℓ} → ℕ → Str → (Str → Option B) → Option B
read_char c [] next = none
read_char c (d ∷ s) next = if d == c then next s else none

unfoldable pub read_year {ℓ} : {B : Type ℓ} → Str → (ℕ → Str → Option B) → Option B
read_year [] next = none
read_year (c ∷ s) next =
    if c == b'-'
    then read_number 6 0 s (λ y. next (400000 - y))
    else if c == b'+'
    then read_number 6 0 s (λ y. next (y + 400000))
    else read_number 4 0 (c ∷ s) (λ y. next (y + 400000))

-- The time value that a text names.
unfoldable pub read_iso : Str → Option ℤ
read_iso s = read_year s λ y s. read_char b'-' s λ s. read_number 2 0 s λ m s. read_char b'-' s λ s.
    read_number 2 0 s λ d s. read_char b'T' s λ s. read_number 2 0 s λ hh s. read_char b':' s λ s.
      read_number 2 0 s λ mm s. read_char b':' s λ s. read_number 2 0 s λ ss s.
        read_char b'.' s λ s. read_number 3 0 s λ ms s. read_char b'Z' s λ s. some (
          sub_ℕ
            ((day_number (record { year = y; month = m; day = d }) - 60) * ms_per_day
              + (hh * 3600000 + mm * 60000 + ss * 1000 + ms))
            (epoch_days * ms_per_day))

module _ {B : Type 0} where
  read_number-digits_more :
      (k n acc j : ℕ) (rest : Str) (next : ℕ → Str → Option B)
      → n < 10 ^ k
      → read_number (k + j) acc (digits k n ++ rest) next
        ≡ read_number j (acc * 10 ^ k + n) rest next
  unfolding digits read_number
  read_number-digits_more zero n acc j rest next h =
      let first : zero + j ≡ j = omega arith in
      let value : acc * 1 + n ≡ acc = omega arith in rw (first, value)
  read_number-digits_more (suc k) n acc j rest next h =
      let count : suc k + j ≡ k + suc j = omega arith in
      let value : (acc * 10 ^ k + n / 10) * 10 + (b'0' + n % 10 - b'0') ≡ acc * 10 ^ suc k + n =
        rw pow-suc (omega arith) in
      let small : n / 10 < 10 ^ k = omega (arith, pow-suc 10 k) in
      let digit : (leb b'0' (b'0' + n % 10) && leb (b'0' + n % 10) b'9') ≡ true = ground arith in
      rw
        (
          count,
          append_assoc (digits k (n / 10)) ((b'0' + n % 10) ∷ []) rest,
          read_number-digits_more k (n / 10) acc (suc j) ((b'0' + n % 10) ∷ rest) next small,
          digit,
          value,
        )
        refl

  -- A printed number is read back.
  read_number-digits :
      (k n : ℕ) (rest : Str) (next : ℕ → Str → Option B)
      → n < 10 ^ k
      → read_number k 0 (digits k n ++ rest) next ≡ next n rest
  unfolding read_number
  read_number-digits k n rest next h =
      let count : k ≡ k + zero = omega arith in
      let value : 0 * 10 ^ k + n ≡ n = omega arith in
      ap (λ t. read_number t 0 (digits k n ++ rest) next) count
      ∙ read_number-digits_more k n 0 zero rest next h
      ∙ ap (λ t. next t rest) value

  read_char_lem :
      (c : ℕ) (rest : Str) (next : Str → Option B) → read_char c (c ∷ rest) next ≡ next rest
  unfolding read_char
  read_char_lem c rest next = ground arith

  read_year-sign :
      (c k : ℕ) (rest : Str) (next : ℕ → Str → Option B)
      → k < 10 ^ 6
      → ((c ≡ b'-') → read_year (c ∷ digits 6 k ++ rest) next ≡ next (400000 - k) rest)
        × ((c ≡ b'+') → read_year (c ∷ digits 6 k ++ rest) next ≡ next (k + 400000) rest)
  unfolding read_year
  read_year-sign c k rest next h = (
    λ e. ground (arith, read_number-digits 6 k rest (λ y. next (400000 - y)) h),
    λ e. ground (arith, read_number-digits 6 k rest (λ y. next (y + 400000)) h),
  )

  read_year-digits :
      (k : ℕ) (rest : Str) (next : ℕ → Str → Option B)
      → k < 10 ^ 4
      → read_year (digits 4 k ++ rest) next ≡ next (k + 400000) rest
  unfolding read_year digits
  read_year-digits k rest next h =
      ground (arith, read_number-digits 4 k rest (λ y. next (y + 400000)) h)

  -- A printed year is read back.
  read_year-iso_year :
      (y : ℕ) (rest : Str) (next : ℕ → Str → Option B)
      → y < 1400000
      → read_year (iso_year y ++ rest) next ≡ next y rest
  unfolding iso_year
  read_year-iso_year y rest next h = ground (
    arith,
    (read_year-sign b'-' (400000 - y) rest next (omega arith)).0 refl,
    read_year-digits (y - 400000) rest next,
    (read_year-sign b'+' (y - 400000) rest next (omega arith)).1 refl,
  )

-- A text of a date with a time of day is read back.
read_iso-iso_text :
    (c : Civil) (ms : ℕ)
    → c.year < 1400000
    → IsDate c
    → ms < ms_per_day
    → read_iso (iso_text c ms)
      ≡ some (sub_ℕ ((day_number c - 60) * ms_per_day + ms) (epoch_days * ms_per_day))
unfolding read_iso iso_text
read_iso-iso_text c ms small date day =
    rw
      (
        read_year-iso_year c.year _ _ small,
        read_char_lem,
        read_number-digits 2 c.month _ _ (omega arith),
        read_char_lem,
        read_number-digits 2 c.day _ _ (omega arith),
        read_char_lem,
        read_number-digits 2 (ms / 3600000) _ _ (omega arith),
        read_char_lem,
        read_number-digits 2 (ms / 60000 % 60) _ _ (omega arith),
        read_char_lem,
        read_number-digits 2 (ms / 1000 % 60) _ _ (omega arith),
        read_char_lem,
        read_number-digits 3 (ms % 1000) _ _ (omega arith),
        read_char_lem,
      )
      (ap (λ t. some (sub_ℕ ((day_number c - 60) * ms_per_day + t) (epoch_days * ms_per_day)))
        (omega arith))

civil_of_year-year_le : (y doy : ℕ) → (civil_of_year y doy).year ≤ y + 1
unfolding civil_of_year
civil_of_year-year_le y doy = ground arith

year_small : (z : ℕ) → z ≤ 100000000 + epoch_days → (civil_from_days z).year < 1400000
unfolding civil_from_days
year_small z h =
    let doe = z % 146097 in
    let yoe = year_of_cycle doe in
    omega (arith, civil_of_year-year_le (z / 146097 * 400 + yoe) (day_of_year doe yoe))

sub_ℕ-shifted :
    (t : ℤ) (n base : ℕ) → neg_part t ≤ base → n ≡ pos_part t + base - neg_part t → sub_ℕ n base ≡ t
sub_ℕ-shifted (pos k) n base h e = ground arith
sub_ℕ-shifted (negsuc k) n base h e = ground arith

-- A valid date has a text, which names its time value.
pub read_iso-to_iso_string :
    (t : ℤ)
    → pos_part t + neg_part t ≤ max_time
    → (s : Str) × (to_iso_string t ≡ ok s) × (read_iso s ≡ some t)
unfolding to_iso_string
read_iso-to_iso_string t h =
    let z = shifted t / ms_per_day in
    let ms = shifted t % ms_per_day in
    let (number, date) = day_number-civil_from_days z in
    let read =
      read_iso-iso_text (civil_from_days z) ms (year_small z (omega arith)) date (omega arith) in
    let same : sub_ℕ ((day_number (civil_from_days z) - 60) * ms_per_day + ms)
          (epoch_days * ms_per_day)
        ≡ t =
      sub_ℕ-shifted t _ (epoch_days * ms_per_day) (omega arith) (omega (arith, number)) in
    (iso_text (civil_from_days z) ms, ground arith, rw read (ap some same))

pub to_iso_string_of_invalid :
    (t : ℤ) → max_time < pos_part t + neg_part t → to_iso_string t ≡ throws range_error
unfolding to_iso_string
to_iso_string_of_invalid t h = ground arith

-- The characters of a date's text: digits, the signs between them, `T` and `Z`.
abbrev pub is_iso_char : ℕ → Bool
is_iso_char c = leb b'+' c && leb c b':' || (c == b'T' || c == b'Z')

abbrev IsIso : Str → Type 0
IsIso = All (λ c. is_iso_char c ≡ true)

digits-IsIso : (k n : ℕ) → IsIso (digits k n)
unfolding digits
digits-IsIso zero n = tt
digits-IsIso (suc k) n =
    All-append _ (digits k (n / 10)) _ (digits-IsIso k (n / 10)) (ground arith, tt)

iso_year-IsIso : (y : ℕ) → IsIso (iso_year y)
unfolding iso_year
iso_year-IsIso y =
    ground
      (arith, digits-IsIso 6 (400000 - y), digits-IsIso 4 (y - 400000), digits-IsIso 6 (y - 400000))

field-IsIso :
    (s : Str) (c : ℕ) (rest : Str)
    → IsIso s
    → is_iso_char c ≡ true
    → IsIso rest
    → IsIso (s ++ c ∷ rest)
field-IsIso s c rest h e k = All-append _ s (c ∷ rest) h (e, k)

iso_text-IsIso : (c : Civil) (ms : ℕ) → IsIso (iso_text c ms)
unfolding iso_text
iso_text-IsIso c ms = field-IsIso _ _ _ (iso_year-IsIso c.year) refl (
    field-IsIso _ _ _ (digits-IsIso 2 c.month) refl (
      field-IsIso _ _ _ (digits-IsIso 2 c.day) refl (
        field-IsIso _ _ _ (digits-IsIso 2 (ms / 3600000)) refl (
          field-IsIso _ _ _ (digits-IsIso 2 (ms / 60000 % 60)) refl (
            field-IsIso _ _ _ (digits-IsIso 2 (ms / 1000 % 60)) refl
              (field-IsIso _ _ _ (digits-IsIso 3 (ms % 1000)) refl tt))))))

pub to_iso_string-IsIso :
    (t : ℤ) (s : Str) → to_iso_string t ≡ ok s → All (λ c. is_iso_char c ≡ true) s
unfolding to_iso_string
to_iso_string-IsIso t s h =
    ground
      (arith, iso_text-IsIso (civil_from_days (shifted t / ms_per_day)) (shifted t % ms_per_day))
