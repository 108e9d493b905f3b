-- ===== src/Digests/Key.antt =====
-- `digestDateKey` of n8n/src/digest.js as the key of a day.
use agregado.Base.{
  ℕ, zero, suc, ◌+◌, ◌-◌, ◌*◌, ◌/◌, ◌%◌, ◌≤◌, ◌<◌, ◌≡◌, refl, sym, ap, ◌∙◌, ◌↔◌, [], ◌∷◌, ◌++◌,
  length, take, take_of_length, length-append, append_assoc, true, Bool-cases, inl, inr, ltb, leb,
  arith,
}
use agregado.Base.Int.{pos, pos_part}
use agregado.Base.Outcome.{ok}
use agregado.Text.{Str}
use agregado.Platform.Date.{
  Civil, civil_from_days, civil_of_year, year_of_cycle, day_of_year, digits, iso_year, iso_text,
  to_iso_string, ms_per_day, epoch_days, shifted, max_time,
}
use agregado.Platform.Date.Iso.{read_iso-to_iso_string}
use agregado.Digests.{digest_date_key}

length-digits : (k n : ℕ) → length (digits k n) ≡ k
unfolding digits
length-digits zero n = refl
length-digits (suc k) n =
    omega
      (arith, length-append (digits k (n / 10)) ((b'0' + n % 10) ∷ []), length-digits k (n / 10))

abbrev date_text : Civil → Str
date_text c = iso_year c.year ++ (b'-' ∷ (digits 2 c.month ++ (b'-' ∷ digits 2 c.day)))

abbrev time_text : ℕ → Str
time_text ms =
    b'T'
    ∷ (digits 2 (ms / 3600000)
        ++ (b':'
            ∷ (digits 2 (ms / 60000 % 60)
                ++ (b':'
                    ∷ (digits 2 (ms / 1000 % 60)
                        ++ (b'.' ∷ (digits 3 (ms % 1000) ++ b'Z' ∷ [])))))))

iso_text-append : (c : Civil) (ms : ℕ) → iso_text c ms ≡ date_text c ++ time_text ms
unfolding iso_text
iso_text-append c ms =
    rw
      (
        append_assoc (iso_year c.year) (b'-' ∷ (digits 2 c.month ++ (b'-' ∷ digits 2 c.day)))
            (time_text ms),
        append_assoc (digits 2 c.month) (b'-' ∷ digits 2 c.day) (time_text ms),
      )
      refl

length-date_text : (c : Civil) → 400000 ≤ c.year → c.year ≤ 409999 → length (date_text c) ≡ 10
unfolding iso_year
length-date_text c low high =
    let year : length (iso_year c.year) ≡ 4 = ground (arith, length-digits 4 (c.year - 400000)) in
    omega (
      arith,
      length-append (iso_year c.year) (b'-' ∷ (digits 2 c.month ++ (b'-' ∷ digits 2 c.day))),
      length-append (digits 2 c.month) (b'-' ∷ digits 2 c.day),
      length-digits 2 c.month,
      length-digits 2 c.day,
      year,
    )

civil_of_year-year :
    (y doy : ℕ) → (y ≤ (civil_of_year y doy).year) × ((civil_of_year y doy).year ≤ y + 1)
unfolding civil_of_year
civil_of_year-year y doy = ground arith

year_of_cycle_le : (doe : ℕ) → doe < 145672 → year_of_cycle doe ≤ 398
year_of_cycle_le doe h = omega arith

year_of_cycle_le_last : (doe : ℕ) → doe < 146097 → year_of_cycle doe ≤ 399
year_of_cycle_le_last doe h = omega arith

-- The days from 1970 to the year 9998 have years of four digits.
year_in_range :
    (z : ℕ)
    → epoch_days ≤ z
    → z < epoch_days + 2932532
    → (400000 ≤ (civil_from_days z).year) × ((civil_from_days z).year ≤ 409999)
unfolding civil_from_days
year_in_range z low high =
    let doe = z % 146097 in
    let yoe = year_of_cycle doe in
    let year = civil_of_year-year (z / 146097 * 400 + yoe) (day_of_year doe yoe) in
    let early : yoe ≤ 399 = year_of_cycle_le_last doe (omega arith) in
    (
      omega (arith, year),
      elim (Bool-cases (ltb (z / 146097) 1024)) [
        | inl t ↦ let few : z / 146097 ≤ 1023 = ground arith in omega (arith, year)
        | inr f ↦
            let many : 1024 ≤ z / 146097 = ground arith in
            let less : yoe ≤ 398 = year_of_cycle_le doe (omega arith) in omega (arith, year)
      ],
    )

-- The key of a date: ten characters.
take-iso_text :
    (c : Civil) (ms : ℕ) → 400000 ≤ c.year → c.year ≤ 409999 → take 10 (iso_text c ms) ≡ date_text c
take-iso_text c ms low high =
    ap (take 10) (iso_text-append c ms)
    ∙ (ap (λ k. take k (date_text c ++ time_text ms)) (sym (length-date_text c low high))
        ∙ take_of_length (date_text c) (time_text ms))

abbrev day_text : ℕ → Str
day_text now_ms = date_text (civil_from_days (now_ms / ms_per_day + epoch_days))

digest_date_key-day_text :
    (now_ms : ℕ)
    → now_ms / ms_per_day < 2932532
    → digest_date_key (pos now_ms) ≡ ok (day_text now_ms)
unfolding digest_date_key to_iso_string
digest_date_key-day_text now_ms h =
    let z = now_ms / ms_per_day + epoch_days in
    let day : shifted (pos now_ms) / ms_per_day ≡ z = omega arith in
    let (low, high) = year_in_range z (omega arith) (omega arith) in
    let valid : leb (now_ms + 0) max_time ≡ true = ground arith in
    rw (valid, day)
      (ap ok (take-iso_text (civil_from_days z) (shifted (pos now_ms) % ms_per_day) low high))

midnight :
    (d : ℕ)
    → d < 2932532
    → to_iso_string (pos (d * ms_per_day))
      ≡ ok (date_text (civil_from_days (d + epoch_days)) ++ time_text 0)
unfolding to_iso_string
midnight d h =
    let day : shifted (pos (d * ms_per_day)) / ms_per_day ≡ d + epoch_days = omega arith in
    let early : shifted (pos (d * ms_per_day)) % ms_per_day ≡ 0 = omega arith in
    let valid : leb (d * ms_per_day + 0) max_time ≡ true = ground arith in
    rw (valid, day, early) (ap ok (iso_text-append (civil_from_days (d + epoch_days)) 0))

-- A day's text names the day.
date_text-injective :
    (d e : ℕ)
    → d < 2932532
    → e < 2932532
    → date_text (civil_from_days (d + epoch_days)) ≡ date_text (civil_from_days (e + epoch_days))
    → d ≡ e
date_text-injective d e hd he same =
    let (s, printed, read) = read_iso-to_iso_string (pos (d * ms_per_day)) (omega arith) in
    let (t, printed', read') = read_iso-to_iso_string (pos (e * ms_per_day)) (omega arith) in
    let text : to_iso_string (pos (d * ms_per_day)) ≡ to_iso_string (pos (e * ms_per_day)) =
      midnight d hd ∙ ap (λ x. ok (x ++ time_text 0)) same ∙ sym (midnight e he) in
    let times : pos (d * ms_per_day) ≡ pos (e * ms_per_day) = cc in omega (arith, ap pos_part times)

-- Two dates from 1970 on and before the year 9999 have a key in common exactly if they lie on one
-- day of UTC.
pub digest_date_key_iff :
    (m n : ℕ)
    → m / ms_per_day < 2932532
    → n / ms_per_day < 2932532
    → ((key : Str) × (digest_date_key (pos m) ≡ ok key) × (digest_date_key (pos n) ≡ ok key))
      ↔ (m / ms_per_day ≡ n / ms_per_day)
digest_date_key_iff m n hm hn =
    let of_m = digest_date_key-day_text m hm in
    let of_n = digest_date_key-day_text n hn in
    (
      λ (key, em, en). date_text-injective (m / ms_per_day) (n / ms_per_day) hm hn (cc),
      λ same. (day_text m, of_m, of_n ∙ rw (same, day_text) refl),
    )
