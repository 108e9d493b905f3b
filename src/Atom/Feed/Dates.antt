-- ===== src/Atom/Feed/Dates.antt =====
-- `toIso` of email-worker/src/atom.ts on the dates that JavaScript can print, and on the others.
use agregado.Base.{◌+◌, ◌*◌, ◌<◌, ◌≡◌, true, some, arith, All}
use agregado.Base.Options.{eq_of_some}
use native.Mathlib.Decide.{dec_le}
use agregado.Base.Int.{ℤ, pos, negsuc, pos_part, neg_part, ◌*ℕ◌}
use agregado.Base.Outcome.{ok, throws, range_error}
use agregado.Text.{Str}
use agregado.Platform.Date.Iso.{
  read_iso, read_iso-to_iso_string, to_iso_string_of_invalid, to_iso_string-IsIso, is_iso_char,
}
use agregado.Atom.Feed.{to_iso}
use agregado.Atom.Feed.Document.{date_text, IsPrintable}

time_size : (t : ℤ) → pos_part (t *ℕ 1000) + neg_part (t *ℕ 1000) ≡ (pos_part t + neg_part t) * 1000
time_size (pos n) = ground arith
time_size (negsuc n) = ground arith

times-injective : (t u : ℤ) → t *ℕ 1000 ≡ u *ℕ 1000 → t ≡ u
times-injective (pos n) (pos m) h = ground arith
times-injective (pos n) (negsuc m) h = ground arith
times-injective (negsuc n) (pos m) h = ground arith
times-injective (negsuc n) (negsuc m) h = ground arith

-- A date of at most a hundred million days from 1970 is printed, and its text, read back, names its
-- milliseconds.
pub to_iso_of_IsPrintable :
    (t : ℤ)
    → IsPrintable t
    → (to_iso t ≡ ok (date_text t)) × (read_iso (date_text t) ≡ some (t *ℕ 1000))
unfolding to_iso
to_iso_of_IsPrintable t h =
    let (s, printed, read) = read_iso-to_iso_string (t *ℕ 1000) (omega (arith, time_size t)) in
    (ground arith, ground arith)

-- Any other date raises a RangeError.
pub to_iso_of_not :
    (t : ℤ) → 8640000000000 < pos_part t + neg_part t → to_iso t ≡ throws range_error
unfolding to_iso
to_iso_of_not t h = to_iso_string_of_invalid (t *ℕ 1000) (omega (arith, time_size t))

pub date_text-IsIso : (t : ℤ) → IsPrintable t → All (λ c. is_iso_char c ≡ true) (date_text t)
unfolding to_iso
date_text-IsIso t h = to_iso_string-IsIso (t *ℕ 1000) (date_text t) (to_iso_of_IsPrintable t h).0

to_iso-IsPrintable : (t : ℤ) {s : Str} → to_iso t ≡ ok s → IsPrintable t
to_iso-IsPrintable t h = elim (dec_le (pos_part t + neg_part t) 8640000000000) [
  | yes k ↦ k
  | no k ↦ absurd (cc (to_iso_of_not t (omega arith)))
]

read_iso-to_iso : (t : ℤ) {s : Str} → to_iso t ≡ ok s → read_iso s ≡ some (t *ℕ 1000)
read_iso-to_iso t h = ground (arith, (to_iso_of_IsPrintable t (to_iso-IsPrintable t h)).1)

-- Two dates in seconds that are printed as one text are the same second.
pub to_iso-injective : (t u : ℤ) {s : Str} → to_iso t ≡ ok s → to_iso u ≡ ok s → t ≡ u
to_iso-injective t u p q =
    let same : some (t *ℕ 1000) ≡ some (u *ℕ 1000) =
      cc (read_iso-to_iso t p, read_iso-to_iso u q) in
    times-injective t u (eq_of_some _ _ same)
