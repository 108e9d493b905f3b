-- ===== src/Platform/Base64/RoundTrip.antt =====
-- `atob` on what `btoa` writes.
use agregado.Base.{
  ℕ, ◌+◌, ◌*◌, ◌/◌, ◌%◌, ◌<◌, ◌≡◌, refl, ap, sym, ◌∙◌, false, List, [], ◌∷◌, ◌++◌, map, some,
  length, append_assoc, append-nil, All, Lacks, arith, ◌⊎◌, inl, inr,
}
use agregado.Text.{Str, codes}
use agregado.Platform.Base64.{
  is_white, strip_white, drop_pad, strip_pad, sextet, sextets, bytes, atob, sextet_char, groups,
  padding, btoa,
}

-- A binary string: its code units are bytes.
abbrev pub IsBinary : Str → Type 0
IsBinary = All (λ c. c < 256)

sextet-sextet_char : (x : ℕ) → x < 64 → sextet (sextet_char x) ≡ some x
unfolding sextet sextet_char
sextet-sextet_char x h = ground arith

sextet_char_plain :
    (x : ℕ) → x < 64 → (is_white (sextet_char x) ≡ false) × (sextet_char x ≡ b'=' → ⊥)
unfolding sextet_char
sextet_char_plain x h = ground arith

groups_lt : (s : Str) → IsBinary s → All (λ x. x < 64) (groups s)
unfolding groups
groups_lt [] h = tt
groups_lt (a ∷ []) h = omega arith
groups_lt (a ∷ b ∷ []) h = omega arith
groups_lt (a ∷ b ∷ c ∷ s) (ha, (hb, (hc, h))) =
    (omega arith, (omega arith, (omega arith, (omega arith, groups_lt s h))))

bytes-groups : (s : Str) → IsBinary s → bytes (groups s) ≡ some s
unfolding bytes groups
bytes-groups [] h = refl
bytes-groups (a ∷ []) h = let first : a / 4 * 4 + a % 4 * 16 / 16 ≡ a = omega arith in rw first
bytes-groups (a ∷ b ∷ []) (ha, (hb, h)) =
    let first : a / 4 * 4 + (a % 4 * 16 + b / 16) / 16 ≡ a = omega arith in
    let second : (a % 4 * 16 + b / 16) % 16 * 16 + b % 16 * 4 / 4 ≡ b = omega arith in
    rw (first, second)
bytes-groups (a ∷ b ∷ c ∷ s) (ha, (hb, (hc, h))) =
    let first : a / 4 * 4 + (a % 4 * 16 + b / 16) / 16 ≡ a = omega arith in
    let second : (a % 4 * 16 + b / 16) % 16 * 16 + (b % 16 * 4 + c / 64) / 4 ≡ b = omega arith in
    let third : (b % 16 * 4 + c / 64) % 4 * 64 + c % 64 ≡ c = omega arith in
    rw (bytes-groups s h, first, second, third)

sextets-map : (xs : List ℕ) → All (λ x. x < 64) xs → sextets (map sextet_char xs) ≡ some xs
unfolding sextets
sextets-map [] h = refl
sextets-map (x ∷ xs) (hx, h) = rw (sextet-sextet_char x hx, sextets-map xs h)

strip_white-append :
    (xs : List ℕ) (p : Str)
    → All (λ x. x < 64) xs
    → strip_white p ≡ p
    → strip_white (map sextet_char xs ++ p) ≡ map sextet_char xs ++ p
unfolding strip_white
strip_white-append [] p h e = e
strip_white-append (x ∷ xs) p (hx, h) e =
    rw ((sextet_char_plain x hx).0) (ap (λ t. sextet_char x ∷ t) (strip_white-append xs p h e))

drop_pad-append : (s : Str) → drop_pad (s ++ codes "=") ≡ s
unfolding drop_pad
drop_pad-append [] = refl
drop_pad-append (c ∷ []) = refl
drop_pad-append (c ∷ d ∷ s) = ap (λ t. c ∷ t) (drop_pad-append (d ∷ s))

drop_pad_of_Lacks : (s : Str) → Lacks b'=' s → drop_pad s ≡ s
unfolding drop_pad
drop_pad_of_Lacks [] h = refl
drop_pad_of_Lacks (c ∷ []) (ne, h) = ground arith
drop_pad_of_Lacks (c ∷ d ∷ s) (ne, h) = ap (λ t. c ∷ t) (drop_pad_of_Lacks (d ∷ s) h)

map-Lacks : (xs : List ℕ) → All (λ x. x < 64) xs → Lacks b'=' (map sextet_char xs)
map-Lacks [] h = tt
map-Lacks (x ∷ xs) (hx, h) = ((sextet_char_plain x hx).1, map-Lacks xs h)

drop_pads :
    (m p : Str)
    → Lacks b'=' m
    → (p ≡ []) ⊎ ((p ≡ codes "=") ⊎ (p ≡ codes "=="))
    → drop_pad (drop_pad (m ++ p)) ≡ m
drop_pads m p h (inl e) = rw (e, append-nil, drop_pad_of_Lacks m h) (drop_pad_of_Lacks m h)
drop_pads m p h (inr (inl e)) = rw (e, drop_pad-append m) (drop_pad_of_Lacks m h)
drop_pads m p h (inr (inr e)) = rw e (
    ap (λ t. drop_pad (drop_pad t)) (sym (append_assoc m (codes "=") (codes "=")))
    ∙ ap drop_pad (drop_pad-append (m ++ codes "="))
    ∙ drop_pad-append m)

padding-cases : (s : Str) → (padding s ≡ []) ⊎ ((padding s ≡ codes "=") ⊎ (padding s ≡ codes "=="))
unfolding padding
padding-cases [] = inl refl
padding-cases (a ∷ []) = inr (inr refl)
padding-cases (a ∷ b ∷ []) = inr (inl refl)
padding-cases (a ∷ b ∷ c ∷ s) = padding-cases s

strip_white-padding : (s : Str) → strip_white (padding s) ≡ padding s
unfolding padding strip_white
strip_white-padding [] = refl
strip_white-padding (a ∷ []) = refl
strip_white-padding (a ∷ b ∷ []) = refl
strip_white-padding (a ∷ b ∷ c ∷ s) = strip_white-padding s

length-btoa : (s : Str) → length (btoa s) % 4 ≡ 0
unfolding btoa groups padding
length-btoa [] = refl
length-btoa (a ∷ []) = refl
length-btoa (a ∷ b ∷ []) = refl
length-btoa (a ∷ b ∷ c ∷ s) = omega (arith, length-btoa s)

strip_pad-btoa : (s : Str) → IsBinary s → strip_pad (btoa s) ≡ map sextet_char (groups s)
unfolding strip_pad
strip_pad-btoa s h =
    rw (length-btoa s)
      (unfold btoa in drop_pads _ _ (map-Lacks (groups s) (groups_lt s h)) (padding-cases s))

-- What `btoa` makes of a binary string, `atob` gives back.
pub atob-btoa : (s : Str) → IsBinary s → atob (btoa s) ≡ some s
unfolding atob
atob-btoa s h =
    let plain : strip_white (btoa s) ≡ btoa s =
      unfold btoa in
      strip_white-append (groups s) (padding s) (groups_lt s h) (strip_white-padding s) in
    rw (plain, strip_pad-btoa s h, sextets-map (groups s) (groups_lt s h)) (bytes-groups s h)
