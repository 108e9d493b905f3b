-- ===== src/Text/Split.antt =====
-- `s.split(c)` for one code unit, `s.includes(t)`, `s.lastIndexOf(c)` and the cut of a URL at `/`.
use agregado.Base.{
  ℕ, suc, ◌≡◌, ◌≢◌, refl, Bool, true, false, ◌||◌, List, [], ◌∷◌, Option, none, some, ◌==◌,
  if◌then◌else◌, All, Lacks, Bool-cases, inl, inr, arith,
}
use agregado.Text.{Str, codes, join, starts_with}

-- Puts a unit in front of the first part.
abbrev pub onto_first : ℕ → List Str → List Str
onto_first c [] = (c ∷ []) ∷ []
onto_first c (p ∷ ps) = (c ∷ p) ∷ ps

unfoldable pub split : Str → ℕ → List Str
split [] sep = [] ∷ []
split (c ∷ s) sep = let rest = split s sep in if c == sep then [] ∷ rest else onto_first c rest

-- `s.includes(t)`
unfoldable pub includes : Str → Str → Bool
includes [] t = starts_with [] t
includes (c ∷ s) t = starts_with (c ∷ s) t || includes s t

unfoldable pub last_index_of : Str → ℕ → Option ℕ
last_index_of [] c = none
last_index_of (d ∷ s) c = elim (last_index_of s c) [
  | some i ↦ some (suc i)
  | none ↦ if d == c then some 0 else none
]

-- A list of parts has a part.
pub split-ne-nil : (s : Str) (sep : ℕ) → split s sep ≢ []
unfolding split
split-ne-nil [] sep = ground arith
split-ne-nil (c ∷ s) sep = go (split s sep)
  where
    go : (ps : List Str) → (if c == sep then [] ∷ ps else onto_first c ps) ≢ []
    go [] = ground arith
    go (p ∷ ps) = ground arith

join-onto_first : (c : ℕ) (ps : List Str) (sep : Str) → join (onto_first c ps) sep ≡ c ∷ join ps sep
unfolding join
join-onto_first c [] sep = refl
join-onto_first c (p ∷ []) sep = refl
join-onto_first c (p ∷ q ∷ ps) sep = refl

join-nil_cons :
    (ps : List Str) (sep : ℕ) → ps ≢ [] → join ([] ∷ ps) (sep ∷ []) ≡ sep ∷ join ps (sep ∷ [])
unfolding join
join-nil_cons [] sep ne = absurd (ne refl)
join-nil_cons (p ∷ ps) sep ne = refl

-- The parts, joined by the separator, are the text.
pub join-split : (s : Str) (sep : ℕ) → join (split s sep) (sep ∷ []) ≡ s
unfolding split
join-split [] sep = unfold join in refl
join-split (c ∷ s) sep = elim (Bool-cases (c == sep)) [
  | inl t ↦
      rw (t, join-nil_cons (split s sep) sep (split-ne-nil s sep), join-split s sep) (ground arith)
  | inr f ↦ rw (f, join-onto_first, join-split s sep) refl
]

All-onto_first :
    (sep c : ℕ) (ps : List Str) → c ≢ sep → All (Lacks sep) ps → All (Lacks sep) (onto_first c ps)
All-onto_first sep c [] ne h = ((ne, tt), tt)
All-onto_first sep c (p ∷ ps) ne (hp, h) = ((ne, hp), h)

-- No part holds the separator.
pub split-Lacks : (s : Str) (sep : ℕ) → All (Lacks sep) (split s sep)
unfolding split
split-Lacks [] sep = (tt, tt)
split-Lacks (c ∷ s) sep = elim (Bool-cases (c == sep)) [
  | inl t ↦ rw t (tt, split-Lacks s sep)
  | inr f ↦ rw f (All-onto_first sep c (split s sep) (ground arith) (split-Lacks s sep))
]

-- For evaluation: what the functions are computed by.
unfoldable pub split_code : Unit {0}
unfolding split includes last_index_of starts_with join
split_code = tt

split_test :
    (split (codes "a,,b") b',' ≡ codes "a" ∷ [] ∷ codes "b" ∷ [])
    × (split [] b',' ≡ [] ∷ [])
    × (includes (codes "see it online") (codes "it on") ≡ true)
    × (includes (codes "see") (codes "it") ≡ false)
    × (last_index_of (codes "a@b@c") b'@' ≡ some 3)
unfolding split_code
split_test = (refl, refl, refl, refl, refl)
