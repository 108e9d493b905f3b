-- ===== src/Preferences/Normalize.antt =====
-- `normalize` of n8n/src/preferences.js: its result, and what it does to that again.
use agregado.Base.{
  ℕ, ◌≡◌, ◌≢◌, refl, sym, ap, ◌∙◌, Bool, true, false, List, [], ◌∷◌, ◌++◌, map, All, All-append,
  Lacks, ◌==◌, if◌then◌else◌, Bool-cases, inl, inr, arith,
}
use agregado.Text.{Str, join}
use agregado.Text.Split.{split, onto_first, join-split, split-Lacks}
use agregado.Text.Trim.{
  strip_start, strip_end, strip, trim, is_space, Begins, Ends, strip_end-Ends,
  strip_start_of_Begins, strip_end-append, strip_end_of_Ends, All-strip_start, All-strip_end,
  trim-Begins, trim-Ends,
}
use agregado.Preferences.{normalize, strip_lines, unix_lines, is_blank}

-- No blank stands before the end of a line.
abbrev pub IsTidy : Str → Type 0
IsTidy [] = Unit
IsTidy (c ∷ []) = is_blank c ≡ false
IsTidy (c ∷ d ∷ s) = (is_blank c ≡ true → d ≢ 10) × IsTidy (d ∷ s)

line-IsTidy : (p rest : Str) → Lacks 10 p → Ends is_blank p → IsTidy rest → IsTidy (p ++ 10 ∷ rest)
line-IsTidy [] [] l e h = refl
line-IsTidy [] (d ∷ rest) l e h = ((λ blank. absurd (ground arith)), h)
line-IsTidy (c ∷ []) rest l e h = ((λ blank. absurd (ground arith)), line-IsTidy [] rest tt tt h)
line-IsTidy (c ∷ d ∷ p) rest (lc, l) e h = ((λ blank. l.0), line-IsTidy (d ∷ p) rest l e h)

last-IsTidy : (p : Str) → Lacks 10 p → Ends is_blank p → IsTidy p
last-IsTidy [] l e = tt
last-IsTidy (c ∷ []) l e = e
last-IsTidy (c ∷ d ∷ p) (lc, l) e = ((λ blank. l.0), last-IsTidy (d ∷ p) l e)

abbrev IsTidyLine : Str → Type 0
IsTidyLine p = Lacks 10 p × Ends is_blank p

join-IsTidy : (ps : List Str) → All IsTidyLine ps → IsTidy (join ps (10 ∷ []))
unfolding join
join-IsTidy [] h = tt
join-IsTidy (p ∷ []) ((l, e), h) = last-IsTidy p l e
join-IsTidy (p ∷ q ∷ ps) ((l, e), h) = line-IsTidy p _ l e (join-IsTidy (q ∷ ps) h)

stripped_lines : (ps : List Str) → All (Lacks 10) ps → All IsTidyLine (map (strip_end is_blank) ps)
stripped_lines [] h = tt
stripped_lines (p ∷ ps) (hp, h) =
    ((All-strip_end is_blank _ p hp, strip_end-Ends is_blank p), stripped_lines ps h)

strip_lines-IsTidy : (text : Str) → IsTidy (strip_lines text)
unfolding strip_lines
strip_lines-IsTidy text = join-IsTidy _ (stripped_lines (split text 10) (split-Lacks text 10))

-- The lines of a tidy text are left alone.
split-Ends : (s : Str) → IsTidy s → All (Ends is_blank) (split s 10)
unfolding split
split-Ends [] h = (tt, tt)
split-Ends (c ∷ []) h = ground arith
split-Ends (c ∷ d ∷ s) (hc, h) =
    go (d == 10) (λ t. ground arith) (split s 10) (unfold split in split-Ends (d ∷ s) h)
  where
    go :
        (at_end : Bool)
        → (at_end ≡ true → is_blank c ≡ false)
        → (ps : List Str) → All (Ends is_blank) (if at_end then [] ∷ ps else onto_first d ps)
        → All (Ends is_blank) (
            if c == 10
            then [] ∷ (if at_end then [] ∷ ps else onto_first d ps)
            else onto_first c (if at_end then [] ∷ ps else onto_first d ps))
    go true last ps k = elim (Bool-cases (c == 10)) [
      | inl t ↦ rw t (tt, k)
      | inr f ↦ rw f (last refl, k.1)
    ]
    go false last [] k = elim (Bool-cases (c == 10)) [
      | inl t ↦ rw t (tt, k)
      | inr f ↦ rw f (k.0, k.1)
    ]
    go false last (p ∷ ps) k = elim (Bool-cases (c == 10)) [
      | inl t ↦ rw t (tt, k)
      | inr f ↦ rw f (k.0, k.1)
    ]

map-strip_end : (ps : List Str) → All (Ends is_blank) ps → map (strip_end is_blank) ps ≡ ps
map-strip_end [] h = refl
map-strip_end (p ∷ ps) (hp, h) = cc (strip_end_of_Ends is_blank p hp, map-strip_end ps h)

strip_lines_of_IsTidy : (s : Str) → IsTidy s → strip_lines s ≡ s
unfolding strip_lines
strip_lines_of_IsTidy s h = rw (map-strip_end (split s 10) (split-Ends s h)) (join-split s 10)

strip_start-IsTidy : (s : Str) → IsTidy s → IsTidy (strip_start is_space s)
unfolding strip_start
strip_start-IsTidy [] h = tt
strip_start-IsTidy (c ∷ []) h = elim (Bool-cases (is_space c)) [
  | inl t ↦ rw (t, strip_start) tt
  | inr f ↦ rw (f, strip_start) h
]
strip_start-IsTidy (c ∷ d ∷ s) h = elim (Bool-cases (is_space c)) [
  | inl t ↦ rw (t, strip_start) (strip_start-IsTidy (d ∷ s) h.1)
  | inr f ↦ rw (f, strip_start) h
]

-- What is left begins as the text did.
abbrev HasHead : Str → Str → Type 0
HasHead [] s = Unit
HasHead (d ∷ r) [] = ⊥
HasHead (d ∷ r) (e ∷ s) = d ≡ e

strip_end-HasHead : (s : Str) → HasHead (strip_end is_space s) s
unfolding strip_end
strip_end-HasHead [] = tt
strip_end-HasHead (c ∷ s) = go (strip_end is_space s)
  where
    go :
        (r : Str)
        → HasHead (elim r [ [] ↦ if is_space c then [] else c ∷ [] | d ∷ q ↦ c ∷ d ∷ q ]) (c ∷ s)
    go [] = elim (Bool-cases (is_space c)) [ inl t ↦ rw t tt | inr f ↦ rw f refl ]
    go (d ∷ q) = refl

blank_is_space : (c : ℕ) → is_blank c ≡ true → is_space c ≡ true
blank_is_space c h = ground arith

strip_end-IsTidy : (s : Str) → IsTidy s → IsTidy (strip_end is_space s)
unfolding strip_end
strip_end-IsTidy [] h = tt
strip_end-IsTidy (c ∷ s) h =
    go s h (strip_end is_space s) (strip_end-HasHead s) (strip_end-IsTidy s (tidy s h))
  where
    tidy : (s : Str) → IsTidy (c ∷ s) → IsTidy s
    tidy [] h = tt
    tidy (d ∷ s) h = h.1

    go :
        (s : Str)
        → IsTidy (c ∷ s)
        → (r : Str) → HasHead r s
        → IsTidy r
        → IsTidy (elim r [ [] ↦ if is_space c then [] else c ∷ [] | d ∷ q ↦ c ∷ d ∷ q ])
    go s h [] same k = elim (Bool-cases (is_space c)) [
      | inl t ↦ rw t tt
      | inr f ↦ rw f (ground (arith, blank_is_space c))
    ]
    go [] h (d ∷ q) same k = absurd same
    go (e ∷ s) h (d ∷ q) same k = ((λ blank. rw (sym same) at (h.0 blank)), k)

trim-IsTidy : (s : Str) → IsTidy s → IsTidy (trim s)
unfolding trim strip
trim-IsTidy s h = strip_end-IsTidy (strip_start is_space s) (strip_start-IsTidy s h)

snoc-IsTidy : (s : Str) → IsTidy s → IsTidy (s ++ 10 ∷ [])
snoc-IsTidy [] h = refl
snoc-IsTidy (c ∷ []) h = ((λ blank. absurd (ground arith)), refl)
snoc-IsTidy (c ∷ d ∷ s) (hc, h) = (hc, snoc-IsTidy (d ∷ s) h)

-- A line end behind a trimmed text is trimmed.
trim_line : (s : Str) → Begins is_space s → Ends is_space s → trim (s ++ 10 ∷ []) ≡ s
unfolding trim strip
trim_line [] b e = unfold strip_start strip_end in refl
trim_line (c ∷ s) b e =
    ap (strip_end is_space) (strip_start_of_Begins is_space (c ∷ (s ++ 10 ∷ [])) b)
    ∙ strip_end-append is_space (c ∷ s) (10 ∷ []) e (refl, tt)

unix_lines_of_Lacks : (s : Str) → Lacks 13 s → unix_lines s ≡ s
unfolding unix_lines
unix_lines_of_Lacks [] h = refl
unix_lines_of_Lacks (c ∷ []) h = refl
unix_lines_of_Lacks (c ∷ d ∷ s) (hc, h) = ground (arith, unix_lines_of_Lacks (d ∷ s) h)

module _ (P : ℕ → Type 0) where
  All-onto_first : (c : ℕ) (ps : List Str) → P c → All (All P) ps → All (All P) (onto_first c ps)
  All-onto_first c [] hc h = ((hc, tt), tt)
  All-onto_first c (p ∷ ps) hc (hp, h) = ((hc, hp), h)

  All-split : (s : Str) → All P s → All (All P) (split s 10)
  unfolding split
  All-split [] h = (tt, tt)
  All-split (c ∷ s) (hc, h) = elim (Bool-cases (c == 10)) [
    | inl t ↦ rw t (tt, All-split s h)
    | inr f ↦ rw f (All-onto_first c (split s 10) hc (All-split s h))
  ]

  All-map-strip_end : (ps : List Str) → All (All P) ps → All (All P) (map (strip_end is_blank) ps)
  All-map-strip_end [] h = tt
  All-map-strip_end (p ∷ ps) (hp, h) = (All-strip_end is_blank P p hp, All-map-strip_end ps h)

  All-join : (ps : List Str) → P 10 → All (All P) ps → All P (join ps (10 ∷ []))
  unfolding join
  All-join [] h10 h = tt
  All-join (p ∷ []) h10 (hp, h) = hp
  All-join (p ∷ q ∷ ps) h10 (hp, h) = All-append P p _ hp (h10, All-join (q ∷ ps) h10 h)

  All-trim-strip_lines : (s : Str) → P 10 → All P s → All P (trim (strip_lines s))
  unfolding trim strip strip_lines
  All-trim-strip_lines s h10 h = All-strip_end is_space P _ (
      All-strip_start is_space P _
        (All-join _ h10 (All-map-strip_end (split s 10) (All-split s h))))

-- The normal form ends with one line end, and no blank stands at the end of a line.
pub normalize-IsTidy : (text : Str) → IsTidy (normalize text)
unfolding normalize
normalize-IsTidy text =
    snoc-IsTidy (trim (strip_lines (unix_lines text)))
      (trim-IsTidy _ (strip_lines-IsTidy (unix_lines text)))

-- The normal form of a text without carriage returns, but for those before a line feed, is its own
-- normal form.
pub normalize-normalize :
    (text : Str) → Lacks 13 (unix_lines text) → normalize (normalize text) ≡ normalize text
unfolding normalize
normalize-normalize text lacks =
    let body = trim (strip_lines (unix_lines text)) in
    let line_free : Lacks 13 (body ++ 10 ∷ []) =
      All-append (λ d. d ≡ 13 → ⊥) body (10 ∷ [])
        (All-trim-strip_lines (λ d. d ≡ 13 → ⊥) (unix_lines text) (λ e. absurd (omega arith)) lacks)
        ((λ e. absurd (omega arith)), tt) in
    let tidy : IsTidy (body ++ 10 ∷ []) =
      snoc-IsTidy body (trim-IsTidy _ (strip_lines-IsTidy (unix_lines text))) in
    rw
      (
        unix_lines_of_Lacks (body ++ 10 ∷ []) line_free,
        strip_lines_of_IsTidy (body ++ 10 ∷ []) tidy,
      )
      (ap (λ s. s ++ 10 ∷ []) (trim_line body (trim-Begins _) (trim-Ends _)))
