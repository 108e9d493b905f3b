-- ===== src/Text/Trim.antt =====
-- `s.trim()`, and the replacements that cut characters off an end of a string: `/[ \t]+$/`, `/\/+$/`,
-- `/^<|>$/g`.
use agregado.Base.{
  ℕ, ◌≡◌, refl, ap, ◌∙◌, Bool, true, false, ◌&&◌, ◌||◌, [], ◌∷◌, ◌++◌, leb, ◌==◌, if◌then◌else◌,
  All, Bool-cases, inl, inr,
}
use agregado.Text.{Str, codes}

-- White space and line ends of JavaScript, the characters of `\s` and of `trim`.
abbrev pub is_space : ℕ → Bool
is_space c =
    (leb 9 c && leb c 13)
    || (c == 0x20
        || (c == 0xa0
            || (c == 0x1680
                || ((leb 0x2000 c && leb c 0x200a)
                    || (c == 0x2028
                        || (c == 0x2029
                            || (c == 0x202f || (c == 0x205f || (c == 0x3000 || c == 0xfeff)))))))))

module _ (is_cut : ℕ → Bool) where
  unfoldable pub strip_start : Str → Str
  strip_start [] = []
  strip_start (c ∷ s) = elim (is_cut c) [ true ↦ strip_start s | false ↦ c ∷ s ]

  unfoldable pub strip_end : Str → Str
  strip_end [] = []
  strip_end (c ∷ s) = elim (strip_end s) [
    | [] ↦ if is_cut c then [] else c ∷ []
    | d ∷ r ↦ c ∷ d ∷ r
  ]

  unfoldable pub strip : Str → Str
  strip s = strip_end (strip_start s)

  -- The first character stays.
  abbrev pub Begins : Str → Type 0
  Begins [] = Unit
  Begins (c ∷ s) = is_cut c ≡ false

  -- The last character stays.
  abbrev pub Ends : Str → Type 0
  Ends [] = Unit
  Ends (c ∷ []) = is_cut c ≡ false
  Ends (c ∷ d ∷ s) = Ends (d ∷ s)

  pub strip_start-Begins : (s : Str) → Begins (strip_start s)
  unfolding strip_start
  strip_start-Begins [] = tt
  strip_start-Begins (c ∷ s) = elim (Bool-cases (is_cut c)) [
    | inl t ↦ rw (t, strip_start) (strip_start-Begins s)
    | inr f ↦ rw (f, strip_start) f
  ]

  pub strip_end-Ends : (s : Str) → Ends (strip_end s)
  unfolding strip_end
  strip_end-Ends [] = tt
  strip_end-Ends (c ∷ s) = go (strip_end s) (strip_end-Ends s)
    where
      go :
          (r : Str)
          → Ends r
          → Ends (elim r [ [] ↦ if is_cut c then [] else c ∷ [] | d ∷ q ↦ c ∷ d ∷ q ])
      go [] h = elim (Bool-cases (is_cut c)) [ inl t ↦ rw t tt | inr f ↦ rw f f ]
      go (d ∷ q) h = h

  pub strip_start_of_Begins : (s : Str) → Begins s → strip_start s ≡ s
  unfolding strip_start
  strip_start_of_Begins [] h = refl
  strip_start_of_Begins (c ∷ s) h = rw (h, strip_start) refl

  pub strip_end_of_Ends : (s : Str) → Ends s → strip_end s ≡ s
  unfolding strip_end
  strip_end_of_Ends [] h = refl
  strip_end_of_Ends (c ∷ []) h = rw h refl
  strip_end_of_Ends (c ∷ d ∷ s) h = rw (strip_end_of_Ends (d ∷ s) h, strip_end) refl

  pub Begins-strip_end : (s : Str) → Begins s → Begins (strip_end s)
  unfolding strip_end
  Begins-strip_end [] h = tt
  Begins-strip_end (c ∷ s) h = go (strip_end s)
    where
      go : (r : Str) → Begins (elim r [ [] ↦ if is_cut c then [] else c ∷ [] | d ∷ q ↦ c ∷ d ∷ q ])
      go [] = rw h h
      go (d ∷ q) = h

  -- What is cut is cut once.
  pub strip-strip : (s : Str) → strip (strip s) ≡ strip s
  unfolding strip
  strip-strip s =
      ap strip_end (
        strip_start_of_Begins (strip_end (strip_start s))
          (Begins-strip_end (strip_start s) (strip_start-Begins s)))
      ∙ strip_end_of_Ends (strip_end (strip_start s)) (strip_end-Ends (strip_start s))

  pub strip_of_Ends : (s : Str) → Begins s → Ends s → strip s ≡ s
  unfolding strip
  strip_of_Ends s b e = ap strip_end (strip_start_of_Begins s b) ∙ strip_end_of_Ends s e

  -- Characters that are cut, behind a text that ends with one that is not.
  pub strip_end-append :
      (s t : Str) → Ends s → All (λ c. is_cut c ≡ true) t → strip_end (s ++ t) ≡ s
  unfolding strip_end
  strip_end-append [] [] e h = refl
  strip_end-append [] (c ∷ t) e (hc, h) = rw (strip_end-append [] t e h, hc, strip_end) refl
  strip_end-append (c ∷ []) t e h = rw (strip_end-append [] t tt h, strip_end, e) refl
  strip_end-append (c ∷ d ∷ s) t e h = rw (strip_end-append (d ∷ s) t e h, strip_end) refl

  pub snoc-Ends : (s : Str) (c : ℕ) → is_cut c ≡ false → Ends (s ++ c ∷ [])
  snoc-Ends [] c h = h
  snoc-Ends (d ∷ []) c h = h
  snoc-Ends (d ∷ e ∷ s) c h = snoc-Ends (e ∷ s) c h

  -- Characters that are cut, in front.
  pub strip_start-append :
      (s t : Str) → All (λ c. is_cut c ≡ true) s → strip_start (s ++ t) ≡ strip_start t
  unfolding strip_start
  strip_start-append [] t h = refl
  strip_start-append (c ∷ s) t (hc, h) = rw (hc, strip_start) (strip_start-append s t h)

module _ {κ} (is_cut : ℕ → Bool) (P : ℕ → Type κ) where
  pub All-strip_start : (s : Str) → All P s → All P (strip_start is_cut s)
  unfolding strip_start
  All-strip_start [] h = tt
  All-strip_start (c ∷ s) (hc, h) = elim (Bool-cases (is_cut c)) [
    | inl t ↦ rw (t, strip_start) (All-strip_start s h)
    | inr f ↦ rw (f, strip_start) (hc, h)
  ]

  pub All-strip_end : (s : Str) → All P s → All P (strip_end is_cut s)
  unfolding strip_end
  All-strip_end [] h = tt
  All-strip_end (c ∷ s) (hc, h) = go (strip_end is_cut s) (All-strip_end s h)
    where
      go :
          (r : Str)
          → All P r
          → All P (elim r [ [] ↦ if is_cut c then [] else c ∷ [] | d ∷ q ↦ c ∷ d ∷ q ])
      go [] k = elim (Bool-cases (is_cut c)) [ inl t ↦ rw t tt | inr f ↦ rw f (hc, tt) ]
      go (d ∷ q) k = (hc, k)

-- `s.trim()`
unfoldable pub trim : Str → Str
trim s = strip is_space s

pub trim-trim : (s : Str) → trim (trim s) ≡ trim s
unfolding trim
trim-trim s = strip-strip is_space s

pub trim-Begins : (s : Str) → Begins is_space (trim s)
unfolding trim strip
trim-Begins s = Begins-strip_end is_space (strip_start is_space s) (strip_start-Begins is_space s)

pub trim-Ends : (s : Str) → Ends is_space (trim s)
unfolding trim strip
trim-Ends s = strip_end-Ends is_space (strip_start is_space s)

-- `s.replace(/^o|c$/g, "")` for two characters.
unfoldable pub drop_first : ℕ → Str → Str
drop_first o [] = []
drop_first o (c ∷ s) = if c == o then s else c ∷ s

unfoldable pub drop_last : ℕ → Str → Str
drop_last o [] = []
drop_last o (c ∷ []) = if c == o then [] else c ∷ []
drop_last o (c ∷ d ∷ s) = c ∷ drop_last o (d ∷ s)

unfoldable pub unwrap : ℕ → ℕ → Str → Str
unwrap first last s = drop_last last (drop_first first s)

-- For evaluation: what the cuts are computed by.
unfoldable pub trim_code : Unit {0}
unfolding trim strip strip_start strip_end drop_first drop_last unwrap
trim_code = tt

trim_test :
    (trim (codes " \t a b\n ") ≡ codes "a b")
    × (trim (codes " ") ≡ [])
    × (unwrap b'<' b'>' (codes "<a@b>") ≡ codes "a@b")
    × (unwrap b'<' b'>' (codes ">") ≡ [])
unfolding trim_code
trim_test = (refl, refl, refl, refl)
