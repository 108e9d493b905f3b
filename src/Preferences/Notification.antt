-- ===== src/Preferences/Notification.antt =====
-- `describeChange` of n8n/src/preferences.js: what fits into a notification.
use agregado.Base.{
  ℕ, ◌+◌, ◌≤◌, ◌≡◌, ◌≢◌, refl, sym, ap, ◌∙◌, false, List, [], ◌∷◌, ◌++◌, append-nil, append_assoc,
  length, length-append, ltb, if◌then◌else◌, All, All-append, Bool-cases, inl, inr, arith,
}
use agregado.Text.{Str, join}
use agregado.Preferences.{fit, describe_lines, more_tail, is_empty}

-- What stands behind the lines that are shown: nothing, or the number of the others.
abbrev pub tail_for : List Str → Str
tail_for [] = []
tail_for (line ∷ rest) = more_tail (length (line ∷ rest))

abbrev joined : List Str → Str
joined lines = join lines (10 ∷ [])

-- A line behind others that are not empty.
joined_snoc :
    (shown : List Str) (line : Str)
    → All (λ l. l ≢ []) shown
    → joined (shown ++ line ∷ [])
      ≡ joined shown ++ ((if is_empty (joined shown) then [] else 10 ∷ []) ++ line)
unfolding join
joined_snoc [] line h = refl
joined_snoc ([] ∷ ps) line (ne, h) = absurd (ne refl)
joined_snoc ((c ∷ p) ∷ []) line (ne, h) = refl
joined_snoc ((c ∷ p) ∷ q ∷ ps) line (ne, h) =
    let ih = joined_snoc (q ∷ ps) line h in
    let full : is_empty (joined (q ∷ ps)) ≡ false = not_empty q ps h.0 in
    rw (ih, full) (ap (λ t. c ∷ t) (sym (append_assoc p (10 ∷ joined (q ∷ ps)) (10 ∷ line))))
  where
    not_empty : (q : Str) (ps : List Str) → q ≢ [] → is_empty (joined (q ∷ ps)) ≡ false
    not_empty [] ps ne = absurd (ne refl)
    not_empty (d ∷ q) [] ne = refl
    not_empty (d ∷ q) (r ∷ ps) ne = refl

fit_lem :
    (max_chars : ℕ) (shown lines : List Str)
    → All (λ l. l ≢ []) shown
    → All (λ l. l ≢ []) lines
    → length (joined shown) ≤ max_chars
    → (more : List Str) × (rest : List Str) × (lines ≡ more ++ rest)
      × (length (joined (shown ++ more)) ≤ max_chars)
      × (fit max_chars lines (joined shown) ≡ joined (shown ++ more) ++ tail_for rest)
unfolding fit
fit_lem max_chars shown [] hs h short =
    let same : shown ++ [] ≡ shown = append-nil shown in
    ([], [], refl, rw same short, rw same (sym (append-nil (joined shown))))
fit_lem max_chars shown (line ∷ lines) hs (hl, h) short =
    elim (Bool-cases (ltb max_chars (length (joined shown) + length line + 1))) [
      | inl full ↦
          let same : shown ++ [] ≡ shown = append-nil shown in
          ([], line ∷ lines, refl, rw same short, rw (same, full) refl)
      | inr fits ↦
          let next = joined_snoc shown line hs in
          let len : length (joined (shown ++ line ∷ [])) ≤ max_chars =
            rw next (grow (joined shown) line (ground arith)) in
          let (more, rest, e, le, out) =
            fit_lem max_chars (shown ++ line ∷ []) lines
              (All-append (λ l. l ≢ []) shown (line ∷ []) hs (hl, tt)) h len in
          let regroup : (shown ++ line ∷ []) ++ more ≡ shown ++ line ∷ more =
            append_assoc shown (line ∷ []) more in
          (
            line ∷ more,
            rest,
            ap (λ t. line ∷ t) e,
            rw (← regroup) le,
            rw (fits, ← regroup) (ap (λ t. fit max_chars lines t) (sym next) ∙ out),
          )
    ]
  where
    grow :
        (s t : Str)
        → length s + length t + 1 ≤ max_chars
        → length (s ++ ((if is_empty s then [] else 10 ∷ []) ++ t)) ≤ max_chars
    grow [] t le = omega arith
    grow (c ∷ s) t le = omega (arith, length-append {0} s (10 ∷ t))

-- Of lines that are not empty a notification shows the first, as many as it has room for, and the
-- number of all others: their text has at most the given length.
pub describe_lines_form :
    (max_chars : ℕ) (line : Str) (lines : List Str)
    → All (λ l. l ≢ []) (line ∷ lines)
    → (shown : List Str) × (rest : List Str) × (line ∷ lines ≡ shown ++ rest)
      × (length (join shown (10 ∷ [])) ≤ max_chars)
      × (describe_lines max_chars (line ∷ lines) ≡ join shown (10 ∷ []) ++ tail_for rest)
unfolding describe_lines join
describe_lines_form max_chars line lines h = fit_lem max_chars [] (line ∷ lines) tt h (omega arith)
