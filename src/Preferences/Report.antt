-- ===== src/Preferences/Report.antt =====
-- `describeChange` of n8n/src/preferences.js: what it says of a change.
use agregado.Base.{
  ℕ, ◌≤◌, ◌≡◌, ◌≢◌, refl, List, [], ◌∷◌, ◌++◌, length, All, All-append, Bool-cases, inl, inr,
}
use agregado.Text.{Str, join}
use agregado.Preferences.{
  Sections, has, lines_for, changes_in, changes, describe_change, describe_lines,
}
use agregado.Preferences.Notification.{tail_for, describe_lines_form}

lines_for_full :
    (sign : ℕ) (section : Str) (others bullets : List Str)
    → All (λ l. l ≢ []) (lines_for sign section others bullets)
unfolding lines_for
lines_for_full sign section others [] = tt
lines_for_full sign section others (b ∷ bs) = elim (Bool-cases (has others b)) [
  | inl t ↦ rw t (lines_for_full sign section others bs)
  | inr f ↦ rw f ((λ e. cc), lines_for_full sign section others bs)
]

changes_in_full :
    (a b : Sections) (sections : List Str) → All (λ l. l ≢ []) (changes_in a b sections)
unfolding changes_in
changes_in_full a b [] = tt
changes_in_full a b (section ∷ sections) =
    All-append (λ l. l ≢ []) (lines_for b'+' section _ _) _ (lines_for_full b'+' section _ _)
      (All-append (λ l. l ≢ []) (lines_for b'-' section _ _) _ (lines_for_full b'-' section _ _)
        (changes_in_full a b sections))

-- Where there is a change, the notification says its first lines, in at most the given length, and
-- the number of the lines left out, if any.
pub describe_change_form :
    (before after : Str) (max_chars : ℕ)
    → changes before after ≢ []
    → (shown : List Str) × (rest : List Str) × (changes before after ≡ shown ++ rest)
      × (length (join shown (10 ∷ [])) ≤ max_chars)
      × (describe_change before after max_chars ≡ join shown (10 ∷ []) ++ tail_for rest)
unfolding describe_change changes
describe_change_form before after max_chars ne = go _ (changes_in_full _ _ _) ne
  where
    go :
        (lines : List Str)
        → All (λ l. l ≢ []) lines
        → lines ≢ []
        → (shown : List Str) × (rest : List Str) × (lines ≡ shown ++ rest)
          × (length (join shown (10 ∷ [])) ≤ max_chars)
          × (describe_lines max_chars lines ≡ join shown (10 ∷ []) ++ tail_for rest)
    go [] h ne = absurd (ne refl)
    go (line ∷ lines) h ne = describe_lines_form max_chars line lines h
