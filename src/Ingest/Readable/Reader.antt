-- ===== src/Ingest/Readable/Reader.antt =====
-- A reader of the HTML that `toReadableContent` of n8n/src/sanitize.js may give, independent of the
-- code that writes it: text, the tags of a list properly nested, and one attribute of one tag.
use agregado.Base.{
  ℕ, ◌≡◌, refl, ap, Bool, ◌||◌, List, [], ◌∷◌, ◌++◌, Option, none, some, if◌then◌else◌, ◌==◌,
}
use agregado.Base.Options.{eq_of_some}
use agregado.Text.{Str, codes, str_eq}
use agregado.Text.Trim.{is_space}
use agregado.Html.{one_of}
use agregado.Ingest.Readable.{readable_tags, is_void}

-- Where the reader stands: in text, behind `<`, in the name of a tag or of an end tag, in the
-- literal that opens the attribute, in its value, and behind that.
pub data Mode : Type 0 where
  content : Mode
  opened : Mode
  tag : Str → Mode
  end_tag : Str → Mode
  literal : Str → Mode
  quoted : Mode
  unquoted : Mode

-- A mode, and the elements that are open, the innermost first.
pub record State : Type 0 where
  pub mode : Mode
  pub inside : List Str

abbrev pub at : Mode → List Str → State
at mode inside = record { mode = mode; inside = inside }

-- A name is complete.
unfoldable pub start_element : Str → List Str → Option State
start_element name inside =
    if one_of name readable_tags
    then some (at content (if is_void name then inside else name ∷ inside))
    else none

unfoldable pub end_element : Str → List Str → Option State
end_element name [] = none
end_element name (innermost ∷ inside) =
    if str_eq name innermost then some (at content inside) else none

abbrev pub is_mark : ℕ → Bool
is_mark c = c == b'<' || (c == b'>' || (c == b'"' || c == b'/'))

-- One character.
unfoldable pub read_char : Mode → List Str → ℕ → Option State
read_char content inside c =
    if c == b'<'
    then some (at opened inside)
    else if c == b'>'
    then none
    else some (at content inside)
read_char opened inside c =
    if c == b'/'
    then some (at (end_tag []) inside)
    else if is_space c || is_mark c
    then none
    else some (at (tag (c ∷ [])) inside)
read_char (tag name) inside c =
    if c == b'>'
    then start_element name inside
    else if c == 0x20
    then (if str_eq name (codes "a") then some (at (literal (codes "href=\"")) inside) else none)
    else if is_space c || is_mark c
    then none
    else some (at (tag (name ++ c ∷ [])) inside)
read_char (end_tag name) inside c =
    if c == b'>'
    then end_element name inside
    else if is_space c || is_mark c
    then none
    else some (at (end_tag (name ++ c ∷ [])) inside)
read_char (literal []) inside c = none
read_char (literal (d ∷ [])) inside c = if c == d then some (at quoted inside) else none
read_char (literal (d ∷ e ∷ s)) inside c =
    if c == d then some (at (literal (e ∷ s)) inside) else none
read_char quoted inside c = if c == b'"' then some (at unquoted inside) else some (at quoted inside)
read_char unquoted inside c = if c == b'>' then some (at content (codes "a" ∷ inside)) else none

unfoldable pub read : State → Str → Option State
read q [] = some q
read q (c ∷ s) = elim (read_char q.mode q.inside c) [ none ↦ none | some q' ↦ read q' s ]

-- The text is read to its end, with every element closed.
abbrev pub IsReadable : Str → Type 0
IsReadable s = read (at content []) s ≡ some (at content [])

pub read_step :
    (q p : State) (c : ℕ) (s : Str)
    → read_char q.mode q.inside c ≡ some p
    → read q (c ∷ s) ≡ read p s
unfolding read
read_step q p c s h = ap (λ o. elim o as (λ x. Option State) [ none ↦ none | some r ↦ read r s ]) h

pub read-append : (q r : State) (s t : Str) → read q s ≡ some r → read q (s ++ t) ≡ read r t
unfolding read
read-append q r [] t h = ap (λ x. read x t) (eq_of_some q r h)
read-append q r (c ∷ s) t h = go (read_char q.mode q.inside c) (λ p. read-append p r s t) h
  where
    go :
        (o : Option State)
        → ((p : State) → read p s ≡ some r → read p (s ++ t) ≡ read r t)
        → (elim o [ none ↦ none | some p ↦ read p s ]) ≡ some r
        → (elim o [ none ↦ none | some p ↦ read p (s ++ t) ]) ≡ read r t
    go none ih k = cc
    go (some p) ih k = ih p k

pub eq_of_read_cons :
    (q r : State) (c : ℕ) (s : Str)
    → read q (c ∷ s) ≡ some r
    → (p : State) × (read_char q.mode q.inside c ≡ some p) × (read p s ≡ some r)
unfolding read
eq_of_read_cons q r c s h = go (read_char q.mode q.inside c) refl h
  where
    go :
        (o : Option State)
        → read_char q.mode q.inside c ≡ o
        → (elim o [ none ↦ none | some p ↦ read p s ]) ≡ some r
        → (p : State) × (read_char q.mode q.inside c ≡ some p) × (read p s ≡ some r)
    go none e k = cc
    go (some p) e k = (p, e, k)
