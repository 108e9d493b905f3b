-- ===== src/Ingest/Readable/Spaces.antt =====
-- White space, and the reader of the readable content of n8n/src/sanitize.js on it.
use agregado.Base.{
  ℕ, ◌≡◌, refl, ◌⊎◌, inl, inr, arith, Bool, true, false, List, [], ◌∷◌, Option, none, some,
  if◌then◌else◌, All,
}
use mathlib.Core.Path.{subst}
use agregado.Base.Options.{eq_of_some}
use agregado.Text.{Str, codes}
use agregado.Text.Trim.{is_space}
use agregado.Ingest.Readable.Reader.{
  Mode, content, opened, tag, end_tag, literal, quoted, unquoted, State, at, start_element,
  end_element, read_char,
}

-- The rest of the literal holds no white space.
abbrev pub WellMode : Mode → Type 0
WellMode (literal s) = All (λ c. is_space c ≡ false) s
WellMode content = Unit
WellMode opened = Unit
WellMode (tag n) = Unit
WellMode (end_tag n) = Unit
WellMode quoted = Unit
WellMode unquoted = Unit

-- White space is passed over, or not accepted.
abbrev pub Skips : Mode → Type 0
Skips m =
    (inside : List Str) (c : ℕ)
    → is_space c ≡ true
    → (read_char m inside c ≡ none) ⊎ (read_char m inside c ≡ some (at m inside))

abbrev WellOutcome : Option State → Type 0
WellOutcome none = Unit
WellOutcome (some p) = WellMode p.mode

if-WellOutcome :
    (b : Bool) (x y : Option State)
    → WellOutcome x
    → WellOutcome y
    → WellOutcome (if b then x else y)
if-WellOutcome true x y h k = h
if-WellOutcome false x y h k = k

start_element-WellOutcome : (n : Str) (inside : List Str) → WellOutcome (start_element n inside)
unfolding start_element
start_element-WellOutcome n inside = search if-WellOutcome

end_element-WellOutcome : (n : Str) (inside : List Str) → WellOutcome (end_element n inside)
unfolding end_element
end_element-WellOutcome n [] = tt
end_element-WellOutcome n (m ∷ inside) = search if-WellOutcome

href_literal : All (λ c. is_space c ≡ false) (codes "href=\"")
href_literal = search arith

link-WellOutcome : (inside : List Str) → WellOutcome (some (at (literal (codes "href=\"")) inside))
link-WellOutcome inside = href_literal

read_char-WellOutcome :
    (m : Mode) (inside : List Str) (c : ℕ) → WellMode m → WellOutcome (read_char m inside c)
unfolding read_char
read_char-WellOutcome content inside c w = search if-WellOutcome
read_char-WellOutcome opened inside c w = search if-WellOutcome
read_char-WellOutcome (tag n) inside c w =
    search (if-WellOutcome, start_element-WellOutcome, link-WellOutcome inside)
read_char-WellOutcome (end_tag n) inside c w = search (if-WellOutcome, end_element-WellOutcome)
read_char-WellOutcome (literal []) inside c w = tt
read_char-WellOutcome (literal (d ∷ [])) inside c w = search if-WellOutcome
read_char-WellOutcome (literal (d ∷ e ∷ s)) inside c (w, v) = search (if-WellOutcome, v)
read_char-WellOutcome quoted inside c w = search if-WellOutcome
read_char-WellOutcome unquoted inside c w = search if-WellOutcome

pub read_char-WellMode :
    (m : Mode) (inside : List Str) (c : ℕ) (p : State)
    → WellMode m
    → read_char m inside c ≡ some p
    → WellMode p.mode
read_char-WellMode m inside c p w h = subst WellOutcome h (read_char-WellOutcome m inside c w)

pub content-Skips : Skips content
unfolding read_char
content-Skips inside c h = inr (ground arith)

quoted-Skips : Skips quoted
unfolding read_char
quoted-Skips inside c h = inr (ground arith)

literal-Skips : (s : Str) → All (λ c. is_space c ≡ false) s → Skips (literal s)
unfolding read_char
literal-Skips [] w inside c h = inl refl
literal-Skips (d ∷ []) (w, v) inside c h = inl (ground arith)
literal-Skips (d ∷ e ∷ s) (w, v) inside c h = inl (ground arith)

-- A white space that is accepted is accepted as a space, and more of it is then passed over or not
-- accepted.
pub read_char-space :
    (m : Mode) (inside : List Str) (c : ℕ) (p : State)
    → WellMode m
    → is_space c ≡ true
    → read_char m inside c ≡ some p
    → (read_char m inside 0x20 ≡ some p) × Skips p.mode
unfolding read_char
read_char-space content inside c p w h k =
    let e : some (at content inside) ≡ some p = ground arith in
    (e, subst (λ q. Skips q.mode) (eq_of_some (at content inside) p e) content-Skips)
read_char-space opened inside c p w h k = absurd (ground arith)
read_char-space (tag n) inside c p w h k =
    let e : some (at (literal (codes "href=\"")) inside) ≡ some p = ground arith in
    (
      ground arith,
      subst (λ q. Skips q.mode) (eq_of_some (at (literal (codes "href=\"")) inside) p e)
          (literal-Skips (codes "href=\"") href_literal),
    )
read_char-space (end_tag n) inside c p w h k = absurd (ground arith)
read_char-space (literal []) inside c p w h k = absurd (ground arith)
read_char-space (literal (d ∷ [])) inside c p (w, v) h k = absurd (ground arith)
read_char-space (literal (d ∷ e ∷ s)) inside c p (w, v) h k = absurd (ground arith)
read_char-space quoted inside c p w h k =
    let e : some (at quoted inside) ≡ some p = ground arith in
    (e, subst (λ q. Skips q.mode) (eq_of_some (at quoted inside) p e) quoted-Skips)
read_char-space unquoted inside c p w h k = absurd (ground arith)

abbrev pub Behind : Bool → Mode → Type 0
Behind true m = Skips m
Behind false m = Unit
