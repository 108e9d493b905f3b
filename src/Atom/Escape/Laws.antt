-- ===== src/Atom/Escape/Laws.antt =====
-- `escapeXml` of email-worker/src/atom.ts against the XML reader, and the characters of its result.
use agregado.Base.{
  ℕ, ◌≡◌, ◌≢◌, refl, ◌∙◌, [], ◌∷◌, ◌++◌, none, some, ◌==◌, if◌then◌else◌, arith, All, All-append,
}
use agregado.Base.Options.{◌>>=◌}
use agregado.Text.{Str, codes, replace_all}
use agregado.Text.Laws.{replace_all-append}
use agregado.Xml.{decode}
use agregado.Atom.Escape.{escape_xml}

-- One pass over the text: the form of one code unit.
abbrev pub escape_unit : ℕ → Str
escape_unit c =
    if c == b'&'
    then codes "&amp;"
    else if c == b'<'
    then codes "&lt;"
    else if c == b'>'
    then codes "&gt;"
    else if c == b'"'
    then codes "&quot;"
    else if c == b'\''
    then codes "&apos;"
    else c ∷ []

escape_xml-append : (s t : Str) → escape_xml (s ++ t) ≡ escape_xml s ++ escape_xml t
unfolding escape_xml
escape_xml-append s t = simp replace_all-append

escape_xml-unit : (c : ℕ) → escape_xml (c ∷ []) ≡ escape_unit c
unfolding escape_xml replace_all
escape_xml-unit c = ground arith

pub escape_xml-cons : (c : ℕ) (s : Str) → escape_xml (c ∷ s) ≡ escape_unit c ++ escape_xml s
escape_xml-cons c s = escape_xml-append (c ∷ []) s ∙ rw escape_xml-unit refl

decode-unit :
    (c : ℕ) (s : Str) → decode none (escape_unit c ++ s) ≡ (decode none s >>= λ t. some (c ∷ t))
unfolding decode
decode-unit c s = ground arith

-- A reader gets back exactly the text that was escaped, whatever it holds.
pub decode-escape_xml : (s : Str) → decode none (escape_xml s) ≡ some s
decode-escape_xml [] = unfold escape_xml replace_all decode in refl
decode-escape_xml (c ∷ s) = rw (escape_xml-cons, decode-unit, decode-escape_xml s)

-- The characters that XML gives a meaning to, other than `&`.
abbrev pub IsInert : ℕ → Type 0
IsInert c = (c ≢ b'<') × (c ≢ b'>') × (c ≢ b'"') × (c ≢ b'\'')

escape_unit-IsInert : (c : ℕ) → All IsInert (escape_unit c)
escape_unit-IsInert c = ground arith

-- Escaped text holds no `<`, `>`, `"` or `'`.
pub escape_xml-IsInert : (s : Str) → All IsInert (escape_xml s)
escape_xml-IsInert [] = unfold escape_xml replace_all in tt
escape_xml-IsInert (c ∷ s) = rw escape_xml-cons (
    All-append IsInert (escape_unit c) (escape_xml s) (escape_unit-IsInert c)
      (escape_xml-IsInert s))
