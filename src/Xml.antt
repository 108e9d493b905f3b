-- ===== src/Xml.antt =====
-- A reader of XML documents, which the feed's output is checked against. It knows nothing of the
-- feed: it cuts a text into markup, attribute values and character data, by the rules of XML 1.0
-- for `<`, `>`, `"`, the five predefined entities, line ends and white space in attribute values. It
-- has no comments, CDATA sections, DTDs or
-- character references by number, and refuses a stray or unknown `&`.
pub mod Reading
use agregado.Base.{
  ℕ, ◌≡◌, refl, Bool, true, false, ◌&&◌, ◌||◌, ltb, leb, List, [], ◌∷◌, ◌++◌, map, Option, none,
  some, ◌==◌, if◌then◌else◌,
}
use agregado.Base.Options.{◌>>=◌}
use agregado.Text.{Str, codes, str_eq}

-- What the name of a predefined entity stands for.
unfoldable pub entity : Str → Option ℕ
unfolding str_eq
entity name =
    if str_eq name (codes "amp")
    then some b'&'
    else if str_eq name (codes "lt")
    then some b'<'
    else if str_eq name (codes "gt")
    then some b'>'
    else if str_eq name (codes "quot")
    then some b'"'
    else if str_eq name (codes "apos")
    then some b'\''
    else none

-- The text that character data or an attribute value spells; the first argument is the name of the
-- entity that is being read, if one is.
unfoldable pub decode : Option Str → Str → Option Str
unfolding entity
decode none [] = some []
decode (some name) [] = none
decode none (c ∷ s) = elim (c == b'&') [
  | true ↦ decode (some []) s
  | false ↦ decode none s >>= λ t. some (c ∷ t)
]
decode (some name) (c ∷ s) = elim (c == b';') [
  | true ↦ entity name >>= λ d. decode none s >>= λ t. some (d ∷ t)
  | false ↦ decode (some (name ++ c ∷ [])) s
]

-- A piece of a document: what stands between `<` and `>` outside quotes, a quoted attribute value,
-- and the character data between two tags.
pub data Event : Type 0 where
  markup attr chars : Str → Event

pub data Mode : Type 0 where
  content tag quoted : Mode

abbrev emit : (Str → Event) → Option Str → Option (List Event) → Option (List Event)
emit kind text rest = text >>= λ t. rest >>= λ es. some (kind t ∷ es)

-- The events of a document; the second argument is what has been read of the current piece.
unfoldable pub lex : Mode → Str → Str → Option (List Event)
unfolding decode
lex content acc [] = emit chars (decode none acc) (some [])
lex tag acc [] = none
lex quoted acc [] = none
lex content acc (c ∷ s) = elim (c == b'<') [
  | true ↦ emit chars (decode none acc) (lex tag [] s)
  | false ↦ lex content (acc ++ c ∷ []) s
]
lex tag acc (c ∷ s) = elim (c == b'>') [
  | true ↦ emit markup (some acc) (lex content [] s)
  | false ↦ elim (c == b'"') [
    | true ↦ emit markup (some acc) (lex quoted [] s)
    | false ↦ lex tag (acc ++ c ∷ []) s
  ]
]
lex quoted acc (c ∷ s) = elim (c == b'"') [
  | true ↦ emit attr (decode none acc) (lex tag [] s)
  | false ↦ lex quoted (acc ++ c ∷ []) s
]

-- The code units that a document may hold: the characters of XML 1.0. A surrogate without its
-- partner is among them, since it is sent as U+FFFD.
unfoldable pub is_xml_char : ℕ → Bool
is_xml_char c = leb 32 c && ltb c 65534 || (c == 9 || (c == 10 || c == 13))

unfoldable pub is_xml_text : Str → Bool
unfolding is_xml_char
is_xml_text [] = true
is_xml_text (c ∷ s) = is_xml_char c && is_xml_text s

-- Line ends by section 2.11 of XML 1.0: a carriage return, with a line feed behind it or not, is one
-- line feed. The first argument tells whether a carriage return stands right before. It is done on the
-- pieces, which is the same as on the document: no predefined entity stands for a line end.
unfoldable pub line_ends : Bool → Str → Str
line_ends behind [] = []
line_ends behind (c ∷ s) =
    let rest = line_ends (c == 13) s in
    if c == 13 then 10 ∷ rest else if behind && c == 10 then rest else c ∷ rest

-- White space in an attribute value by section 3.3.3.
unfoldable pub to_space : ℕ → ℕ
to_space c = if c == 9 || (c == 10 || c == 13) then 32 else c

unfoldable pub normalise : Event → Event
normalise (markup s) = markup (line_ends false s)
normalise (attr s) = attr (map to_space (line_ends false s))
normalise (chars s) = chars (line_ends false s)

unfoldable pub normalise_events : Option (List Event) → Option (List Event)
normalise_events none = none
normalise_events (some events) = some (map normalise events)

-- `none` is a document that is not well-formed.
unfoldable pub read_xml : Str → Option (List Event)
unfolding lex is_xml_text
read_xml doc = if is_xml_text doc then normalise_events (lex content [] doc) else none

read_xml_test :
    read_xml (codes "<a b=\"x&gt;\ty\">c &amp;" ++ (13 ∷ 10 ∷ 13 ∷ codes " d</a>"))
    ≡ some (
        chars []
        ∷ markup (codes "a b=")
        ∷ attr (codes "x> y")
        ∷ markup []
        ∷ chars (codes "c &\n\n d")
        ∷ markup (codes "/a")
        ∷ chars []
        ∷ [])
unfolding read_xml normalise_events normalise line_ends to_space
read_xml_test = refl
