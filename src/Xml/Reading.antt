-- ===== src/Xml/Reading.antt =====
-- How the reader goes through text that holds none of the characters it stops at.
use agregado.Base.{
  ◌≡◌, refl, ◌&&◌, [], ◌∷◌, ◌++◌, none, some, append-nil, append_assoc, arith, Lacks,
}
use agregado.Base.Options.{◌>>=◌}
use agregado.Text.{Str}
use agregado.Xml.{chars, attr, lex, content, tag, quoted, decode, is_xml_text}

lex-content-append :
    (acc s rest : Str) → Lacks b'<' s → lex content acc (s ++ rest) ≡ lex content (acc ++ s) rest
unfolding lex
lex-content-append acc [] rest h = rw append-nil
lex-content-append acc (c ∷ s) rest (ne, h) =
    ground (arith, lex-content-append (acc ++ c ∷ []) s rest h, append_assoc acc (c ∷ []) s)

lex-quoted-append :
    (acc s rest : Str) → Lacks b'"' s → lex quoted acc (s ++ rest) ≡ lex quoted (acc ++ s) rest
unfolding lex
lex-quoted-append acc [] rest h = rw append-nil
lex-quoted-append acc (c ∷ s) rest (ne, h) =
    ground (arith, lex-quoted-append (acc ++ c ∷ []) s rest h, append_assoc acc (c ∷ []) s)

-- Character data up to the next tag.
pub lex_chars :
    (s text rest : Str)
    → Lacks b'<' s
    → decode none s ≡ some text
    → lex content [] (s ++ b'<' ∷ rest) ≡ (lex tag [] rest >>= λ es. some (chars text ∷ es))
unfolding lex
lex_chars s text rest h e = rw (lex-content-append [] s (b'<' ∷ rest) h, e)

-- An attribute value up to its closing quote.
pub lex_attr :
    (s text rest : Str)
    → Lacks b'"' s
    → decode none s ≡ some text
    → lex quoted [] (s ++ b'"' ∷ rest) ≡ (lex tag [] rest >>= λ es. some (attr text ∷ es))
unfolding lex
lex_attr s text rest h e = rw (lex-quoted-append [] s (b'"' ∷ rest) h, e)

-- Text without `&` spells itself.
pub decode_of_Lacks : (s : Str) → Lacks b'&' s → decode none s ≡ some s
unfolding decode
decode_of_Lacks [] h = refl
decode_of_Lacks (c ∷ s) (ne, h) = ground (arith, decode_of_Lacks s h)

pub is_xml_text-append : (s t : Str) → is_xml_text (s ++ t) ≡ (is_xml_text s && is_xml_text t)
unfolding is_xml_text
is_xml_text-append [] t = refl
is_xml_text-append (c ∷ s) t = ground (arith, is_xml_text-append s t)
