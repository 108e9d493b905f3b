-- ===== src/Atom/Escape.antt =====
-- `escapeXml` of email-worker/src/atom.ts: five global replacements, `&` first.
pub mod Laws
use agregado.Base.{◌≡◌, refl}
use agregado.Text.{Str, codes, replace_all}

unfoldable pub escape_xml : Str → Str
escape_xml value = replace_all b'\'' (codes "&apos;") (
    replace_all b'"' (codes "&quot;") (
      replace_all b'>' (codes "&gt;")
        (replace_all b'<' (codes "&lt;") (replace_all b'&' (codes "&amp;") value))))

escape_xml_test : escape_xml (codes "Cats & Dogs <3") ≡ codes "Cats &amp; Dogs &lt;3"
unfolding escape_xml replace_all
escape_xml_test = refl
