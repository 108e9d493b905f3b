-- ===== src/Tests/Html.antt =====
-- Runs of n8n/src/sanitize.js and n8n/src/assets.js on a page.
use agregado.Base.{◌≡◌, ◌↔◌, refl, true, false, [], ◌∷◌, Option, none, some, if◌then◌else◌}
use agregado.Text.{Str, codes, str_eq}
use agregado.Html.{
  Nodes, end, text, other, root, element, Cheerio, has_head, has_child, remove_where,
  map_attributes, prepend_element, AllElements,
}
use agregado.Html.Head.{HeadBegins}
use agregado.Ingest.Assets.{Asset, inline_assets, plan_nodes, plan_assets}
use agregado.Ingest.Assets.Capture.{inline_assets-plan}
use agregado.Ingest.Assets.Fetches.{sift, fails}
use agregado.Ingest.Readable.{walk, to_readable_content}
use agregado.Ingest.Readable.Reader.{IsReadable}
use agregado.Ingest.Readable.Shown.{scan, outside, texts, scan-walk}
use agregado.Ingest.Readable.Whole.{to_readable_content-IsReadable}
use agregado.Ingest.Sanitize.{escape_html, strip_unsafe, policy, sanitize_for_permalink}
use agregado.Ingest.Sanitize.Safe.{SafeElement}
use agregado.Ingest.Sanitize.Safe.Document.{strip_unsafe-AllElements_iff}
use agregado.Ingest.Sanitize.Safe.Policy.{PermalinkElement, sanitize_for_permalink-HeadBegins}
use agregado.Tests.Parameters.{ascii_case, digits_only}

-- A script, an image with a handler and alternatives, an image that reports the reader, and a link
-- round the text of the source.
abbrev pub body_of : Str → Nodes
body_of source = element (codes "script") [] (text (codes "x") end) (
    element (codes "img")
      ((codes "src", codes " https://a.example/1.png ")
        ∷ (codes "onload", codes "f()")
        ∷ (codes "srcset", codes "2.png 2x")
        ∷ [])
      end
      (element (codes "img")
        ((codes "src", codes "https://a.example/2.gif")
          ∷ (codes "width", codes "1")
          ∷ (codes "height", codes "1")
          ∷ [])
        end
        (element (codes "a") ((codes "href", codes " JavaScript:f()") ∷ []) (text source end) (
          element (codes "template") [] (root (text (codes "later") end) end)
            (other (codes "end") end)))))

abbrev pub page : Str → Nodes
page source =
    element (codes "html") []
      (element (codes "head") [] end (element (codes "body") [] (body_of source) end)) end

pub page-has_head : (source : Str) → has_head (page source) ≡ true
unfolding has_head has_child str_eq
page-has_head source = refl

-- A parser that gives that page for every source, and a printer that leaves attributes out.
abbrev pub pages : Cheerio
pages = record {
  load = page;
  html = walk;
  remove = remove_where;
  each = map_attributes;
  prepend = prepend_element;
  exists = λ name f. false;
  contents = λ name f. f;
  load-has_head = page-has_head;
  remove_lem = λ test f. refl;
  each_lem = λ g f. refl;
  prepend_lem = λ name n attrs f. refl;
}

-- Images of one host are there.
abbrev pub fetch_png : Str → Option Asset
fetch_png url =
    if str_eq url (codes "https://a.example/1.png")
    then some (record { content_type = codes "image/png; q=1"; bytes = 1 ∷ 2 ∷ [] })
    else none

to_readable_content-IsReadable_example :
    IsReadable (to_readable_content ascii_case digits_only pages (codes " a <b> c") [])
to_readable_content-IsReadable_example =
    to_readable_content-IsReadable ascii_case digits_only pages (codes " a <b> c") []

strip_unsafe-AllElements_iff_example :
    AllElements
      (SafeElement ascii_case digits_only)
      (strip_unsafe ascii_case digits_only pages (page (codes "go")))
    × ((strip_unsafe ascii_case digits_only pages (page (codes "go")) ≡ page (codes "go"))
        ↔ AllElements (SafeElement ascii_case digits_only) (page (codes "go")))
strip_unsafe-AllElements_iff_example =
    strip_unsafe-AllElements_iff ascii_case digits_only pages (page (codes "go"))

sanitize_for_permalink-HeadBegins_example :
    (f : Nodes) × (sanitize_for_permalink ascii_case digits_only pages (codes "go") ≡ walk f)
    × HeadBegins (codes "meta") policy f
    × AllElements (PermalinkElement ascii_case digits_only pages) f
sanitize_for_permalink-HeadBegins_example =
    sanitize_for_permalink-HeadBegins ascii_case digits_only pages (codes "go")

inline_assets-plan_example :
    (f : Nodes) × (inline_assets digits_only fetch_png pages (codes "go")
      ≡ (walk f, plan_nodes digits_only f))
    × (plan_nodes digits_only f
        ≡ sift (fails fetch_png) (plan_assets digits_only pages (codes "go")))
inline_assets-plan_example = inline_assets-plan digits_only fetch_png pages (codes "go")

scan-walk_example :
    scan outside (walk (page (codes "a < b")))
    ≡ (outside, escape_html (texts (page (codes "a < b"))))
scan-walk_example = scan-walk (page (codes "a < b"))
