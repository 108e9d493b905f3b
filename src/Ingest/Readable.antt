-- ===== src/Ingest/Readable.antt =====
-- `toReadableContent` of n8n/src/sanitize.js.
pub mod Reader
pub mod Collapse
pub mod Texts
pub mod Spaces
pub mod Pieces
pub mod Walk
pub mod Whole
pub mod Shown
use agregado.Base.{
  ℕ, zero, suc, ◌≡◌, refl, Bool, true, false, not, ◌&&◌, ◌||◌, List, [], ◌∷◌, ◌++◌, Option, none,
  some, if◌then◌else◌, ◌==◌,
}
use agregado.Text.{Str, codes, str_eq, replace_all}
use agregado.Text.Split.{last_index_of}
use agregado.Text.Trim.{trim, is_space, trim_code}
use agregado.Platform.Crypto.{CaseMap, NodeText}
use agregado.Html.{Attributes, Nodes, end, text, other, root, element, Cheerio, one_of, attribute}
use agregado.Ingest.Assets.{attribute_text}
use agregado.Ingest.Extract.{span}
use agregado.Ingest.Sanitize.{escape_html, strip_unsafe}

abbrev pub readable_tags : List Str
readable_tags =
    codes "p"
    ∷ codes "h1"
    ∷ codes "h2"
    ∷ codes "h3"
    ∷ codes "h4"
    ∷ codes "h5"
    ∷ codes "h6"
    ∷ codes "ul"
    ∷ codes "ol"
    ∷ codes "li"
    ∷ codes "blockquote"
    ∷ codes "pre"
    ∷ codes "code"
    ∷ codes "strong"
    ∷ codes "b"
    ∷ codes "em"
    ∷ codes "i"
    ∷ codes "br"
    ∷ codes "hr"
    ∷ codes "a"
    ∷ []

-- The names of the second selector.
abbrev pub presentation_names : List Str
presentation_names =
    codes "style"
    ∷ codes "head"
    ∷ codes "img"
    ∷ codes "svg"
    ∷ codes "picture"
    ∷ codes "video"
    ∷ codes "audio"
    ∷ codes "noscript"
    ∷ []

abbrev pub is_void : Str → Bool
is_void name = str_eq name (codes "br") || str_eq name (codes "hr")

unfoldable pub escape_href : Str → Str
escape_href href = replace_all b'"' (codes "&quot;") (replace_all b'&' (codes "&amp;") href)

-- The attribute that a tag is written with.
unfoldable pub link_attribute : Str → Attributes → Str
link_attribute name attrs =
    if str_eq name (codes "a")
    then (elim (trim (attribute_text (codes "href") attrs)) [
      | [] ↦ []
      | c ∷ s ↦ codes " href=\"" ++ (escape_href (c ∷ s) ++ codes "\"")
    ])
    else []

-- `node.type === "tag"`: domhandler gives scripts and styles types of their own, and what is in a
-- `template` is in a node of type `root`.
abbrev pub is_tag : Str → Bool
is_tag name = not (str_eq name (codes "script") || str_eq name (codes "style"))

-- The function `walk`: what it pushes, joined.
unfoldable pub walk : Nodes → Str
walk end = []
walk (text s rest) = escape_html s ++ walk rest
walk (other s rest) = walk rest
walk (root inside rest) = walk rest
walk (element name attrs children rest) =
    let inner = walk children in
    let behind = walk rest in
    if not (is_tag name)
    then behind
    else if not (one_of name readable_tags)
    then inner ++ behind
    else if is_void name
    then b'<' ∷ (name ++ (b'>' ∷ behind))
    else b'<'
      ∷ (name
          ++ (link_attribute name attrs
              ++ (b'>' ∷ (inner ++ (codes "</" ++ (name ++ (b'>' ∷ behind)))))))

-- `.replace(/\s+/g, " ")`, behind white space or not.
unfoldable pub collapse : Bool → Str → Str
collapse behind [] = []
collapse behind (c ∷ s) =
    let rest = collapse (is_space c) s in
    if is_space c then (if behind then rest else 0x20 ∷ rest) else c ∷ rest

-- How many characters of a match of `/\s*\n/` there are, none for no match.
unfoldable pub blank_line : Str → Option ℕ
blank_line s = elim (last_index_of (span is_space s).0 10) [ none ↦ none | some i ↦ some (suc i) ]

abbrev onto_part : ℕ → List Str → List Str
onto_part c [] = (c ∷ []) ∷ []
onto_part c (p ∷ ps) = (c ∷ p) ∷ ps

-- `.split(/\n\s*\n/)`, with the characters of a match that are still to go.
unfoldable pub paragraphs : ℕ → Str → List Str
paragraphs n [] = [] ∷ []
paragraphs (suc n) (c ∷ s) = paragraphs n s
paragraphs zero (c ∷ s) = elim (if c == 10 then blank_line s else none) [
  | none ↦ onto_part c (paragraphs zero s)
  | some n ↦ [] ∷ paragraphs n s
]

-- The paragraphs that are not blank, each as an element, joined.
unfoldable pub print_paragraphs : List Str → Str
print_paragraphs [] = []
print_paragraphs (p ∷ ps) =
    let rest = print_paragraphs ps in
    elim (trim p) [
      | [] ↦ rest
      | c ∷ s ↦ codes "<p>" ++ (escape_html (c ∷ s) ++ (codes "</p>" ++ rest))
    ]

unfoldable pub plain_text_to_html : Str → Str
plain_text_to_html plain = print_paragraphs (paragraphs zero plain)

-- `result || plainTextToHtml(text)`
unfoldable pub or_plain_text : Str → Str → Str
or_plain_text [] plain = plain_text_to_html plain
or_plain_text (c ∷ s) plain = c ∷ s

module _ (case_map : CaseMap) (node_text : NodeText) where
  -- The nodes that `walk` is called with.
  unfoldable pub readable_nodes : Cheerio → Nodes → Nodes
  readable_nodes cheerio nodes =
      let left =
        cheerio.remove (λ name attrs. one_of name presentation_names)
          (strip_unsafe case_map node_text cheerio nodes) in
      if cheerio.exists (codes "body") left then cheerio.contents (codes "body") left else left

  unfoldable pub to_readable_content : Cheerio → Str → Str → Str
  to_readable_content cheerio html plain = elim (trim html) [
    | [] ↦ plain_text_to_html plain
    | c ∷ s ↦
        or_plain_text (trim (collapse false (walk (readable_nodes cheerio (cheerio.load html)))))
          plain
  ]

plain_text_to_html_test :
    plain_text_to_html (codes "a <b>\n \n\nsecond\nline \n\n ")
    ≡ codes "<p>a &lt;b&gt;</p><p>second\nline</p>"
unfolding plain_text_to_html print_paragraphs paragraphs blank_line last_index_of span trim_code
    escape_html replace_all
plain_text_to_html_test = refl

walk_test :
    trim (
      collapse false (
        walk (
          element
            (codes "div")
            []
            (text (codes " a\n\t<b> ") (
              element
                (codes "a")
                ((codes "href", codes " x?a=\"1\"&b ") ∷ [])
                (text (codes "go") end)
                (element (codes "br") [] end end)))
            end)))
    ≡ codes "a &lt;b&gt; <a href=\"x?a=&quot;1&quot;&amp;b\">go</a><br>"
unfolding walk collapse link_attribute escape_href escape_html replace_all trim_code one_of str_eq
    attribute attribute_text
walk_test = refl
