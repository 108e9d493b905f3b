-- ===== src/Ingest/Readable/Walk.antt =====
-- What `walk` and `plainTextToHtml` of n8n/src/sanitize.js write is read back as readable content.
use agregado.Base.{
  ◌≡◌, refl, ap, ◌∙◌, inl, inr, true, false, List, [], ◌∷◌, ◌++◌, some, if◌then◌else◌, Bool-cases,
}
use agregado.Text.{Str, codes, str_eq}
use agregado.Text.Trim.{trim}
use agregado.Html.{Attributes, Nodes, end, text, other, root, element, one_of}
use agregado.Ingest.Sanitize.{escape_html}
use agregado.Ingest.Readable.{
  readable_tags, is_void, is_tag, link_attribute, walk, print_paragraphs,
}
use agregado.Ingest.Readable.Reader.{content, at, read, read-append}
use agregado.Ingest.Readable.Texts.{escape_html-Lacks, read_content}
use agregado.Ingest.Readable.Pieces.{
  readable_tag-IsName, read_start, read_end, read_close, read_open,
}

read_text :
    (inside : List Str) (s t : Str)
    → read (at content inside) (escape_html s ++ t) ≡ read (at content inside) t
read_text inside s t =
    let (lt, gt) = escape_html-Lacks s in
    read-append (at content inside) (at content inside) (escape_html s) t
      (read_content inside (escape_html s) lt gt)

read_element :
    (inside : List Str) (name : Str) (attrs : Attributes) (inner behind : Str)
    → one_of name readable_tags ≡ true
    → is_void name ≡ false
    → read (at content (name ∷ inside)) inner ≡ some (at content (name ∷ inside))
    → read (at content inside) (
        b'<'
        ∷ (name
            ++ (link_attribute name attrs
                ++ (b'>' ∷ (inner ++ (codes "</" ++ (name ++ (b'>' ∷ behind))))))))
      ≡ read (at content inside) behind
read_element inside name attrs inner behind h v k =
    let is_name = readable_tag-IsName name h in
    let rest = codes "</" ++ (name ++ (b'>' ∷ behind)) in
    read_start inside name (link_attribute name attrs ++ (b'>' ∷ (inner ++ rest))) is_name
    ∙ read_open inside name attrs (inner ++ rest) h v
    ∙ read-append (at content (name ∷ inside)) (at content (name ∷ inside)) inner rest k
    ∙ read_end inside name behind is_name

pub read-walk :
    (inside : List Str) (f : Nodes) → read (at content inside) (walk f) ≡ some (at content inside)
unfolding walk
read-walk inside end = unfold read in refl
read-walk inside (text s rest) = read_text inside s (walk rest) ∙ read-walk inside rest
read-walk inside (other s rest) = read-walk inside rest
read-walk inside (root nodes rest) = read-walk inside rest
read-walk inside (element name attrs children rest) =
    let inner = read-walk inside children in
    let within = read-walk (name ∷ inside) children in
    let behind = read-walk inside rest in
    elim (Bool-cases (is_tag name)) [
      | inr f ↦ rw f behind
      | inl g ↦ elim (Bool-cases (one_of name readable_tags)) [
        | inr f ↦
            rw (g, f)
              (read-append (at content inside) (at content inside) (walk children) (walk rest) inner
                ∙ behind)
        | inl h ↦ elim (Bool-cases (is_void name)) [
          | inl v ↦
              rw (g, h, v)
                (read_start inside name (b'>' ∷ walk rest) (readable_tag-IsName name h)
                  ∙ read_close inside name (walk rest) h
                  ∙ ap (λ b. read (at content (if b then inside else name ∷ inside)) (walk rest)) v
                  ∙ behind)
          | inr v ↦
              rw (g, h, v)
                (read_element inside name attrs (walk children) (walk rest) h v within ∙ behind)
        ]
      ]
    ]

pub read-print_paragraphs :
    (ps : List Str) → read (at content []) (print_paragraphs ps) ≡ some (at content [])
unfolding print_paragraphs link_attribute one_of str_eq
read-print_paragraphs [] = unfold read in refl
read-print_paragraphs (p ∷ ps) = go (trim p) (read-print_paragraphs ps)
  where
    go :
        (t : Str)
        → read (at content []) (print_paragraphs ps) ≡ some (at content [])
        → read (at content []) (elim t [
          | [] ↦ print_paragraphs ps
          | c ∷ s ↦ codes "<p>" ++ (escape_html (c ∷ s) ++ (codes "</p>" ++ print_paragraphs ps))
        ])
          ≡ some (at content [])
    go [] h = h
    go (c ∷ s) h =
        read_element [] (codes "p") [] (escape_html (c ∷ s)) (print_paragraphs ps) refl refl (
          let (lt, gt) = escape_html-Lacks (c ∷ s) in
          read_content (codes "p" ∷ []) (escape_html (c ∷ s)) lt gt)
        ∙ h
