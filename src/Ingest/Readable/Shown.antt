-- ===== src/Ingest/Readable/Shown.antt =====
-- What of a document is text in the readable content of n8n/src/sanitize.js.
use agregado.Base.{
  ℕ, ◌≡◌, refl, ap, sym, ◌∙◌, inl, inr, arith, true, false, not, ◌&&◌, [], ◌∷◌, ◌++◌, if◌then◌else◌,
  ◌==◌, Bool-cases, All, Lacks, append_assoc,
}
use agregado.Text.{Str, codes, str_eq, replace_all}
use agregado.Text.Laws.{replace_all-append}
use agregado.Text.Trim.{trim}
use agregado.Html.{Attributes, Nodes, end, text, other, root, element, one_of}
use agregado.Ingest.Assets.{attribute_text}
use agregado.Ingest.Sanitize.{escape_html}
use agregado.Ingest.Readable.{readable_tags, is_void, is_tag, escape_href, link_attribute, walk}
use agregado.Ingest.Readable.Pieces.{IsName, is_plain, readable_tag-IsName}
use agregado.Ingest.Readable.Texts.{escape_html-Lacks, escape_href-Lacks}

-- Where a scan stands: in text, in a tag, or in a value between quotation marks.
pub data Place : Type 0 where
  outside : Place
  within : Place
  value : Place

abbrev keep_unit : ℕ → Place × Str → Place × Str
keep_unit c (place, s) = (place, c ∷ s)

-- The text outside the tags, and where the scan ends.
unfoldable pub scan : Place → Str → Place × Str
scan place [] = (place, [])
scan outside (c ∷ s) = elim (c == b'<') [
  | true ↦ scan within s
  | false ↦ keep_unit c (scan outside s)
]
scan within (c ∷ s) = elim (c == b'>') [
  | true ↦ scan outside s
  | false ↦ elim (c == b'"') [ true ↦ scan value s | false ↦ scan within s ]
]
scan value (c ∷ s) = elim (c == b'"') [ true ↦ scan within s | false ↦ scan value s ]

-- The texts of the elements that the code descends into, in the order of the document.
unfoldable pub texts : Nodes → Str
texts end = []
texts (text s rest) = s ++ texts rest
texts (other s rest) = texts rest
texts (root inside rest) = texts rest
texts (element name attrs children rest) =
    let inner = texts children ++ texts rest in
    let behind = texts rest in
    if is_tag name && not (one_of name readable_tags && is_void name) then inner else behind

scan_text :
    (s t : Str) (p : Place) (u : Str)
    → Lacks b'<' s
    → scan outside t ≡ (p, u)
    → scan outside (s ++ t) ≡ (p, s ++ u)
unfolding scan
scan_text [] t p u h e = e
scan_text (c ∷ s) t p u (ne, h) e = let rest = scan_text s t p u h e in ground arith

scan_within : (s t : Str) → All (λ c. is_plain c ≡ true) s → scan within (s ++ t) ≡ scan within t
unfolding scan
scan_within [] t h = refl
scan_within (c ∷ s) t (hc, h) = let rest = scan_within s t h in ground arith

scan_value : (s t : Str) → Lacks b'"' s → scan value (s ++ t) ≡ scan value t
unfolding scan
scan_value [] t h = refl
scan_value (c ∷ s) t (ne, h) = let rest = scan_value s t h in ground arith

scan-link_attribute :
    (name : Str) (attrs : Attributes) (t : Str)
    → scan within (link_attribute name attrs ++ (b'>' ∷ t)) ≡ scan outside t
unfolding link_attribute scan
scan-link_attribute name attrs t = elim (Bool-cases (str_eq name (codes "a"))) [
  | inr f ↦ rw f refl
  | inl a ↦ rw a (go (trim (attribute_text (codes "href") attrs)))
]
  where
    go :
        (href : Str)
        → scan within (
            (elim href [
              | [] ↦ []
              | c ∷ s ↦ codes " href=\"" ++ (escape_href (c ∷ s) ++ codes "\"")
            ])
            ++ (b'>' ∷ t))
          ≡ scan outside t
    go [] = refl
    go (c ∷ s) =
        ap (scan value) (append_assoc (escape_href (c ∷ s)) (codes "\"") (b'>' ∷ t))
        ∙ scan_value (escape_href (c ∷ s)) (codes "\">" ++ t) (escape_href-Lacks (c ∷ s))

abbrev onto : Str → Place × Str → Place × Str
onto s (place, t) = (place, s ++ t)

scan-append : (r : Place) (s t : Str) → scan r (s ++ t) ≡ onto (scan r s).1 (scan (scan r s).0 t)
unfolding scan
scan-append r [] t = refl
scan-append outside (c ∷ s) t = elim (Bool-cases (c == b'<')) [
  | inl e ↦ rw (scan, e) (scan-append within s t)
  | inr f ↦ rw (scan, f) (ap (keep_unit c) (scan-append outside s t))
]
scan-append within (c ∷ s) t = elim (Bool-cases (c == b'>')) [
  | inl e ↦ rw (scan, e) (scan-append outside s t)
  | inr f ↦ elim (Bool-cases (c == b'"')) [
    | inl e ↦ rw (scan, f, e) (scan-append value s t)
    | inr g ↦ rw (scan, f, g) (scan-append within s t)
  ]
]
scan-append value (c ∷ s) t = elim (Bool-cases (c == b'"')) [
  | inl e ↦ rw (scan, e) (scan-append within s t)
  | inr f ↦ rw (scan, f) (scan-append value s t)
]

scan_both :
    (s t u v : Str)
    → scan outside s ≡ (outside, u)
    → scan outside t ≡ (outside, v)
    → scan outside (s ++ t) ≡ (outside, u ++ v)
scan_both s t u v h k =
    scan-append outside s t ∙ ap (λ (x : Place × Str). onto x.1 (scan x.0 t)) h ∙ ap (onto u) k

escape_html-append : (s t : Str) → escape_html (s ++ t) ≡ escape_html s ++ escape_html t
unfolding escape_html
escape_html-append s t =
    rw
      (
        replace_all-append b'&' (codes "&amp;") s t,
        replace_all-append b'<' (codes "&lt;") (replace_all b'&' (codes "&amp;") s)
            (replace_all b'&' (codes "&amp;") t),
      )
      (replace_all-append b'>' (codes "&gt;")
        (replace_all b'<' (codes "&lt;") (replace_all b'&' (codes "&amp;") s))
        (replace_all b'<' (codes "&lt;") (replace_all b'&' (codes "&amp;") t)))

scan_name : (name t : Str) → IsName name → scan within (name ++ t) ≡ scan within t
scan_name [] t h = elim h [ ]
scan_name (c ∷ s) t h = scan_within (c ∷ s) t h

scan_open :
    (name : Str) (attrs : Attributes) (t : Str)
    → IsName name
    → scan outside (b'<' ∷ (name ++ (link_attribute name attrs ++ (b'>' ∷ t)))) ≡ scan outside t
scan_open name attrs t h =
    unfold scan in
    refl
    ∙ scan_name name (link_attribute name attrs ++ (b'>' ∷ t)) h
    ∙ scan-link_attribute name attrs t

scan_bare :
    (name t : Str) → IsName name → scan outside (b'<' ∷ (name ++ (b'>' ∷ t))) ≡ scan outside t
unfolding scan
scan_bare name t h = scan_name name (b'>' ∷ t) h

scan_close :
    (name t : Str)
    → IsName name
    → scan outside (codes "</" ++ (name ++ (b'>' ∷ t))) ≡ scan outside t
unfolding scan
scan_close name t h = scan_name name (b'>' ∷ t) h

escape_both :
    (s t : Str) (p : Place × Str)
    → p ≡ (outside, escape_html s ++ escape_html t)
    → p ≡ (outside, escape_html (s ++ t))
escape_both s t p h = h ∙ ap (λ x. (outside, x)) (sym (escape_html-append s t))

scan_element :
    (name : Str) (attrs : Attributes) (children rest : Nodes)
    → IsName name
    → scan outside (walk children) ≡ (outside, escape_html (texts children))
    → scan outside (walk rest) ≡ (outside, escape_html (texts rest))
    → scan outside (
        b'<'
        ∷ (name
            ++ (link_attribute name attrs
                ++ (b'>' ∷ (walk children ++ (codes "</" ++ (name ++ (b'>' ∷ walk rest))))))))
      ≡ (outside, escape_html (texts children ++ texts rest))
scan_element name attrs children rest h inner behind =
    let close = codes "</" ++ (name ++ (b'>' ∷ walk rest)) in
    scan_open name attrs (walk children ++ close) h
    ∙ escape_both (texts children) (texts rest) (scan outside (walk children ++ close)) (
        scan_both (walk children) close (escape_html (texts children)) (escape_html (texts rest))
          inner (scan_close name (walk rest) h ∙ behind))

-- Outside its tags, what `walk` writes is the text of the document in its order, escaped: nothing is
-- added, and nothing is left out but what is in a script, a style, a `br` or an `hr`, or is the
-- content of a `template`.
pub scan-walk : (f : Nodes) → scan outside (walk f) ≡ (outside, escape_html (texts f))
unfolding walk texts
scan-walk end = unfold scan escape_html replace_all in refl
scan-walk (text s rest) = escape_both s (texts rest) (scan outside (walk (text s rest))) (
    scan_text (escape_html s) (walk rest) outside (escape_html (texts rest)) (escape_html-Lacks s).0
      (scan-walk rest))
scan-walk (other s rest) = scan-walk rest
scan-walk (root inside rest) = scan-walk rest
scan-walk (element name attrs children rest) =
    let inner = scan-walk children in
    let behind = scan-walk rest in
    elim (Bool-cases (is_tag name)) [
      | inr f ↦ rw f behind
      | inl g ↦ elim (Bool-cases (one_of name readable_tags)) [
        | inr f ↦
            rw (g, f)
              (escape_both (texts children) (texts rest) (scan outside (walk children ++ walk rest))
                (scan_both (walk children) (walk rest) (escape_html (texts children))
                  (escape_html (texts rest)) inner behind))
        | inl h ↦ elim (Bool-cases (is_void name)) [
          | inl v ↦ rw (g, h, v) (scan_bare name (walk rest) (readable_tag-IsName name h) ∙ behind)
          | inr v ↦
              rw (g, h, v)
                (scan_element name attrs children rest (readable_tag-IsName name h) inner behind)
        ]
      ]
    ]
