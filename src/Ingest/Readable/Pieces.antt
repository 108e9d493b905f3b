-- ===== src/Ingest/Readable/Pieces.antt =====
-- What the reader of the readable content does on the pieces that `toReadableContent` of
-- n8n/src/sanitize.js writes.
use agregado.Base.{
  ℕ, ◌≡◌, refl, ap, sym, ◌∙◌, inl, inr, arith, Bool, true, false, not, ◌||◌, List, [], ◌∷◌, ◌++◌,
  append_assoc, append-nil, some, if◌then◌else◌, Bool-cases, All,
}
use mathlib.Core.Path.{subst}
use agregado.Text.{Str, codes, str_eq}
use agregado.Text.Laws.{str_eq_refl, eq_of_str_eq}
use agregado.Text.Trim.{is_space, trim}
use agregado.Html.{Attributes, one_of}
use agregado.Ingest.Assets.{attribute_text}
use agregado.Ingest.Readable.{readable_tags, is_void, escape_href, link_attribute}
use agregado.Ingest.Readable.Reader.{
  content, opened, tag, end_tag, quoted, at, start_element, end_element, is_mark, read_char, read,
  read-append, read_step,
}
use agregado.Ingest.Readable.Texts.{escape_href-Lacks, read_quoted}

-- The characters of a name.
abbrev pub is_plain : ℕ → Bool
is_plain c = not (is_space c || is_mark c)

plain_tag :
    (inside : List Str) (n : Str) (c : ℕ)
    → is_plain c ≡ true
    → read_char (tag n) inside c ≡ some (at (tag (n ++ c ∷ [])) inside)
unfolding read_char
plain_tag inside n c h = ground arith

plain_end_tag :
    (inside : List Str) (n : Str) (c : ℕ)
    → is_plain c ≡ true
    → read_char (end_tag n) inside c ≡ some (at (end_tag (n ++ c ∷ [])) inside)
unfolding read_char
plain_end_tag inside n c h = ground arith

plain_opened :
    (inside : List Str) (c : ℕ)
    → is_plain c ≡ true
    → read_char opened inside c ≡ some (at (tag (c ∷ [])) inside)
unfolding read_char
plain_opened inside c h = ground arith

read_tag :
    (inside : List Str) (n s t : Str)
    → All (λ c. is_plain c ≡ true) s
    → read (at (tag n) inside) (s ++ t) ≡ read (at (tag (n ++ s)) inside) t
unfolding read
read_tag inside n [] t h = ap (λ x. read (at (tag x) inside) t) (sym (append-nil n))
read_tag inside n (c ∷ s) t (hc, h) =
    read_step (at (tag n) inside) (at (tag (n ++ c ∷ [])) inside) c (s ++ t)
      (plain_tag inside n c hc)
    ∙ read_tag inside (n ++ c ∷ []) s t h
    ∙ ap (λ x. read (at (tag x) inside) t) (append_assoc n (c ∷ []) s)

read_end_tag :
    (inside : List Str) (n s t : Str)
    → All (λ c. is_plain c ≡ true) s
    → read (at (end_tag n) inside) (s ++ t) ≡ read (at (end_tag (n ++ s)) inside) t
unfolding read
read_end_tag inside n [] t h = ap (λ x. read (at (end_tag x) inside) t) (sym (append-nil n))
read_end_tag inside n (c ∷ s) t (hc, h) =
    read_step (at (end_tag n) inside) (at (end_tag (n ++ c ∷ [])) inside) c (s ++ t)
      (plain_end_tag inside n c hc)
    ∙ read_end_tag inside (n ++ c ∷ []) s t h
    ∙ ap (λ x. read (at (end_tag x) inside) t) (append_assoc n (c ∷ []) s)

-- The names that are written are names.
abbrev pub IsName : Str → Type 0
IsName [] = ⊥
IsName (c ∷ s) = All (λ d. is_plain d ≡ true) (c ∷ s)

one_of-All :
    (P : Str → Type 0) (name : Str) (names : List Str)
    → All P names
    → one_of name names ≡ true
    → P name
unfolding one_of
one_of-All P name [] h k = absurd (ground arith)
one_of-All P name (n ∷ names) (p, h) k = elim (Bool-cases (str_eq name n)) [
  | inl t ↦ subst P (sym (eq_of_str_eq name n t)) p
  | inr f ↦ one_of-All P name names h (rw f at k)
]

pub readable_tag-IsName : (name : Str) → one_of name readable_tags ≡ true → IsName name
readable_tag-IsName name h = one_of-All IsName name readable_tags (search arith) h

pub read_start :
    (inside : List Str) (name t : Str)
    → IsName name
    → read (at content inside) (b'<' ∷ (name ++ t)) ≡ read (at (tag name) inside) t
unfolding read read_char
read_start inside [] t h = elim h [ ]
read_start inside (c ∷ s) t (hc, h) =
    read_step (at opened inside) (at (tag (c ∷ [])) inside) c (s ++ t) (plain_opened inside c hc)
    ∙ read_tag inside (c ∷ []) s t h

pub read_end :
    (inside : List Str) (name t : Str)
    → IsName name
    → read (at content (name ∷ inside)) (codes "</" ++ (name ++ (b'>' ∷ t)))
      ≡ read (at content inside) t
unfolding read read_char end_element
read_end inside [] t h = elim h [ ]
read_end inside (c ∷ s) t h =
    read_end_tag ((c ∷ s) ∷ inside) [] (c ∷ s) (b'>' ∷ t) h
    ∙ read_step (at (end_tag (c ∷ s)) ((c ∷ s) ∷ inside)) (at content inside) b'>' t
        (rw (str_eq_refl (c ∷ s)) refl)

-- The end of a tag that has no attribute.
pub read_close :
    (inside : List Str) (name t : Str)
    → one_of name readable_tags ≡ true
    → read (at (tag name) inside) (b'>' ∷ t)
      ≡ read (at content (if is_void name then inside else name ∷ inside)) t
unfolding read read_char start_element
read_close inside name t h =
    read_step (at (tag name) inside) (at content (if is_void name then inside else name ∷ inside))
      b'>' t (rw h refl)

-- The one attribute.
read_link :
    (inside : List Str) (attrs : Attributes) (t : Str)
    → read (at (tag (codes "a")) inside) (link_attribute (codes "a") attrs ++ (b'>' ∷ t))
      ≡ read (at content (codes "a" ∷ inside)) t
unfolding link_attribute read read_char start_element str_eq one_of
read_link inside attrs t = go (trim (attribute_text (codes "href") attrs))
  where
    go :
        (href : Str)
        → read (at (tag (codes "a")) inside) (
            (elim href [
              | [] ↦ []
              | c ∷ s ↦ codes " href=\"" ++ (escape_href (c ∷ s) ++ codes "\"")
            ])
            ++ (b'>' ∷ t))
          ≡ read (at content (codes "a" ∷ inside)) t
    go [] = refl
    go (c ∷ s) =
        ap (read (at quoted inside)) (append_assoc (escape_href (c ∷ s)) (codes "\"") (b'>' ∷ t))
        ∙ read-append (at quoted inside) (at quoted inside) (escape_href (c ∷ s)) (codes "\">" ++ t)
            (read_quoted inside (escape_href (c ∷ s)) (escape_href-Lacks (c ∷ s)))

-- The attribute, if there is one, and the end of a tag that has an end tag.
pub read_open :
    (inside : List Str) (name : Str) (attrs : Attributes) (t : Str)
    → one_of name readable_tags ≡ true
    → is_void name ≡ false
    → read (at (tag name) inside) (link_attribute name attrs ++ (b'>' ∷ t))
      ≡ read (at content (name ∷ inside)) t
unfolding link_attribute
read_open inside name attrs t h v = elim (Bool-cases (str_eq name (codes "a"))) [
  | inl a ↦
      subst
        (λ n.
          read (at (tag n) inside) (link_attribute n attrs ++ (b'>' ∷ t))
          ≡ read (at content (n ∷ inside)) t)
        (sym (eq_of_str_eq name (codes "a") a)) (read_link inside attrs t)
  | inr f ↦
      ap
        (λ b. read (at (tag name) inside) (
          (if b
            then (elim (trim (attribute_text (codes "href") attrs)) [
              | [] ↦ []
              | c ∷ s ↦ codes " href=\"" ++ (escape_href (c ∷ s) ++ codes "\"")
            ])
            else [])
          ++ (b'>' ∷ t)))
        f
      ∙ read_close inside name t h
      ∙ ap (λ b. read (at content (if b then inside else name ∷ inside)) t) v
]
