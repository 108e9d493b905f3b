-- ===== src/Ingest/Readable/Texts.antt =====
-- Texts and values as n8n/src/sanitize.js escapes them, and the reader of the readable content on them.
use agregado.Base.{
  ℕ, ◌≡◌, refl, inl, inr, arith, List, [], ◌∷◌, some, ◌==◌, Bool-cases, All-append, Lacks,
}
use agregado.Text.{Str, codes, replace_all}
use agregado.Ingest.Sanitize.{escape_html}
use agregado.Ingest.Readable.{escape_href}
use agregado.Ingest.Readable.Reader.{content, quoted, at, read_char, read}

-- A unit that is replaced by a text without it is gone, and no other comes in but by the text.
replace_all-Lacks : (c : ℕ) (t s : Str) → Lacks c t → Lacks c (replace_all c t s)
unfolding replace_all
replace_all-Lacks c t [] h = tt
replace_all-Lacks c t (d ∷ s) h = elim (Bool-cases (d == c)) [
  | inl e ↦ rw e (All-append (λ x. x ≡ c → ⊥) t (replace_all c t s) h (replace_all-Lacks c t s h))
  | inr f ↦ rw f ((λ e. ground (arith, f, e)), replace_all-Lacks c t s h)
]

replace_all-keeps-Lacks :
    (b c : ℕ) (t s : Str) → Lacks b t → Lacks b s → Lacks b (replace_all c t s)
unfolding replace_all
replace_all-keeps-Lacks b c t [] h k = tt
replace_all-keeps-Lacks b c t (d ∷ s) h (ne, k) = elim (Bool-cases (d == c)) [
  | inl e ↦
      rw e
        (All-append (λ x. x ≡ b → ⊥) t (replace_all c t s) h (replace_all-keeps-Lacks b c t s h k))
  | inr f ↦ rw f (ne, replace_all-keeps-Lacks b c t s h k)
]

pub escape_html-Lacks : (s : Str) → Lacks b'<' (escape_html s) × Lacks b'>' (escape_html s)
unfolding escape_html
escape_html-Lacks s =
    let inner = replace_all b'<' (codes "&lt;") (replace_all b'&' (codes "&amp;") s) in
    (
      replace_all-keeps-Lacks b'<' b'>' (codes "&gt;") inner (search arith) (
          replace_all-Lacks b'<' (codes "&lt;") (replace_all b'&' (codes "&amp;") s)
            (search arith)),
      replace_all-Lacks b'>' (codes "&gt;") inner (search arith),
    )

pub escape_href-Lacks : (s : Str) → Lacks b'"' (escape_href s)
unfolding escape_href
escape_href-Lacks s =
    replace_all-Lacks b'"' (codes "&quot;") (replace_all b'&' (codes "&amp;") s) (search arith)

-- Text is read in the content, and a value up to the quotation mark.
pub read_content :
    (inside : List Str) (s : Str)
    → Lacks b'<' s
    → Lacks b'>' s
    → read (at content inside) s ≡ some (at content inside)
unfolding read read_char
read_content inside [] h k = refl
read_content inside (c ∷ s) (nc, h) (mc, k) = let rest = read_content inside s h k in ground arith

pub read_quoted :
    (inside : List Str) (s : Str)
    → Lacks b'"' s
    → read (at quoted inside) s ≡ some (at quoted inside)
unfolding read read_char
read_quoted inside [] h = refl
read_quoted inside (c ∷ s) (nc, h) = let rest = read_quoted inside s h in ground arith
