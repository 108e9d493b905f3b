-- ===== src/Enrichment/Request.antt =====
-- `buildEnrichRequest` of n8n/src/enrich.js.
use agregado.Base.{
  ℕ, zero, suc, ◌≤◌, ◌≡◌, ◌≢◌, refl, ◌↔◌, [], ◌∷◌, Option, none, some, length, take, arith,
}
use agregado.Base.Outcome.{Outcome, ok, throws, error}
use agregado.Text.{Str, codes}
use agregado.Text.Trim.{trim, trim-Begins, Begins, is_space}
use agregado.Enrichment.Miniflux.{Entry, or_undefined}

abbrev pub max_feed_content_chars : ℕ
max_feed_content_chars = 200000

pub record Body : Type 0 where
  pub entry_id : ℕ
  pub canonical_url : Str
  pub title : Str
  pub author : Option Str
  pub published_at : Option Str
  pub bridge_content : Option Str
  pub feed_content : Option Str

-- `entry.title || "(no title)"`
abbrev pub title_of : Str → Str
title_of [] = codes "(no title)"
title_of (c ∷ s) = c ∷ s

-- A text that is there and not empty.
abbrev pub given : Option Str → Option Str
given none = none
given (some s) = or_undefined s

unfoldable pub feed_content_of : Option Str → Option Str
feed_content_of content = elim (given content) [
  | none ↦ none
  | some s ↦ elim (or_undefined (trim s)) [
    | none ↦ none
    | some text ↦ some (take max_feed_content_chars text)
  ]
]

unfoldable pub build_enrich_request : Option Entry → Option Str → Outcome Body
build_enrich_request none bridge_content = throws (error (codes "entry is missing its Miniflux id"))
build_enrich_request (some entry) bridge_content = elim entry.id [
  | zero ↦ throws (error (codes "entry is missing its Miniflux id"))
  | suc n ↦ elim (or_undefined entry.url) [
    | none ↦ throws (error (codes "entry is missing its url"))
    | some url ↦ ok (record {
      entry_id = suc n;
      canonical_url = url;
      title = title_of entry.title;
      author = given entry.author;
      published_at = given entry.published_at;
      bridge_content = given bridge_content;
      feed_content = feed_content_of entry.feed_content;
    })
  ]
]

length-take_le : (n : ℕ) (s : Str) → length (take n s) ≤ n
length-take_le zero s = omega arith
length-take_le (suc n) [] = omega arith
length-take_le (suc n) (c ∷ s) = omega (arith, length-take_le n s)

-- A text that the API may get as the content of a feed.
abbrev pub IsFeedContent : Option Str → Type 0
IsFeedContent none = Unit
IsFeedContent (some text) =
    (text ≢ []) × (length text ≤ max_feed_content_chars) × Begins is_space text

feed_content_of-IsFeedContent : (content : Option Str) → IsFeedContent (feed_content_of content)
unfolding feed_content_of
feed_content_of-IsFeedContent none = tt
feed_content_of-IsFeedContent (some []) = tt
feed_content_of-IsFeedContent (some (c ∷ s)) = cut (trim (c ∷ s)) (trim-Begins (c ∷ s))
  where
    cut :
        (text : Str)
        → Begins is_space text
        → IsFeedContent (elim (or_undefined text) [
          | none ↦ none
          | some text ↦ some (take max_feed_content_chars text)
        ])
    cut [] h = tt
    cut (d ∷ text) h = ((λ e. ground arith), length-take_le max_feed_content_chars (d ∷ text), h)

-- What a request keeps of its entry.
abbrev pub IsRequestFor : Entry → Body → Type 0
IsRequestFor entry body =
    (body.entry_id ≡ entry.id)
    × (body.canonical_url ≡ entry.url)
    × (body.title ≢ [])
    × IsFeedContent body.feed_content

title_of-some : (s : Str) → title_of s ≢ []
title_of-some [] e = absurd (ground arith)
title_of-some (c ∷ s) e = absurd (ground arith)

request_for :
    (id : ℕ) (url title : Str) (author published_at feed_content bridge_content : Option Str)
    → let entry : Entry = record {
      id = id;
      url = url;
      title = title;
      author = author;
      published_at = published_at;
      feed_content = feed_content;
    } in
      ((body : Body) × (build_enrich_request (some entry) bridge_content ≡ ok body)
        × IsRequestFor entry body)
      ↔ ((id ≢ 0) × (url ≢ []))
unfolding build_enrich_request
request_for zero url title author published_at feed_content bridge_content =
    ((λ (body, made, rest). absurd (ground arith)), λ (ne, given). absurd (ne refl))
request_for (suc n) [] title author published_at feed_content bridge_content =
    ((λ (body, made, rest). absurd (ground arith)), λ (ne, given). absurd (given refl))
request_for (suc n) (c ∷ url) title author published_at feed_content bridge_content = (
  λ (body, made, rest). ((λ e. absurd (omega arith)), λ e. absurd (ground arith)),
  λ (ne, given).
      (_, refl, (refl, refl, title_of-some title, feed_content_of-IsFeedContent feed_content)),
)

-- There is a request exactly for an entry with an id other than 0 and a url that is not empty. It
-- has that id and url and a title that is not empty, and its feed content, where there is one, is
-- not empty, begins with no white space and has at most 200000 characters.
pub build_enrich_request_iff :
    (entry : Entry) (bridge_content : Option Str)
    → ((body : Body) × (build_enrich_request (some entry) bridge_content ≡ ok body)
        × IsRequestFor entry body)
      ↔ ((entry.id ≢ 0) × (entry.url ≢ []))
build_enrich_request_iff entry bridge_content =
    request_for entry.id entry.url entry.title entry.author entry.published_at entry.feed_content
      bridge_content
