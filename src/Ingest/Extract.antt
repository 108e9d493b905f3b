-- ===== src/Ingest/Extract.antt =====
-- n8n/src/extract.js: the recovery of an entry's canonical URL. `toLowerCase` is a parameter, and so
-- is cheerio's view of the links of a document: the text and the `href` of each `a[href]`, in order.
pub mod Laws
use agregado.Base.{
  ℕ, suc, ◌+◌, ◌≡◌, ◌≢◌, refl, Bool, true, false, not, ◌&&◌, ◌||◌, List, [], ◌∷◌, ◌++◌, map, Option,
  none, some, if◌then◌else◌, leb, ◌==◌, drop,
}
use agregado.Base.Options.{◌>>=◌}
use agregado.Text.{Str, codes, str_eq}
use agregado.Text.Split.{split, includes, last_index_of}
use agregado.Text.Trim.{trim, unwrap, is_space}
use agregado.Platform.Crypto.{CaseMap}
use agregado.Platform.Headers.{lower}

abbrev pub view_in_browser_phrases : List Str
view_in_browser_phrases =
    codes "view in browser"
    ∷ codes "view this email"
    ∷ codes "view in your browser"
    ∷ codes "view email in browser"
    ∷ codes "view online"
    ∷ codes "view it online"
    ∷ codes "see it in your browser"
    ∷ codes "read online"
    ∷ codes "read in browser"
    ∷ codes "web version"
    ∷ []

abbrev pub share_markers : List Str
share_markers =
    codes "twitter.com/intent"
    ∷ codes "x.com/intent"
    ∷ codes "facebook.com/sharer"
    ∷ codes "linkedin.com/share"
    ∷ codes "t.me/share"
    ∷ codes "/share?"
    ∷ codes "/sharer"
    ∷ []

pub record HttpUrl : Type 0 where
  pub hostname : Str
  pub pathname : Str

abbrev is_none : Str → Bool
is_none [] = true
is_none (_ ∷ _) = false

unfoldable pub any_space : Str → Bool
any_space [] = false
any_space (c ∷ s) = is_space c || any_space s

-- What follows a literal of lower-case letters and signs, without regard to case.
unfoldable pub after_literal : Str → Str → Option Str
after_literal [] s = some s
after_literal (_ ∷ _) [] = none
after_literal (c ∷ p) (d ∷ s) = if c == lower d then after_literal p s else none

-- `^https?:\/\/`
unfoldable pub after_scheme : Str → Option Str
after_scheme raw = elim (after_literal (codes "https://") raw) [
  | some rest ↦ some rest
  | none ↦ after_literal (codes "http://") raw
]

-- The longest run of characters that a test accepts, and what follows it.
unfoldable pub span : (ℕ → Bool) → Str → Str × Str
span test [] = ([], [])
span test (c ∷ s) = let (run, rest) = span test s in if test c then (c ∷ run, rest) else ([], c ∷ s)

abbrev pub is_authority : ℕ → Bool
is_authority c = not (c == b'/' || (c == b'?' || c == b'#'))

abbrev pub is_path : ℕ → Bool
is_path c = not (c == b'?' || c == b'#')

-- `.replace(/^.*@/, "")`
unfoldable pub without_user : Str → Str
without_user authority = elim (last_index_of authority b'@') [
  | none ↦ authority
  | some i ↦ drop (suc i) authority
]

unfoldable pub all_digits : Str → Bool
all_digits [] = true
all_digits (c ∷ s) = (leb b'0' c && leb c b'9') && all_digits s

-- `.replace(/:\d*$/, "")`
unfoldable pub without_port : Str → Str
without_port [] = []
without_port (c ∷ s) =
    let rest = without_port s in if c == b':' && all_digits s then [] else c ∷ rest

abbrev pub dot_to_slash : ℕ → ℕ
dot_to_slash c = if c == b'.' then b'/' else c

-- `.split(/[/.]/)`
unfoldable pub segments : Str → List Str
segments s = split (map dot_to_slash s) b'/'

unfoldable pub some_includes : Str → List Str → Bool
some_includes s [] = false
some_includes s (p ∷ ps) = includes s p || some_includes s ps

module _ (case_map : CaseMap) where
  unfoldable pub is_blocked : List Str → Bool
  is_blocked [] = false
  is_blocked (s ∷ ss) =
      (let lowered = case_map.to_lower s in
        str_eq lowered (codes "unsubscribe") || str_eq lowered (codes "pixel"))
      || is_blocked ss

  unfoldable pub has_blocked_segment : HttpUrl → Bool
  has_blocked_segment url = is_blocked (segments url.hostname ++ segments url.pathname)

  unfoldable pub host_of : Str → Str
  host_of authority = case_map.to_lower (without_port (without_user authority))

  -- The match behind the scheme.
  unfoldable pub parse_authority : Str → Option HttpUrl
  parse_authority behind =
      let (authority, rest) = span is_authority behind in
      let (pathname, query) = span is_path rest in
      if is_none authority || is_none (host_of authority)
      then none
      else some (record { hostname = host_of authority; pathname = pathname })

  unfoldable pub parse_http_url : Str → Option HttpUrl
  parse_http_url raw_url =
      let raw = trim raw_url in
      if any_space raw then none else (after_scheme raw >>= parse_authority)

  unfoldable pub is_canonical_candidate : Str → Bool
  is_canonical_candidate raw_url = elim (parse_http_url raw_url) [
    | none ↦ false
    | some url ↦
        if has_blocked_segment url
        then false
        else not (some_includes (case_map.to_lower raw_url) share_markers)
  ]

  unfoldable pub is_view_in_browser_text : Str → Bool
  is_view_in_browser_text text =
      if is_none text || includes text (codes "unsubscribe")
      then false
      else some_includes text view_in_browser_phrases

  -- A link is its text and its `href`.
  unfoldable pub is_view_link : Str × Str → Bool
  is_view_link (text, href) =
      is_view_in_browser_text (case_map.to_lower (trim text)) && is_canonical_candidate (trim href)

  -- The loop over the links, which the first that fits ends.
  unfoldable pub first_view_link : List (Str × Str) → Option Str
  first_view_link [] = none
  first_view_link (link ∷ links) =
      let rest = first_view_link links in if is_view_link link then some (trim link.1) else rest

  module _ (links_of : Str → List (Str × Str)) where
    unfoldable pub scrape_view_in_browser : Str → Option Str
    scrape_view_in_browser html =
        if is_none (trim html) then none else first_view_link (links_of html)

    -- The value of the header `archived-at` and the document; what is missing is an empty text.
    unfoldable pub resolve_canonical_url : Str → Str → Option Str
    resolve_canonical_url archived_at html =
        let raw = trim archived_at in
        let candidate = trim (unwrap b'<' b'>' raw) in
        if not (is_none raw) && is_canonical_candidate candidate
        then some candidate
        else scrape_view_in_browser html
