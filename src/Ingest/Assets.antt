-- ===== src/Ingest/Assets.antt =====
-- n8n/src/assets.js: the capture of a document's images. The fetch of an asset is a parameter.
pub mod Fetches
pub mod Capture
pub mod Beacons
use agregado.Base.{
  ℕ, ◌*◌, ◌≡◌, refl, Bool, true, false, not, ◌&&◌, ◌||◌, List, [], ◌∷◌, ◌++◌, Option, none, some,
  if◌then◌else◌, leb, ltb, ◌==◌, length,
}
use agregado.Base.Int.{pos, leb_ℤ}
use agregado.Text.{Str, codes, str_eq}
use agregado.Text.Split.{split}
use agregado.Text.Trim.{trim}
use agregado.Platform.Base64.{btoa}
use agregado.Platform.Crypto.{NodeText, Number, not_a_number, plus_infinity, minus_infinity, finite}
use agregado.Preferences.{unique}
use agregado.Html.{
  Attributes, Nodes, end, text, other, root, element, Cheerio, attribute, set_attribute,
}
use agregado.Ingest.Extract.{after_literal, after_scheme}

abbrev pub max_asset_bytes : ℕ
max_asset_bytes = 2 * 1024 * 1024

-- `(el.attr(name) || "")`
unfoldable pub attribute_text : Str → Attributes → Str
attribute_text name attrs = elim (attribute name attrs) [ none ↦ [] | some value ↦ value ]

abbrev pub head_of : List Str → Str
head_of [] = []
head_of (s ∷ ss) = s

-- `Number(s) <= 1`
abbrev pub is_at_most_one : Number → Bool
is_at_most_one not_a_number = false
is_at_most_one plus_infinity = false
is_at_most_one minus_infinity = true
is_at_most_one (finite x) = leb_ℤ x.ceil (pos 1)

-- `([/.]|$)`
abbrev pub ends_segment : Str → Bool
ends_segment [] = true
ends_segment (c ∷ s) = c == b'/' || c == b'.'

-- `pixel([/.]|$)` at the start
unfoldable pub begins_pixel : Str → Bool
begins_pixel s = elim (after_literal (codes "pixel") s) [
  | none ↦ false
  | some rest ↦ ends_segment rest
]

-- `/(^|[/.])pixel([/.]|$)/i`, where the text before tells whether a segment begins here.
unfoldable pub has_pixel : Bool → Str → Bool
has_pixel begins [] = false
has_pixel begins (c ∷ s) =
    let rest = has_pixel (c == b'/' || c == b'.') s in begins && begins_pixel (c ∷ s) || rest

module _ (node_text : NodeText) where
  unfoldable pub is_small : Option Str → Bool
  is_small none = false
  is_small (some value) = is_at_most_one (node_text.number value)

  unfoldable pub is_beacon : Attributes → Bool
  is_beacon attrs =
      (is_small (attribute (codes "width") attrs) && is_small (attribute (codes "height") attrs))
      || has_pixel true (head_of (split (attribute_text (codes "src") attrs) b'?'))

  -- `/^https?:\/\//i`
  unfoldable pub is_remote : Str → Bool
  is_remote src = elim (after_scheme src) [ none ↦ false | some rest ↦ true ]

  -- What the loop adds for one image, in the order of the document.
  unfoldable pub planned : Str → Attributes → List Str
  planned name attrs = elim (attribute (codes "src") attrs) [
    | none ↦ []
    | some src ↦
        if str_eq name (codes "img") && (is_remote (trim src) && not (is_beacon attrs))
        then trim src ∷ []
        else []
  ]

  unfoldable pub candidates : Nodes → List Str
  candidates end = []
  candidates (text s rest) = candidates rest
  candidates (other s rest) = candidates rest
  candidates (root inside rest) = candidates inside ++ candidates rest
  candidates (element n attrs children rest) =
      planned n attrs ++ (candidates children ++ candidates rest)

  unfoldable pub plan_nodes : Nodes → List Str
  plan_nodes nodes = unique (candidates nodes)

  unfoldable pub plan_assets : Cheerio → Str → List Str
  plan_assets cheerio html = plan_nodes (cheerio.load html)

-- A response: the content type, with an empty text for none, and the bytes.
pub record Asset : Type 0 where
  pub content_type : Str
  pub bytes : List ℕ

-- The data URI of a response, none where the code throws.
unfoldable pub data_uri : Option Asset → Option Str
data_uri none = none
data_uri (some asset) = elim (after_literal (codes "image/") asset.content_type) [
  | none ↦ none
  | some subtype ↦
      if ltb max_asset_bytes (length asset.bytes)
      then none
      else some (
          codes "data:"
          ++ (head_of (split asset.content_type b';') ++ (codes ";base64," ++ btoa asset.bytes)))
]

-- `dataUris.get(url)`
unfoldable pub look_up_uri : Str → List (Str × Str) → Option Str
look_up_uri url [] = none
look_up_uri url ((key, uri) ∷ uris) = if str_eq key url then some uri else look_up_uri url uris

-- The loop over the plan: the data URIs, and the URLs that failed. `fetch` is none where it throws.
unfoldable pub fetch_all : (Str → Option Asset) → List Str → List (Str × Str) × List Str
fetch_all fetch [] = ([], [])
fetch_all fetch (url ∷ urls) =
    let (uris, failed) = fetch_all fetch urls in
    elim (data_uri (fetch url)) [
      | none ↦ (uris, url ∷ failed)
      | some uri ↦ ((url, uri) ∷ uris, failed)
    ]

-- One element of the last loop.
unfoldable pub inline_src : List (Str × Str) → Str → Attributes → Attributes
inline_src uris name attrs = elim (attribute (codes "src") attrs) [
  | none ↦ attrs
  | some src ↦ elim (look_up_uri (trim src) uris) [
    | none ↦ attrs
    | some uri ↦ if str_eq name (codes "img") then set_attribute (codes "src") uri attrs else attrs
  ]
]

unfoldable pub inline_nodes : NodeText → (Str → Option Asset) → Cheerio → Nodes → Nodes × List Str
inline_nodes node_text fetch cheerio nodes =
    let (uris, failed) = fetch_all fetch (plan_nodes node_text nodes) in
    (cheerio.each (inline_src uris) nodes, failed)

unfoldable pub inline_assets : NodeText → (Str → Option Asset) → Cheerio → Str → Str × List Str
inline_assets node_text fetch cheerio html =
    let (nodes, failed) = inline_nodes node_text fetch cheerio (cheerio.load html) in
    (cheerio.html nodes, failed)
