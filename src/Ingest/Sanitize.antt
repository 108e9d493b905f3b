-- ===== src/Ingest/Sanitize.antt =====
-- n8n/src/sanitize.js: what is removed from a document, and the policy for the permalink.
pub mod Safe
use agregado.Base.{
  ℕ, zero, suc, ◌≡◌, refl, Bool, true, false, not, ◌&&◌, ◌||◌, List, [], ◌∷◌, ◌++◌, map, Option,
  none, some, if◌then◌else◌, ◌==◌,
}
use agregado.Text.{Str, codes, str_eq, starts_with, replace_all, join}
use agregado.Text.Split.{last_index_of}
use agregado.Text.Trim.{trim, is_space}
use agregado.Platform.Crypto.{CaseMap, NodeText}
use agregado.Html.{
  Attributes, Nodes, end, text, other, element, Cheerio, one_of, attribute, keep, remove_attribute,
}
use agregado.Ingest.Assets.{is_beacon, attribute_text}
use agregado.Ingest.Extract.{span}

-- The names of `UNSAFE`.
abbrev pub unsafe_names : List Str
unsafe_names =
    codes "script"
    ∷ codes "iframe"
    ∷ codes "object"
    ∷ codes "embed"
    ∷ codes "form"
    ∷ codes "input"
    ∷ codes "button"
    ∷ codes "textarea"
    ∷ codes "select"
    ∷ codes "base"
    ∷ []

unfoldable pub escape_html : Str → Str
escape_html s =
    replace_all b'>' (codes "&gt;")
      (replace_all b'<' (codes "&lt;") (replace_all b'&' (codes "&amp;") s))

abbrev pub url_attributes : List Str
url_attributes = codes "href" ∷ codes "src" ∷ codes "action" ∷ codes "xlink:href" ∷ []

-- `/^(javascript|vbscript):/`
unfoldable pub is_script_url : Str → Bool
is_script_url value =
    starts_with value (codes "javascript:") || starts_with value (codes "vbscript:")

abbrev pub is_image_or_source : Str → Bool
is_image_or_source name = str_eq name (codes "img") || str_eq name (codes "source")

-- The attributes of the element that is put into the head.
abbrev pub policy : Attributes
policy =
    (codes "http-equiv", codes "Content-Security-Policy")
    ∷ (
      codes "content",
      codes
          "script-src 'none'; frame-src 'none'; object-src 'none'; base-uri 'none'; form-action 'none'",
    )
    ∷ []

module _ (case_map : CaseMap) (node_text : NodeText) where
  -- `[rel=value]`, which HTML compares without regard to case.
  unfoldable pub is_rel : Str → Attributes → Bool
  is_rel value attrs = elim (attribute (codes "rel") attrs) [
    | none ↦ false
    | some rel ↦ str_eq (case_map.to_lower rel) value
  ]

  -- The selector `UNSAFE`.
  unfoldable pub is_unsafe : Str → Attributes → Bool
  is_unsafe name attrs =
      one_of name unsafe_names
      || ((str_eq name (codes "meta")
            && (elim (attribute (codes "http-equiv") attrs) [ none ↦ false | some value ↦ true ]))
          || (str_eq name (codes "link")
              && (is_rel (codes "import") attrs || is_rel (codes "stylesheet") attrs)))

  -- What the loop over the attributes leaves.
  unfoldable pub is_kept : Str × Str → Bool
  is_kept (name, value) =
      not (starts_with name (codes "on"))
      && not (one_of name url_attributes && is_script_url (case_map.to_lower (trim value)))

  unfoldable pub without_srcset : Str → Attributes → Attributes
  without_srcset name attrs =
      if is_image_or_source name then remove_attribute (codes "srcset") attrs else attrs

  unfoldable pub is_beacon_image : Str → Attributes → Bool
  is_beacon_image name attrs = str_eq name (codes "img") && is_beacon node_text attrs

  unfoldable pub strip_unsafe : Cheerio → Nodes → Nodes
  strip_unsafe cheerio nodes =
      let nodes = cheerio.remove is_unsafe nodes in
      let nodes = cheerio.each (λ name attrs. keep is_kept attrs) nodes in
      let nodes = cheerio.each without_srcset nodes in cheerio.remove is_beacon_image nodes

  unfoldable pub sanitize_nodes : Cheerio → Nodes → Nodes
  sanitize_nodes cheerio nodes =
      cheerio.prepend (codes "head") (codes "meta") policy (strip_unsafe cheerio nodes)

  unfoldable pub sanitize_for_permalink : Cheerio → Str → Str
  sanitize_for_permalink cheerio html = cheerio.html (sanitize_nodes cheerio (cheerio.load html))
