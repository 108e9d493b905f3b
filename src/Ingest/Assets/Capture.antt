-- ===== src/Ingest/Assets/Capture.antt =====
-- What n8n/src/assets.js leaves in a document: the images whose capture failed, and no other.
use agregado.Base.{
  ℕ, ◌≡◌, refl, sym, ap, ◌∙◌, Bool, true, false, List, [], ◌∷◌, ◌++◌, Option, none, some,
  if◌then◌else◌, All, All-split, Bool-cases, Option-cases, inl, inr, arith, ltb, length,
}
use agregado.Base.Options.{eq_of_some}
use agregado.Text.Split.{split}
use agregado.Text.{Str, codes, str_eq}
use agregado.Text.Laws.{str_eq_refl}
use agregado.Text.Trim.{is_space, trim, strip, strip_start, strip_end}
use agregado.Platform.Crypto.{NodeText}
use agregado.Platform.Base64.{btoa}
use agregado.Preferences.{has, unique, unique_from}
use agregado.Preferences.Changes.{has-unique}
use agregado.Html.{
  Attributes, Nodes, end, text, other, root, element, Cheerio, attribute, set_attribute,
  map_attributes,
}
use agregado.Ingest.Extract.{after_literal, after_scheme}
use agregado.Ingest.Assets.{
  Asset, data_uri, look_up_uri, fetch_all, inline_src, inline_nodes, inline_assets, is_remote,
  planned, candidates, plan_nodes, plan_assets, max_asset_bytes, head_of,
}
use agregado.Ingest.Assets.Fetches.{
  sift, sift-append, unique_from-sift, fails, fetch_all-failed, look_up_uri-fetch_all,
}

-- An attribute that is there has the value that it is given.
attribute-set_attribute :
    (name value old : Str) (attrs : Attributes)
    → attribute name attrs ≡ some old
    → attribute name (set_attribute name value attrs) ≡ some value
unfolding attribute set_attribute
attribute-set_attribute name value old [] h = absurd (ground arith)
attribute-set_attribute name value old ((key, v) ∷ attrs) h =
    ground (arith, attribute-set_attribute name value old attrs)

-- What is put into the document is not fetched again.
trim-head : (c : ℕ) (s : Str) → is_space c ≡ false → trim (c ∷ s) ≡ c ∷ strip_end is_space s
unfolding trim strip strip_start strip_end
trim-head c s h = rw (h, strip_end) (go (strip_end is_space s))
  where
    go : (r : Str) → (elim r [ [] ↦ if is_space c then [] else c ∷ [] | d ∷ u ↦ c ∷ d ∷ u ]) ≡ c ∷ r
    go [] = rw h refl
    go (d ∷ u) = refl

data_uri-head :
    (asset : Option Asset) (uri : Str) → data_uri asset ≡ some uri → (s : Str) × (uri ≡ b'd' ∷ s)
unfolding data_uri
data_uri-head none uri h = absurd (ground arith)
data_uri-head (some asset) uri h =
    go (after_literal (codes "image/") asset.content_type)
      (ltb max_asset_bytes (length asset.bytes))
      (codes "ata:"
        ++ (head_of (split asset.content_type b';') ++ (codes ";base64," ++ btoa asset.bytes)))
      h
  where
    go :
        (o : Option Str) (b : Bool) (s : Str)
        → (elim o [ none ↦ none | some subtype ↦ if b then none else some (b'd' ∷ s) ]) ≡ some uri
        → (t : Str) × (uri ≡ b'd' ∷ t)
    go none b s k = cc
    go (some subtype) true s k = cc
    go (some subtype) false s k = (s, sym (eq_of_some (b'd' ∷ s) uri k))

data_uri_not_remote :
    (node_text : NodeText) (asset : Option Asset) (uri : Str)
    → data_uri asset ≡ some uri
    → is_remote node_text (trim uri) ≡ false
unfolding is_remote after_scheme after_literal
data_uri_not_remote node_text asset uri h =
    let (s, e) = data_uri-head asset uri h in rw (e, trim-head b'd' s refl) refl

-- An image that is in the document as data is not planned.
planned_of_data :
    (node_text : NodeText) (asset : Option Asset) (name uri : Str) (attrs : Attributes)
    → attribute (codes "src") attrs ≡ some uri
    → data_uri asset ≡ some uri
    → planned node_text name attrs ≡ []
unfolding planned
planned_of_data node_text asset name uri attrs e h =
    let remote = data_uri_not_remote node_text asset uri h in ground arith

-- One element: what is still planned of it is what failed of what was planned.
planned-inline_src :
    (node_text : NodeText) (fetch : Str → Option Asset) (urls : List Str) (name : Str)
    (attrs : Attributes)
    → All (λ url. has urls url ≡ true) (planned node_text name attrs)
    → planned node_text name (inline_src (fetch_all fetch urls).0 name attrs)
      ≡ sift (fails fetch) (planned node_text name attrs)
unfolding planned inline_src sift
planned-inline_src node_text fetch urls name attrs h =
    elim (Option-cases (attribute (codes "src") attrs)) [
      | inl e ↦ ground arith
      | inr (src, e) ↦
          let found = look_up_uri-fetch_all fetch urls (trim src) in
          elim (Bool-cases (str_eq name (codes "img"))) [
            | inr f ↦ ground arith
            | inl t ↦ elim (Option-cases (look_up_uri (trim src) (fetch_all fetch urls).0)) [
              | inl l ↦ ground arith
              | inr (uri, l) ↦
                  let fetched : data_uri (fetch (trim src)) ≡ some uri = ground arith in
                  let set = attribute-set_attribute (codes "src") uri src attrs e in
                  let gone =
                    planned_of_data node_text (fetch (trim src)) name uri
                      (set_attribute (codes "src") uri attrs) set fetched in
                  ground arith
            ]
          ]
    ]

candidates-map_attributes :
    (node_text : NodeText) (fetch : Str → Option Asset) (urls : List Str) (f : Nodes)
    → All (λ url. has urls url ≡ true) (candidates node_text f)
    → candidates node_text (map_attributes (inline_src (fetch_all fetch urls).0) f)
      ≡ sift (fails fetch) (candidates node_text f)
unfolding candidates map_attributes
candidates-map_attributes node_text fetch urls end h = unfold sift in refl
candidates-map_attributes node_text fetch urls (text s rest) h =
    candidates-map_attributes node_text fetch urls rest h
candidates-map_attributes node_text fetch urls (other s rest) h =
    candidates-map_attributes node_text fetch urls rest h
candidates-map_attributes node_text fetch urls (root inside rest) h =
    let (hi, hr) =
      All-split (λ url. has urls url ≡ true) (candidates node_text inside)
        (candidates node_text rest) h in
    rw
      (
        candidates-map_attributes node_text fetch urls inside hi,
        candidates-map_attributes node_text fetch urls rest hr,
      )
      (sym (sift-append (fails fetch) (candidates node_text inside) (candidates node_text rest)))
candidates-map_attributes node_text fetch urls (element n attrs children rest) h =
    let (hn, hs) =
      All-split (λ url. has urls url ≡ true) (planned node_text n attrs)
        (candidates node_text children ++ candidates node_text rest) h in
    let (hc, hr) =
      All-split (λ url. has urls url ≡ true) (candidates node_text children)
        (candidates node_text rest) hs in
    rw
      (
        planned-inline_src node_text fetch urls n attrs hn,
        candidates-map_attributes node_text fetch urls children hc,
        candidates-map_attributes node_text fetch urls rest hr,
      )
      (sym (
        sift-append (fails fetch) (planned node_text n attrs)
          (candidates node_text children ++ candidates node_text rest)
        ∙ ap (λ r. sift (fails fetch) (planned node_text n attrs) ++ r)
            (sift-append (fails fetch) (candidates node_text children)
              (candidates node_text rest))))

has_of_subset :
    (all urls : List Str)
    → ((u : Str) → has urls u ≡ true → has all u ≡ true)
    → All (λ u. has all u ≡ true) urls
unfolding has
has_of_subset all [] k = tt
has_of_subset all (u ∷ urls) k =
    (k u (rw (str_eq_refl u, has) refl), has_of_subset all urls (λ v h. k v (ground arith)))

-- The page that `inlineAssets` prints is printed from a document whose own plan is the list of the
-- URLs that are reported as failed, and those are the URLs of the first plan whose fetch gave no image
-- to inline, in its order.
pub inline_assets-plan :
    (node_text : NodeText) (fetch : Str → Option Asset) (cheerio : Cheerio) (html : Str)
    → (f : Nodes) × (inline_assets node_text fetch cheerio html
        ≡ (cheerio.html f, plan_nodes node_text f))
      × (plan_nodes node_text f ≡ sift (fails fetch) (plan_assets node_text cheerio html))
unfolding inline_assets inline_nodes plan_assets plan_nodes unique unique_from sift
inline_assets-plan node_text fetch cheerio html =
    let nodes = cheerio.load html in
    let found = candidates node_text nodes in
    let uris = (fetch_all fetch (unique found)).0 in
    let f = cheerio.each (inline_src uris) nodes in
    let kept : unique (candidates node_text f) ≡ sift (fails fetch) (unique found) =
      ap (λ x. unique (candidates node_text x)) (cheerio.each_lem (inline_src uris) nodes)
      ∙ ap unique (
          candidates-map_attributes node_text fetch (unique found) nodes
            (has_of_subset (unique found) found (λ u h. has-unique found u ∙ h)))
      ∙ unique_from-sift (fails fetch) [] found in
    (f, ap (λ r. (cheerio.html f, r)) (fetch_all-failed fetch (unique found) ∙ sym kept), kept)
