-- ===== src/Ingest/Sanitize/Safe/Policy.antt =====
-- The document that `sanitizeForPermalink` of n8n/src/sanitize.js prints.
use agregado.Base.{◌≡◌, refl, sym, ap, ◌∙◌, true, false, ◌⊎◌, inl, inr}
use mathlib.Core.Path.{subst}
use agregado.Text.{Str, codes, str_eq}
use agregado.Platform.Crypto.{CaseMap, NodeText}
use agregado.Html.{
  Attributes, Nodes, Cheerio, one_of, keep, has_head, remove_where, map_attributes, AllElements,
}
use agregado.Html.Laws.{AllElements-map}
use agregado.Html.Head.{
  HeadBegins, has_head-remove_where, has_head-map_attributes, has_head-HeadBegins,
  prepend_element-AllElements,
}
use agregado.Ingest.Sanitize.{
  is_unsafe, is_kept, without_srcset, is_beacon_image, strip_unsafe, policy, sanitize_nodes,
  sanitize_for_permalink,
}
use agregado.Ingest.Sanitize.Safe.{SafeElement}
use agregado.Ingest.Sanitize.Safe.Document.{strip_unsafe_lem, strip_unsafe-AllElements}

module _ (case_map : CaseMap) (node_text : NodeText) where
  unsafe_html : (attrs : Attributes) → is_unsafe case_map node_text (codes "html") attrs ≡ false
  unfolding is_unsafe one_of str_eq
  unsafe_html attrs = refl

  unsafe_head : (attrs : Attributes) → is_unsafe case_map node_text (codes "head") attrs ≡ false
  unfolding is_unsafe one_of str_eq
  unsafe_head attrs = refl

  beacon_html :
      (attrs : Attributes) → is_beacon_image case_map node_text (codes "html") attrs ≡ false
  unfolding is_beacon_image str_eq
  beacon_html attrs = refl

  beacon_head :
      (attrs : Attributes) → is_beacon_image case_map node_text (codes "head") attrs ≡ false
  unfolding is_beacon_image str_eq
  beacon_head attrs = refl

  module _ (cheerio : Cheerio) where
    has_head-strip_unsafe :
        (f : Nodes)
        → has_head f ≡ true
        → has_head (strip_unsafe case_map node_text cheerio f) ≡ true
    has_head-strip_unsafe f h =
        let f1 = remove_where (is_unsafe case_map node_text) f in
        let f2 = map_attributes (λ name attrs. keep (is_kept case_map node_text) attrs) f1 in
        let f3 = map_attributes (without_srcset case_map node_text) f2 in
        ap has_head (strip_unsafe_lem case_map node_text cheerio f)
        ∙ has_head-remove_where (is_beacon_image case_map node_text) f3 beacon_html beacon_head (
            has_head-map_attributes (without_srcset case_map node_text) f2
            ∙ (has_head-map_attributes (λ name attrs. keep (is_kept case_map node_text) attrs) f1
                ∙ has_head-remove_where (is_unsafe case_map node_text) f unsafe_html unsafe_head h))

    -- A safe element, or the policy that the code writes.
    abbrev pub PermalinkElement : Str → Attributes → Type 0
    PermalinkElement name attrs =
        SafeElement case_map node_text name attrs ⊎ ((name ≡ codes "meta") × (attrs ≡ policy))

    -- What is published is printed from a document whose head begins with the policy that forbids
    -- scripts, and in which every element is safe or is the policy.
    pub sanitize_for_permalink-HeadBegins :
        (source : Str)
        → (f : Nodes) × (sanitize_for_permalink case_map node_text cheerio source ≡ cheerio.html f)
          × HeadBegins (codes "meta") policy f
          × AllElements PermalinkElement f
    unfolding sanitize_for_permalink sanitize_nodes
    sanitize_for_permalink-HeadBegins source =
        let left = strip_unsafe case_map node_text cheerio (cheerio.load source) in
        let law = cheerio.prepend_lem (codes "head") (codes "meta") policy left in
        (
          sanitize_nodes case_map node_text cheerio (cheerio.load source),
          refl,
          subst (HeadBegins (codes "meta") policy) (sym law) (
              has_head-HeadBegins (codes "meta") policy left
                (has_head-strip_unsafe (cheerio.load source) (cheerio.load-has_head source))),
          subst (AllElements PermalinkElement) (sym law) (
              prepend_element-AllElements PermalinkElement (codes "head") (codes "meta") policy left
                (inr (refl, refl))
                (AllElements-map (SafeElement case_map node_text) PermalinkElement left
                  (λ n attrs s. inl s)
                  (strip_unsafe-AllElements case_map node_text cheerio (cheerio.load source)))),
        )
