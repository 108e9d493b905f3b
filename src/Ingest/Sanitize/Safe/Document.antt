-- ===== src/Ingest/Sanitize/Safe/Document.antt =====
-- All the passes of `stripUnsafe` of n8n/src/sanitize.js together.
use agregado.Base.{◌≡◌, ap, ◌∙◌, false, ◌↔◌}
use mathlib.Core.Path.{subst}
use agregado.Platform.Crypto.{CaseMap, NodeText}
use agregado.Html.{Nodes, Cheerio, keep, remove_where, map_attributes, AllElements}
use agregado.Html.Laws.{
  remove_where-AllElements, map_attributes-AllElements, AllElements-every, remove_where_of_none,
  map_attributes_of_same, AllElements-map, Cheerio-passes,
}
use agregado.Ingest.Sanitize.{is_unsafe, is_kept, without_srcset, is_beacon_image, strip_unsafe}
use agregado.Ingest.Sanitize.Safe.{SafeElement}
use agregado.Ingest.Sanitize.Safe.Passes.{
  Admitted, Disarmed, Single, keep-Disarmed, without_srcset-Single, Single-SafeElement,
  SafeElement-Admitted, SafeElement-keep, SafeElement-srcset, SafeElement-beacon,
}

module _ (case_map : CaseMap) (node_text : NodeText) where
  module _ (cheerio : Cheerio) where
    pub strip_unsafe_lem :
        (f : Nodes)
        → strip_unsafe case_map node_text cheerio f
          ≡ remove_where (is_beacon_image case_map node_text) (
              map_attributes (without_srcset case_map node_text) (
                map_attributes
                  (λ name attrs. keep (is_kept case_map node_text) attrs)
                  (remove_where (is_unsafe case_map node_text) f)))
    unfolding strip_unsafe
    strip_unsafe_lem f =
        Cheerio-passes cheerio (is_unsafe case_map node_text) (is_beacon_image case_map node_text)
          (λ name attrs. keep (is_kept case_map node_text) attrs)
          (without_srcset case_map node_text) f

    pub strip_unsafe-AllElements :
        (f : Nodes)
        → AllElements (SafeElement case_map node_text) (strip_unsafe case_map node_text cheerio f)
    strip_unsafe-AllElements f =
        let f1 = remove_where (is_unsafe case_map node_text) f in
        let f2 = map_attributes (λ name attrs. keep (is_kept case_map node_text) attrs) f1 in
        let f3 = map_attributes (without_srcset case_map node_text) f2 in
        let h1 =
          remove_where-AllElements (λ n attrs. Unit {0}) (is_unsafe case_map node_text) f
            (AllElements-every (λ n attrs. Unit {0}) f (λ n attrs. tt)) in
        let h2 =
          map_attributes-AllElements (λ n attrs. Unit {0} × Admitted case_map node_text n attrs)
            (Disarmed case_map node_text) (λ name attrs. keep (is_kept case_map node_text) attrs) f1
            (λ n attrs h. (keep-Disarmed case_map node_text) n attrs h.1) h1 in
        let h3 =
          map_attributes-AllElements (Disarmed case_map node_text) (Single case_map node_text)
            (without_srcset case_map node_text) f2 (without_srcset-Single case_map node_text) h2 in
        let h4 =
          remove_where-AllElements (Single case_map node_text) (is_beacon_image case_map node_text)
            f3 h3 in
        rw (strip_unsafe_lem f) (
          AllElements-map
            (λ n attrs.
              Single case_map node_text n attrs
              × (is_beacon_image case_map node_text n attrs ≡ false))
            (SafeElement case_map node_text) (remove_where (is_beacon_image case_map node_text) f3)
            (Single-SafeElement case_map node_text) h4)

    -- A document that is safe is left alone.
    strip_unsafe_of_AllElements :
        (f : Nodes)
        → AllElements (SafeElement case_map node_text) f
        → strip_unsafe case_map node_text cheerio f ≡ f
    strip_unsafe_of_AllElements f h =
        strip_unsafe_lem f
        ∙ (ap
              (λ x. remove_where (is_beacon_image case_map node_text) (
                map_attributes (without_srcset case_map node_text)
                  (map_attributes (λ name attrs. keep (is_kept case_map node_text) attrs) x)))
              (remove_where_of_none (is_unsafe case_map node_text) f (
                AllElements-map (SafeElement case_map node_text) (Admitted case_map node_text) f
                  (SafeElement-Admitted case_map node_text) h))
            ∙ (ap
                  (λ x.
                    remove_where (is_beacon_image case_map node_text)
                      (map_attributes (without_srcset case_map node_text) x))
                  (map_attributes_of_same (λ name attrs. keep (is_kept case_map node_text) attrs) f
                    (AllElements-map (SafeElement case_map node_text)
                      (λ n attrs. keep (is_kept case_map node_text) attrs ≡ attrs) f
                      (SafeElement-keep case_map node_text) h))
                ∙ (ap (remove_where (is_beacon_image case_map node_text)) (
                      map_attributes_of_same (without_srcset case_map node_text) f (
                        AllElements-map (SafeElement case_map node_text)
                          (λ n attrs. without_srcset case_map node_text n attrs ≡ attrs) f
                          (SafeElement-srcset case_map node_text) h))
                    ∙ remove_where_of_none (is_beacon_image case_map node_text) f (
                        AllElements-map (SafeElement case_map node_text)
                          (λ n attrs. is_beacon_image case_map node_text n attrs ≡ false) f
                          (SafeElement-beacon case_map node_text) h))))

    -- The document that `stripUnsafe` leaves has safe elements only, at any depth, and a document
    -- is left alone exactly when its elements are safe. None of them is a script, iframe, object,
    -- embed, form, input, button, textarea, select or base, a meta with an http-equiv, a link whose
    -- whole rel is import or stylesheet, an image or source with a srcset, or an image of at most
    -- one by one or with a segment pixel in its address; and none has an attribute whose name
    -- begins with on, or an href, src, action or xlink:href that begins with javascript: or
    -- vbscript:, in any case and behind white space.
    pub strip_unsafe-AllElements_iff :
        (f : Nodes)
        → AllElements (SafeElement case_map node_text) (strip_unsafe case_map node_text cheerio f)
          × ((strip_unsafe case_map node_text cheerio f ≡ f)
              ↔ AllElements (SafeElement case_map node_text) f)
    strip_unsafe-AllElements_iff f = (
      strip_unsafe-AllElements f,
      (
        λ e. subst (AllElements (SafeElement case_map node_text)) e (strip_unsafe-AllElements f),
        strip_unsafe_of_AllElements f,
      ),
    )
