-- ===== src/Ingest/Sanitize/Safe.antt =====
-- What a document is like that `stripUnsafe` of n8n/src/sanitize.js has gone over.
pub mod Names
pub mod Passes
pub mod Document
pub mod Policy
use agregado.Base.{◌≡◌, ◌≢◌, ◌⊎◌, none, some, List, [], ◌∷◌, ◌++◌, All}
use agregado.Text.{Str, codes}
use agregado.Text.Trim.{trim}
use agregado.Platform.Crypto.{CaseMap, NodeText}
use agregado.Html.{Attributes, attribute}
use agregado.Ingest.Assets.Beacons.{IsBeacon}

abbrev pub Begins : Str → Str → Type 0
Begins start value = (rest : Str) × (value ≡ start ++ rest)

abbrev pub IsNone : Str → List Str → Type 0
IsNone name = All (λ n. name ≢ n)

module _ (case_map : CaseMap) (node_text : NodeText) where
  -- `javascript:` or `vbscript:` at the start, in any case and behind white space.
  abbrev pub IsScriptUrl : Str → Type 0
  IsScriptUrl value =
      Begins (codes "javascript:") (case_map.to_lower (trim value))
      ⊎ Begins (codes "vbscript:") (case_map.to_lower (trim value))

  -- The name does not begin with `on`, and no address begins with the scheme of a script.
  abbrev pub SafeAttribute : Str × Str → Type 0
  SafeAttribute (name, value) =
      ¬ (Begins (codes "on") name)
      × (IsNone name (codes "href" ∷ codes "src" ∷ codes "action" ∷ codes "xlink:href" ∷ [])
          ⊎ ¬ (IsScriptUrl value))

  -- The whole `rel` is that word, in any case.
  abbrev pub HasRel : Str → Attributes → Type 0
  HasRel word attrs =
      (rel : Str) × (attribute (codes "rel") attrs ≡ some rel) × (case_map.to_lower rel ≡ word)

  -- None of the ten elements that run, embed or submit or set the base, no `meta` with an `http-equiv`,
  -- no `link` whose `rel` is just `import` or `stylesheet`, only safe attributes, no alternative
  -- sources, and no image that is a beacon.
  abbrev pub SafeElement : Str → Attributes → Type 0
  SafeElement name attrs =
      IsNone name (
        codes "script"
        ∷ codes "iframe"
        ∷ codes "object"
        ∷ codes "embed"
        ∷ codes "form"
        ∷ codes "input"
        ∷ codes "button"
        ∷ codes "textarea"
        ∷ codes "select"
        ∷ codes "base"
        ∷ [])
      × ((name ≢ codes "meta") ⊎ (attribute (codes "http-equiv") attrs ≡ none))
      × ((name ≢ codes "link")
          ⊎ (¬ (HasRel (codes "import") attrs) × ¬ (HasRel (codes "stylesheet") attrs)))
      × All SafeAttribute attrs
      × (IsNone name (codes "img" ∷ codes "source" ∷ [])
          ⊎ (attribute (codes "srcset") attrs ≡ none))
      × ((name ≢ codes "img") ⊎ ¬ (IsBeacon node_text attrs))
