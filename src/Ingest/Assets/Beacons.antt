-- ===== src/Ingest/Assets/Beacons.antt =====
-- The images that `isBeacon` of n8n/src/assets.js takes for reports of the reader.
pub mod Laws
use agregado.Base.{
  ℕ, ◌≡◌, ◌≢◌, refl, sym, ap, ◌∙◌, Bool, true, false, ◌&&◌, ◌||◌, ◌⊎◌, inl, inr, ◌↔◌, List, [], ◌∷◌,
  ◌++◌, map, Option, none, some, ◌==◌, if◌then◌else◌, Lacks, Bool-cases, Option-cases, arith,
}
use mathlib.Core.Path.{subst}
use agregado.Base.Int.{pos, ◌≤ℤ◌}
use agregado.Base.Options.{eq_of_some}
use agregado.Text.{Str, codes}
use agregado.Text.Split.{split, split-ne-nil, onto_first}
use agregado.Platform.Headers.{lower}
use agregado.Platform.Crypto.{NodeText, Number, not_a_number, plus_infinity, minus_infinity, finite}
use agregado.Html.{Attributes, attribute}
use agregado.Ingest.Extract.{after_literal}
use agregado.Ingest.Extract.Laws.{after_literal_sound}
use agregado.Ingest.Assets.{
  is_at_most_one, ends_segment, begins_pixel, has_pixel, head_of, attribute_text, is_small,
  is_beacon,
}

abbrev pub IsAtMostOne : Number → Type 0
IsAtMostOne not_a_number = ⊥
IsAtMostOne plus_infinity = ⊥
IsAtMostOne minus_infinity = Unit
IsAtMostOne (finite x) = x.ceil ≤ℤ pos 1

abbrev pub IsSeparator : ℕ → Type 0
IsSeparator c = (c ≡ b'/') ⊎ (c ≡ b'.')

-- What may stand before and behind a segment of a path.
abbrev pub EndsOpen : Str → Type 0
EndsOpen [] = Unit
EndsOpen (c ∷ []) = IsSeparator c
EndsOpen (c ∷ d ∷ s) = EndsOpen (d ∷ s)

abbrev pub BeginsOpen : Str → Type 0
BeginsOpen [] = Unit
BeginsOpen (c ∷ s) = IsSeparator c

-- Nothing, or a query.
abbrev pub IsQuery : Str → Type 0
IsQuery [] = Unit
IsQuery (c ∷ s) = c ≡ b'?'

-- A segment of the text before the query, between slashes and dots, is `pixel`, in any case.
pub record NamesPixel (src : Str) : Type 0 where
  pub before : Str
  pub name : Str
  pub after : Str
  pub query : Str
  pub whole : src ≡ (before ++ (name ++ after)) ++ query
  pub is_path : Lacks b'?' (before ++ (name ++ after))
  pub is_query : IsQuery query
  pub is_pixel : map lower name ≡ codes "pixel"
  pub begins : EndsOpen before
  pub ends : BeginsOpen after

-- An image of at most one by one, or one whose source names a pixel.
abbrev pub IsBeacon : NodeText → Attributes → Type 0
IsBeacon node_text attrs =
    ((width : Str) × (height : Str) × (attribute (codes "width") attrs ≡ some width)
      × (attribute (codes "height") attrs ≡ some height)
      × IsAtMostOne (node_text.number width)
      × IsAtMostOne (node_text.number height))
    ⊎ ((src : Str) × (attribute (codes "src") attrs ≡ some src) × NamesPixel src)
