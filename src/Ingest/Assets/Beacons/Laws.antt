-- ===== src/Ingest/Assets/Beacons/Laws.antt =====
-- `isBeacon` of n8n/src/assets.js finds the beacons, and no other image.
use agregado.Base.{
  ℕ, ◌≡◌, ◌≢◌, refl, ap, ◌∙◌, Bool, true, ◌&&◌, ◌||◌, inl, inr, ◌↔◌, List, [], ◌∷◌, ◌++◌, map,
  Option, none, some, ◌==◌, Lacks, Bool-cases, Option-cases, arith,
}
use mathlib.Core.Path.{subst}
use agregado.Text.{Str, codes}
use agregado.Text.Split.{split, split-ne-nil, onto_first}
use agregado.Platform.Headers.{lower}
use agregado.Platform.Crypto.{NodeText, Number, not_a_number, plus_infinity, minus_infinity, finite}
use agregado.Html.{Attributes, attribute}
use agregado.Ingest.Extract.{after_literal}
use agregado.Ingest.Extract.Laws.{after_literal_sound}
use agregado.Ingest.Assets.{
  is_at_most_one, ends_segment, begins_pixel, has_pixel, head_of, attribute_text, is_small,
  is_beacon,
}
use agregado.Ingest.Assets.Beacons.{
  IsAtMostOne, EndsOpen, BeginsOpen, IsQuery, NamesPixel, IsBeacon,
}

-- The part before the first separator.
head-onto_first :
    (c : ℕ) (parts : List Str) → parts ≢ [] → head_of (onto_first c parts) ≡ c ∷ head_of parts
head-onto_first c [] ne = absurd (ne refl)
head-onto_first c (p ∷ ps) ne = refl

head-split :
    (path query : Str)
    → Lacks b'?' path
    → IsQuery query
    → head_of (split (path ++ query) b'?') ≡ path
unfolding split
head-split [] [] h k = refl
head-split [] (c ∷ s) h k = ground arith
head-split (c ∷ path) query (ne, h) k =
    let rest = head-split path query h k in
    let here = head-onto_first c (split (path ++ query) b'?') (split-ne-nil (path ++ query) b'?') in
    elim (Bool-cases (c == b'?')) [
      | inl t ↦ absurd (ne (ground arith))
      | inr f ↦ rw f (here ∙ ap (λ s. c ∷ s) rest)
    ]

split_path :
    (s : Str)
    → (query : Str) × (s ≡ head_of (split s b'?') ++ query)
      × Lacks b'?' (head_of (split s b'?'))
      × IsQuery query
unfolding split
split_path [] = ([], refl, tt, tt)
split_path (c ∷ s) =
    let (query, whole, lacks, is_query) = split_path s in
    let here = head-onto_first c (split s b'?') (split-ne-nil s b'?') in
    elim (Bool-cases (c == b'?')) [
      | inl t ↦ rw t (c ∷ s, refl, tt, ground arith)
      | inr f ↦ rw (f, here) (query, ap (λ t. c ∷ t) whole, (ground arith, lacks), is_query)
    ]

-- Whether a segment begins behind a text, with what is known of the character before the text.
abbrev Opens : Bool → Str → Type 0
Opens begins [] = begins ≡ true
Opens begins (c ∷ s) = Opens (c == b'/' || c == b'.') s

Opens-EndsOpen_iff : (s : Str) → Opens true s ↔ EndsOpen s
Opens-EndsOpen_iff [] = (λ h. tt, λ h. refl)
Opens-EndsOpen_iff (c ∷ []) = ground arith
Opens-EndsOpen_iff (c ∷ d ∷ s) = Opens-EndsOpen_iff (d ∷ s)

after_literal-append :
    (name after : Str) → after_literal (map lower name) (name ++ after) ≡ some after
unfolding after_literal
after_literal-append [] after = refl
after_literal-append (c ∷ name) after = let rest = after_literal-append name after in ground arith

ends_segment_iff : (s : Str) → (ends_segment s ≡ true) ↔ BeginsOpen s
ends_segment_iff [] = (λ h. tt, λ h. refl)
ends_segment_iff (c ∷ s) = ground arith

begins_pixel-append :
    (name after : Str)
    → map lower name ≡ codes "pixel"
    → BeginsOpen after
    → begins_pixel (name ++ after) ≡ true
unfolding begins_pixel
begins_pixel-append name after h k =
    let found : after_literal (codes "pixel") (name ++ after) ≡ some after =
      subst (λ p. after_literal p (name ++ after) ≡ some after) h
        (after_literal-append name after) in
    rw (begins_pixel, found) ((ends_segment_iff after).1 k)

has_pixel-append :
    (begins : Bool) (before name after : Str)
    → Opens begins before
    → map lower name ≡ codes "pixel"
    → BeginsOpen after
    → has_pixel begins (before ++ (name ++ after)) ≡ true
unfolding has_pixel
has_pixel-append begins [] [] after o h k = absurd (ground arith)
has_pixel-append begins [] (c ∷ name) after o h k =
    let here = begins_pixel-append (c ∷ name) after h k in ground arith
has_pixel-append begins (c ∷ before) name after o h k =
    let there = has_pixel-append (c == b'/' || c == b'.') before name after o h k in ground arith

has_pixel_sound :
    (begins : Bool) (s : Str)
    → has_pixel begins s ≡ true
    → (before : Str) × (name : Str) × (after : Str) × (s ≡ before ++ (name ++ after))
      × Opens begins before
      × (map lower name ≡ codes "pixel")
      × BeginsOpen after
unfolding has_pixel begins_pixel
has_pixel_sound begins [] h = absurd (ground arith)
has_pixel_sound begins (c ∷ s) h = elim (Bool-cases (begins && begins_pixel (c ∷ s))) [
  | inl t ↦ elim (Option-cases (after_literal (codes "pixel") (c ∷ s))) [
    | inl e ↦ absurd (ground arith)
    | inr (after, e) ↦
        let (name, whole, low) = after_literal_sound (codes "pixel") (c ∷ s) after e in
        ([], name, after, whole, ground arith, low, (ends_segment_iff after).0 (ground arith))
  ]
  | inr f ↦
      let (before, name, after, whole, opens, low, ends) =
        has_pixel_sound (c == b'/' || c == b'.') s (rw f at h) in
      (c ∷ before, name, after, ap (λ t. c ∷ t) whole, opens, low, ends)
]

has_pixel-NamesPixel_iff :
    (src : Str) → (has_pixel true (head_of (split src b'?')) ≡ true) ↔ NamesPixel src
has_pixel-NamesPixel_iff src = (
  λ h.
      let (query, whole, lacks, is_query) = split_path src in
      let (before, name, after, parts, opens, low, ends) =
        has_pixel_sound true (head_of (split src b'?')) h in
      record {
        before = before;
        name = name;
        after = after;
        query = query;
        whole = whole ∙ ap (λ p. p ++ query) parts;
        is_path = subst (Lacks b'?') parts lacks;
        is_query = is_query;
        is_pixel = low;
        begins = (Opens-EndsOpen_iff before).0 opens;
        ends = ends;
      },
  λ n.
      rw (n.whole, head-split (n.before ++ (n.name ++ n.after)) n.query n.is_path n.is_query)
        (has_pixel-append true n.before n.name n.after ((Opens-EndsOpen_iff n.before).1 n.begins)
          n.is_pixel n.ends),
)

is_at_most_one_iff : (n : Number) → (is_at_most_one n ≡ true) ↔ IsAtMostOne n
is_at_most_one_iff not_a_number = ground arith
is_at_most_one_iff plus_infinity = ground arith
is_at_most_one_iff minus_infinity = (λ h. tt, λ h. refl)
is_at_most_one_iff (finite x) = ground arith

module _ (node_text : NodeText) (attrs : Attributes) where
  small_sound :
      (o : Option Str)
      → is_small node_text o ≡ true
      → (value : Str) × (o ≡ some value) × IsAtMostOne (node_text.number value)
  unfolding is_small
  small_sound none h = absurd (ground arith)
  small_sound (some value) h = (value, refl, (is_at_most_one_iff (node_text.number value)).0 h)

  named_sound :
      has_pixel true (head_of (split (attribute_text (codes "src") attrs) b'?')) ≡ true
      → (src : Str) × (attribute (codes "src") attrs ≡ some src) × NamesPixel src
  unfolding attribute_text has_pixel split
  named_sound h = elim (Option-cases (attribute (codes "src") attrs)) [
    | inl e ↦ absurd (ground arith)
    | inr (src, e) ↦ (src, e, (has_pixel-NamesPixel_iff src).0 (rw (attribute_text, e) at h))
  ]

  is_beacon-IsBeacon : is_beacon node_text attrs ≡ true → IsBeacon node_text attrs
  unfolding is_beacon
  is_beacon-IsBeacon h =
      elim (Bool-cases
        (has_pixel true (head_of (split (attribute_text (codes "src") attrs) b'?')))) [
          | inl t ↦ inr (named_sound t)
          | inr f ↦
              let (width, w, p) = small_sound (attribute (codes "width") attrs) (ground arith) in
              let (height, v, q) = small_sound (attribute (codes "height") attrs) (ground arith) in
              inl (width, height, w, v, p, q)
        ]

  IsBeacon-is_beacon : IsBeacon node_text attrs → is_beacon node_text attrs ≡ true
  unfolding is_beacon is_small attribute_text
  IsBeacon-is_beacon (inl (width, height, w, v, p, q)) =
      let small = (is_at_most_one_iff (node_text.number width)).1 p in
      let low = (is_at_most_one_iff (node_text.number height)).1 q in ground arith
  IsBeacon-is_beacon (inr (src, e, n)) =
      let named = (has_pixel-NamesPixel_iff src).1 n in ground arith

  pub is_beacon_iff : (is_beacon node_text attrs ≡ true) ↔ IsBeacon node_text attrs
  is_beacon_iff = (is_beacon-IsBeacon, IsBeacon-is_beacon)
