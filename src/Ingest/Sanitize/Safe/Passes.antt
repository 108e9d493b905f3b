-- ===== src/Ingest/Sanitize/Safe/Passes.antt =====
-- Each pass of `stripUnsafe` of n8n/src/sanitize.js.
use agregado.Base.{
  ◌≡◌, refl, ◌∙◌, [], ◌∷◌, Bool, true, false, not, ◌⊎◌, inl, inr, none, All, All-map, Bool-cases,
  arith,
}
use agregado.Text.{Str, codes, str_eq, starts_with}
use agregado.Platform.Crypto.{CaseMap, NodeText}
use agregado.Html.{Attributes, one_of, attribute, keep}
use agregado.Html.Laws.{
  attribute-keep, keep-All, All-keep, keep_of_All, remove_attribute_lem, remove_attribute_of_none,
}
use agregado.Ingest.Sanitize.{
  is_image_or_source, is_rel, is_unsafe, is_kept, without_srcset, is_beacon_image,
}
use agregado.Ingest.Assets.{is_beacon}
use agregado.Ingest.Assets.Beacons.Laws.{is_beacon_iff}
use agregado.Ingest.Sanitize.Safe.{SafeAttribute, SafeElement}
use agregado.Ingest.Sanitize.Safe.Names.{
  false_iff, str_neq_iff, one_of-IsNone_iff, kept_iff, unsafe_sound, unsafe_of_IsAdmitted,
}

module _ (case_map : CaseMap) (node_text : NodeText) where
  unsafe-keep :
      (test : Str × Str → Bool) (name : Str) (attrs : Attributes)
      → ((value : Str) → test (codes "http-equiv", value) ≡ true)
      → ((value : Str) → test (codes "rel", value) ≡ true)
      → is_unsafe case_map node_text name (keep test attrs)
        ≡ is_unsafe case_map node_text name attrs
  unfolding is_unsafe is_rel
  unsafe-keep test name attrs he hr =
      let e = attribute-keep test (codes "http-equiv") attrs he in
      let r = attribute-keep test (codes "rel") attrs hr in ground arith

  kept_http_equiv : (value : Str) → is_kept case_map node_text (codes "http-equiv", value) ≡ true
  unfolding is_kept one_of str_eq starts_with
  kept_http_equiv value = refl

  kept_rel : (value : Str) → is_kept case_map node_text (codes "rel", value) ≡ true
  unfolding is_kept one_of str_eq starts_with
  kept_rel value = refl

  -- What holds behind the first pass, behind the second, and behind the third.
  abbrev pub Admitted : Str → Attributes → Type 0
  Admitted name attrs = is_unsafe case_map node_text name attrs ≡ false

  abbrev pub Disarmed : Str → Attributes → Type 0
  Disarmed name attrs = Admitted name attrs × All (SafeAttribute case_map node_text) attrs

  abbrev pub Single : Str → Attributes → Type 0
  Single name attrs =
      Disarmed name attrs
      × ((is_image_or_source name ≡ false) ⊎ (attribute (codes "srcset") attrs ≡ none))

  pub keep-Disarmed :
      (name : Str) (attrs : Attributes)
      → Admitted name attrs
      → Disarmed name (keep (is_kept case_map node_text) attrs)
  keep-Disarmed name attrs h = (
    unsafe-keep (is_kept case_map node_text) name attrs kept_http_equiv kept_rel ∙ h,
    All-map (λ a. is_kept case_map node_text a ≡ true) (SafeAttribute case_map node_text)
        (keep (is_kept case_map node_text) attrs) (λ a. (kept_iff case_map node_text a).0)
        (keep-All (is_kept case_map node_text) attrs),
  )

  keeps_http_equiv : (value : Str) → not (str_eq (codes "http-equiv") (codes "srcset")) ≡ true
  unfolding str_eq
  keeps_http_equiv value = refl

  keeps_rel : (value : Str) → not (str_eq (codes "rel") (codes "srcset")) ≡ true
  unfolding str_eq
  keeps_rel value = refl

  pub without_srcset-Single :
      (name : Str) (attrs : Attributes)
      → Disarmed name attrs
      → Single name (without_srcset case_map node_text name attrs)
  unfolding without_srcset
  without_srcset-Single name attrs (h, ha) = elim (Bool-cases (is_image_or_source name)) [
    | inl t ↦ rw t (
      (
        unsafe-keep (λ a. not (str_eq a.0 (codes "srcset"))) name attrs keeps_http_equiv keeps_rel
            ∙ h,
        All-keep (SafeAttribute case_map node_text) (λ a. not (str_eq a.0 (codes "srcset"))) attrs
            ha,
      ),
      inr (remove_attribute_lem (codes "srcset") attrs),
    )
    | inr f ↦ rw f ((h, ha), inl refl)
  ]

  pub Single-SafeElement :
      (name : Str) (attrs : Attributes)
      → Single name attrs × (is_beacon_image case_map node_text name attrs ≡ false)
      → SafeElement case_map node_text name attrs
  unfolding is_beacon_image one_of
  Single-SafeElement name attrs (((h, ha), hs), hb) =
      let (h1, h2, h3) = unsafe_sound case_map node_text name attrs h in
      (
        h1,
        h2,
        h3,
        ha,
        elim hs [
          | inl f ↦
              inl ((one_of-IsNone_iff name (codes "img" ∷ codes "source" ∷ [])).0 (ground arith))
          | inr e ↦ inr e
        ],
        elim (Bool-cases (str_eq name (codes "img"))) [
          | inr n ↦ inl ((str_neq_iff name (codes "img")).0 n)
          | inl t ↦ inr (
              (false_iff (is_beacon node_text attrs) (is_beacon_iff node_text attrs)).0
                (ground arith))
        ],
      )

  pub SafeElement-Admitted :
      (name : Str) (attrs : Attributes)
      → SafeElement case_map node_text name attrs
      → Admitted name attrs
  SafeElement-Admitted name attrs (h1, h2, h3, ha, hs, hb) =
      unsafe_of_IsAdmitted case_map node_text name attrs (h1, h2, h3)

  pub SafeElement-keep :
      (name : Str) (attrs : Attributes)
      → SafeElement case_map node_text name attrs
      → keep (is_kept case_map node_text) attrs ≡ attrs
  SafeElement-keep name attrs (h1, h2, h3, ha, hs, hb) =
      keep_of_All (is_kept case_map node_text) attrs (
        All-map (SafeAttribute case_map node_text) (λ a. is_kept case_map node_text a ≡ true) attrs
          (λ a. (kept_iff case_map node_text a).1) ha)

  pub SafeElement-srcset :
      (name : Str) (attrs : Attributes)
      → SafeElement case_map node_text name attrs
      → without_srcset case_map node_text name attrs ≡ attrs
  unfolding without_srcset one_of
  SafeElement-srcset name attrs (h1, h2, h3, ha, hs, hb) = elim hs [
    | inl none_of ↦
        let other = (one_of-IsNone_iff name (codes "img" ∷ codes "source" ∷ [])).1 none_of in
        ground arith
    | inr e ↦ let same = remove_attribute_of_none (codes "srcset") attrs e in ground arith
  ]

  pub SafeElement-beacon :
      (name : Str) (attrs : Attributes)
      → SafeElement case_map node_text name attrs
      → is_beacon_image case_map node_text name attrs ≡ false
  unfolding is_beacon_image
  SafeElement-beacon name attrs (h1, h2, h3, ha, hs, hb) = elim hb [
    | inl ne ↦ let other = (str_neq_iff name (codes "img")).1 ne in ground arith
    | inr no_beacon ↦
        let shown =
          (false_iff (is_beacon node_text attrs) (is_beacon_iff node_text attrs)).1 no_beacon in
        ground arith
  ]
