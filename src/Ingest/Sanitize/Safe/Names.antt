-- ===== src/Ingest/Sanitize/Safe/Names.antt =====
-- The tests of `stripUnsafe` of n8n/src/sanitize.js on one name, one value or one element.
use agregado.Base.{
  ◌≡◌, ◌≢◌, refl, Bool, true, false, ◌⊎◌, inl, inr, ◌↔◌, List, [], ◌∷◌, none, Bool-cases,
  Option-cases, arith, length, drop,
}
use agregado.Text.{Str, codes, str_eq, starts_with}
use agregado.Text.Laws.{str_eq_iff, eq_of_starts_with, starts_with-append}
use agregado.Text.Trim.{trim}
use agregado.Platform.Crypto.{CaseMap, NodeText}
use agregado.Html.{Attributes, one_of, attribute}
use agregado.Ingest.Sanitize.{
  unsafe_names, url_attributes, is_script_url, is_rel, is_unsafe, is_kept,
}
use agregado.Ingest.Sanitize.Safe.{Begins, IsNone, IsScriptUrl, SafeAttribute, HasRel}

-- A test that tells whether `P` holds tells whether it does not.
pub false_iff : {P : Type 0} (b : Bool) → ((b ≡ true) ↔ P) → (b ≡ false) ↔ (¬ P)
false_iff true (f, g) = (λ h. absurd (ground arith), λ n. absurd (n (f refl)))
false_iff false (f, g) = (λ h p. let t : false ≡ true = g p in absurd (ground arith), λ n. refl)

pub str_neq_iff : (s t : Str) → (str_eq s t ≡ false) ↔ (s ≢ t)
str_neq_iff s t = false_iff (str_eq s t) (str_eq_iff s t)

pub one_of-IsNone_iff : (name : Str) (ns : List Str) → (one_of name ns ≡ false) ↔ IsNone name ns
unfolding one_of
one_of-IsNone_iff name [] = (λ h. tt, λ h. refl)
one_of-IsNone_iff name (n ∷ ns) =
    let (f, g) = str_neq_iff name n in
    let (to, from) = one_of-IsNone_iff name ns in
    (
      λ h. (f (ground arith), to (ground arith)),
      λ (h, hs). let a = g h in let b = from hs in ground arith,
    )

pub starts_with-Begins_iff :
    (value start : Str) → (starts_with value start ≡ true) ↔ Begins start value
starts_with-Begins_iff value start = (
  λ h. (drop (length start) value, eq_of_starts_with start value h),
  λ (rest, e). rw e (starts_with-append start rest),
)

module _ (case_map : CaseMap) (node_text : NodeText) where
  pub is_script_url_iff :
      (value : Str)
      → (is_script_url (case_map.to_lower (trim value)) ≡ true)
        ↔ IsScriptUrl case_map node_text value
  unfolding is_script_url
  is_script_url_iff value =
      let (f, g) = starts_with-Begins_iff (case_map.to_lower (trim value)) (codes "javascript:") in
      let (k, l) = starts_with-Begins_iff (case_map.to_lower (trim value)) (codes "vbscript:") in
      (
        λ h.
            elim (Bool-cases (starts_with (case_map.to_lower (trim value)) (codes "javascript:"))) [
              | inl t ↦ inl (f t)
              | inr n ↦ inr (k (ground arith))
            ],
        λ s. elim s [ inl b ↦ let t = g b in ground arith | inr b ↦ let t = l b in ground arith ],
      )

  pub is_rel_iff :
      (word : Str) (attrs : Attributes)
      → (is_rel case_map node_text word attrs ≡ true) ↔ HasRel case_map node_text word attrs
  unfolding is_rel
  is_rel_iff word attrs = (
    λ h. elim (Option-cases (attribute (codes "rel") attrs)) [
      | inl e ↦ absurd (ground arith)
      | inr (rel, e) ↦ (rel, e, (str_eq_iff (case_map.to_lower rel) word).0 (rw (is_rel, e) at h))
    ],
    λ (rel, e, low). let same = (str_eq_iff (case_map.to_lower rel) word).1 low in ground arith,
  )

  pub kept_iff :
      (a : Str × Str) → (is_kept case_map node_text a ≡ true) ↔ SafeAttribute case_map node_text a
  unfolding is_kept
  kept_iff (name, value) =
      let (f, g) =
        false_iff (starts_with name (codes "on")) (starts_with-Begins_iff name (codes "on")) in
      let (k, l) = one_of-IsNone_iff name url_attributes in
      let (p, q) =
        false_iff (is_script_url (case_map.to_lower (trim value))) (is_script_url_iff value) in
      (
        λ h. (
          f (ground arith),
          elim (Bool-cases (one_of name url_attributes)) [
            | inl t ↦ inr (p (ground arith))
            | inr n ↦ inl (k n)
          ],
        ),
        λ (no_handler, address).
            let n = g no_handler in
            elim address [
              | inl none_of ↦ let m = l none_of in ground arith
              | inr no_script ↦ let m = q no_script in ground arith
            ],
      )

  -- What an element must be like to pass the first of the two tests on elements.
  abbrev pub IsAdmitted : Str → Attributes → Type 0
  IsAdmitted name attrs =
      IsNone name unsafe_names
      × ((name ≢ codes "meta") ⊎ (attribute (codes "http-equiv") attrs ≡ none))
      × ((name ≢ codes "link")
          ⊎ (¬ (HasRel case_map node_text (codes "import") attrs)
              × ¬ (HasRel case_map node_text (codes "stylesheet") attrs)))

  pub unsafe_sound :
      (name : Str) (attrs : Attributes)
      → is_unsafe case_map node_text name attrs ≡ false
      → IsAdmitted name attrs
  unfolding is_unsafe
  unsafe_sound name attrs h =
      let (k, l) = one_of-IsNone_iff name unsafe_names in
      let (p, q) =
        false_iff (is_rel case_map node_text (codes "import") attrs)
          (is_rel_iff (codes "import") attrs) in
      let (r, t) =
        false_iff (is_rel case_map node_text (codes "stylesheet") attrs)
          (is_rel_iff (codes "stylesheet") attrs) in
      (
        k (ground arith),
        elim (Bool-cases (str_eq name (codes "meta"))) [
          | inr n ↦ inl ((str_neq_iff name (codes "meta")).0 n)
          | inl m ↦ inr (ground arith)
        ],
        elim (Bool-cases (str_eq name (codes "link"))) [
          | inr n ↦ inl ((str_neq_iff name (codes "link")).0 n)
          | inl m ↦ inr (p (ground arith), r (ground arith))
        ],
      )

  pub unsafe_of_IsAdmitted :
      (name : Str) (attrs : Attributes)
      → IsAdmitted name attrs
      → is_unsafe case_map node_text name attrs ≡ false
  unfolding is_unsafe
  unsafe_of_IsAdmitted name attrs (none_of, meta, link) =
      let listed = (one_of-IsNone_iff name unsafe_names).1 none_of in
      let no_meta : (str_eq name (codes "meta") ≡ false)
          ⊎ (attribute (codes "http-equiv") attrs ≡ none) =
        elim meta [ inl n ↦ inl ((str_neq_iff name (codes "meta")).1 n) | inr e ↦ inr e ] in
      elim link [
        | inl n ↦ let other = (str_neq_iff name (codes "link")).1 n in ground arith
        | inr (no_import, no_sheet) ↦
            let i =
              (false_iff (is_rel case_map node_text (codes "import") attrs)
                  (is_rel_iff (codes "import") attrs)).1
                no_import in
            let s =
              (false_iff (is_rel case_map node_text (codes "stylesheet") attrs)
                  (is_rel_iff (codes "stylesheet") attrs)).1
                no_sheet in
            ground arith
      ]
