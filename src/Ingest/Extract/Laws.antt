-- ===== src/Ingest/Extract/Laws.antt =====
-- Which URL n8n/src/extract.js takes for an entry's canonical one.
use agregado.Base.{
  ◌≡◌, refl, ap, true, false, not, ◌&&◌, List, [], ◌∷◌, ◌++◌, map, some, All, Bool-cases,
  Option-cases, inl, inr, ◌⊎◌, ◌==◌, arith,
}
use agregado.Base.Options.{eq_of_some}
use agregado.Text.{Str, codes}
use agregado.Text.Trim.{trim, unwrap, trim-trim}
use agregado.Platform.Crypto.{CaseMap}
use agregado.Platform.Headers.{lower}
use agregado.Ingest.Extract.{
  after_literal, after_scheme, parse_http_url, is_canonical_candidate, is_view_link,
  first_view_link, scrape_view_in_browser, resolve_canonical_url, any_space, is_none,
}

pub after_literal_sound :
    (p s rest : Str)
    → after_literal p s ≡ some rest
    → (head : Str) × (s ≡ head ++ rest) × (map lower head ≡ p)
unfolding after_literal
after_literal_sound [] s rest h = ([], ground arith, refl)
after_literal_sound (c ∷ p) [] rest h = absurd (ground arith)
after_literal_sound (c ∷ p) (d ∷ s) rest h = elim (Bool-cases (c == lower d)) [
  | inl t ↦
      let (head, whole, low) = after_literal_sound p s rest (rw t at h) in
      (d ∷ head, ap (λ r. d ∷ r) whole, ground arith)
  | inr f ↦ absurd (ground arith)
]

-- A text begins with the scheme of a web page, in any case.
abbrev pub HasWebScheme : Str → Type 0
HasWebScheme url =
    (head : Str) × (rest : Str) × (url ≡ head ++ rest)
    × ((map lower head ≡ codes "https://") ⊎ (map lower head ≡ codes "http://"))

after_scheme_sound : (raw rest : Str) → after_scheme raw ≡ some rest → HasWebScheme raw
unfolding after_scheme
after_scheme_sound raw rest h = elim (Option-cases (after_literal (codes "https://") raw)) [
  | inr (r, e) ↦
      let (head, whole, low) = after_literal_sound (codes "https://") raw r e in
      (head, r, whole, inl low)
  | inl e ↦
      let (head, whole, low) = after_literal_sound (codes "http://") raw rest (ground arith) in
      (head, rest, whole, inr low)
]

module _ (case_map : CaseMap) where
  candidate-HasWebScheme :
      (url : Str) → is_canonical_candidate case_map url ≡ true → HasWebScheme (trim url)
  unfolding is_canonical_candidate parse_http_url
  candidate-HasWebScheme url h = elim (Bool-cases (any_space (trim url))) [
    | inl t ↦ absurd (ground arith)
    | inr f ↦ elim (Option-cases (after_scheme (trim url))) [
      | inl e ↦ absurd (ground arith)
      | inr (rest, e) ↦ after_scheme_sound (trim url) rest e
    ]
  ]

  -- The first link of a list that fits, if there is one.
  abbrev pub IsFirstViewLink : List (Str × Str) → Str → Type 0
  IsFirstViewLink links url =
      (before : List (Str × Str)) × (link : Str × Str) × (after : List (Str × Str)) × (links
        ≡ before ++ link ∷ after)
      × All (λ l. is_view_link case_map l ≡ false) before
      × (is_view_link case_map link ≡ true)
      × (url ≡ trim link.1)

  first_view_link_sound :
      (links : List (Str × Str)) (url : Str)
      → first_view_link case_map links ≡ some url
      → IsFirstViewLink links url
  unfolding first_view_link
  first_view_link_sound [] url h = absurd (ground arith)
  first_view_link_sound (link ∷ links) url h = elim (Bool-cases (is_view_link case_map link)) [
    | inl t ↦ ([], link, links, refl, tt, t, ground arith)
    | inr f ↦
        let (before, l, after, e, skipped, fits, u) = first_view_link_sound links url (rw f at h) in
        (link ∷ before, l, after, ap (λ r. link ∷ r) e, (f, skipped), fits, u)
  ]

  module _ (links_of : Str → List (Str × Str)) where
    -- A canonical URL begins with `http://` or `https://`, in any case. It is the header's, without
    -- its angle brackets, and a candidate, or it is the trimmed target of the first link of the
    -- document whose text and target fit.
    pub resolve_canonical_url_sound :
        (archived_at html url : Str)
        → resolve_canonical_url case_map links_of archived_at html ≡ some url
        → HasWebScheme url
          × (((url ≡ trim (unwrap b'<' b'>' (trim archived_at)))
                × (is_canonical_candidate case_map url ≡ true))
              ⊎ IsFirstViewLink (links_of html) url)
    unfolding resolve_canonical_url scrape_view_in_browser is_view_link
    resolve_canonical_url_sound archived_at html url h =
        let candidate = trim (unwrap b'<' b'>' (trim archived_at)) in
        elim (Bool-cases
          (not (is_none (trim archived_at)) && is_canonical_candidate case_map candidate)) [
            | inl t ↦
                let same : candidate ≡ url = eq_of_some candidate url (rw t at h) in
                let fits : is_canonical_candidate case_map candidate ≡ true = ground arith in
                let web : HasWebScheme candidate =
                  rw trim-trim at (candidate-HasWebScheme candidate fits) in
                rw (← same) (web, inl (refl, fits))
            | inr f ↦ elim (Bool-cases (is_none (trim html))) [
              | inl empty ↦ absurd (ground arith)
              | inr full ↦
                  let found : first_view_link case_map (links_of html) ≡ some url = ground arith in
                  let (before, link, after, e, skipped, fits, u) =
                    first_view_link_sound (links_of html) url found in
                  let candidate_fits : is_canonical_candidate case_map (trim link.1) ≡ true =
                    ground arith in
                  let web : HasWebScheme (trim link.1) =
                    rw trim-trim at (candidate-HasWebScheme (trim link.1) candidate_fits) in
                  (rw u web, inr (before, link, after, e, skipped, fits, u))
            ]
          ]
