-- ===== src/Ingest/Assets/Fetches.antt =====
-- The loop of n8n/src/assets.js over the plan, and lists of URLs that a test sifts.
use agregado.Base.{
  ◌≡◌, refl, sym, ap, ◌∙◌, Bool, true, false, ◌||◌, List, [], ◌∷◌, ◌++◌, append-nil, Option, none,
  some, if◌then◌else◌, Bool-cases, inl, inr, arith,
}
use agregado.Text.{Str, str_eq}
use agregado.Text.Laws.{eq_of_str_eq}
use agregado.Preferences.{has, unique_from}
use agregado.Ingest.Assets.{Asset, data_uri, look_up_uri, fetch_all}

-- The texts that a test accepts.
unfoldable pub sift : (Str → Bool) → List Str → List Str
sift test [] = []
sift test (s ∷ ss) = let rest = sift test ss in if test s then s ∷ rest else rest

pub sift-append :
    (test : Str → Bool) (xs ys : List Str) → sift test (xs ++ ys) ≡ sift test xs ++ sift test ys
unfolding sift
sift-append test [] ys = refl
sift-append test (x ∷ xs) ys = elim (Bool-cases (test x)) [
  | inl t ↦ rw t (ap (λ r. x ∷ r) (sift-append test xs ys))
  | inr f ↦ rw f (sift-append test xs ys)
]

has-sift :
    (test : Str → Bool) (xs : List Str) (x : Str) → test x ≡ true → has (sift test xs) x ≡ has xs x
unfolding sift has
has-sift test [] x h = refl
has-sift test (y ∷ ys) x h =
    let rest = has-sift test ys x h in
    elim (Bool-cases (test y)) [
      | inl t ↦ rw t (ap (λ b. str_eq y x || b) rest)
      | inr f ↦
          let different : str_eq y x ≡ false = ground (arith, f, h, eq_of_str_eq y x) in
          rw (f, different) rest
    ]

sift-snoc :
    (test : Str → Bool) (xs : List Str) (x : Str)
    → sift test (xs ++ x ∷ []) ≡ (if test x then sift test xs ++ x ∷ [] else sift test xs)
unfolding sift
sift-snoc test xs x =
    sift-append test xs (x ∷ [])
    ∙ elim (Bool-cases (test x)) [ inl t ↦ rw t refl | inr f ↦ rw f (append-nil (sift test xs)) ]

-- To sift and to remove duplicates can be done in either order.
pub unique_from-sift :
    (test : Str → Bool) (seen xs : List Str)
    → unique_from (sift test seen) (sift test xs) ≡ sift test (unique_from seen xs)
unfolding sift unique_from
unique_from-sift test seen [] = refl
unique_from-sift test seen (x ∷ xs) = elim (Bool-cases (test x)) [
  | inl t ↦
      let snoc = sift-snoc test seen x in
      elim (Bool-cases (has seen x)) [
        | inl old ↦ rw (t, unique_from, has-sift test seen x t, old) (unique_from-sift test seen xs)
        | inr new ↦
            rw (t, unique_from, has-sift test seen x t, new)
              (ap (λ z. unique_from z (sift test xs)) (sym (rw t at snoc))
                ∙ unique_from-sift test (seen ++ x ∷ []) xs)
      ]
  | inr f ↦
      let snoc = sift-snoc test seen x in
      elim (Bool-cases (has seen x)) [
        | inl old ↦ rw (f, old) (unique_from-sift test seen xs)
        | inr new ↦
            rw (f, new)
              (ap (λ z. unique_from z (sift test xs)) (sym (rw f at snoc))
                ∙ unique_from-sift test (seen ++ x ∷ []) xs)
      ]
]

-- The fetch of a URL does not give an image that is put into the document.
abbrev pub fails : (Str → Option Asset) → Str → Bool
fails fetch url = elim (data_uri (fetch url)) [ none ↦ true | some uri ↦ false ]

pub fetch_all-failed :
    (fetch : Str → Option Asset) (urls : List Str)
    → (fetch_all fetch urls).1 ≡ sift (fails fetch) urls
unfolding fetch_all sift
fetch_all-failed fetch [] = refl
fetch_all-failed fetch (url ∷ urls) = let rest = fetch_all-failed fetch urls in ground arith

pub look_up_uri-fetch_all :
    (fetch : Str → Option Asset) (urls : List Str) (url : Str)
    → look_up_uri url (fetch_all fetch urls).0
      ≡ (if has urls url then data_uri (fetch url) else none)
unfolding fetch_all look_up_uri has
look_up_uri-fetch_all fetch [] url = refl
look_up_uri-fetch_all fetch (u ∷ urls) url =
    let rest = look_up_uri-fetch_all fetch urls url in
    let same = λ (t : str_eq u url ≡ true). ap (λ v. data_uri (fetch v)) (eq_of_str_eq u url t) in
    elim (Bool-cases (str_eq u url)) [
      | inl t ↦ let fetched = same t in ground arith
      | inr f ↦ ground arith
    ]
