-- ===== src/Html/Head.antt =====
-- The head of a document, which the queries leave, and what is put first into it.
use agregado.Base.{
  ◌≡◌, refl, ap, ◌∙◌, Bool, true, false, ◌⊎◌, inl, inr, Bool-cases, if◌then◌else◌, ◌&&◌, ◌||◌,
  arith,
}
use agregado.Text.{Str, codes, str_eq}
use agregado.Text.Laws.{eq_of_str_eq}
use agregado.Html.{
  Attributes, Nodes, end, text, other, root, element, has_child, has_head, remove_where,
  map_attributes, prepend_element, AllElements,
}

-- An element of that name is among the nodes, with children that satisfy `Q`.
abbrev pub HasElement : Str → (Nodes → Type 0) → Nodes → Type 0
HasElement name Q end = ⊥
HasElement name Q (text s rest) = HasElement name Q rest
HasElement name Q (other s rest) = HasElement name Q rest
HasElement name Q (root inside rest) = HasElement name Q rest
HasElement name Q (element n attrs children rest) =
    ((n ≡ name) × Q children) ⊎ HasElement name Q rest

-- A `head` in an `html` element begins with an element of that name and attributes.
abbrev pub HeadBegins : Str → Attributes → Nodes → Type 0
HeadBegins n attrs =
    HasElement (codes "html")
      (HasElement (codes "head") (λ f. (rest : Nodes) × (f ≡ element n attrs end rest)))

has_child-remove_where :
    (name : Str) (test : Str → Attributes → Bool) (f : Nodes)
    → ((attrs : Attributes) → test name attrs ≡ false)
    → has_child name f ≡ true
    → has_child name (remove_where test f) ≡ true
unfolding has_child remove_where
has_child-remove_where name test end k h = h
has_child-remove_where name test (text s rest) k h = has_child-remove_where name test rest k h
has_child-remove_where name test (other s rest) k h = has_child-remove_where name test rest k h
has_child-remove_where name test (root inside rest) k h = has_child-remove_where name test rest k h
has_child-remove_where name test (element n attrs children rest) k h =
    let behind = has_child-remove_where name test rest k in
    let here = k attrs in
    let same = eq_of_str_eq n name in
    elim (Bool-cases (str_eq n name)) [
      | inl t ↦ rw (ap (λ m. test m attrs) (eq_of_str_eq n name t) ∙ k attrs, has_child, t) refl
      | inr f ↦
          let there : has_child name (remove_where test rest) ≡ true = behind (ground arith) in
          ground arith
    ]

pub has_head-remove_where :
    (test : Str → Attributes → Bool) (f : Nodes)
    → ((attrs : Attributes) → test (codes "html") attrs ≡ false)
    → ((attrs : Attributes) → test (codes "head") attrs ≡ false)
    → has_head f ≡ true
    → has_head (remove_where test f) ≡ true
unfolding has_head remove_where
has_head-remove_where test end k l h = h
has_head-remove_where test (text s rest) k l h = has_head-remove_where test rest k l h
has_head-remove_where test (other s rest) k l h = has_head-remove_where test rest k l h
has_head-remove_where test (root inside rest) k l h = has_head-remove_where test rest k l h
has_head-remove_where test (element n attrs children rest) k l h =
    let behind = has_head-remove_where test rest k l in
    let within = has_child-remove_where (codes "head") test children l in
    elim (Bool-cases (str_eq n (codes "html"))) [
      | inl t ↦
          let stays : test n attrs ≡ false =
            ap (λ m. test m attrs) (eq_of_str_eq n (codes "html") t) ∙ k attrs in
          elim (Bool-cases (has_child (codes "head") children)) [
            | inl c ↦ let kept = within c in ground arith
            | inr c ↦
                let kept : has_head (remove_where test rest) ≡ true = behind (ground arith) in
                ground arith
          ]
      | inr f ↦
          let kept : has_head (remove_where test rest) ≡ true = behind (ground arith) in
          ground arith
    ]

has_child-map_attributes :
    (name : Str) (g : Str → Attributes → Attributes) (f : Nodes)
    → has_child name (map_attributes g f) ≡ has_child name f
unfolding has_child map_attributes
has_child-map_attributes name g end = refl
has_child-map_attributes name g (text s rest) = has_child-map_attributes name g rest
has_child-map_attributes name g (other s rest) = has_child-map_attributes name g rest
has_child-map_attributes name g (root inside rest) = has_child-map_attributes name g rest
has_child-map_attributes name g (element n attrs children rest) =
    ap (λ b. str_eq n name || b) (has_child-map_attributes name g rest)

pub has_head-map_attributes :
    (g : Str → Attributes → Attributes) (f : Nodes) → has_head (map_attributes g f) ≡ has_head f
unfolding has_head map_attributes
has_head-map_attributes g end = refl
has_head-map_attributes g (text s rest) = has_head-map_attributes g rest
has_head-map_attributes g (other s rest) = has_head-map_attributes g rest
has_head-map_attributes g (root inside rest) = has_head-map_attributes g rest
has_head-map_attributes g (element n attrs children rest) =
    rw (has_child-map_attributes (codes "head") g children, has_head-map_attributes g rest) refl

has_child-HasElement :
    (n : Str) (attrs : Attributes) (f : Nodes)
    → has_child (codes "head") f ≡ true
    → HasElement
        (codes "head")
        (λ g. (rest : Nodes) × (g ≡ element n attrs end rest))
        (prepend_element (codes "head") n attrs f)
unfolding has_child prepend_element
has_child-HasElement n attrs end h = absurd (ground arith)
has_child-HasElement n attrs (text s rest) h = has_child-HasElement n attrs rest h
has_child-HasElement n attrs (other s rest) h = has_child-HasElement n attrs rest h
has_child-HasElement n attrs (root inside rest) h = has_child-HasElement n attrs rest h
has_child-HasElement n attrs (element m bs children rest) h =
    elim (Bool-cases (str_eq m (codes "head"))) [
      | inl t ↦ inl (
        eq_of_str_eq m (codes "head") t,
        (
          prepend_element (codes "head") n attrs children,
          ap
              (λ b.
                if b
                then element n attrs end (prepend_element (codes "head") n attrs children)
                else prepend_element (codes "head") n attrs children)
              t,
        ),
      )
      | inr f ↦ inr (has_child-HasElement n attrs rest (rw f at h))
    ]

html-neq-head : (m : Str) → m ≡ codes "html" → str_eq m (codes "head") ≡ false
unfolding str_eq
html-neq-head m e = ap (λ x. str_eq x (codes "head")) e

pub has_head-HeadBegins :
    (n : Str) (attrs : Attributes) (f : Nodes)
    → has_head f ≡ true
    → HeadBegins n attrs (prepend_element (codes "head") n attrs f)
unfolding has_head prepend_element
has_head-HeadBegins n attrs end h = absurd (ground arith)
has_head-HeadBegins n attrs (text s rest) h = has_head-HeadBegins n attrs rest h
has_head-HeadBegins n attrs (other s rest) h = has_head-HeadBegins n attrs rest h
has_head-HeadBegins n attrs (root inside rest) h = has_head-HeadBegins n attrs rest h
has_head-HeadBegins n attrs (element m bs children rest) h =
    elim (Bool-cases (str_eq m (codes "html") && has_child (codes "head") children)) [
      | inl t ↦
          let e : m ≡ codes "html" = eq_of_str_eq m (codes "html") (ground arith) in
          inl (e, rw (html-neq-head m e) (has_child-HasElement n attrs children (ground arith)))
      | inr f ↦ inr (has_head-HeadBegins n attrs rest (rw f at h))
    ]

-- The elements are those of the document and the new one.
pub prepend_element-AllElements {κ} :
    (P : Str → Attributes → Type κ) (name n : Str) (attrs : Attributes) (f : Nodes)
    → P n attrs
    → AllElements P f
    → AllElements P (prepend_element name n attrs f)
unfolding prepend_element
prepend_element-AllElements P name n attrs end p h = tt
prepend_element-AllElements P name n attrs (text s rest) p h =
    prepend_element-AllElements P name n attrs rest p h
prepend_element-AllElements P name n attrs (other s rest) p h =
    prepend_element-AllElements P name n attrs rest p h
prepend_element-AllElements P name n attrs (root inside rest) p (hi, hr) = (
  prepend_element-AllElements P name n attrs inside p hi,
  prepend_element-AllElements P name n attrs rest p hr,
)
prepend_element-AllElements P name n attrs (element m bs children rest) p (hm, hc, hr) =
    let inner = prepend_element-AllElements P name n attrs children p hc in
    let behind = prepend_element-AllElements P name n attrs rest p hr in
    elim (Bool-cases (str_eq m name)) [
      | inl t ↦ rw t (hm, (p, tt, inner), behind)
      | inr f ↦ rw f (hm, inner, behind)
    ]
