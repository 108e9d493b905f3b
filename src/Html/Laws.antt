-- ===== src/Html/Laws.antt =====
-- What the changes of a document do to its elements.
use agregado.Base.{
  ◌≡◌, refl, sym, ap, ◌∙◌, Bool, true, false, [], ◌∷◌, none, All, Bool-cases, inl, inr, arith,
}
use mathlib.Core.Path.{subst}
use agregado.Text.{Str, str_eq}
use agregado.Text.Laws.{eq_of_str_eq}
use agregado.Html.{
  Attributes, Nodes, end, text, other, root, element, attribute, keep, remove_attribute,
  remove_where, map_attributes, AllElements, Cheerio,
}

module _ {κ} (P : Str → Attributes → Type κ) where
  -- What is left satisfies what held before, and not the test.
  pub remove_where-AllElements :
      (test : Str → Attributes → Bool) (f : Nodes)
      → AllElements P f
      → AllElements (λ n attrs. P n attrs × (test n attrs ≡ false)) (remove_where test f)
  unfolding remove_where
  remove_where-AllElements test end h = tt
  remove_where-AllElements test (text s rest) h = remove_where-AllElements test rest h
  remove_where-AllElements test (other s rest) h = remove_where-AllElements test rest h
  remove_where-AllElements test (root inside rest) (hi, hr) =
      (remove_where-AllElements test inside hi, remove_where-AllElements test rest hr)
  remove_where-AllElements test (element n attrs children rest) (hn, hc, hr) =
      elim (Bool-cases (test n attrs)) [
        | inl t ↦ rw t (remove_where-AllElements test rest hr)
        | inr f ↦ rw f (
          (hn, f),
          remove_where-AllElements test children hc,
          remove_where-AllElements test rest hr,
        )
      ]

  pub map_attributes-AllElements {ι} :
      (Q : Str → Attributes → Type ι) (g : Str → Attributes → Attributes) (f : Nodes)
      → ((n : Str) (attrs : Attributes) → P n attrs → Q n (g n attrs))
      → AllElements P f
      → AllElements Q (map_attributes g f)
  unfolding map_attributes
  map_attributes-AllElements Q g end keeps h = tt
  map_attributes-AllElements Q g (text s rest) keeps h = map_attributes-AllElements Q g rest keeps h
  map_attributes-AllElements Q g (other s rest) keeps h =
      map_attributes-AllElements Q g rest keeps h
  map_attributes-AllElements Q g (root inside rest) keeps (hi, hr) =
      (map_attributes-AllElements Q g inside keeps hi, map_attributes-AllElements Q g rest keeps hr)
  map_attributes-AllElements Q g (element n attrs children rest) keeps (hn, hc, hr) = (
    keeps n attrs hn,
    map_attributes-AllElements Q g children keeps hc,
    map_attributes-AllElements Q g rest keeps hr,
  )

  pub AllElements-every :
      (f : Nodes) → ((n : Str) (attrs : Attributes) → P n attrs) → AllElements P f
  AllElements-every end h = tt
  AllElements-every (text s rest) h = AllElements-every rest h
  AllElements-every (other s rest) h = AllElements-every rest h
  AllElements-every (root inside rest) h = (AllElements-every inside h, AllElements-every rest h)
  AllElements-every (element n attrs children rest) h =
      (h n attrs, AllElements-every children h, AllElements-every rest h)

-- Nothing is removed where no element fits, and nothing changed where no attributes are.
pub remove_where_of_none :
    (test : Str → Attributes → Bool) (f : Nodes)
    → AllElements (λ n attrs. test n attrs ≡ false) f
    → remove_where test f ≡ f
unfolding remove_where
remove_where_of_none test end h = refl
remove_where_of_none test (text s rest) h = ap (text s) (remove_where_of_none test rest h)
remove_where_of_none test (other s rest) h = ap (other s) (remove_where_of_none test rest h)
remove_where_of_none test (root inside rest) (hi, hr) =
    rw (remove_where_of_none test inside hi, remove_where_of_none test rest hr) refl
remove_where_of_none test (element n attrs children rest) (hn, hc, hr) =
    rw (hn, remove_where_of_none test children hc, remove_where_of_none test rest hr) refl

pub map_attributes_of_same :
    (g : Str → Attributes → Attributes) (f : Nodes)
    → AllElements (λ n attrs. g n attrs ≡ attrs) f
    → map_attributes g f ≡ f
unfolding map_attributes
map_attributes_of_same g end h = refl
map_attributes_of_same g (text s rest) h = ap (text s) (map_attributes_of_same g rest h)
map_attributes_of_same g (other s rest) h = ap (other s) (map_attributes_of_same g rest h)
map_attributes_of_same g (root inside rest) (hi, hr) =
    rw (map_attributes_of_same g inside hi, map_attributes_of_same g rest hr) refl
map_attributes_of_same g (element n attrs children rest) (hn, hc, hr) =
    rw (hn, map_attributes_of_same g children hc, map_attributes_of_same g rest hr) refl

-- An attribute that a test keeps under every value is not touched.
pub attribute-keep :
    (test : Str × Str → Bool) (name : Str) (attrs : Attributes)
    → ((value : Str) → test (name, value) ≡ true)
    → attribute name (keep test attrs) ≡ attribute name attrs
unfolding attribute keep
attribute-keep test name [] kept = refl
attribute-keep test name ((key, value) ∷ attrs) kept =
    let rest = attribute-keep test name attrs kept in
    let here = λ (t : str_eq key name ≡ true).
      subst (λ k. test (k, value) ≡ true) (sym (eq_of_str_eq key name t)) (kept value) in
    elim (Bool-cases (str_eq key name)) [
      | inl t ↦ let passed : test (key, value) ≡ true = here t in ground arith
      | inr f ↦ ground arith
    ]

-- What is kept has passed the test, and what was kept of an attribute with the property.
pub keep-All :
    (test : Str × Str → Bool) (attrs : Attributes) → All (λ a. test a ≡ true) (keep test attrs)
unfolding keep
keep-All test [] = tt
keep-All test (a ∷ attrs) = elim (Bool-cases (test a)) [
  | inl t ↦ rw t (t, keep-All test attrs)
  | inr f ↦ rw f (keep-All test attrs)
]

pub All-keep {κ} :
    (P : Str × Str → Type κ) (test : Str × Str → Bool) (attrs : Attributes)
    → All P attrs
    → All P (keep test attrs)
unfolding keep
All-keep P test [] h = tt
All-keep P test (a ∷ attrs) (ha, h) = elim (Bool-cases (test a)) [
  | inl t ↦ rw t (ha, All-keep P test attrs h)
  | inr f ↦ rw f (All-keep P test attrs h)
]

pub keep_of_All :
    (test : Str × Str → Bool) (attrs : Attributes)
    → All (λ a. test a ≡ true) attrs
    → keep test attrs ≡ attrs
unfolding keep
keep_of_All test [] h = refl
keep_of_All test (a ∷ attrs) (ha, h) = rw (ha, keep_of_All test attrs h) refl

pub remove_attribute_lem :
    (name : Str) (attrs : Attributes) → attribute name (remove_attribute name attrs) ≡ none
unfolding attribute keep
remove_attribute_lem name [] = refl
remove_attribute_lem name ((key, value) ∷ attrs) = elim (Bool-cases (str_eq key name)) [
  | inl t ↦ rw t (remove_attribute_lem name attrs)
  | inr f ↦ rw (f, attribute, f) (remove_attribute_lem name attrs)
]

pub remove_attribute_of_none :
    (name : Str) (attrs : Attributes)
    → attribute name attrs ≡ none
    → remove_attribute name attrs ≡ attrs
unfolding attribute keep
remove_attribute_of_none name [] h = refl
remove_attribute_of_none name ((key, value) ∷ attrs) h =
    ground (arith, remove_attribute_of_none name attrs)

pub AllElements-map {κ ι} :
    (P : Str → Attributes → Type κ) (Q : Str → Attributes → Type ι) (f : Nodes)
    → ((n : Str) (attrs : Attributes) → P n attrs → Q n attrs)
    → AllElements P f
    → AllElements Q f
AllElements-map P Q end k h = tt
AllElements-map P Q (text s rest) k h = AllElements-map P Q rest k h
AllElements-map P Q (other s rest) k h = AllElements-map P Q rest k h
AllElements-map P Q (root inside rest) k (hi, hr) =
    (AllElements-map P Q inside k hi, AllElements-map P Q rest k hr)
AllElements-map P Q (element n attrs children rest) k (hn, hc, hr) =
    (k n attrs hn, AllElements-map P Q children k hc, AllElements-map P Q rest k hr)

-- A removal, two changes and a removal, one behind the other.
pub Cheerio-passes :
    (cheerio : Cheerio) (t u : Str → Attributes → Bool) (g h : Str → Attributes → Attributes)
    (f : Nodes)
    → cheerio.remove u (cheerio.each h (cheerio.each g (cheerio.remove t f)))
      ≡ remove_where u (map_attributes h (map_attributes g (remove_where t f)))
Cheerio-passes cheerio t u g h f =
    ap (λ x. cheerio.remove u (cheerio.each h (cheerio.each g x))) (cheerio.remove_lem t f)
    ∙ (ap (λ x. cheerio.remove u (cheerio.each h x)) (cheerio.each_lem g (remove_where t f))
        ∙ (ap (cheerio.remove u) (cheerio.each_lem h (map_attributes g (remove_where t f)))
            ∙ cheerio.remove_lem u (map_attributes h (map_attributes g (remove_where t f)))))
