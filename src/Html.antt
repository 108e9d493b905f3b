-- ===== src/Html.antt =====
-- Documents as cheerio gives them to n8n/src/sanitize.js and n8n/src/assets.js. Cheerio itself is a
-- parameter, with laws for the changes that those make.
pub mod Laws
pub mod Head
use agregado.Base.{
  ℕ, ◌≡◌, refl, Bool, true, false, not, ◌&&◌, ◌||◌, List, [], ◌∷◌, ◌++◌, Option, none, some,
  if◌then◌else◌,
}
use agregado.Text.{Str, codes, str_eq}

-- `el.attribs`: its keys are different.
abbrev pub Attributes : Type 0
Attributes = List (Str × Str)

-- A list of nodes: a first node, and the nodes behind it in the last argument. An element has a name,
-- attributes and children; `other` is a comment or a directive; `root` is the node of type `root` that
-- holds what is in a `template` element, and is its child.
pub data Nodes : Type 0 where
  end : Nodes
  text : Str → Nodes → Nodes
  other : Str → Nodes → Nodes
  root : Nodes → Nodes → Nodes
  element : Str → Attributes → Nodes → Nodes → Nodes

-- A loaded document has an `html` element with a `head` in it.
unfoldable pub has_child : Str → Nodes → Bool
has_child name end = false
has_child name (text s rest) = has_child name rest
has_child name (other s rest) = has_child name rest
has_child name (root inside rest) = has_child name rest
has_child name (element n attrs children rest) = str_eq n name || has_child name rest

unfoldable pub has_head : Nodes → Bool
has_head end = false
has_head (text s rest) = has_head rest
has_head (other s rest) = has_head rest
has_head (root inside rest) = has_head rest
has_head (element n attrs children rest) =
    str_eq n (codes "html") && has_child (codes "head") children || has_head rest

-- A name of a list of selectors.
unfoldable pub one_of : Str → List Str → Bool
one_of name [] = false
one_of name (n ∷ ns) = str_eq name n || one_of name ns

-- `$(el).attr(name)`, none for `undefined`.
unfoldable pub attribute : Str → Attributes → Option Str
attribute name [] = none
attribute name ((key, value) ∷ attrs) = elim (str_eq key name) [
  | true ↦ some value
  | false ↦ attribute name attrs
]

-- The attributes that a test keeps.
unfoldable pub keep : (Str × Str → Bool) → Attributes → Attributes
keep test [] = []
keep test (a ∷ attrs) = let rest = keep test attrs in if test a then a ∷ rest else rest

-- `removeAttr(name)`
abbrev pub remove_attribute : Str → Attributes → Attributes
remove_attribute name attrs = keep (λ a. not (str_eq a.0 name)) attrs

-- `$(el).attr(name, value)` of an attribute that is there.
unfoldable pub set_attribute : Str → Str → Attributes → Attributes
set_attribute name value [] = []
set_attribute name value ((key, old) ∷ attrs) =
    (key, if str_eq key name then value else old) ∷ set_attribute name value attrs

-- The document without the elements that fit a test.
unfoldable pub remove_where : (Str → Attributes → Bool) → Nodes → Nodes
remove_where test end = end
remove_where test (text s rest) = text s (remove_where test rest)
remove_where test (other s rest) = other s (remove_where test rest)
remove_where test (root inside rest) = root (remove_where test inside) (remove_where test rest)
remove_where test (element n attrs children rest) =
    let inner = remove_where test children in
    let behind = remove_where test rest in
    if test n attrs then behind else element n attrs inner behind

-- A change of each element's attributes.
unfoldable pub map_attributes : (Str → Attributes → Attributes) → Nodes → Nodes
map_attributes f end = end
map_attributes f (text s rest) = text s (map_attributes f rest)
map_attributes f (other s rest) = other s (map_attributes f rest)
map_attributes f (root inside rest) = root (map_attributes f inside) (map_attributes f rest)
map_attributes f (element n attrs children rest) =
    element n (f n attrs) (map_attributes f children) (map_attributes f rest)

-- A new first child, without children, of each element of a name.
unfoldable pub prepend_element : Str → Str → Attributes → Nodes → Nodes
prepend_element name n attrs end = end
prepend_element name n attrs (text s rest) = text s (prepend_element name n attrs rest)
prepend_element name n attrs (other s rest) = other s (prepend_element name n attrs rest)
prepend_element name n attrs (root inside rest) =
    root (prepend_element name n attrs inside) (prepend_element name n attrs rest)
prepend_element name n attrs (element m bs children rest) =
    let inner = prepend_element name n attrs children in
    element m bs (if str_eq m name then element n attrs end inner else inner)
      (prepend_element name n attrs rest)

-- The queries and the changes of cheerio, and what they do to a document that has been loaded: `load`
-- and `html()`, and for a selector that looks at one element alone, given as a test, `$(…).remove()`.
-- `each` changes the attributes of every element, `prepend` puts an element without children into
-- each element of a name, `exists` is `$(name).length`, and `contents` is `$(name).contents()`.
pub record Cheerio : Type 0 where
  pub load : Str → Nodes
  pub html : Nodes → Str
  pub remove : (Str → Attributes → Bool) → Nodes → Nodes
  pub each : (Str → Attributes → Attributes) → Nodes → Nodes
  pub prepend : Str → Str → Attributes → Nodes → Nodes
  pub exists : Str → Nodes → Bool
  pub contents : Str → Nodes → Nodes
  pub load-has_head : (source : Str) → has_head (load source) ≡ true
  pub remove_lem :
      (test : Str → Attributes → Bool) (f : Nodes) → remove test f ≡ remove_where test f
  pub each_lem : (g : Str → Attributes → Attributes) (f : Nodes) → each g f ≡ map_attributes g f
  pub prepend_lem :
      (name n : Str) (attrs : Attributes) (f : Nodes)
      → prepend name n attrs f ≡ prepend_element name n attrs f

-- Every element satisfies `P`.
abbrev pub AllElements {κ} : (Str → Attributes → Type κ) → Nodes → Type κ
AllElements P end = Unit
AllElements P (text s rest) = AllElements P rest
AllElements P (other s rest) = AllElements P rest
AllElements P (root inside rest) = AllElements P inside × AllElements P rest
AllElements P (element n attrs children rest) =
    P n attrs × AllElements P children × AllElements P rest
