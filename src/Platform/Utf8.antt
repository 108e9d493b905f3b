-- ===== src/Platform/Utf8.antt =====
-- `new TextEncoder().encode(s)`: the UTF-8 bytes of a string, where a surrogate without its partner
-- counts as U+FFFD.
pub mod Laws
use agregado.Base.{
  ℕ, ◌+◌, ◌-◌, ◌*◌, ◌/◌, ◌%◌, ◌≡◌, refl, Bool, true, false, ◌&&◌, List, [], ◌∷◌, ◌++◌, flat_map,
  ltb, leb, if◌then◌else◌,
}
use agregado.Text.{Str, codes}

abbrev pub is_high : ℕ → Bool
is_high c = leb 0xd800 c && ltb c 0xdc00

abbrev pub is_low : ℕ → Bool
is_low c = leb 0xdc00 c && ltb c 0xe000

abbrev pub scalar : ℕ → ℕ
scalar c = if leb 0xd800 c && ltb c 0xe000 then 0xfffd else c

unfoldable pub code_points : Str → List ℕ
code_points [] = []
code_points (c ∷ []) = scalar c ∷ []
code_points (c ∷ d ∷ s) = elim (is_high c && is_low d) [
  | true ↦ (0x10000 + (c - 0xd800) * 1024 + (d - 0xdc00)) ∷ code_points s
  | false ↦ scalar c ∷ code_points (d ∷ s)
]

unfoldable pub utf8 : ℕ → List ℕ
utf8 c =
    if ltb c 0x80
    then c ∷ []
    else if ltb c 0x800
    then (192 + c / 64) ∷ (128 + c % 64) ∷ []
    else if ltb c 0x10000
    then (224 + c / 4096) ∷ (128 + c / 64 % 64) ∷ (128 + c % 64) ∷ []
    else (240 + c / 262144) ∷ (128 + c / 4096 % 64) ∷ (128 + c / 64 % 64) ∷ (128 + c % 64) ∷ []

unfoldable pub encode_all : List ℕ → List ℕ
encode_all [] = []
encode_all (c ∷ cs) = utf8 c ++ encode_all cs

unfoldable pub encode : Str → List ℕ
encode s = encode_all (code_points s)

-- For evaluation: what the encoder is computed by.
unfoldable pub utf8_code : Unit {0}
unfolding code_points utf8 encode_all encode
utf8_code = tt

-- "é", "€", an emoji in two surrogates, and a surrogate alone.
encode_test :
    encode (0xe9 ∷ 0x20ac ∷ 0xd83d ∷ 0xde00 ∷ 0xd83d ∷ [])
    ≡ 0xc3 ∷ 0xa9 ∷ 0xe2 ∷ 0x82 ∷ 0xac ∷ 0xf0 ∷ 0x9f ∷ 0x98 ∷ 0x80 ∷ 0xef ∷ 0xbf ∷ 0xbd ∷ []
unfolding utf8_code
encode_test = refl
