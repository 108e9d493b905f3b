-- ===== src/Platform/Headers.antt =====
-- `headers.get(name)` of the Fetch standard: names are compared without regard to ASCII case, and
-- the values of one name are joined.
use agregado.Base.{
  ℕ, ◌+◌, ◌≡◌, refl, ◌&&◌, List, [], ◌∷◌, map, Option, none, some, leb, if◌then◌else◌,
}
use agregado.Text.{Str, codes, str_eq, join}

abbrev pub lower : ℕ → ℕ
lower c = if leb b'A' c && leb c b'Z' then c + 32 else c

-- The values that a list of headers has under a name.
unfoldable pub values : Str → List (Str × Str) → List Str
values name [] = []
values name ((key, value) ∷ headers) =
    let rest = values name headers in
    if str_eq (map lower key) (map lower name) then value ∷ rest else rest

unfoldable pub get_header : Str → List (Str × Str) → Option Str
get_header name headers = elim (values name headers) [
  | [] ↦ none
  | value ∷ more ↦ some (join (value ∷ more) (codes ", "))
]

get_header_test :
    get_header (codes "Authorization") ((codes "authorization", codes "a") ∷ (codes "X", []) ∷ [])
    ≡ some (codes "a")
unfolding get_header values join str_eq
get_header_test = refl
