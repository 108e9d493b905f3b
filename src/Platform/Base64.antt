-- ===== src/Platform/Base64.antt =====
-- `atob` and `btoa`, by the WHATWG rules for forgiving base64. A binary string has its bytes for
-- code units.
pub mod RoundTrip
use agregado.Base.{
  ℕ, ◌+◌, ◌-◌, ◌*◌, ◌/◌, ◌%◌, ◌≡◌, refl, Bool, ◌&&◌, ◌||◌, List, [], ◌∷◌, ◌++◌, map, Option, none,
  some, ltb, leb, ◌==◌, if◌then◌else◌, length,
}
use agregado.Base.Options.{◌>>=◌}
use agregado.Text.{Str, codes}

abbrev pub is_white : ℕ → Bool
is_white c = c == 9 || (c == 10 || (c == 12 || (c == 13 || c == 32)))

unfoldable pub strip_white : Str → Str
strip_white [] = []
strip_white (c ∷ s) = let rest = strip_white s in if is_white c then rest else c ∷ rest

-- Drops one `=` at the end, if there is one.
unfoldable pub drop_pad : Str → Str
drop_pad [] = []
drop_pad (c ∷ []) = if c == b'=' then [] else c ∷ []
drop_pad (c ∷ d ∷ s) = c ∷ drop_pad (d ∷ s)

-- Drops one or two `=` at the end of a text of whole groups.
unfoldable pub strip_pad : Str → Str
strip_pad s = if length s % 4 == 0 then drop_pad (drop_pad s) else s

-- The six bits that a character of the alphabet stands for.
unfoldable pub sextet : ℕ → Option ℕ
sextet c =
    if leb b'A' c && leb c b'Z'
    then some (c - b'A')
    else if leb b'a' c && leb c b'z'
    then some (c - b'a' + 26)
    else if leb b'0' c && leb c b'9'
    then some (c - b'0' + 52)
    else if c == b'+'
    then some 62
    else if c == b'/'
    then some 63
    else none

unfoldable pub sextets : Str → Option (List ℕ)
sextets [] = some []
sextets (c ∷ s) = do x ← sextet c; xs ← sextets s; some (x ∷ xs)

-- Four groups of six bits make three bytes; the bits that are left over at the end are dropped.
unfoldable pub bytes : List ℕ → Option Str
bytes [] = some []
bytes (a ∷ []) = none
bytes (a ∷ b ∷ []) = some ((a * 4 + b / 16) ∷ [])
bytes (a ∷ b ∷ c ∷ []) = some ((a * 4 + b / 16) ∷ (b % 16 * 16 + c / 4) ∷ [])
bytes (a ∷ b ∷ c ∷ d ∷ s) = do
  rest ← bytes s
  some ((a * 4 + b / 16) ∷ (b % 16 * 16 + c / 4) ∷ (c % 4 * 64 + d) ∷ rest)

-- `none` is an InvalidCharacterError.
unfoldable pub atob : Str → Option Str
atob s = sextets (strip_pad (strip_white s)) >>= bytes

-- The encoder, which clients use.
unfoldable pub sextet_char : ℕ → ℕ
sextet_char x =
    if ltb x 26
    then b'A' + x
    else if ltb x 52
    then b'a' + (x - 26)
    else if ltb x 62
    then b'0' + (x - 52)
    else if x == 62
    then b'+'
    else b'/'

unfoldable pub groups : Str → List ℕ
groups [] = []
groups (a ∷ []) = (a / 4) ∷ (a % 4 * 16) ∷ []
groups (a ∷ b ∷ []) = (a / 4) ∷ (a % 4 * 16 + b / 16) ∷ (b % 16 * 4) ∷ []
groups (a ∷ b ∷ c ∷ s) =
    (a / 4) ∷ (a % 4 * 16 + b / 16) ∷ (b % 16 * 4 + c / 64) ∷ (c % 64) ∷ groups s

unfoldable pub padding : Str → Str
padding [] = []
padding (a ∷ []) = codes "=="
padding (a ∷ b ∷ []) = codes "="
padding (a ∷ b ∷ c ∷ s) = padding s

-- Of a binary string.
unfoldable pub btoa : Str → Str
btoa s = map sextet_char (groups s) ++ padding s

-- For evaluation: what the codec is computed by.
unfoldable pub base64_code : Unit {0}
unfolding strip_white drop_pad strip_pad sextet sextets bytes atob sextet_char groups padding btoa
base64_code = tt

base64_test :
    (btoa (codes "tldr:s3cret") ≡ codes "dGxkcjpzM2NyZXQ=")
    × (atob (codes " dGxk\tcjpzM2NyZXQ= ") ≡ some (codes "tldr:s3cret"))
    × (atob (codes "not-valid-base64!!") ≡ none)
unfolding base64_code
base64_test = (refl, refl, refl)
