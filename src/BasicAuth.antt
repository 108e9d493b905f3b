-- ===== src/BasicAuth.antt =====
-- email-worker/src/basicAuth.ts. SHA-256 of `crypto.subtle.digest` is a parameter.
pub mod Hex
pub mod Compare
pub mod Parse
pub mod Verify
use agregado.Base.{
  ℕ, zero, suc, ◌+◌, ◌-◌, ◌*◌, ◌/◌, ◌%◌, ◌^◌, ◌≡◌, refl, Bool, true, false, not, ◌&&◌, List, [],
  ◌∷◌, ◌++◌, flat_map, Option, none, some, ltb, ◌==◌, if◌then◌else◌, length, drop, take, get_elem?,
  All, ◌<◌,
}
use Prim.Native.Nat.{bit_or, bit_xor}
use agregado.Base.Options.{◌>>=◌}
use agregado.Text.{Str, codes, starts_with, index_of, pad_start}
use agregado.Platform.Base64.{atob}
use agregado.Platform.Headers.{get_header}
use agregado.Platform.Utf8.{encode}

abbrev pub hex_digit : ℕ → ℕ
hex_digit d = if ltb d 10 then b'0' + d else b'a' + (d - 10)

-- `n.toString(16)`, with `n` for a bound on its digits.
unfoldable pub hex_from : ℕ → ℕ → Str
hex_from zero n = hex_digit n ∷ []
hex_from (suc fuel) n = elim (ltb n 16) [
  | true ↦ hex_digit n ∷ []
  | false ↦ hex_from fuel (n / 16) ++ hex_digit (n % 16) ∷ []
]

unfoldable pub to_string_16 : ℕ → Str
to_string_16 n = hex_from n n

-- `[...bytes].map(…).join("")`
unfoldable pub to_hex : List ℕ → Str
to_hex [] = []
to_hex (b ∷ buffer) = pad_start (to_string_16 b) 2 b'0' ++ to_hex buffer

-- What `^` and `|` read of a code unit, which `charCodeAt` gives or not (NaN, which counts as 0):
-- the 32 bits of an integer.
abbrev pub to_int32 : Option ℕ → ℕ
to_int32 none = 0
to_int32 (some c) = c % 2 ^ 32

-- The loop of `timingSafeEqual`: the rounds left, `i` and `diff`.
unfoldable pub diff_from : Str → Str → ℕ → ℕ → ℕ → ℕ
diff_from a b zero i diff = diff
diff_from a b (suc rounds) i diff =
    diff_from a b rounds (i + 1)
      (bit_or diff (bit_xor (to_int32 (get_elem? a i)) (to_int32 (get_elem? b i))))

unfoldable pub timing_safe_equal : Str → Str → Bool
timing_safe_equal a b =
    if not (length a == length b) then false else diff_from a b (length a) 0 0 == 0

pub record BasicAuthCredentials : Type 0 where
  pub username : Str
  pub password : Str

-- `decoded.indexOf(":")` and the two slices.
unfoldable pub split_credentials : Str → Option BasicAuthCredentials
split_credentials decoded = do
  separator_index ← index_of decoded b':'
  some (record {
    username = take separator_index decoded;
    password = drop (separator_index + 1) decoded;
  })

unfoldable pub parse_basic_auth : List (Str × Str) → Option BasicAuthCredentials
parse_basic_auth headers = get_header (codes "Authorization") headers >>= λ header.
    if starts_with header (codes "Basic ")
    then atob (drop (length (codes "Basic ")) header) >>= split_credentials
    else none

-- A digest of SHA-256 has 32 bytes.
abbrev pub IsDigest : List ℕ → Type 0
IsDigest buffer = (length buffer ≡ 32) × All (λ b. b < 256) buffer

-- `crypto.subtle.digest("SHA-256", …)`: 32 bytes for any bytes.
pub record Digest : Type 0 where
  pub sha256 : List ℕ → List ℕ
  pub sha256-IsDigest : (message : List ℕ) → IsDigest (sha256 message)

module _ (digest : Digest) where
  unfoldable pub hash_secret : Str → Str
  hash_secret secret = to_hex (digest.sha256 (encode secret))

  unfoldable pub verify_secret : Str → Str → Bool
  verify_secret secret hash = timing_safe_equal (hash_secret secret) hash
