-- ===== src/Platform/Crypto.antt =====
-- The parts of Node's `crypto` and `Buffer` that n8n/src calls, the case map of Unicode and `Number`:
-- all of them parameters.
use agregado.Base.{ℕ, ◌≡◌, List, Option, none, some, map}
use agregado.Base.Int.{ℤ}
use agregado.Text.{Str}
use agregado.Platform.Headers.{lower}
use agregado.Platform.Utf8.Laws.{IsAscii}
use agregado.BasicAuth.{IsDigest}

-- `createHmac("sha256", key).update(message).digest()`: 32 bytes for any bytes.
pub record KeyedHash : Type 0 where
  pub hmac : List ℕ → List ℕ → List ℕ
  pub hmac-IsDigest : (key message : List ℕ) → IsDigest (hmac key message)

-- `s.toLowerCase()`, which on ASCII moves the capitals.
pub record CaseMap : Type 0 where
  pub to_lower : Str → Str
  pub to_lower_ascii : (s : Str) → IsAscii s → to_lower s ≡ map lower s

-- A finite number by the integers next to it, from below and from above.
pub record Finite : Type 0 where
  pub floor : ℤ
  pub ceil : ℤ

pub data Number : Type 0 where
  not_a_number : Number
  plus_infinity : Number
  minus_infinity : Number
  finite : Finite → Number

abbrev pub finite_of : Number → Option Finite
finite_of (finite x) = some x
finite_of _ = none

pub record NodeText : Type 0 where
  -- `Number(s)`
  pub number : Str → Number
  -- `Buffer.from(s, "base64")`
  pub base64_bytes : Str → List ℕ
