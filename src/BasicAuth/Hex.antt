-- ===== src/BasicAuth/Hex.antt =====
-- `toHex` of email-worker/src/basicAuth.ts: the form of its text, and a reader of it.
use agregado.Base.{
  ℕ, ◌+◌, ◌-◌, ◌*◌, ◌/◌, ◌%◌, ◌<◌, ◌≡◌, refl, Bool, true, ◌&&◌, ◌||◌, List, [], ◌∷◌, Option, none,
  some, leb, if◌then◌else◌, length, All, arith,
}
use agregado.Base.Tables.{is_table, look_up}
use agregado.Base.Options.{◌>>=◌, eq_of_some}
use agregado.Text.{Str, pad_start, str_eq}
use agregado.Text.Laws.{eq_of_str_eq}
use agregado.BasicAuth.{to_hex, to_string_16, hex_from, hex_digit}

abbrev pub is_hex_digit : ℕ → Bool
is_hex_digit c = leb b'0' c && leb c b'9' || leb b'a' c && leb c b'f'

abbrev digit_value : ℕ → ℕ
digit_value c = if leb c b'9' then c - b'0' else c - b'a' + 10

-- Reads pairs of hexadecimal digits.
unfoldable pub from_hex : Str → Option (List ℕ)
from_hex [] = some []
from_hex (c ∷ []) = none
from_hex (c ∷ d ∷ s) = do rest ← from_hex s; some ((digit_value c * 16 + digit_value d) ∷ rest)

abbrev byte_hex : ℕ → Str
byte_hex b = hex_digit (b / 16) ∷ hex_digit (b % 16) ∷ []

-- `padStart` adds the digit that `toString(16)` leaves off below 16.
byte_table : is_table (λ b. str_eq (pad_start (to_string_16 b) 2 b'0') (byte_hex b)) 256 ≡ true
unfolding is_table to_string_16 hex_from pad_start str_eq
byte_table = refl

padded_byte : (b : ℕ) → b < 256 → pad_start (to_string_16 b) 2 b'0' ≡ byte_hex b
padded_byte b h = eq_of_str_eq _ _ (look_up _ 256 byte_table h)

digit : (x : ℕ) → x < 16 → (is_hex_digit (hex_digit x) ≡ true) × (digit_value (hex_digit x) ≡ x)
digit x h = ground arith

-- A list of bytes is written as two digits for each: the text is twice as long, has only lower-case
-- hexadecimal digits, and reads back as the bytes.
pub to_hex_lem :
    (buffer : List ℕ)
    → All (λ b. b < 256) buffer
    → (length (to_hex buffer) ≡ 2 * length buffer)
      × All (λ c. is_hex_digit c ≡ true) (to_hex buffer)
      × (from_hex (to_hex buffer) ≡ some buffer)
unfolding to_hex from_hex
to_hex_lem [] h = (refl, tt, refl)
to_hex_lem (b ∷ buffer) (small, h) =
    let (len, hex, back) = to_hex_lem buffer h in
    let (high_digit, high) = digit (b / 16) (omega arith) in
    let (low_digit, low) = digit (b % 16) (omega arith) in
    let value : b / 16 * 16 + b % 16 ≡ b = omega arith in
    rw (padded_byte b small)
      (omega arith, (high_digit, (low_digit, hex)), rw (back, high, low, value))

-- Two digests with one text are the same bytes.
pub to_hex-injective :
    (s t : List ℕ) → All (λ b. b < 256) s → All (λ b. b < 256) t → to_hex s ≡ to_hex t → s ≡ t
to_hex-injective s t hs ht e = eq_of_some s t (cc ((to_hex_lem s hs).2, (to_hex_lem t ht).2))
