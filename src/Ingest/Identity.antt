-- ===== src/Ingest/Identity.antt =====
-- `permalinkUuid` of n8n/src/identity.js. HMAC-SHA-256 is a parameter.
use Prim.Native.Nat.{bit_and, bit_or}
use agregado.Base.{
  ℕ, zero, suc, ◌-◌, ◌≤◌, ◌<◌, ◌≡◌, ◌≢◌, refl, ap, sym, ◌∙◌, true, List, [], ◌∷◌, ◌++◌, Option,
  none, some, length, take, drop, ltb, All, Lacks, All-append, length-append, length-take,
  length-drop, All-take, All-drop, arith, ◌==◌, ◌||◌, Bool,
}
use agregado.Base.Options.{eq_of_some}
use agregado.Base.Tables.{is_table, look_up}
use agregado.Text.{Str, codes, pad_start}
use agregado.BasicAuth.{IsDigest, to_hex, to_string_16, hex_from}
use agregado.BasicAuth.Hex.{is_hex_digit, to_hex_lem}
use agregado.Worker.Routes.{permalink_match}
use agregado.Worker.Routes.Laws.{permalink_match_iff}

-- `createHmac("sha256", key).update(text).digest()`: 32 bytes for any key and text.
pub record Hmac : Type 0 where
  pub hmac_sha256 : Str → Str → List ℕ
  pub hmac_sha256-IsDigest : (key text : Str) → IsDigest (hmac_sha256 key text)

-- `b[i] = f(b[i])`, which does nothing behind the end.
unfoldable pub set_byte : ℕ → (ℕ → ℕ) → List ℕ → List ℕ
set_byte i f [] = []
set_byte zero f (b ∷ bs) = f b ∷ bs
set_byte (suc i) f (b ∷ bs) = b ∷ set_byte i f bs

-- `h.slice(from, to)`
abbrev pub slice : Str → ℕ → ℕ → Str
slice h from to = take (to - from) (drop from h)

-- The 16 bytes as a uuid of version 4 and the variant of RFC 9562.
unfoldable pub uuid_text : List ℕ → Str
uuid_text digest =
    let b = take 16 digest in
    let b = set_byte 6 (λ x. bit_or (bit_and x 0x0f) 0x40) b in
    let b = set_byte 8 (λ x. bit_or (bit_and x 0x3f) 0x80) b in
    let h = to_hex b in
    slice h 0 8
    ++ (b'-'
        ∷ (slice h 8 12
            ++ (b'-' ∷ (slice h 12 16 ++ (b'-' ∷ (slice h 16 20 ++ (b'-' ∷ drop 20 h)))))))

-- `none` where the code throws: the secret is missing.
unfoldable pub permalink_uuid : Hmac → Str → Str → Option Str
permalink_uuid hmac id [] = none
permalink_uuid hmac id (c ∷ secret) = some (uuid_text (hmac.hmac_sha256 (c ∷ secret) id))

uuid_text_test :
    uuid_text (0 ∷ 1 ∷ 2 ∷ 3 ∷ 4 ∷ 5 ∷ 0xf6 ∷ 7 ∷ 0xff ∷ 9 ∷ 10 ∷ 11 ∷ 12 ∷ 13 ∷ 14 ∷ 15 ∷ 16 ∷ [])
    ≡ codes "00010203-0405-4607-bf09-0a0b0c0d0e0f"
unfolding uuid_text set_byte to_hex to_string_16 hex_from pad_start
uuid_text_test = refl

length-set_byte : (i : ℕ) (f : ℕ → ℕ) (bs : List ℕ) → length (set_byte i f bs) ≡ length bs
unfolding set_byte
length-set_byte i f [] = refl
length-set_byte zero f (b ∷ bs) = refl
length-set_byte (suc i) f (b ∷ bs) = ap suc (length-set_byte i f bs)

All-set_byte :
    (i : ℕ) (f : ℕ → ℕ) (bs : List ℕ)
    → ((b : ℕ) → b < 256 → f b < 256)
    → All (λ b. b < 256) bs
    → All (λ b. b < 256) (set_byte i f bs)
unfolding set_byte
All-set_byte i f [] keep h = tt
All-set_byte zero f (b ∷ bs) keep (hb, h) = (keep b hb, h)
All-set_byte (suc i) f (b ∷ bs) keep (hb, h) = (hb, All-set_byte i f bs keep h)

masks_table :
    (is_table (λ b. ltb (bit_or (bit_and b 0x0f) 0x40) 256) 256 ≡ true)
    × (is_table (λ b. ltb (bit_or (bit_and b 0x3f) 0x80) 256) 256 ≡ true)
unfolding is_table
masks_table = (refl, refl)

version_byte : (b : ℕ) → b < 256 → bit_or (bit_and b 0x0f) 0x40 < 256
version_byte b h =
    ground
      (arith, look_up (λ b. ltb (bit_or (bit_and b 0x0f) 0x40) 256) {k = b} 256 masks_table.0 h)

variant_byte : (b : ℕ) → b < 256 → bit_or (bit_and b 0x3f) 0x80 < 256
variant_byte b h =
    ground
      (arith, look_up (λ b. ltb (bit_or (bit_and b 0x3f) 0x80) 256) {k = b} 256 masks_table.1 h)

-- A hexadecimal digit or a dash.
abbrev pub is_uuid_char : ℕ → Bool
is_uuid_char c = is_hex_digit c || c == b'-'

-- The digits and where they are cut.
abbrev pub cut : Str → Str
cut h =
    slice h 0 8
    ++ (b'-'
        ∷ (slice h 8 12
            ++ (b'-' ∷ (slice h 12 16 ++ (b'-' ∷ (slice h 16 20 ++ (b'-' ∷ drop 20 h)))))))

pub length-slice :
    (h : Str) (from to : ℕ) → from ≤ to → to ≤ length h → length (slice h from to) ≡ to - from
length-slice h from to le within = length-take _ _ (omega (arith, length-drop from h))

length-cut : (h : Str) → length h ≡ 32 → length (cut h) ≡ 36
length-cut h e = omega (
  arith,
  length-append (slice h 0 8) _,
  length-append (slice h 8 12) _,
  length-append (slice h 12 16) _,
  length-append (slice h 16 20) _,
  length-slice h 0 8 (omega arith) (omega arith),
  length-slice h 8 12 (omega arith) (omega arith),
  length-slice h 12 16 (omega arith) (omega arith),
  length-slice h 16 20 (omega arith) (omega arith),
  length-drop 20 h,
)

module _ (P : ℕ → Type 0) where
  pub All-slice : (h : Str) (from to : ℕ) → All P h → All P (slice h from to)
  All-slice h from to a = All-take P (to - from) (drop from h) (All-drop P from h a)

  All-cut : (h : Str) → P b'-' → All P h → All P (cut h)
  All-cut h dash a = All-append P _ _ (All-slice h 0 8 a) (
    dash,
    All-append P _ _ (All-slice h 8 12 a) (
      dash,
      All-append P _ _ (All-slice h 12 16 a)
          (dash, All-append P _ _ (All-slice h 16 20 a) (dash, All-drop P 20 h a)),
    ),
  )

hex-uuid : (s : Str) → All (λ c. is_hex_digit c ≡ true) s → All (λ c. is_uuid_char c ≡ true) s
hex-uuid [] h = tt
hex-uuid (c ∷ s) (hc, h) = (ground arith, hex-uuid s h)

-- The text of a uuid is cut from 32 lower-case hexadecimal digits.
pub uuid_text-cut :
    (digest : List ℕ)
    → IsDigest digest
    → (h : Str) × (uuid_text digest ≡ cut h) × (length h ≡ 32) × All (λ c. is_hex_digit c ≡ true) h
unfolding uuid_text
uuid_text-cut digest (len, bytes) =
    let versioned = set_byte 6 (λ x. bit_or (bit_and x 0x0f) 0x40) (take 16 digest) in
    let marked = set_byte 8 (λ x. bit_or (bit_and x 0x3f) 0x80) versioned in
    let (twice, hex, back) = to_hex_lem marked (
      All-set_byte 8 _ versioned variant_byte
        (All-set_byte 6 _ (take 16 digest) version_byte (All-take _ 16 digest bytes))) in
    let whole : length (to_hex marked) ≡ 32 = omega (
      arith,
      length-set_byte 8 (λ x. bit_or (bit_and x 0x3f) 0x80) versioned,
      length-set_byte 6 (λ x. bit_or (bit_and x 0x0f) 0x40) (take 16 digest),
      length-take 16 digest (omega arith),
    ) in
    (to_hex marked, refl, whole, hex)

uuid_text_form :
    (digest : List ℕ)
    → IsDigest digest
    → (length (uuid_text digest) ≡ 36) × All (λ c. is_uuid_char c ≡ true) (uuid_text digest)
uuid_text_form digest h =
    let (s, e, whole, hex) = uuid_text-cut digest h in
    rw e (length-cut s whole, All-cut (λ c. is_uuid_char c ≡ true) s refl (hex-uuid s hex))

pub not_slash : (s : Str) → All (λ c. is_uuid_char c ≡ true) s → Lacks b'/' s
not_slash [] h = tt
not_slash (c ∷ s) (hc, h) = (ground arith, not_slash s h)

-- With a secret, every id has a permalink: 36 characters, all of them lower-case hexadecimal digits
-- or dashes.
pub permalink_uuid_form :
    (hmac : Hmac) (id secret : Str)
    → secret ≢ []
    → (uuid : Str) × (permalink_uuid hmac id secret ≡ some uuid)
      × (length uuid ≡ 36)
      × All (λ c. is_uuid_char c ≡ true) uuid
unfolding permalink_uuid
permalink_uuid_form hmac id [] given = absurd (given refl)
permalink_uuid_form hmac id (c ∷ secret) given =
    let digest = hmac.hmac_sha256 (c ∷ secret) id in
    let (len, chars) = uuid_text_form digest (hmac.hmac_sha256-IsDigest (c ∷ secret) id) in
    (uuid_text digest, refl, len, chars)

-- A permalink that the ingest makes has only hexadecimal digits and dashes.
pub permalink_uuid-chars :
    (hmac : Hmac) (id secret uuid : Str)
    → permalink_uuid hmac id secret ≡ some uuid
    → (uuid ≢ []) × All (λ c. is_uuid_char c ≡ true) uuid
unfolding permalink_uuid
permalink_uuid-chars hmac id [] uuid made = absurd (ground arith)
permalink_uuid-chars hmac id (c ∷ secret) uuid made =
    let (found, e, len, chars) = permalink_uuid_form hmac id (c ∷ secret) (ground arith) in
    let same : found ≡ uuid = eq_of_some found uuid (sym e ∙ unfold permalink_uuid in made) in
    rw (← same) ((λ empty. absurd (ground (arith, ap length empty))), chars)

-- The Worker's permalink route takes the path of every permalink that the ingest makes, and captures
-- that permalink.
pub permalink_match-permalink_uuid :
    (hmac : Hmac) (id secret uuid : Str)
    → permalink_uuid hmac id secret ≡ some uuid
    → permalink_match (codes "/p/" ++ uuid) ≡ some uuid
permalink_match-permalink_uuid hmac id secret uuid made =
    let (ne, chars) = permalink_uuid-chars hmac id secret uuid made in
    (permalink_match_iff (codes "/p/" ++ uuid) uuid).1 (refl, ne, not_slash uuid chars)
