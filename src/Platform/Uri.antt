-- ===== src/Platform/Uri.antt =====
-- `encodeURIComponent`: the UTF-8 bytes of a string, all but the unreserved characters as `%XX`.
use agregado.Base.{
  ℕ, ◌+◌, ◌-◌, ◌/◌, ◌%◌, ◌<◌, ◌≡◌, refl, Bool, true, false, not, ◌&&◌, ◌||◌, List, [], ◌∷◌, ◌++◌,
  ltb, leb, ◌==◌, if◌then◌else◌, All, All-append, arith,
}
use agregado.Base.Outcome.{Outcome, ok, throws, uri_error}
use agregado.Text.{Str, codes, IsUtf16}
use agregado.Platform.Utf8.{encode, is_high, is_low, utf8_code}
use agregado.Platform.Utf8.Laws.{encode_bytes}

abbrev pub is_surrogate : ℕ → Bool
is_surrogate c = leb 0xd800 c && ltb c 0xe000

-- Every surrogate has its partner.
unfoldable pub is_well_formed : Str → Bool
is_well_formed [] = true
is_well_formed (c ∷ []) = not (is_surrogate c)
is_well_formed (c ∷ d ∷ s) = elim (is_high c && is_low d) [
  | true ↦ is_well_formed s
  | false ↦ not (is_surrogate c) && is_well_formed (d ∷ s)
]

-- Letters, digits and `-_.!~*'()`.
abbrev pub is_unreserved : ℕ → Bool
is_unreserved c =
    (leb b'a' c && leb c b'z')
    || ((leb b'A' c && leb c b'Z')
        || ((leb b'0' c && leb c b'9')
            || (c == b'-'
                || (c == b'_'
                    || (c == b'.'
                        || (c == b'!'
                            || (c == b'~' || (c == b'*' || (leb b'\'' c && leb c b')')))))))))

abbrev pub upper_hex : ℕ → ℕ
upper_hex d = if ltb d 10 then b'0' + d else b'A' + (d - 10)

unfoldable pub percent_encode : List ℕ → Str
percent_encode [] = []
percent_encode (b ∷ bs) =
    (if is_unreserved b then b ∷ [] else b'%' ∷ upper_hex (b / 16) ∷ upper_hex (b % 16) ∷ [])
    ++ percent_encode bs

unfoldable pub encode_uri_component : Str → Outcome Str
encode_uri_component s =
    if is_well_formed s then ok (percent_encode (encode s)) else throws uri_error

-- The characters of the result: none of them ends a segment of a path or begins a query.
abbrev pub is_component_char : ℕ → Bool
is_component_char c = is_unreserved c || c == b'%'

percent_encode_chars :
    (bs : List ℕ)
    → All (λ b. b < 256) bs
    → All (λ c. is_component_char c ≡ true) (percent_encode bs)
unfolding percent_encode
percent_encode_chars [] h = tt
percent_encode_chars (b ∷ bs) (hb, h) =
    All-append (λ c. is_component_char c ≡ true) _ (percent_encode bs) (byte b hb)
      (percent_encode_chars bs h)
  where
    digit : (d : ℕ) → d < 16 → is_component_char (upper_hex d) ≡ true
    digit d small = ground arith

    byte :
        (b : ℕ)
        → b < 256
        → All
            (λ c. is_component_char c ≡ true)
            (if is_unreserved b
              then b ∷ []
              else b'%' ∷ upper_hex (b / 16) ∷ upper_hex (b % 16) ∷ [])
    byte b hb = ground (arith, digit (b / 16), digit (b % 16))

pub encode_uri_component_chars :
    (s t : Str)
    → IsUtf16 s
    → encode_uri_component s ≡ ok t
    → All (λ c. is_component_char c ≡ true) t
unfolding encode_uri_component
encode_uri_component_chars s t h e =
    ground (arith, percent_encode_chars (encode s) (encode_bytes s h))

-- For evaluation: what the encoder is computed by.
unfoldable pub uri_code : Unit {0}
unfolding encode_uri_component percent_encode is_well_formed utf8_code
uri_code = tt

encode_uri_component_test :
    encode_uri_component (codes "a b/c" ++ 0xe9 ∷ []) ≡ ok (codes "a%20b%2Fc%C3%A9")
unfolding uri_code
encode_uri_component_test = refl
