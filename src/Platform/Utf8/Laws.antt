-- ===== src/Platform/Utf8/Laws.antt =====
-- The bytes of `encode`, of ASCII text and of other text.
use agregado.Base.{
  ℕ, ◌≤◌, ◌<◌, ◌≡◌, refl, ap, sym, ◌∙◌, ◌↔◌, List, [], ◌∷◌, length, length-append, All, All-append,
  All-split, arith,
}
use agregado.Text.{Str, IsUtf16}
use agregado.Platform.Utf8.{code_points, utf8, encode_all, encode}

abbrev pub IsAscii : Str → Type 0
IsAscii = All (λ c. c < 128)

abbrev IsByte : ℕ → Type 0
IsByte b = b < 256

utf8_bytes : (c : ℕ) → c < 0x110000 → All IsByte (utf8 c)
unfolding utf8
utf8_bytes c h = ground arith

code_points_lt : (s : Str) → IsUtf16 s → All (λ c. c < 0x110000) (code_points s)
unfolding code_points
code_points_lt [] h = tt
code_points_lt (c ∷ []) (hc, h) = (ground arith, tt)
code_points_lt (c ∷ d ∷ s) (hc, (hd, h)) =
    ground (arith, code_points_lt s h, code_points_lt (d ∷ s) (hd, h))

encode_all_bytes : (cs : List ℕ) → All (λ c. c < 0x110000) cs → All IsByte (encode_all cs)
unfolding encode_all
encode_all_bytes [] h = tt
encode_all_bytes (c ∷ cs) (hc, h) =
    All-append IsByte (utf8 c) (encode_all cs) (utf8_bytes c hc) (encode_all_bytes cs h)

-- The result is made of bytes.
pub encode_bytes : (s : Str) → IsUtf16 s → All (λ b. b < 256) (encode s)
unfolding encode
encode_bytes s h = encode_all_bytes (code_points s) (code_points_lt s h)

-- A string of units below the surrogates has its units for code points.
code_points_of_low : (s : Str) → All (λ c. c < 256) s → code_points s ≡ s
unfolding code_points
code_points_of_low [] h = refl
code_points_of_low (c ∷ []) (hc, h) = ground arith
code_points_of_low (c ∷ d ∷ s) (hc, h) = ground (arith, code_points_of_low (d ∷ s) h)

encode_all_of_IsAscii : (s : Str) → IsAscii s → encode_all s ≡ s
unfolding encode_all utf8
encode_all_of_IsAscii [] h = refl
encode_all_of_IsAscii (c ∷ s) (hc, h) = ground (arith, encode_all_of_IsAscii s h)

IsAscii-IsBinary : (s : Str) → IsAscii s → All (λ c. c < 256) s
IsAscii-IsBinary [] h = tt
IsAscii-IsBinary (c ∷ s) (hc, h) = (omega arith, IsAscii-IsBinary s h)

-- ASCII text is its own UTF-8.
pub encode_of_IsAscii : (s : Str) → IsAscii s → encode s ≡ s
unfolding encode
encode_of_IsAscii s h =
    ap encode_all (code_points_of_low s (IsAscii-IsBinary s h)) ∙ encode_all_of_IsAscii s h

utf8_grows : (c : ℕ) → (1 ≤ length (utf8 c)) × (128 ≤ c → 2 ≤ length (utf8 c))
unfolding utf8
utf8_grows c = ground arith

length-encode_all : (s : List ℕ) → length s ≤ length (encode_all s)
unfolding encode_all
length-encode_all [] = omega arith
length-encode_all (c ∷ s) =
    omega (arith, length-append (utf8 c) (encode_all s), (utf8_grows c).0, length-encode_all s)

length-IsAscii : (s : List ℕ) → length (encode_all s) ≤ length s → IsAscii s
unfolding encode_all
length-IsAscii [] h = tt
length-IsAscii (c ∷ s) h =
    let (some_byte, two) = utf8_grows c in
    let total = length-append (utf8 c) (encode_all s) in
    let longer = length-encode_all s in (ground arith, length-IsAscii s (omega arith))

-- Text of bytes that is its own UTF-8 is ASCII.
encode-IsAscii : (s : Str) → All IsByte s → encode s ≡ s → IsAscii s
unfolding encode
encode-IsAscii s h e =
    let same : encode_all s ≡ s = sym (ap encode_all (code_points_of_low s h)) ∙ e in
    length-IsAscii s (omega (arith, ap length same))

utf8-IsAscii : (c : ℕ) → IsAscii (utf8 c) → c < 128
unfolding utf8
utf8-IsAscii c h = ground arith

encode_all-IsAscii : (cs : List ℕ) → IsAscii (encode_all cs) → IsAscii cs
unfolding encode_all
encode_all-IsAscii [] h = tt
encode_all-IsAscii (c ∷ cs) h =
    let (first, rest) = All-split (λ c. c < 128) (utf8 c) (encode_all cs) h in
    (utf8-IsAscii c first, encode_all-IsAscii cs rest)

code_points-IsAscii : (s : Str) → IsAscii (code_points s) → IsAscii s
unfolding code_points
code_points-IsAscii [] h = tt
code_points-IsAscii (c ∷ []) h = ground arith
code_points-IsAscii (c ∷ d ∷ s) h = ground (arith, code_points-IsAscii (d ∷ s))

-- Encoding twice changes nothing for ASCII text alone.
pub encode-encode_iff : (s : Str) → IsUtf16 s → (encode (encode s) ≡ encode s) ↔ IsAscii s
encode-encode_iff s h = (
  λ e. code_points-IsAscii s (
      encode_all-IsAscii (code_points s)
        (unfold encode in encode-IsAscii (encode s) (encode_bytes s h) e)),
  λ a. ap encode (encode_of_IsAscii s a),
)
