-- ===== src/Enrichment/Miniflux.antt =====
-- n8n/src/miniflux.js: the signature of a webhook, its entries, the permalinks of the bridge and the
-- kind of a failure.
use agregado.Base.{
  ℕ, zero, suc, ◌-◌, ◌≡◌, ◌≢◌, refl, ap, ◌↔◌, Bool, true, false, not, ◌&&◌, ◌||◌, List, [], ◌∷◌,
  ◌++◌, map, Option, none, some, if◌then◌else◌, leb, ◌==◌, length, arith,
}
use agregado.Base.Options.{◌>>=◌}
use agregado.Text.{Str, codes, str_eq}
use agregado.Text.Laws.{str_eq_iff}
use agregado.Text.Trim.{strip_end}
use agregado.Platform.Crypto.{KeyedHash, CaseMap}
use agregado.Platform.Utf8.{encode}
use agregado.BasicAuth.{to_hex}
use agregado.Ingest.Svix.{is_missing}

-- An entry of the webhook's payload, and an entry to enrich: `undefined` where a text is empty.
pub record RawEntry : Type 0 where
  pub id : ℕ
  pub url : Str
  pub title : Str
  pub author : Str
  pub published_at : Str
  pub content : Str

pub record Entry : Type 0 where
  pub id : ℕ
  pub url : Str
  pub title : Str
  pub author : Option Str
  pub published_at : Option Str
  pub feed_content : Option Str

pub record Payload : Type 0 where
  pub event_type : Str
  pub entries : Option (List RawEntry)

-- `s || undefined`
abbrev pub or_undefined : Str → Option Str
or_undefined [] = none
or_undefined (c ∷ s) = some (c ∷ s)

abbrev pub entry_of : RawEntry → Entry
entry_of e = record {
  id = e.id;
  url = e.url;
  title = e.title;
  author = or_undefined e.author;
  published_at = or_undefined e.published_at;
  feed_content = or_undefined e.content;
}

unfoldable pub parse_new_entries : Option Payload → List Entry
parse_new_entries none = []
parse_new_entries (some payload) =
    if not (str_eq payload.event_type (codes "new_entries"))
    then []
    else elim payload.entries [ none ↦ [] | some entries ↦ map entry_of entries ]

-- The raw body is a string. `timingSafeEqual` compares the bytes.
unfoldable pub verify_miniflux_signature : KeyedHash → Str → Str → Str → Bool
verify_miniflux_signature hash secret signature_header raw_body =
    if is_missing secret || is_missing signature_header
    then false
    else (let wanted = encode (to_hex (hash.hmac (encode secret) (encode raw_body))) in
        let given = encode signature_header in length given == length wanted && str_eq given wanted)

-- The `Canonicalize` of a regular expression with the flag `i`: on ASCII it is the capital, and no
-- other character has an ASCII one.
pub record CaseFold : Type 0 where
  pub canonical : ℕ → ℕ
  pub canonical_ascii :
      (c : ℕ) → leb c 127 ≡ true → canonical c ≡ (if leb b'a' c && leb c b'z' then c - 32 else c)
  pub canonical_other : (c : ℕ) → leb c 127 ≡ false → leb (canonical c) 127 ≡ false

-- `[0-9a-f]` under the flag `i`
abbrev pub is_any_hex : ℕ → Bool
is_any_hex c = leb b'0' c && leb c b'9' || (leb b'a' c && leb c b'f' || leb b'A' c && leb c b'F')

-- What follows `n` hexadecimal digits.
unfoldable pub after_hex : ℕ → Str → Option Str
after_hex zero s = some s
after_hex (suc n) [] = none
after_hex (suc n) (c ∷ s) = if is_any_hex c then after_hex n s else none

abbrev pub after_char : ℕ → Str → Option Str
after_char d [] = none
after_char d (c ∷ s) = if c == d then some s else none

-- What follows the group of the expression.
unfoldable pub after_uuid : Str → Option Str
after_uuid s = do
  s ← after_hex 8 s
  s ← after_char b'-' s
  s ← after_hex 4 s
  s ← after_char b'-' s
  s ← after_hex 4 s
  s ← after_char b'-' s
  s ← after_hex 4 s
  s ← after_char b'-' s
  after_hex 12 s

module _ (fold : CaseFold) (case_map : CaseMap) where
  -- What follows a text of the expression.
  unfoldable pub after_literal : Str → Str → Option Str
  after_literal [] s = some s
  after_literal (p ∷ ps) [] = none
  after_literal (p ∷ ps) (c ∷ s) =
      if fold.canonical p == fold.canonical c then after_literal ps s else none

  -- The escapes make the origin a text of the expression.
  unfoldable pub match_bridge_permalink : Str → Str → Option Str
  match_bridge_permalink url bridge_origin =
      if is_missing url || is_missing bridge_origin
      then none
      else elim (after_literal (strip_end (λ c. c == b'/') bridge_origin ++ codes "/p/") url) [
        | none ↦ none
        | some group ↦ elim (after_uuid group) [
          | some [] ↦ some (case_map.to_lower group)
          | _ ↦ none
        ]
      ]

abbrev pub is_digit : ℕ → Bool
is_digit c = leb b'0' c && leb c b'9'

-- `\w`
abbrev pub is_word : ℕ → Bool
is_word c = is_digit c || (leb b'a' c && leb c b'z' || (leb b'A' c && leb c b'Z' || c == b'_'))

abbrev pub ends_word : Str → Bool
ends_word [] = true
ends_word (c ∷ s) = not (is_word c)

-- `4\d{2}\b` at the start
abbrev pub is_status_4xx : Str → Bool
is_status_4xx (c ∷ d ∷ e ∷ s) = c == b'4' && (is_digit d && (is_digit e && ends_word s))
is_status_4xx _ = false

-- `/\b4\d{2}\b/` in what follows a character that is one of a word, or not.
unfoldable pub has_status_4xx : Bool → Str → Bool
has_status_4xx in_word [] = false
has_status_4xx in_word (c ∷ s) =
    let rest = has_status_4xx (is_word c) s in not in_word && is_status_4xx (c ∷ s) || rest

pub data Classification : Type 0 where
  terminal : Classification
  retryable : Classification

unfoldable pub classify_enrich_failure : Str → Classification
classify_enrich_failure message = if has_status_4xx false message then terminal else retryable

classify_test :
    (classify_enrich_failure (codes "Request failed with status code 400") ≡ terminal)
    × (classify_enrich_failure (codes "connect ETIMEDOUT") ≡ retryable)
    × (classify_enrich_failure (codes "503 - 4000 bytes, a400") ≡ retryable)
unfolding classify_enrich_failure has_status_4xx
classify_test = (refl, refl, refl)

-- A webhook is taken exactly if a secret is set and its header is the hexadecimal text of the body's
-- HMAC, in UTF-8.
pub verify_miniflux_signature_iff :
    (hash : KeyedHash) (secret signature_header raw_body : Str)
    → (verify_miniflux_signature hash secret signature_header raw_body ≡ true) ↔ (
        (secret ≢ [])
        × (signature_header ≢ [])
        × (encode signature_header ≡ encode (to_hex (hash.hmac (encode secret) (encode raw_body)))))
unfolding verify_miniflux_signature
verify_miniflux_signature_iff hash [] header body =
    ((λ h. absurd (ground arith)), λ (ne, given, e). absurd (ne refl))
verify_miniflux_signature_iff hash (c ∷ s) [] body =
    ((λ h. absurd (ground arith)), λ (ne, given, e). absurd (given refl))
verify_miniflux_signature_iff hash (c ∷ s) (d ∷ t) body =
    let wanted = encode (to_hex (hash.hmac (encode (c ∷ s)) (encode body))) in
    let same = str_eq_iff (encode (d ∷ t)) wanted in
    (
      λ h. ((λ e. ground arith), (λ e. ground arith), same.0 (ground arith)),
      λ (ne, given, e). ground (arith, same.1 e, ap length e),
    )
