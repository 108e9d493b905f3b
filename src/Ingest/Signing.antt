-- ===== src/Ingest/Signing.antt =====
-- `signS3Put` of n8n/src/sigv4.js. SHA-256 and HMAC-SHA-256 are parameters.
pub mod Url
use agregado.Base.{
  ℕ, zero, suc, ◌+◌, ◌≡◌, refl, Bool, true, false, not, ◌&&◌, ◌||◌, List, [], ◌∷◌, ◌++◌, map,
  Option, none, some, if◌then◌else◌, ltb, leb, ◌==◌, take,
}
use agregado.Base.Int.{ℤ, pos}
use agregado.Base.Outcome.{Outcome, ok, throws, error, ◌>>=◌}
use agregado.Text.{Str, codes, join}
use agregado.Platform.Crypto.{KeyedHash}
use agregado.Platform.Date.{to_iso_string, date_code}
use agregado.Platform.Uri.{encode_uri_component}
use agregado.Platform.Utf8.{encode}
use agregado.BasicAuth.{Digest, to_hex}
use agregado.Ingest.Svix.{is_missing}

abbrev pub is_digit : ℕ → Bool
is_digit c = leb b'0' c && leb c b'9'

-- `\.\d{3}` behind its dot
abbrev pub begins_millis : Str → Bool
begins_millis (c ∷ d ∷ e ∷ s) = is_digit c && (is_digit d && is_digit e)
begins_millis _ = false

-- `.replace(/[:-]|\.\d{3}/g, "")`, with the characters of a match that are still to go.
unfoldable pub compact : ℕ → Str → Str
compact n [] = []
compact (suc n) (c ∷ s) = compact n s
compact zero (c ∷ s) = elim (c == b':' || c == b'-') [
  | true ↦ compact zero s
  | false ↦ elim (c == b'.' && begins_millis s) [ true ↦ compact 3 s | false ↦ c ∷ compact zero s ]
]

unfoldable pub amz_date : ℤ → Outcome Str
amz_date now = do text ← to_iso_string now; ok (compact zero text)

-- The arguments of `signS3Put` but for the clock.
pub record Put : Type 0 where
  pub access_key_id : Str
  pub secret_access_key : Str
  pub region : Str
  pub host : Str
  pub bucket : Str
  pub key : Str
  pub body : Str
  pub content_type : Str

pub record SignedPut : Type 0 where
  pub url : Str
  pub content_type : Str
  pub content_sha256 : Str
  pub date : Str
  pub authorization : Str

-- The names of the four headers, sorted.
abbrev pub signed_headers : Str
signed_headers = codes "content-type;host;x-amz-content-sha256;x-amz-date"

abbrev pub header_line : Str → Str → Str
header_line name value = name ++ (b':' ∷ (value ++ 10 ∷ []))

module _ (digest : Digest) (hash : KeyedHash) where
  unfoldable pub sha256_hex : Str → Str
  sha256_hex data_text = to_hex (digest.sha256 (encode data_text))

  unfoldable pub canonical_request : Put → Str → Str → Str
  canonical_request put canonical_uri date =
      let payload = sha256_hex put.body in
      join
        (codes "PUT"
          ∷ canonical_uri
          ∷ []
          ∷ (header_line (codes "content-type") put.content_type
              ++ (header_line (codes "host") put.host
                  ++ (header_line (codes "x-amz-content-sha256") payload
                      ++ header_line (codes "x-amz-date") date)))
          ∷ signed_headers
          ∷ payload
          ∷ [])
        (10 ∷ [])

  unfoldable pub signing_chain : Put → Str → List ℕ
  signing_chain put date_stamp =
      let k_date = hash.hmac (encode (codes "AWS4" ++ put.secret_access_key)) (encode date_stamp) in
      let k_region = hash.hmac k_date (encode put.region) in
      let k_service = hash.hmac k_region (encode (codes "s3")) in
      hash.hmac k_service (encode (codes "aws4_request"))

  unfoldable pub sign_with : Put → Str → Str → SignedPut
  sign_with put canonical_uri date =
      let date_stamp = take 8 date in
      let scope = date_stamp ++ (b'/' ∷ (put.region ++ codes "/s3/aws4_request")) in
      let string_to_sign =
        join
          (codes "AWS4-HMAC-SHA256"
            ∷ date
            ∷ scope
            ∷ sha256_hex (canonical_request put canonical_uri date)
            ∷ [])
          (10 ∷ []) in
      let signature = to_hex (hash.hmac (signing_chain put date_stamp) (encode string_to_sign)) in
      record {
        url = codes "https://" ++ (put.host ++ canonical_uri);
        content_type = put.content_type;
        content_sha256 = sha256_hex put.body;
        date = date;
        authorization =
            codes "AWS4-HMAC-SHA256 Credential="
            ++ (put.access_key_id
                ++ (b'/'
                    ∷ (scope
                        ++ (codes ", SignedHeaders="
                            ++ (signed_headers ++ (codes ", Signature=" ++ signature))))));
      }

  unfoldable pub sign_s3_put : Put → ℤ → Outcome SignedPut
  sign_s3_put put now =
      if is_missing put.access_key_id || is_missing put.secret_access_key
      then throws (error (codes "R2 access key id/secret are required"))
      else (do
        date ← amz_date now
        key ← encode_uri_component put.key
        ok (sign_with put (b'/' ∷ (put.bucket ++ (b'/' ∷ key))) date))

amz_date_test : amz_date (pos 1700000000000) ≡ ok (codes "20231114T221320Z")
unfolding amz_date compact date_code
amz_date_test = refl
