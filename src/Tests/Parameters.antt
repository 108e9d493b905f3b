-- ===== src/Tests/Parameters.antt =====
-- The parameters of the n8n code at concrete functions.
use agregado.Base.{
  ℕ, ◌+◌, ◌-◌, ◌*◌, ◌≡◌, refl, true, false, ◌&&◌, [], ◌∷◌, ◌++◌, map, Option, none, some,
  if◌then◌else◌, leb, arith,
}
use agregado.Base.Int.{pos}
use agregado.Text.{Str, codes}
use agregado.Platform.Crypto.{CaseMap, KeyedHash, NodeText, finite}
use agregado.Platform.Headers.{lower}
use agregado.Enrichment.Miniflux.{CaseFold}
use agregado.Ingest.Entry.{Content}
use agregado.Ingest.Identity.{Hmac}
use agregado.Ingest.Workflow.{Settings}
use agregado.Tests.Fixture.{sum_digest, sum_digest-IsDigest}

abbrev pub ascii_case : CaseMap
ascii_case = record { to_lower = λ s. map lower s; to_lower_ascii = λ s h. refl }

abbrev pub capital : ℕ → ℕ
capital c = if leb b'a' c && leb c b'z' then c - 32 else c

pub capital_other : (c : ℕ) → leb c 127 ≡ false → leb (capital c) 127 ≡ false
capital_other c h = ground arith

abbrev pub ascii_fold : CaseFold
ascii_fold = record {
  canonical = capital;
  canonical_ascii = λ c h. refl;
  canonical_other = capital_other;
}

abbrev pub keyed_bytes : KeyedHash
keyed_bytes = record {
  hmac = λ key message. sum_digest (key ++ message);
  hmac-IsDigest = λ key message. sum_digest-IsDigest (key ++ message);
}

abbrev pub keyed_text : Hmac
keyed_text = record {
  hmac_sha256 = λ key text. sum_digest (key ++ text);
  hmac_sha256-IsDigest = λ key text. sum_digest-IsDigest (key ++ text);
}

abbrev pub value_from : ℕ → Str → ℕ
value_from n [] = n
value_from n (c ∷ s) = value_from (n * 10 + (c - b'0')) s

-- Decimal digits, and a base64 of plain bytes.
abbrev pub digits_only : NodeText
digits_only = record {
  number = λ s. finite (record { floor = pos (value_from 0 s); ceil = pos (value_from 0 s) });
  base64_bytes = λ s. s;
}

abbrev pub plain_content : Content
plain_content = record {
  resolve_canonical_url = λ archived_at html. none;
  to_readable_content = λ html text. html;
  sanitize_for_permalink = λ html. html;
  inline_assets = λ fetch html. (html, []);
  parse_date = λ date. none;
}

abbrev pub settings : Settings
settings = record { svix_secret = codes "whsec_k"; permalink_secret = codes "k"; r2_keys = true }

-- Every body is a JSON text that names itself.
abbrev pub payload_of : Str → Option Str
payload_of raw_body = some raw_body
