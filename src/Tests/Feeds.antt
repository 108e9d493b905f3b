-- ===== src/Tests/Feeds.antt =====
-- Runs of the feed's handler and of the routes of email-worker/src/index.ts.
use mathlib.Core.List.{Mem, Memᴰ}
use agregado.Base.{ℕ, ◌≡◌, refl, true, false, sym, ap, ◌∙◌, ◌∷◌, ◌++◌, some, arith}
use agregado.Base.Options.{eq_of_some}
use agregado.Base.Outcome.{ok}
use agregado.Text.{Str, codes, str_eq, join, pad_start}
use agregado.Platform.Base64.{btoa}
use agregado.Platform.Headers.{get_header, values}
use agregado.BasicAuth.{
  parse_basic_auth, verify_secret, BasicAuthCredentials, hash_secret, to_hex, to_string_16,
  hex_from, timing_safe_equal, diff_from,
}
use agregado.BasicAuth.Parse.{parse_basic_auth-btoa, parse_basic_auth_iff}
use agregado.BasicAuth.Verify.{verify_secret-hash_secret, hash_secret-IsUtf16, verify_secret_iff}
use agregado.Platform.Utf8.{utf8_code}
use agregado.Worker.Store.{SourceRow}
use agregado.Worker.Store.Sqlite.{sqlite, find_source}
use agregado.Worker.Handlers.{not_found, unauthorized, feed_response, handle_feed_request}
use agregado.Worker.Handlers.Feed.{
  IsAccepted, IsFeed, handle_feed_request_unknown, handle_feed_request_sound,
}
use agregado.Worker.Handlers.Refused.{HasPassword, handle_feed_request_of_stranger}
use agregado.Worker.Handlers.Serving.{handle_feed_request_total, rows_at, Shows}
use agregado.Tests.Fixture.{checksum, parse_url, bridge, still, tldr, feed_request, authorization}

header_value :
    (password : Str)
    → get_header (codes "Authorization") (authorization (codes "tldr") password)
      ≡ some (codes "Basic " ++ btoa (codes "tldr" ++ b':' ∷ password))
unfolding get_header values join str_eq
header_value password = refl

abbrev pub tldr_login : Str → BasicAuthCredentials
tldr_login password = record { username = codes "tldr"; password = password }

pub parsed :
    parse_basic_auth (authorization (codes "tldr") (codes "s3cret"))
    ≡ some (tldr_login (codes "s3cret"))
parsed =
    parse_basic_auth-btoa _ (codes "tldr") (codes "s3cret") (ground arith) (ground arith)
      (ground arith) (header_value (codes "s3cret"))

accepted : IsAccepted sqlite checksum parse_url (feed_request (codes "s3cret")) still tldr
accepted = record {
  credentials = tldr_login (codes "s3cret");
  presented = parsed;
  verified = (verify_secret-hash_secret checksum (codes "s3cret") (codes "s3cret")).1 refl;
}

pub known : sqlite.source_by_id bridge.sources (codes "tldr") ≡ some tldr
unfolding find_source str_eq
known = refl

handle_feed_request_total_example :
    (body : Str) × (m : ℕ) × (handle_feed_request sqlite checksum parse_url
        (feed_request (codes "s3cret"))
        (codes "tldr")
        still
        0
      ≡ (ok (feed_response body), m))
    × Shows sqlite checksum parse_url
        (feed_request (codes "s3cret"))
        still
        tldr
        (rows_at sqlite checksum parse_url (feed_request (codes "s3cret")) still (codes "tldr") 1)
        body
handle_feed_request_total_example =
    handle_feed_request_total sqlite checksum parse_url (feed_request (codes "s3cret")) still
      (codes "tldr") tldr 0 known accepted refl refl (ground arith) (omega arith)

served :
    (body : Str) × (m : ℕ) × (handle_feed_request sqlite checksum parse_url
        (feed_request (codes "s3cret"))
        (codes "tldr")
        still
        0
      ≡ (ok (feed_response body), m))
served = let (body, m, e, shows) = handle_feed_request_total_example in (body, m, e)

handle_feed_request_sound_example :
    (source : SourceRow) × Mem source bridge.sources
    × (source.id ≡ codes "tldr")
    × IsAccepted sqlite checksum parse_url (feed_request (codes "s3cret")) still source
    × IsFeed sqlite checksum parse_url
        (feed_request (codes "s3cret"))
        still
        source
        (codes "tldr")
        1
        served.0
handle_feed_request_sound_example =
    handle_feed_request_sound sqlite checksum parse_url (feed_request (codes "s3cret")) still
      (codes "tldr") 0 served.1 (feed_response served.0) served.2 refl

handle_feed_request_unknown_example :
    handle_feed_request sqlite checksum parse_url
      (feed_request (codes "s3cret"))
      (codes "none")
      still
      0
    ≡ (ok not_found, 1)
handle_feed_request_unknown_example =
    handle_feed_request_unknown sqlite checksum parse_url (feed_request (codes "s3cret")) still
      (codes "none") 0 refl (ground arith)

parsed_guess :
    parse_basic_auth (authorization (codes "tldr") (codes "guess"))
    ≡ some (tldr_login (codes "guess"))
parsed_guess =
    parse_basic_auth-btoa _ (codes "tldr") (codes "guess") (ground arith) (ground arith)
      (ground arith) (header_value (codes "guess"))

wrong : verify_secret checksum (codes "guess") tldr.basic_auth_secret_hash ≡ false
unfolding verify_secret hash_secret utf8_code to_hex to_string_16 hex_from pad_start
    timing_safe_equal diff_from
wrong = refl

stranger : ¬ (HasPassword sqlite checksum parse_url (feed_request (codes "guess")) still tldr)
stranger (c, presents, same) =
    let parsed =
      (parse_basic_auth_iff (authorization (codes "tldr") (codes "guess")) c).1 presents in
    let guess : c ≡ tldr_login (codes "guess") =
      eq_of_some c (tldr_login (codes "guess")) (sym parsed ∙ parsed_guess) in
    let units = hash_secret-IsUtf16 checksum (codes "s3cret") in
    let accepted : verify_secret checksum (codes "guess") tldr.basic_auth_secret_hash ≡ true =
      (verify_secret_iff checksum (codes "guess") tldr.basic_auth_secret_hash units).1
        (ap (λ (d : BasicAuthCredentials). hash_secret checksum d.password) (sym guess) ∙ same) in
    absurd (ground (arith, wrong, accepted))

handle_feed_request_of_stranger_example :
    handle_feed_request sqlite checksum parse_url
      (feed_request (codes "guess"))
      (codes "tldr")
      still
      0
    ≡ (ok unauthorized, 1)
handle_feed_request_of_stranger_example =
    handle_feed_request_of_stranger sqlite checksum parse_url (feed_request (codes "guess")) still
      (codes "tldr") tldr 0 refl ∣ Memᴰ.head refl ∣₁ refl
      (hash_secret-IsUtf16 checksum (codes "s3cret"), tt) ((λ (same_id, held). stranger held), tt)
