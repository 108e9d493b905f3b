-- ===== src/Tests/Credentials.antt =====
-- Runs of email-worker/src/basicAuth.ts.
use agregado.Base.{◌≡◌, refl, ◌↔◌, true, [], ◌∷◌, ◌++◌, some, arith}
use agregado.Text.{Str, codes}
use agregado.Platform.Base64.{btoa}
use agregado.Platform.Headers.{get_header, values}
use agregado.Text.{str_eq, join}
use agregado.Platform.Utf8.{encode}
use agregado.BasicAuth.{
  parse_basic_auth, timing_safe_equal, hash_secret, verify_secret, BasicAuthCredentials,
}
use agregado.BasicAuth.Compare.{timing_safe_equal_iff}
use agregado.BasicAuth.Parse.{Presents, parse_basic_auth_iff}
use agregado.BasicAuth.Verify.{Collision, verify_secret-hash_secret, verify_secret_of_not_ascii}
use agregado.Tests.Fixture.{checksum, zeros, authorization}

abbrev tldr_credentials : BasicAuthCredentials
tldr_credentials = record { username = codes "tldr"; password = codes "s3:cret" }

authorization_value :
    get_header (codes "Authorization") (authorization (codes "tldr") (codes "s3:cret"))
    ≡ some (codes "Basic " ++ btoa (codes "tldr:s3:cret"))
unfolding get_header values join str_eq
authorization_value = refl

parse_basic_auth_iff_example :
    (parse_basic_auth (authorization (codes "tldr") (codes "s3:cret")) ≡ some tldr_credentials)
    ↔ Presents (authorization (codes "tldr") (codes "s3:cret")) tldr_credentials
parse_basic_auth_iff_example =
    parse_basic_auth_iff (authorization (codes "tldr") (codes "s3:cret")) tldr_credentials

timing_safe_equal_iff_example :
    (timing_safe_equal (codes "ab") (codes "aB") ≡ true) ↔ (codes "ab" ≡ codes "aB")
timing_safe_equal_iff_example =
    timing_safe_equal_iff (codes "ab") (codes "aB") (ground arith) (ground arith)

verify_secret-hash_secret_example :
    (verify_secret checksum (codes "guess") (hash_secret checksum (codes "s3cret")) ≡ true)
    ↔ (checksum.sha256 (encode (codes "guess")) ≡ checksum.sha256 (encode (codes "s3cret")))
verify_secret-hash_secret_example =
    verify_secret-hash_secret checksum (codes "guess") (codes "s3cret")

abbrev accented : Str
accented = 233 ∷ []

accented_accepted : verify_secret zeros (encode accented) (hash_secret zeros accented) ≡ true
accented_accepted = (verify_secret-hash_secret zeros (encode accented) accented).1 refl

verify_secret_of_not_ascii_example : Collision zeros (encode (encode accented)) (encode accented)
verify_secret_of_not_ascii_example =
    verify_secret_of_not_ascii zeros accented (ground arith) (ground arith) accented_accepted
