-- ===== src/BasicAuth/Parse.antt =====
-- `parseBasicAuth` of email-worker/src/basicAuth.ts against RFC 7617.
use agregado.Base.{
  ℕ, suc, ◌+◌, ◌≡◌, refl, ap, sym, ◌∙◌, ◌↔◌, List, [], ◌∷◌, ◌++◌, some, length, take, drop,
  take_of_length, All-append, Lacks, arith, Bool-cases, Option-cases, inl, inr,
}
use agregado.Base.Options.{eq_of_some}
use agregado.Text.{Str, codes, starts_with, index_of}
use agregado.Text.Laws.{starts_with-append, eq_of_starts_with, index_of-append, index_of-eq-some}
use agregado.Platform.Base64.{atob, btoa}
use agregado.Platform.Base64.RoundTrip.{atob-btoa, IsBinary}
use agregado.Platform.Headers.{get_header}
use agregado.BasicAuth.{BasicAuthCredentials, split_credentials, parse_basic_auth}

-- The user-id and the password of RFC 7617: the text up to the first colon and behind it.
abbrev pub IsPair : Str → BasicAuthCredentials → Type 0
IsPair decoded c = (decoded ≡ c.username ++ b':' ∷ c.password) × Lacks b':' c.username

split_credentials_sound :
    (decoded : Str) (c : BasicAuthCredentials)
    → split_credentials decoded ≡ some c
    → IsPair decoded c
unfolding split_credentials
split_credentials_sound decoded c h = elim (Option-cases (index_of decoded b':')) [
  | inl e ↦ absurd (ground arith)
  | inr (i, e) ↦
      let next : i + 1 ≡ suc i = omega arith in
      let found : BasicAuthCredentials = record {
        username = take i decoded;
        password = drop (suc i) decoded;
      } in
      let made : split_credentials decoded ≡ some found = rw (e, next) in
      let same : found ≡ c = eq_of_some found c (sym made ∙ h) in
      rw (← same) (index_of-eq-some b':' decoded i e)
]

drop_behind : (s t : Str) (c : ℕ) → drop (suc (length s)) (s ++ c ∷ t) ≡ t
drop_behind [] t c = refl
drop_behind (d ∷ s) t c = drop_behind s t c

drop_behind_one : (s t : Str) (c : ℕ) → drop (length s + 1) (s ++ c ∷ t) ≡ t
drop_behind_one s t c =
    let next : length s + 1 ≡ suc (length s) = omega arith in rw next (drop_behind s t c)

split_credentials_complete :
    (decoded : Str) (c : BasicAuthCredentials)
    → IsPair decoded c
    → split_credentials decoded ≡ some c
unfolding split_credentials
split_credentials_complete decoded c (whole, lacks) = rw (
  whole,
  index_of-append b':' c.username c.password lacks,
  take_of_length c.username (b':' ∷ c.password),
  drop_behind_one c.username c.password b':',
)

-- What a request says: a header of the scheme `Basic` whose base64 spells the pair.
abbrev pub Presents : List (Str × Str) → BasicAuthCredentials → Type 0
Presents headers c =
    (encoded : Str) × (get_header (codes "Authorization") headers
      ≡ some (codes "Basic " ++ encoded))
    × (atob encoded ≡ some (c.username ++ b':' ∷ c.password))
    × Lacks b':' c.username

parse_basic_auth_sound :
    (headers : List (Str × Str)) (c : BasicAuthCredentials)
    → parse_basic_auth headers ≡ some c
    → Presents headers c
unfolding parse_basic_auth
parse_basic_auth_sound headers c h =
    elim (Option-cases (get_header (codes "Authorization") headers)) [
      | inl e ↦ absurd (ground arith)
      | inr (header, e) ↦ elim (Bool-cases (starts_with header (codes "Basic "))) [
        | inr f ↦ absurd (ground arith)
        | inl t ↦ elim (Option-cases (atob (drop 6 header))) [
          | inl a ↦ absurd (ground arith)
          | inr (decoded, a) ↦
              let (whole, lacks) = split_credentials_sound decoded c (ground arith) in
              (
                drop 6 header,
                e ∙ ap some (eq_of_starts_with (codes "Basic ") header t),
                a ∙ ap some whole,
                lacks,
              )
        ]
      ]
    ]

parse_basic_auth_complete :
    (headers : List (Str × Str)) (c : BasicAuthCredentials)
    → Presents headers c
    → parse_basic_auth headers ≡ some c
unfolding parse_basic_auth
parse_basic_auth_complete headers c (encoded, got, decoded, lacks) =
    rw (got, starts_with-append (codes "Basic ") encoded, decoded)
      (split_credentials_complete _ c (refl, lacks))

-- Credentials are parsed exactly if the request presents them: an `Authorization` header of the
-- scheme `Basic` whose base64 spells the user name, a colon and the password, and no colon in the
-- user name.
pub parse_basic_auth_iff :
    (headers : List (Str × Str)) (c : BasicAuthCredentials)
    → (parse_basic_auth headers ≡ some c) ↔ Presents headers c
parse_basic_auth_iff headers c =
    (parse_basic_auth_sound headers c, parse_basic_auth_complete headers c)

-- A client that encodes a user name without a colon and any password as RFC 7617 says, both of
-- bytes, is understood.
pub parse_basic_auth-btoa :
    (headers : List (Str × Str)) (username password : Str)
    → IsBinary username
    → IsBinary password
    → Lacks b':' username
    → get_header (codes "Authorization") headers
      ≡ some (codes "Basic " ++ btoa (username ++ b':' ∷ password))
    → parse_basic_auth headers ≡ some (record { username = username; password = password })
parse_basic_auth-btoa headers username password hu hp lacks got =
    parse_basic_auth_complete headers _ (
      btoa (username ++ b':' ∷ password),
      got,
      atob-btoa _ (All-append _ username (b':' ∷ password) hu (omega arith, hp)),
      lacks,
    )
