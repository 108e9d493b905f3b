-- ===== src/Tests/Preferences.antt =====
-- Runs of the laws of n8n/src/preferences.js, n8n/src/extract.js and of `entryId` of
-- n8n/src/identity.js.
use agregado.Base.{
  ◌≤◌, ◌≡◌, ◌≢◌, ◌↔◌, ◌⊎◌, refl, true, List, [], ◌∷◌, ◌++◌, some, length, All, Lacks, arith,
}
use agregado.Base.Outcome.{ok}
use agregado.BasicAuth.{to_hex}
use agregado.BasicAuth.Hex.{is_hex_digit}
use agregado.Platform.Utf8.{encode}
use agregado.Text.{Str, codes, join, str_eq}
use agregado.Text.Split.{split_code}
use agregado.Text.Trim.{trim, unwrap, trim_code}
use agregado.Ingest.Extract.{
  resolve_canonical_url, is_canonical_candidate, parse_http_url, parse_authority, after_scheme,
  after_literal, span, without_user, without_port, all_digits, segments, some_includes, is_blocked,
  has_blocked_segment, host_of, any_space,
}
use agregado.Ingest.Extract.Laws.{resolve_canonical_url_sound, HasWebScheme, IsFirstViewLink}
use agregado.Ingest.MessageId.{entry_id, entry_id-wrapped}
use agregado.Preferences.{normalize, unix_lines, bullets_by_section, changes, describe_change}
use agregado.Preferences.Changes.{SameIn, changes_iff}
use agregado.Preferences.Report.{describe_change_form}
use agregado.Preferences.Normalize.{normalize-normalize}
use agregado.Preferences.Notification.{tail_for}
use agregado.Preferences.Tests.{preferences_code}
use agregado.Tests.Fixture.{checksum}
use agregado.Tests.Parameters.{ascii_case}

abbrev before : Str
before = codes "# P\n## Likes\n- go\n- rust\n"

abbrev after : Str
after = codes "# P\n## Likes\n- go\n- antlr\n"

changes_iff_example :
    (changes before after ≡ [])
    ↔ ((section : Str) → SameIn (bullets_by_section before) (bullets_by_section after) section)
changes_iff_example = changes_iff before after

the_changes : changes before after ≡ codes "+ Likes: antlr" ∷ codes "- Likes: rust" ∷ []
unfolding preferences_code
the_changes = refl

some_changes : changes before after ≢ []
some_changes e = let same = the_changes in cc

describe_change_form_example :
    (shown : List Str) × (rest : List Str) × (changes before after ≡ shown ++ rest)
    × (length (join shown (10 ∷ [])) ≤ 20)
    × (describe_change before after 20 ≡ join shown (10 ∷ []) ++ tail_for rest)
describe_change_form_example = describe_change_form before after 20 some_changes

abbrev untidy : Str
untidy = codes "# P  \r\n- go\t\n\n"

no_returns : Lacks 13 (unix_lines untidy)
unfolding unix_lines
no_returns = ground arith

normalize-normalize_example : normalize (normalize untidy) ≡ normalize untidy
normalize-normalize_example = normalize-normalize untidy no_returns

-- Every document has one link.
abbrev links_of : Str → List (Str × Str)
links_of html = (codes "View online", codes "https://b.example/y") ∷ []

abbrev archived : Str
archived = codes " <https://a.example/x> "

archived_found :
    resolve_canonical_url ascii_case links_of archived [] ≡ some (codes "https://a.example/x")
unfolding resolve_canonical_url is_canonical_candidate parse_http_url parse_authority after_scheme
    after_literal span without_user without_port all_digits segments some_includes is_blocked
    has_blocked_segment host_of any_space split_code trim_code str_eq
archived_found = refl

resolve_canonical_url_sound_example :
    HasWebScheme (codes "https://a.example/x")
    × (((codes "https://a.example/x" ≡ trim (unwrap b'<' b'>' (trim archived)))
          × (is_canonical_candidate ascii_case (codes "https://a.example/x") ≡ true))
        ⊎ IsFirstViewLink ascii_case (links_of []) (codes "https://a.example/x"))
resolve_canonical_url_sound_example =
    resolve_canonical_url_sound ascii_case links_of archived [] (codes "https://a.example/x")
      archived_found

abbrev bare_id : Str
bare_id = codes "1.a@b"

entry_id-wrapped_example :
    (id : Str) × (entry_id checksum bare_id ≡ ok id)
    × (entry_id checksum (b'<' ∷ (bare_id ++ b'>' ∷ [])) ≡ ok id)
    × (id ≡ to_hex (checksum.sha256 (encode bare_id)))
    × (length id ≡ 64)
    × All (λ c. is_hex_digit c ≡ true) id
entry_id-wrapped_example =
    entry_id-wrapped checksum bare_id ((refl, refl), (refl, refl)) (λ e. absurd (ground arith))
