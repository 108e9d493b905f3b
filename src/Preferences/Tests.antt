-- ===== src/Preferences/Tests.antt =====
-- Runs of n8n/src/preferences.js.
use agregado.Base.{◌≡◌, refl, [], ◌∷◌, ◌++◌, some}
use agregado.Base.Outcome.{ok, throws, error}
use agregado.Text.{Str, codes, str_eq}
use agregado.Text.Print.{decimal, decimal_from}
use agregado.Text.Split.{split_code}
use agregado.Text.Trim.{trim_code}
use agregado.Platform.Uri.{uri_code}
use agregado.Preferences.{
  build_requests, without_slashes, normalize, strip_lines, unix_lines, bullets_by_section,
  bullets_from, open_section, has_key, push, is_bullet, has, unique, unique_from, bullets_of,
  lines_for, keys, changes_in, changes, fit, describe_lines, describe_change, failure_message,
  error_of, detail_of, code_of, text,
}

unfoldable pub preferences_code : Unit {0}
unfolding build_requests without_slashes normalize strip_lines unix_lines bullets_by_section
    bullets_from open_section has_key push is_bullet has unique unique_from bullets_of lines_for
    keys changes_in changes fit describe_lines describe_change failure_message error_of detail_of
    code_of decimal decimal_from split_code trim_code uri_code str_eq
preferences_code = tt

normalize_test : normalize (codes "# A  \r\n- b \t\n\n") ≡ codes "# A\n- b\n"
unfolding preferences_code
normalize_test = refl

abbrev before : Str
before = codes "# P\n## Likes\n- go\n- rust\n## Hides\n- ads\n"

abbrev after : Str
after = codes "# P\n## Likes\n- go\n- antlr\n## Hides\n- ads\n"

describe_change_test :
    (describe_change before after 900 ≡ codes "+ Likes: antlr\n- Likes: rust")
    × (describe_change before before 900 ≡ codes "wording changed only")
    × (describe_change before after 20 ≡ codes "+ Likes: antlr" ++ 0x2026 ∷ codes " and 1 more")
unfolding preferences_code
describe_change_test = (refl, refl, refl)

failure_message_test :
    failure_message (codes "Store profile") (
      some (record {
        error = some (text (codes "400"));
        own = record { description = []; message = []; http_code = [] };
      }))
    ≡ codes "Preferences sync failed at \"Store profile\": 400."
unfolding preferences_code
failure_message_test = refl

build_requests_test :
    (build_requests (codes "a/b") [] ≡ throws (error (codes "AGREGADO_BASE_URL is not set")))
    × (build_requests (codes "a/b") (codes "http://h//")
        ≡ ok (record {
          export_url =
              codes
                "https://www.googleapis.com/drive/v3/files/a%2Fb/export?mimeType=text%2Fmarkdown";
          upload_url =
              codes "https://www.googleapis.com/upload/drive/v3/files/a%2Fb?uploadType=media";
          store_url = codes "http://h/api/private/preferences";
          regenerate_url = codes "http://h/api/private/preferences/regenerate";
        }))
unfolding preferences_code
build_requests_test = (refl, refl)
