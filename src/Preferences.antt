-- ===== src/Preferences.antt =====
-- n8n/src/preferences.js: the requests, the normal form of the PREFERENCES document, the bullets of
-- its sections and the description of a change. An environment variable that is not set and a field
-- that is not there are empty texts, which the code treats alike.
pub mod Workflow
pub mod Tests
pub mod Notification
pub mod Changes
pub mod Report
pub mod Normalize
use agregado.Base.{
  ℕ, zero, suc, ◌+◌, ◌-◌, ◌≡◌, refl, Bool, true, false, not, ◌&&◌, ◌||◌, List, [], ◌∷◌, ◌++◌, map,
  Option, none, some, ltb, ◌==◌, if◌then◌else◌, length, drop,
}
use agregado.Base.Outcome.{Outcome, ok, throws, error, ◌>>=◌}
use agregado.Text.{Str, codes, str_eq, join, starts_with}
use agregado.Text.Print.{decimal}
use agregado.Text.Split.{split, includes}
use agregado.Text.Trim.{strip_end, trim}
use agregado.Platform.Uri.{encode_uri_component}

pub record Requests : Type 0 where
  pub export_url : Str
  pub upload_url : Str
  pub store_url : Str
  pub regenerate_url : Str

abbrev pub drive_api : Str
drive_api = codes "https://www.googleapis.com/drive/v3/files"

abbrev pub drive_upload_api : Str
drive_upload_api = codes "https://www.googleapis.com/upload/drive/v3/files"

abbrev pub is_empty : Str → Bool
is_empty [] = true
is_empty (_ ∷ _) = false

-- `url.replace(/\/+$/, "")`
unfoldable pub without_slashes : Str → Str
without_slashes url = strip_end (λ c. c == b'/') url

unfoldable pub build_requests : Str → Str → Outcome Requests
build_requests doc_id base_url =
    if is_empty doc_id
    then throws (error (codes "PREFERENCES_DOC_ID is not set"))
    else if is_empty base_url
    then throws (error (codes "AGREGADO_BASE_URL is not set"))
    else (do
      id ← encode_uri_component doc_id
      let base = without_slashes base_url
      ok (record {
        export_url = drive_api ++ (b'/' ∷ (id ++ codes "/export?mimeType=text%2Fmarkdown"));
        upload_url = drive_upload_api ++ (b'/' ∷ (id ++ codes "?uploadType=media"));
        store_url = base ++ codes "/api/private/preferences";
        regenerate_url = base ++ codes "/api/private/preferences/regenerate";
      }))

-- `text.replace(/\r\n/g, "\n")`
unfoldable pub unix_lines : Str → Str
unix_lines [] = []
unix_lines (c ∷ []) = c ∷ []
unix_lines (c ∷ d ∷ s) = elim (c == 13 && d == 10) [
  | true ↦ 10 ∷ unix_lines s
  | false ↦ c ∷ unix_lines (d ∷ s)
]

abbrev pub is_blank : ℕ → Bool
is_blank c = c == 32 || c == 9

unfoldable pub strip_lines : Str → Str
strip_lines text = join (map (strip_end is_blank) (split text 10)) (10 ∷ [])

unfoldable pub normalize : Str → Str
normalize text = trim (strip_lines (unix_lines text)) ++ 10 ∷ []

-- The sections in the order of their first headings. A title that spells an array index, which
-- JavaScript puts first, or a name of `Object.prototype` stands for itself here.
abbrev pub Sections : Type 0
Sections = List (Str × List Str)

unfoldable pub has_key : Str → Sections → Bool
has_key title [] = false
has_key title ((t, bullets) ∷ sections) = str_eq t title || has_key title sections

-- `sections[title] = sections[title] || []`
unfoldable pub open_section : Str → Sections → Sections
open_section title sections =
    if has_key title sections then sections else sections ++ (title, []) ∷ []

-- `sections[title].push(bullet)`
unfoldable pub push : Str → Str → Sections → Sections
push title bullet [] = []
push title bullet ((t, bullets) ∷ sections) =
    if str_eq t title
    then (t, bullets ++ bullet ∷ []) ∷ sections
    else (t, bullets) ∷ push title bullet sections

-- `/^[-*] /.test(line)`
unfoldable pub is_bullet : Str → Bool
is_bullet line = starts_with line (codes "- ") || starts_with line (codes "* ")

-- The loop over the lines: `sections` and `current`, empty for null.
unfoldable pub bullets_from : List Str → Sections → Str → Sections
bullets_from [] sections current = sections
bullets_from (line ∷ lines) sections current =
    let title = trim (drop 3 line) in
    let heading = bullets_from lines (open_section title sections) title in
    let bullet = bullets_from lines (push current (trim (drop 2 line)) sections) current in
    let other = bullets_from lines sections current in
    if starts_with line (codes "## ")
    then heading
    else if not (is_empty current) && is_bullet line
    then bullet
    else other

unfoldable pub bullets_by_section : Str → Sections
bullets_by_section text = bullets_from (split (normalize text) 10) [] []

unfoldable pub has : List Str → Str → Bool
has [] s = false
has (t ∷ ts) s = str_eq t s || has ts s

-- `[...new Set(items)]`
unfoldable pub unique_from : List Str → List Str → List Str
unique_from seen [] = seen
unique_from seen (s ∷ ss) = unique_from (if has seen s then seen else seen ++ s ∷ []) ss

unfoldable pub unique : List Str → List Str
unique items = unique_from [] items

-- `sections[title] || []`
unfoldable pub bullets_of : Str → Sections → List Str
bullets_of title [] = []
bullets_of title ((t, bullets) ∷ sections) =
    if str_eq t title then bullets else bullets_of title sections

-- The bullets that a set lacks, each on a line behind a sign and its section.
unfoldable pub lines_for : ℕ → Str → List Str → List Str → List Str
lines_for sign section others [] = []
lines_for sign section others (bullet ∷ bullets) =
    let rest = lines_for sign section others bullets in
    if has others bullet then rest else (sign ∷ 32 ∷ (section ++ (codes ": " ++ bullet))) ∷ rest

unfoldable pub keys : Sections → List Str
keys [] = []
keys ((t, bullets) ∷ sections) = t ∷ keys sections

unfoldable pub changes_in : Sections → Sections → List Str → List Str
changes_in a b [] = []
changes_in a b (section ∷ sections) =
    let was = unique (bullets_of section a) in
    let now = unique (bullets_of section b) in
    lines_for b'+' section was now ++ (lines_for b'-' section now was ++ changes_in a b sections)

unfoldable pub changes : Str → Str → List Str
changes before after =
    let a = bullets_by_section before in
    let b = bullets_by_section after in changes_in a b (unique (keys a ++ keys b))

abbrev pub more_tail : ℕ → Str
more_tail count = 0x2026 ∷ (codes " and " ++ (decimal count ++ codes " more"))

-- The loop that fills the notification: the lines left and `out`.
unfoldable pub fit : ℕ → List Str → Str → Str
fit max_chars [] out = out
fit max_chars (line ∷ lines) out =
    let rest = fit max_chars lines (out ++ ((if is_empty out then [] else 10 ∷ []) ++ line)) in
    if ltb max_chars (length out + length line + 1)
    then out ++ more_tail (length (line ∷ lines))
    else rest

unfoldable pub describe_lines : ℕ → List Str → Str
describe_lines max_chars [] = codes "wording changed only"
describe_lines max_chars (line ∷ lines) = fit max_chars (line ∷ lines) []

unfoldable pub describe_change : Str → Str → ℕ → Str
describe_change before after max_chars = describe_lines max_chars (changes before after)

abbrev pub default_max_chars : ℕ
default_max_chars = 900

-- What an HTTP node says of an error.
pub record ErrorInfo : Type 0 where
  pub description : Str
  pub message : Str
  pub http_code : Str

pub data ErrorValue : Type 0 where
  text : Str → ErrorValue
  info : ErrorInfo → ErrorValue

-- The item that a failed node passes on: its field `error`, if there is one, and the item's own
-- fields.
pub record Item : Type 0 where
  pub error : Option ErrorValue
  pub own : ErrorInfo

abbrev pub no_info : ErrorInfo
no_info = record { description = []; message = []; http_code = [] }

-- `(item && item.error) || item || {}`; an empty text counts as no error.
unfoldable pub error_of : Option Item → ErrorValue
error_of none = info no_info
error_of (some item) = elim item.error [
  | none ↦ info item.own
  | some e ↦ elim e [ info i ↦ info i | text t ↦ if is_empty t then info item.own else text t ]
]

-- `a || b` of two texts.
abbrev pub or_else : Str → Str → Str
or_else [] t = t
or_else (c ∷ s) t = c ∷ s

unfoldable pub detail_of : ErrorValue → Str
detail_of (text t) = or_else t (codes "unknown error")
detail_of (info i) = or_else i.description (or_else i.message (codes "unknown error"))

-- `String(err.httpCode || err.message || "")`; a text has neither.
unfoldable pub code_of : ErrorValue → Str
code_of (text t) = []
code_of (info i) = or_else i.http_code i.message

unfoldable pub failure_message : Str → Option Item → Str
failure_message step item =
    let err = error_of item in
    let hint =
      if str_eq step (codes "Store profile") && includes (code_of err) (codes "400")
      then codes " Fix the PREFERENCES Doc: keep the title and the four bullet-only sections."
      else [] in
    codes "Preferences sync failed at \""
    ++ (step ++ (codes "\": " ++ (detail_of err ++ (b'.' ∷ hint))))
