-- ===== src/Ingest/Entry.antt =====
-- n8n/src/entry.js. `Date.parse` is a parameter.
use agregado.Base.{
  ℕ, ◌/◌, Bool, true, false, ◌&&◌, List, [], ◌∷◌, ◌++◌, Option, none, some, if◌then◌else◌, take,
  ◌==◌,
}
use agregado.Base.Int.{ℤ, pos, negsuc}
use agregado.Base.Outcome.{Outcome, ok, throws, error, ◌>>=◌}
use agregado.Text.{Str, codes, str_eq, index_of}
use agregado.Text.Split.{last_index_of}
use agregado.Text.Trim.{trim, unwrap}
use agregado.Platform.Crypto.{CaseMap}
use agregado.BasicAuth.{Digest}
use agregado.Worker.Store.{EntryRecord}
use agregado.Ingest.Assets.{Asset}
use agregado.Ingest.Identity.{Hmac, permalink_uuid}
use agregado.Ingest.MessageId.{entry_id}

-- `/<([^>]+)>/`: the group of the leftmost match.
unfoldable pub angle_group : Str → Option Str
angle_group [] = none
angle_group (c ∷ s) =
    let later = angle_group s in
    if c == b'<'
    then (elim (index_of s b'>') [
      | none ↦ later
      | some i ↦ if i == 0 then later else some (take i s)
    ])
    else later

abbrev pub some_text : Str → Option Str
some_text [] = none
some_text (c ∷ s) = some (c ∷ s)

-- A source as the lookup gives it.
pub record SourceStatus : Type 0 where
  pub id : Str
  pub status : Str

-- True to proceed, false to skip.
unfoldable pub gate_source : Option SourceStatus → Bool
gate_source none = false
gate_source (some source) = str_eq source.status (codes "active")

-- What the Resend API gives of a mail, with empty texts for what is missing; the three headers that
-- the code reads.
pub record Email : Type 0 where
  pub to : List Str
  pub message_id : Str
  pub archived_at : Str
  pub date : Str
  pub subject : Str
  pub html : Str
  pub text : Str

pub record NewEntry : Type 0 where
  pub record_of : EntryRecord
  pub permalink_html : Str

-- `Math.floor(ms / 1000)`
unfoldable pub floor_seconds : ℤ → ℤ
floor_seconds (pos ms) = pos (ms / 1000)
floor_seconds (negsuc ms) = negsuc (ms / 1000)

module _ (case_map : CaseMap) where
  unfoldable pub local_part : Str → Option Str
  local_part address = some_text (
      case_map.to_lower
        (elim (last_index_of address b'@') [ none ↦ address | some at ↦ take at address ]))

  unfoldable pub alias_from_recipients : List Str → Option Str
  alias_from_recipients [] = none
  alias_from_recipients ([] ∷ more) = none
  alias_from_recipients ((c ∷ first) ∷ more) =
      local_part (trim (elim (angle_group (c ∷ first)) [ none ↦ c ∷ first | some group ↦ group ]))

-- What the ingest calls of the other files of n8n/src on documents, and `Date.parse`, none for NaN. A
-- fetch of an asset is none where it throws.
pub record Content : Type 0 where
  pub resolve_canonical_url : Str → Str → Option Str
  pub to_readable_content : Str → Str → Str
  pub sanitize_for_permalink : Str → Str
  pub inline_assets : (Str → Option Asset) → Str → Str × List Str
  pub parse_date : Str → Option ℤ

abbrev pub is_blank_text : Str → Bool
is_blank_text s = elim (trim s) [ [] ↦ true | c ∷ r ↦ false ]

abbrev or_else : Str → Str → Str
or_else [] t = t
or_else (c ∷ s) t = c ∷ s

unfoldable pub required : Option Str → Str → Outcome Str
required none message = throws (error message)
required (some s) message = ok s

module _ (digest : Digest) (hmac : Hmac) (content : Content) where
  -- The `Date` header may stand in quotes.
  unfoldable pub published_at_of : Str → ℕ → ℤ
  published_at_of date now = elim (content.parse_date (unwrap b'"' b'"' date)) [
    | none ↦ pos now
    | some ms ↦ floor_seconds ms
  ]

  unfoldable pub permalink_html_of : Email → Str
  permalink_html_of email =
      if is_blank_text email.html
      then codes "<!doctype html><meta charset=\"utf-8\">"
        ++ content.to_readable_content [] email.text
      else content.sanitize_for_permalink email.html

  unfoldable pub build_entry : Email → Str → Str → ℕ → Outcome NewEntry
  build_entry email source_id secret now =
      if is_blank_text email.html && is_blank_text email.text
      then throws (error (codes "email has no content"))
      else (do
        id ← entry_id digest email.message_id
        uuid ← required (permalink_uuid hmac id secret) (codes "permalink secret is required")
        ok (record {
          record_of = record {
            source_id = source_id;
            row = record {
              id = id;
              canonical_url = content.resolve_canonical_url email.archived_at email.html;
              permalink_uuid = uuid;
              title = or_else (trim email.subject) (codes "(no subject)");
              readable_content = content.to_readable_content email.html email.text;
              published_at = published_at_of email.date now;
            };
          };
          permalink_html = permalink_html_of email;
        }))
