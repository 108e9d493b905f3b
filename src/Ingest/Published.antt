-- ===== src/Ingest/Published.antt =====
-- The functions of n8n/src that work on documents, together, as n8n/src/entry.js and "Capture assets" of
-- n8n/scripts/build-workflow.js call them; and what the ingest then stores, whatever arrives.
pub mod Served
use agregado.Base.{
  ℕ, ◌≡◌, refl, sym, ap, ◌∙◌, ◌⊎◌, true, false, ◌&&◌, List, [], ◌∷◌, ◌++◌, Option, none, some,
  if◌then◌else◌, Bool-cases, Option-cases, inl, inr, arith,
}
use mathlib.Core.Path.{subst}
use agregado.Base.Int.{ℤ}
use agregado.Base.Outcome.{ok, Outcome-cases}
use agregado.Text.{Str, codes}
use agregado.Platform.Crypto.{CaseMap, KeyedHash, NodeText}
use agregado.BasicAuth.{Digest}
use agregado.Worker.Store.{Engine, EntryRecord}
use agregado.Html.{Nodes, Cheerio, AllElements}
use agregado.Html.Head.{HeadBegins}
use agregado.Ingest.Assets.{Asset, inline_assets}
use agregado.Ingest.Entry.{
  NewEntry, Content, build_entry, required, permalink_html_of, is_blank_text, Email,
}
use agregado.Ingest.Extract.{resolve_canonical_url}
use agregado.Ingest.Extract.Laws.{HasWebScheme, resolve_canonical_url_sound}
use agregado.Ingest.Identity.{Hmac, permalink_uuid}
use agregado.Ingest.MessageId.{entry_id}
use agregado.Ingest.Readable.{to_readable_content}
use agregado.Ingest.Readable.Reader.{IsReadable}
use agregado.Ingest.Readable.Whole.{to_readable_content-IsReadable}
use agregado.Ingest.Sanitize.{policy, sanitize_for_permalink}
use agregado.Ingest.Sanitize.Safe.Policy.{PermalinkElement, sanitize_for_permalink-HeadBegins}
use agregado.Ingest.Workflow.{Settings}
use agregado.Ingest.Workflow.System.{System, Reaches}
use agregado.Ingest.Workflow.Contents.{WorldHolds, SystemHolds, Builds, Captures}
use agregado.Ingest.Workflow.Stored.{Reaches-SystemHolds}

-- The fields of an entry that hold a text of the mail.
build_entry-fields :
    (digest : Digest) (hmac : Hmac) (content : Content) (email : Email) (source_id secret : Str)
    (now : ℕ) (entry : NewEntry)
    → build_entry digest hmac content email source_id secret now ≡ ok entry
    → (entry.record_of.row.readable_content ≡ content.to_readable_content email.html email.text)
      × (entry.record_of.row.canonical_url
          ≡ content.resolve_canonical_url email.archived_at email.html)
      × (entry.permalink_html ≡ permalink_html_of digest hmac content email)
unfolding build_entry required
build_entry-fields digest hmac content email source_id secret now entry h =
    elim (Outcome-cases (entry_id digest email.message_id)) [
      | inr (e, thrown) ↦ absurd (ground arith)
      | inl (id, made) ↦ elim (Option-cases (permalink_uuid hmac id secret)) [
        | inl none_made ↦ absurd (ground arith)
        | inr (uuid, e) ↦ (ground arith, ground arith, ground arith)
      ]
    ]

module _ (case_map : CaseMap) (node_text : NodeText) (cheerio : Cheerio)
    (links_of : Str → List (Str × Str)) (parse_date : Str → Option ℤ) where
  -- The calls of the other files of n8n/src.
  abbrev pub content_of : Content
  content_of = record {
    resolve_canonical_url =
        λ archived_at html. resolve_canonical_url case_map links_of archived_at html;
    to_readable_content = λ html plain. to_readable_content case_map node_text cheerio html plain;
    sanitize_for_permalink = λ html. sanitize_for_permalink case_map node_text cheerio html;
    inline_assets = λ fetch html. inline_assets node_text fetch cheerio html;
    parse_date = parse_date;
  }

  -- A row of the table: readable content, and the address of a web page or none.
  abbrev pub IsCleanRow : EntryRecord → Type 0
  IsCleanRow r =
      IsReadable r.row.readable_content
      × ((r.row.canonical_url ≡ none)
          ⊎ ((url : Str) × (r.row.canonical_url ≡ some url) × HasWebScheme url))

  -- A page before the capture: printed from a document with the policy first in its head and safe
  -- elements only, or the readable content of a mail without HTML.
  abbrev pub IsCleanPage : Str → Type 0
  IsCleanPage html =
      ((f : Nodes) × (html ≡ cheerio.html f)
        × HeadBegins (codes "meta") policy f
        × AllElements (PermalinkElement case_map node_text cheerio) f)
      ⊎ ((s : Str) × (html ≡ codes "<!doctype html><meta charset=\"utf-8\">" ++ s) × IsReadable s)

  -- An object of the bucket: such a page with its assets captured.
  abbrev pub IsCapturedPage : Str → Type 0
  IsCapturedPage body =
      (html : Str) × (fetch : Str → Option Asset) × (body
        ≡ (inline_assets node_text fetch cheerio html).0)
      × IsCleanPage html

  canonical_url-clean :
      (archived_at html : Str) (url : Option Str)
      → url ≡ resolve_canonical_url case_map links_of archived_at html
      → (url ≡ none) ⊎ ((u : Str) × (url ≡ some u) × HasWebScheme u)
  canonical_url-clean archived_at html none e = inl refl
  canonical_url-clean archived_at html (some url) e =
      inr
        (url, refl, (resolve_canonical_url_sound case_map links_of archived_at html url (sym e)).0)

  module _ (hash : KeyedHash) (digest : Digest) (hmac : Hmac) (engine : Engine)
      (payload_of : Str → Option Str) (settings : Settings) where
    permalink_html-clean :
        (email : Email) → IsCleanPage (permalink_html_of digest hmac content_of email)
    unfolding permalink_html_of
    permalink_html-clean email = elim (Bool-cases (is_blank_text email.html)) [
      | inl t ↦ rw t (
          inr (
            to_readable_content case_map node_text cheerio [] email.text,
            refl,
            to_readable_content-IsReadable case_map node_text cheerio [] email.text,
          ))
      | inr f ↦ rw f (inl (sanitize_for_permalink-HeadBegins case_map node_text cheerio email.html))
    ]

    build_entry-clean :
        Builds IsCleanRow IsCleanPage IsCapturedPage case_map hash node_text digest hmac content_of
          engine payload_of settings
    build_entry-clean email source_id now entry made =
        let (readable, canonical, page) =
          build_entry-fields digest hmac content_of email source_id settings.permalink_secret now
            entry made in
        (
          (
            subst IsReadable (sym readable)
                (to_readable_content-IsReadable case_map node_text cheerio email.html email.text),
            canonical_url-clean email.archived_at email.html entry.record_of.row.canonical_url
                canonical,
          ),
          subst IsCleanPage (sym page) (permalink_html-clean email),
        )

    inline_assets-clean :
        Captures IsCleanRow IsCleanPage IsCapturedPage case_map hash node_text digest hmac
          content_of engine payload_of settings
    inline_assets-clean fetch html clean = (html, fetch, refl, clean)

    -- Whatever is delivered and however the runs interleave, fail and are repeated: where all rows and
    -- objects are clean and so is what the runs carry, they stay clean.
    pub Reaches-WorldHolds :
        {s t : System}
        → SystemHolds IsCleanRow IsCleanPage IsCapturedPage s
        → Reaches case_map hash node_text digest hmac content_of engine payload_of settings s t
        → WorldHolds IsCleanRow IsCleanPage IsCapturedPage t.bridge.world
    Reaches-WorldHolds h r =
        (Reaches-SystemHolds IsCleanRow IsCleanPage IsCapturedPage case_map hash node_text digest
          hmac content_of engine payload_of settings build_entry-clean inline_assets-clean h r).0
