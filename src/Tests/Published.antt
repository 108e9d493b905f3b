-- ===== src/Tests/Published.antt =====
-- A run of the newsletter ingest from its write of the page on, and what the Worker then serves.
use agregado.Base.{ℕ, ◌≡◌, refl, true, [], ◌∷◌, List, map, Option, none, All, inl, arith}
use agregado.Base.Int.{ℤ}
use agregado.Base.Outcome.{ok}
use agregado.Text.{Str, codes, str_eq}
use agregado.Atom.Feed.{build_atom_feed}
use agregado.BasicAuth.Verify.{verify_secret-hash_secret}
use agregado.Worker.Effects.{World, Timeline}
use agregado.Worker.Store.{EntryRow, SourceRow}
use agregado.Worker.Store.Sqlite.{sqlite, find_permalink}
use agregado.Worker.Handlers.{
  handle_feed_request, handle_permalink_request, feed_response, html_response, to_feed_entry,
  to_feed_source,
}
use agregado.Worker.Handlers.Feed.{IsAccepted}
use agregado.Worker.Handlers.Serving.{handle_feed_request_total}
use agregado.Ingest.{put_object, upsert_entry, without_conflicts}
use agregado.Ingest.Assets.{inline_assets}
use agregado.Ingest.Entry.{NewEntry}
use agregado.Ingest.Published.{IsCapturedPage}
use agregado.Ingest.Published.Served.{
  Clean, Ingested, handle_permalink_request-IsCapturedPage, handle_feed_request-IsReadable,
}
use agregado.Ingest.Readable.Reader.{IsReadable, read, read_char, start_element, end_element}
use agregado.Html.{one_of}
use agregado.Ingest.Sanitize.{sanitize_for_permalink}
use agregado.Ingest.Sanitize.Safe.Policy.{sanitize_for_permalink-HeadBegins}
use agregado.Ingest.Workflow.{
  Bridge, Answers, write_r2, upsert_query, write_d1, respond_ok, advance, at_write_r2, at_write_d1,
}
use agregado.Ingest.Workflow.System.{System, here, next, act}
use agregado.Tests.Feeds.{parsed, known, tldr_login}
use agregado.Tests.Fixture.{checksum, parse_url, bridge, entry_row, tldr, feed_request}
use agregado.Tests.Html.{pages, fetch_png}
use agregado.Tests.Parameters.{
  ascii_case, keyed_bytes, digits_only, keyed_text, payload_of, settings,
}

abbrev no_links : Str → List (Str × Str)
no_links html = []

abbrev no_date : Str → Option ℤ
no_date date = none

abbrev shown_page : Str
shown_page =
    (inline_assets digits_only fetch_png pages
      (sanitize_for_permalink ascii_case digits_only pages (codes "go"))).0

abbrev mail : NewEntry
mail = record {
  record_of = record {
    source_id = codes "tldr";
    row = entry_row (codes "1") (codes "u1") 1699990000;
  };
  permalink_html = shown_page;
}

abbrev agreeing : Answers
agreeing = record { email = none; fetch_asset = none; accepted = true; reply = true }

abbrev blank : Bridge
blank = record {
  world = record bridge { entries = []; bucket = λ k. none };
  alerts = [];
  sent = [];
}

abbrev world_put : World
world_put = record blank.world { bucket = put_object (codes "1") shown_page blank.world.bucket }

abbrev world_listed : World
world_listed = record world_put { entries = upsert_entry mail.record_of [] }

abbrev start : System
start = record { bridge = blank; runs = write_r2 mail (codes "m") ∷ [] }

abbrev after_put : System
after_put = record {
  bridge = record blank { world = world_put };
  runs = upsert_query mail (codes "m") ∷ [];
}

abbrev after_query : System
after_query = record after_put { runs = write_d1 mail (codes "m") ∷ [] }

abbrev after_row : System
after_row = record { bridge = record blank { world = world_listed }; runs = respond_ok mail ∷ [] }

row-IsReadable : IsReadable (codes "<p>\"Hi\"</p>")
unfolding read read_char start_element end_element one_of str_eq
row-IsReadable = refl

start-Clean :
    Clean ascii_case digits_only pages no_links no_date keyed_bytes checksum keyed_text sqlite
      payload_of settings parse_url
      (λ n. world_listed)
      start
start-Clean = (
  (tt, λ key body e. absurd (cc)),
  (
    (
      (row-IsReadable, inl refl),
      (
        sanitize_for_permalink ascii_case digits_only pages (codes "go"),
        fetch_png,
        refl,
        inl (sanitize_for_permalink-HeadBegins ascii_case digits_only pages (codes "go")),
      ),
    ),
    tt,
  ),
)

ingest :
    Ingested ascii_case digits_only pages no_links no_date keyed_bytes checksum keyed_text sqlite
      payload_of settings parse_url
      (λ n. world_listed)
      start
      after_row
unfolding advance at_write_r2 at_write_d1
ingest =
    next {t = after_query}
      (next {t = after_put}
        (next {t = start} here (act start agreeing [] [] (write_r2 mail (codes "m")) refl))
        (act after_put agreeing [] [] (upsert_query mail (codes "m")) refl))
      (act after_query agreeing [] [] (write_d1 mail (codes "m")) refl)

abbrev listed : Timeline
listed n = world_listed

permalink_served :
    (m : ℕ) × (handle_permalink_request sqlite checksum parse_url (codes "u1") listed 0
      ≡ (ok (html_response shown_page), m))
unfolding handle_permalink_request find_permalink put_object upsert_entry str_eq
permalink_served = (2, refl)

handle_permalink_request-IsCapturedPage_example :
    IsCapturedPage ascii_case digits_only pages no_links no_date shown_page
handle_permalink_request-IsCapturedPage_example =
    handle_permalink_request-IsCapturedPage ascii_case digits_only pages no_links no_date
      keyed_bytes checksum keyed_text sqlite payload_of settings parse_url listed (codes "u1") 0
      permalink_served.0 (html_response shown_page) start-Clean ingest refl permalink_served.1 refl

accepted : IsAccepted sqlite checksum parse_url (feed_request (codes "s3cret")) listed tldr
accepted = record {
  credentials = tldr_login (codes "s3cret");
  presented = parsed;
  verified = (verify_secret-hash_secret checksum (codes "s3cret") (codes "s3cret")).1 refl;
}

feed_served :
    (body : Str) × (m : ℕ) × (handle_feed_request sqlite checksum parse_url
        (feed_request (codes "s3cret"))
        (codes "tldr")
        listed
        0
      ≡ (ok (feed_response body), m))
unfolding upsert_entry without_conflicts
feed_served =
    let (body, m, e, shows) =
      handle_feed_request_total sqlite checksum parse_url (feed_request (codes "s3cret")) listed
        (codes "tldr") tldr 0 known accepted refl refl (ground arith) (omega arith) in
    (body, m, e)

handle_feed_request-IsReadable_example :
    (source : SourceRow) × (rows : List EntryRow) × (now_ms : ℕ) × (build_atom_feed
        (to_feed_source source)
        (map to_feed_entry rows)
        (parse_url (feed_request (codes "s3cret")).url).origin
        now_ms
      ≡ ok feed_served.0)
    × All (λ row. IsReadable row.readable_content) rows
handle_feed_request-IsReadable_example =
    handle_feed_request-IsReadable ascii_case digits_only pages no_links no_date keyed_bytes
      checksum keyed_text sqlite payload_of settings parse_url listed
      (feed_request (codes "s3cret")) (codes "tldr") 0 feed_served.1 (feed_response feed_served.0)
      start-Clean ingest refl feed_served.2 refl
