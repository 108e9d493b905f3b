-- ===== src/Tests/Links.antt =====
-- A run from the ingest's permalink to the Worker's answer.
use agregado.Base.{◌≡◌, refl, [], ◌∷◌, ◌++◌, some, none, arith, inl}
use agregado.Base.Outcome.{ok}
use agregado.Text.{Str, codes, str_eq}
use agregado.Atom.Feed.{FeedEntry, entry_link, permalink_url}
use agregado.Worker.Effects.{World, Timeline}
use agregado.Worker.Store.{EntryRecord}
use agregado.Worker.Store.Sqlite.{sqlite}
use agregado.Worker.Handlers.{Request, fetch, html_response}
use agregado.Ingest.{here, put_object}
use agregado.Ingest.Identity.{Hmac, permalink_uuid, uuid_text}
use agregado.Ingest.Links.{SplitsPermalinks, fetch-entry_link}
use agregado.Ingest.Resolves.{IsSound}
use agregado.Tests.Fixture.{
  checksum, sum_digest, sum_digest-IsDigest, parse_url, origin, bridge, entry_row,
}

abbrev keyed_sum : Hmac
keyed_sum = record {
  hmac_sha256 = λ key text. sum_digest (key ++ text);
  hmac_sha256-IsDigest = λ key text. sum_digest-IsDigest (key ++ text);
}

abbrev uuid_of : Str → Str
uuid_of id = uuid_text (sum_digest (codes "k" ++ id))

made : (id : Str) → permalink_uuid keyed_sum id (codes "k") ≡ some (uuid_of id)
unfolding permalink_uuid
made id = refl

abbrev entry : EntryRecord
entry = record {
  source_id = codes "tldr";
  row = entry_row (codes "1") (uuid_of (codes "1")) 1699990000;
}

abbrev linked : World
linked = record bridge {
  entries = entry ∷ [];
  bucket = put_object (codes "1") (codes "<p>A</p>") (λ k. none);
}

abbrev steady : Timeline
steady n = linked

linked-IsSound : IsSound uuid_of linked
unfolding put_object str_eq
linked-IsSound = ((ground arith, refl), tt)

splits : SplitsPermalinks parse_url origin
splits uuid chars = refl

abbrev link_request : Request
link_request = record { url = origin ++ (codes "/p/" ++ uuid_of (codes "1")); headers = [] }

abbrev feed_entry : FeedEntry
feed_entry = record {
  id = codes "1";
  permalink_uuid = uuid_of (codes "1");
  canonical_url = none;
  title = codes "A";
  readable_content = codes "<p>A</p>";
  published_at = entry.row.published_at;
}

link_request_url : link_request.url ≡ entry_link feed_entry origin
unfolding entry_link permalink_url
link_request_url = refl

fetch-entry_link_example :
    (body : Str) × ((fetch sqlite checksum parse_url link_request steady 0).0
      ≡ ok (html_response body))
fetch-entry_link_example =
    fetch-entry_link uuid_of keyed_sum (codes "k") sqlite checksum parse_url steady linked 0
      link_request feed_entry origin made splits refl refl link_request_url linked-IsSound
      (inl refl) here here refl refl
