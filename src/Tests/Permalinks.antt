-- ===== src/Tests/Permalinks.antt =====
-- Runs of the permalink's handler of email-worker/src/index.ts, behind the ingest's writes.
use agregado.Base.{◌≡◌, refl, [], ◌∷◌, none, arith, inl, zero, suc}
use agregado.Base.Outcome.{ok}
use agregado.Text.{Str, codes, str_eq}
use agregado.Worker.Effects.{World, Timeline}
use agregado.Worker.Store.{EntryRecord}
use agregado.Worker.Store.Sqlite.{sqlite}
use agregado.Worker.Handlers.{handle_permalink_request, html_response}
use agregado.Ingest.{Reach, here, next, write_object, write_entry, put_object, upsert_entry}
use agregado.Ingest.Resolves.{IsSound, HasPermalink, Reach-IsSound}
use agregado.Ingest.Permalinks.{handle_permalink_request_resolves}
use agregado.Tests.Fixture.{checksum, parse_url, bridge, entry_row}

-- The permalink of an entry: a letter and its id.
abbrev uuid_of : Str → Str
uuid_of id = b'u' ∷ id

abbrev first : EntryRecord
first = record { source_id = codes "tldr"; row = entry_row (codes "1") (codes "u1") 1699990000 }

abbrev second : EntryRecord
second = record { source_id = codes "tldr"; row = entry_row (codes "2") (codes "u2") 1699990000 }

abbrev empty : World
empty = record bridge { entries = []; bucket = λ k. none }

-- The first entry is written, its object before it.
abbrev stored : World
stored = record empty { bucket = put_object (codes "1") (codes "<p>A</p>") empty.bucket }

abbrev listed : World
listed = record stored { entries = upsert_entry first stored.entries }

-- The object of the second.
abbrev stored_next : World
stored_next = record listed { bucket = put_object (codes "2") (codes "<p>B</p>") listed.bucket }

abbrev listed_next : World
listed_next = record stored_next { entries = upsert_entry second stored_next.entries }

listing : Reach uuid_of empty listed
unfolding put_object str_eq
listing =
    next (next here (write_object empty (codes "1") (codes "<p>A</p>")))
      (write_entry stored first refl (ground arith))

listing_next : Reach uuid_of listed listed_next
unfolding put_object str_eq
listing_next =
    next (next here (write_object listed (codes "2") (codes "<p>B</p>")))
      (write_entry stored_next second refl (ground arith))

-- The second entry is written between the two reads.
abbrev moving : Timeline
moving zero = listed
moving (suc n) = listed_next

listed-IsSound : IsSound uuid_of listed
listed-IsSound = Reach-IsSound uuid_of tt listing

listed-HasPermalink : HasPermalink uuid_of (codes "u1") listed.entries
unfolding upsert_entry
listed-HasPermalink = inl refl

handle_permalink_request_resolves_example :
    (body : Str) × ((handle_permalink_request sqlite checksum parse_url (codes "u1") moving 0).0
      ≡ ok (html_response body))
handle_permalink_request_resolves_example =
    handle_permalink_request_resolves uuid_of sqlite checksum parse_url moving listed (codes "u1") 0
      listed-IsSound listed-HasPermalink here listing_next refl refl
