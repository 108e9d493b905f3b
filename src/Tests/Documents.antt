-- ===== src/Tests/Documents.antt =====
-- Runs of email-worker/src/atom.ts.
use agregado.Base.{◌≡◌, refl, List, [], ◌∷◌, map, some, arith, none, if◌then◌else◌}
use agregado.Base.Int.{pos}
use agregado.Base.Outcome.{ok, throws, range_error}
use agregado.Text.{Str, codes}
use agregado.Xml.{normalise, read_xml}
use agregado.Platform.Date.{date_code}
use agregado.Atom.Feed.{to_iso, build_atom_feed, feed_updated, FeedEntry}
use agregado.Atom.Feed.Document.{feed_events, is_clean}
use agregado.Atom.Feed.Laws.{build_atom_feed-read_xml, build_atom_feed_of_unprintable}
use agregado.Worker.Handlers.{to_feed_entry, to_feed_source}
use agregado.Tests.Fixture.{tldr, entry_row, origin}

abbrev entries : List FeedEntry
entries =
    to_feed_entry (entry_row (codes "b") (codes "u2") 1699990000)
    ∷ to_feed_entry (entry_row (codes "a") (codes "u1") 1690000000)
    ∷ []

-- A second that no JavaScript date reaches.
abbrev late_entries : List FeedEntry
late_entries = to_feed_entry (entry_row (codes "b") (codes "u2") 9000000000000) ∷ []

build_atom_feed-read_xml_example :
    (doc : Str) × (build_atom_feed (to_feed_source tldr) entries origin 0 ≡ ok doc)
    × (read_xml doc ≡ (
        if is_clean (to_feed_source tldr) entries origin
        then some (map normalise (feed_events (to_feed_source tldr) entries origin 0))
        else none))
unfolding feed_updated to_feed_entry
build_atom_feed-read_xml_example =
    build_atom_feed-read_xml (to_feed_source tldr) entries origin 0 (omega arith) (ground arith)

build_atom_feed_of_unprintable_example :
    build_atom_feed (to_feed_source tldr) late_entries origin 0 ≡ throws range_error
unfolding feed_updated to_feed_entry
build_atom_feed_of_unprintable_example =
    build_atom_feed_of_unprintable (to_feed_source tldr) late_entries origin 0 (ground arith)

new_year : to_iso (pos 1704067200) ≡ ok (codes "2024-01-01T00:00:00.000Z")
unfolding to_iso date_code
new_year = refl
