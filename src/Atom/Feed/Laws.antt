-- ===== src/Atom/Feed/Laws.antt =====
-- `buildAtomFeed` of email-worker/src/atom.ts: its document, or its exception.
use agregado.Base.{ℕ, ◌+◌, ◌≡◌, List, [], ◌∷◌, map, none, some, if◌then◌else◌, arith, All}
use native.Mathlib.Decide.{dec_le}
use agregado.Base.Int.{pos_part, neg_part}
use agregado.Base.Outcome.{ok, throws, range_error}
use agregado.Text.{Str}
use agregado.Xml.{normalise, normalise_events, read_xml}
use agregado.Atom.Feed.{FeedEntry, FeedSource, build_atom_feed, feed_updated, entry_xml, entry_xmls}
use agregado.Atom.Feed.Dates.{to_iso_of_not, to_iso_of_IsPrintable}
use agregado.Atom.Feed.Document.{feed_events, is_clean, IsPrintable}
use agregado.Atom.Feed.Reading.{HasDate, document, build_atom_feed_lem, lex-document}
use agregado.Atom.Feed.Clean.{is_xml_text-document}

-- With dates that JavaScript can print, the feed's and the entries', there is a document. If every
-- value holds only characters of XML, a reader of XML finds in the text the values at their places, and
-- nothing else, with their line ends, and white space in an attribute, normalised as XML 1.0 has it; if
-- some value does not, the document is not well-formed.
pub build_atom_feed-read_xml :
    (source : FeedSource) (entries : List FeedEntry) (bridge_origin : Str) (now_ms : ℕ)
    → IsPrintable (feed_updated entries now_ms)
    → All HasDate entries
    → (doc : Str) × (build_atom_feed source entries bridge_origin now_ms ≡ ok doc)
      × (read_xml doc ≡ (
          if is_clean source entries bridge_origin
          then some (map normalise (feed_events source entries bridge_origin now_ms))
          else none))
unfolding read_xml normalise_events
build_atom_feed-read_xml source entries bridge_origin now_ms d h = (
  document source entries bridge_origin now_ms,
  build_atom_feed_lem source entries bridge_origin now_ms d h,
  rw (
    is_xml_text-document source entries bridge_origin now_ms d h,
    lex-document source entries bridge_origin now_ms d h,
  ),
)

entry_xmls_of_not :
    (bridge_origin : Str) (entries : List FeedEntry)
    → ¬ (All HasDate entries)
    → entry_xmls bridge_origin entries ≡ throws range_error
unfolding entry_xmls entry_xml
entry_xmls_of_not bridge_origin [] h = absurd (h tt)
entry_xmls_of_not bridge_origin (entry ∷ entries) h =
    elim (dec_le (pos_part entry.published_at + neg_part entry.published_at) 8640000000000) [
      | yes d ↦ rw (
        (to_iso_of_IsPrintable entry.published_at d).0,
        entry_xmls_of_not bridge_origin entries (λ k. h (d, k)),
      )
      | no d ↦ rw (to_iso_of_not entry.published_at (omega arith))
    ]

-- If the feed's date or an entry's is one that JavaScript cannot print, there is a RangeError and no
-- document.
pub build_atom_feed_of_unprintable :
    (source : FeedSource) (entries : List FeedEntry) (bridge_origin : Str) (now_ms : ℕ)
    → ¬ (IsPrintable (feed_updated entries now_ms) × All HasDate entries)
    → build_atom_feed source entries bridge_origin now_ms ≡ throws range_error
unfolding build_atom_feed
build_atom_feed_of_unprintable source entries bridge_origin now_ms h =
    let updated = feed_updated entries now_ms in
    elim (dec_le (pos_part updated + neg_part updated) 8640000000000) [
      | yes d ↦ rw (
        (to_iso_of_IsPrintable updated d).0,
        entry_xmls_of_not bridge_origin entries (λ k. h (d, k)),
      )
      | no d ↦ rw (to_iso_of_not updated (omega arith))
    ]
