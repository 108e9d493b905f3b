-- ===== src/Atom/Feed/Document.antt =====
-- What a reader of XML is to find in a feed: its markup, attribute values and character data.
use agregado.Base.{ℕ, ◌+◌, ◌≤◌, Bool, true, ◌&&◌, List, [], ◌∷◌, ◌++◌}
use agregado.Base.Int.{ℤ, pos_part, neg_part}
use agregado.Base.Outcome.{ok, throws}
use agregado.Text.{Str, codes}
use agregado.Xml.{Event, markup, attr, chars, is_xml_text}
use agregado.Atom.Feed.{FeedEntry, FeedSource, entry_link, to_iso, feed_updated}

-- An element of one line that holds only text, behind its indentation.
abbrev pub element : Str → Str → Str → List Event → List Event
element indent name text rest =
    chars indent ∷ markup name ∷ chars text ∷ markup (b'/' ∷ name) ∷ rest

-- One entry with the text of its date, and what follows it.
abbrev pub entry_events : Str → FeedEntry → Str → List Event → List Event
entry_events bridge_origin entry updated rest =
    chars (codes "\n\t")
    ∷ markup (codes "entry")
    ∷ element (codes "\n\t\t") (codes "id") entry.id (
        element (codes "\n\t\t") (codes "title") entry.title (
          element (codes "\n\t\t") (codes "updated") updated (
            chars (codes "\n\t\t")
            ∷ markup (codes "link href=")
            ∷ attr (entry_link entry bridge_origin)
            ∷ markup (codes "/")
            ∷ chars (codes "\n\t\t")
            ∷ markup (codes "content type=")
            ∷ attr (codes "html")
            ∷ markup []
            ∷ chars entry.readable_content
            ∷ markup (codes "/content")
            ∷ chars (codes "\n\t")
            ∷ markup (codes "/entry")
            ∷ rest)))

-- The head of the document, up to its first entry.
abbrev pub head_events : FeedSource → Str → Str → List Event → List Event
head_events source bridge_origin updated rest =
    chars []
    ∷ markup (codes "?xml version=")
    ∷ attr (codes "1.0")
    ∷ markup (codes " encoding=")
    ∷ attr (codes "UTF-8")
    ∷ markup (codes "?")
    ∷ chars (codes "\n")
    ∷ markup (codes "feed xmlns=")
    ∷ attr (codes "http://www.w3.org/2005/Atom")
    ∷ markup []
    ∷ element (codes "\n\t") (codes "id")
        (bridge_origin ++ (codes "/feed/" ++ (source.source_id ++ codes ".atom")))
        (element (codes "\n\t") (codes "title") source.display_name (
          element (codes "\n\t") (codes "updated") updated (
            chars (codes "\n\t")
            ∷ markup (codes "author")
            ∷ element (codes "\n\t\t") (codes "name") source.display_name
                (chars (codes "\n\t") ∷ markup (codes "/author") ∷ rest))))

-- The text of a valid date.
abbrev pub date_text : ℤ → Str
date_text unix_seconds = elim (to_iso unix_seconds) [ ok s ↦ s | throws e ↦ [] ]

-- The entries and the end of the document.
abbrev pub body_events : Str → List FeedEntry → List Event
body_events bridge_origin [] =
    chars (codes "\n\n") ∷ markup (codes "/feed") ∷ chars (codes "\n") ∷ []
body_events bridge_origin (entry ∷ []) =
    entry_events bridge_origin entry (date_text entry.published_at)
      (chars (codes "\n") ∷ markup (codes "/feed") ∷ chars (codes "\n") ∷ [])
body_events bridge_origin (entry ∷ next ∷ entries) =
    entry_events bridge_origin entry (date_text entry.published_at)
      (body_events bridge_origin (next ∷ entries))

-- All that a reader is to find.
abbrev pub feed_events : FeedSource → List FeedEntry → Str → ℕ → List Event
feed_events source entries bridge_origin now_ms =
    head_events source bridge_origin (date_text (feed_updated entries now_ms))
      (body_events bridge_origin entries)

-- Whether the values of an entry hold only characters of XML.
abbrev pub is_clean_entry : Str → FeedEntry → Bool
is_clean_entry bridge_origin entry =
    is_xml_text entry.id
    && (is_xml_text entry.title
        && (is_xml_text (entry_link entry bridge_origin) && is_xml_text entry.readable_content))

abbrev pub are_clean : Str → List FeedEntry → Bool
are_clean bridge_origin [] = true
are_clean bridge_origin (entry ∷ entries) =
    is_clean_entry bridge_origin entry && are_clean bridge_origin entries

abbrev pub is_clean : FeedSource → List FeedEntry → Str → Bool
is_clean source entries bridge_origin =
    is_xml_text bridge_origin
    && (is_xml_text source.source_id
        && (is_xml_text source.display_name && are_clean bridge_origin entries))

-- A date that JavaScript can print: at most a hundred million days from 1970, in seconds.
abbrev pub IsPrintable : ℤ → Type 0
IsPrintable unix_seconds = pos_part unix_seconds + neg_part unix_seconds ≤ 8640000000000
