-- ===== src/Atom/Feed.antt =====
-- `buildAtomFeed` of email-worker/src/atom.ts and its helpers. A template literal is the sequence
-- of its parts.
pub mod Document
pub mod Dates
pub mod Clean
pub mod Laws
pub mod Reading
use agregado.Base.{ℕ, ◌/◌, List, [], ◌∷◌, ◌++◌, Option, none, some}
use agregado.Base.Int.{ℤ, pos, ◌*ℕ◌}
use agregado.Base.Outcome.{Outcome, ok, ◌>>=◌}
use agregado.Text.{Str, codes, join}
use agregado.Platform.Date.{to_iso_string}
use agregado.Atom.Escape.{escape_xml}

pub record FeedEntry : Type 0 where
  pub id : Str
  pub permalink_uuid : Str
  pub canonical_url : Option Str
  pub title : Str
  pub readable_content : Str
  -- Unix seconds
  pub published_at : ℤ

pub record FeedSource : Type 0 where
  pub source_id : Str
  pub display_name : Str

-- The product is exact wherever the date is valid, and invalid dates stay so.
unfoldable pub to_iso : ℤ → Outcome Str
to_iso unix_seconds = to_iso_string (unix_seconds *ℕ 1000)

unfoldable pub permalink_url : Str → Str → Str
permalink_url bridge_origin uuid = bridge_origin ++ (codes "/p/" ++ uuid)

unfoldable pub entry_link : FeedEntry → Str → Str
entry_link entry bridge_origin = elim entry.canonical_url [
  | none ↦ permalink_url bridge_origin entry.permalink_uuid
  | some url ↦ url
]

-- The template of one entry, around the text of its date.
unfoldable pub entry_text : FeedEntry → Str → Str → Str
entry_text entry bridge_origin updated =
    codes "\t<entry>\n\t\t<id>"
    ++ (escape_xml entry.id
        ++ (codes "</id>\n\t\t<title>"
            ++ (escape_xml entry.title
                ++ (codes "</title>\n\t\t<updated>"
                    ++ (updated
                        ++ (codes "</updated>\n\t\t<link href=\""
                            ++ (escape_xml (entry_link entry bridge_origin)
                                ++ (codes "\"/>\n\t\t<content type=\"html\">"
                                    ++ (escape_xml entry.readable_content
                                        ++ codes "</content>\n\t</entry>")))))))))

unfoldable pub entry_xml : Str → FeedEntry → Outcome Str
entry_xml bridge_origin entry = do
  updated ← to_iso entry.published_at
  ok (entry_text entry bridge_origin updated)

-- `entries.map(…)`: the first exception ends it.
unfoldable pub entry_xmls : Str → List FeedEntry → Outcome (List Str)
entry_xmls bridge_origin [] = ok []
entry_xmls bridge_origin (entry ∷ entries) = do
  text ← entry_xml bridge_origin entry
  texts ← entry_xmls bridge_origin entries
  ok (text ∷ texts)

-- The template of the feed, around the text of its date and that of its entries.
unfoldable pub feed_text : FeedSource → Str → Str → Str → Str
feed_text source bridge_origin updated entry_xml =
    codes
      "<?xml version=\"1.0\" encoding=\"UTF-8\"?>\n<feed xmlns=\"http://www.w3.org/2005/Atom\">\n\t<id>"
    ++ (escape_xml (bridge_origin ++ (codes "/feed/" ++ (source.source_id ++ codes ".atom")))
        ++ (codes "</id>\n\t<title>"
            ++ (escape_xml source.display_name
                ++ (codes "</title>\n\t<updated>"
                    ++ (updated
                        ++ (codes "</updated>\n\t<author>\n\t\t<name>"
                            ++ (escape_xml source.display_name
                                ++ (codes "</name>\n\t</author>\n"
                                    ++ (entry_xml ++ codes "\n</feed>\n")))))))))

-- The date of the feed: its first entry's, or the current time in milliseconds for a feed of none.
unfoldable pub feed_updated : List FeedEntry → ℕ → ℤ
feed_updated [] now_ms = pos (now_ms / 1000)
feed_updated (entry ∷ entries) now_ms = entry.published_at

unfoldable pub build_atom_feed : FeedSource → List FeedEntry → Str → ℕ → Outcome Str
build_atom_feed source entries bridge_origin now_ms = do
  updated ← to_iso (feed_updated entries now_ms)
  texts ← entry_xmls bridge_origin entries
  ok (feed_text source bridge_origin updated (join texts (codes "\n")))
