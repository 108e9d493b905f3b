-- ===== src/Atom/Feed/Clean.antt =====
-- The characters of the document of `buildAtomFeed` of email-worker/src/atom.ts, and those that XML
-- forbids.
use agregado.Base.{ℕ, ◌≡◌, refl, ◌∙◌, ap, true, ◌&&◌, List, [], ◌∷◌, ◌++◌, arith, All}
use agregado.Base.Int.{ℤ}
use agregado.Text.{Str, codes, join, replace_all}
use agregado.Xml.{is_xml_char, is_xml_text}
use agregado.Xml.Reading.{is_xml_text-append}
use agregado.Platform.Date.Iso.{is_iso_char}
use agregado.Atom.Escape.{escape_xml}
use agregado.Atom.Escape.Laws.{escape_xml-cons, escape_unit}
use agregado.Atom.Feed.{FeedEntry, FeedSource, entry_link, entry_text, feed_text, feed_updated}
use agregado.Atom.Feed.Dates.{date_text-IsIso}
use agregado.Atom.Feed.Document.{date_text, IsPrintable, is_clean_entry, are_clean, is_clean}
use agregado.Atom.Feed.Reading.{HasDate, entries_text, document}

unit_clean : (c : ℕ) (s : Str) → is_xml_text (escape_unit c ++ s) ≡ (is_xml_char c && is_xml_text s)
unfolding is_xml_text
unit_clean c s = ground arith

is_xml_text-escape_xml : (s : Str) → is_xml_text (escape_xml s) ≡ is_xml_text s
is_xml_text-escape_xml [] = unfold escape_xml replace_all in refl
is_xml_text-escape_xml (c ∷ s) =
    rw (escape_xml-cons, unit_clean, is_xml_text-escape_xml s) (unfold is_xml_text in refl)

date_clean : (s : Str) → All (λ c. is_iso_char c ≡ true) s → is_xml_text s ≡ true
unfolding is_xml_text
date_clean [] h = refl
date_clean (c ∷ s) (i, h) = ground (arith, date_clean s h)

date_part_clean :
    (t : ℤ) (rest : Str) → IsPrintable t → is_xml_text (date_text t ++ rest) ≡ is_xml_text rest
date_part_clean t rest h =
    is_xml_text-append (date_text t) rest
    ∙ ap (λ b. b && is_xml_text rest) (date_clean (date_text t) (date_text-IsIso t h))

-- A value between literal parts.
value_clean :
    (s rest : Str) → is_xml_text (escape_xml s ++ rest) ≡ (is_xml_text s && is_xml_text rest)
value_clean s rest = is_xml_text-append (escape_xml s) rest ∙ rw is_xml_text-escape_xml

entry_clean :
    (bridge_origin : Str) (entry : FeedEntry)
    → HasDate entry
    → is_xml_text (entry_text entry bridge_origin (date_text entry.published_at))
      ≡ is_clean_entry bridge_origin entry
unfolding entry_text is_xml_text
entry_clean bridge_origin entry d =
    rw
      (
        value_clean entry.id,
        value_clean entry.title,
        date_part_clean entry.published_at _ d,
        value_clean (entry_link entry bridge_origin),
        value_clean entry.readable_content,
      )
      (ground arith)

newline_clean : (s : Str) → is_xml_text (b'\n' ∷ s) ≡ is_xml_text s
unfolding is_xml_text
newline_clean s = refl

entries_clean :
    (bridge_origin : Str) (entries : List FeedEntry)
    → All HasDate entries
    → is_xml_text (join (entries_text bridge_origin entries) (codes "\n"))
      ≡ are_clean bridge_origin entries
unfolding join entries_text
entries_clean bridge_origin [] h = unfold is_xml_text in refl
entries_clean bridge_origin (entry ∷ []) (d, h) = entry_clean bridge_origin entry d ∙ ground arith
entries_clean bridge_origin (entry ∷ next ∷ entries) (d, h) =
    is_xml_text-append (entry_text entry bridge_origin (date_text entry.published_at)) _
    ∙ rw (entry_clean bridge_origin entry d) (
        ap (λ b. is_clean_entry bridge_origin entry && b)
          (newline_clean _ ∙ entries_clean bridge_origin (next ∷ entries) h))

body_clean :
    (bridge_origin : Str) (entries : List FeedEntry)
    → All HasDate entries
    → is_xml_text (join (entries_text bridge_origin entries) (codes "\n") ++ codes "\n</feed>\n")
      ≡ are_clean bridge_origin entries
unfolding is_xml_text
body_clean bridge_origin entries h =
    is_xml_text-append (join (entries_text bridge_origin entries) (codes "\n")) _
    ∙ rw (entries_clean bridge_origin entries h) (ground arith)

id_clean :
    (bridge_origin source_id : Str)
    → is_xml_text (bridge_origin ++ (codes "/feed/" ++ (source_id ++ codes ".atom")))
      ≡ (is_xml_text bridge_origin && is_xml_text source_id)
unfolding is_xml_text
id_clean bridge_origin source_id =
    is_xml_text-append bridge_origin _
    ∙ ap (λ b. is_xml_text bridge_origin && b)
        (is_xml_text-append source_id (codes ".atom") ∙ ground arith)

-- The document has no forbidden character exactly if its values have none.
pub is_xml_text-document :
    (source : FeedSource) (entries : List FeedEntry) (bridge_origin : Str) (now_ms : ℕ)
    → IsPrintable (feed_updated entries now_ms)
    → All HasDate entries
    → is_xml_text (document source entries bridge_origin now_ms)
      ≡ is_clean source entries bridge_origin
unfolding feed_text is_xml_text
is_xml_text-document source entries bridge_origin now_ms d h =
    rw
      (
        value_clean (bridge_origin ++ (codes "/feed/" ++ (source.source_id ++ codes ".atom"))),
        id_clean bridge_origin source.source_id,
        value_clean source.display_name,
        date_part_clean (feed_updated entries now_ms) _ d,
        value_clean source.display_name,
        body_clean bridge_origin entries h,
      )
      (ground arith)
