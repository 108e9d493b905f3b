-- ===== src/Atom/Feed/Reading.antt =====
-- The document of `buildAtomFeed` of email-worker/src/atom.ts, and what the XML reader makes of it.
use agregado.Base.{
  ℕ, ◌≡◌, refl, ◌∙◌, true, false, List, [], ◌∷◌, ◌++◌, some, arith, All, Lacks, append_assoc,
}
use agregado.Base.Options.{◌>>=◌}
use agregado.Text.{Str, codes, join}
use agregado.Xml.{Event, attr, chars, lex, content, tag, quoted}
use agregado.Xml.Reading.{lex_chars, lex_attr, decode_of_Lacks}
use agregado.Platform.Date.Iso.{is_iso_char}
use agregado.Atom.Escape.{escape_xml}
use agregado.Atom.Escape.Laws.{decode-escape_xml, escape_xml-IsInert, IsInert}
use agregado.Atom.Feed.{
  FeedEntry, FeedSource, entry_link, entry_text, feed_text, entry_xml, entry_xmls, build_atom_feed,
  feed_updated,
}
use agregado.Base.Outcome.{ok}
use agregado.Atom.Feed.Dates.{to_iso_of_IsPrintable, date_text-IsIso}
use agregado.Atom.Feed.Document.{
  entry_events, head_events, body_events, feed_events, date_text, IsPrintable,
}

Inert-Lacks_open : (s : Str) → All IsInert s → Lacks b'<' s
Inert-Lacks_open [] h = tt
Inert-Lacks_open (c ∷ s) (i, h) = (i.0, Inert-Lacks_open s h)

Inert-Lacks_quote : (s : Str) → All IsInert s → Lacks b'"' s
Inert-Lacks_quote [] h = tt
Inert-Lacks_quote (c ∷ s) (i, h) = (i.2, Inert-Lacks_quote s h)

lex_escaped :
    (text rest : Str)
    → lex content [] (escape_xml text ++ b'<' ∷ rest)
      ≡ (lex tag [] rest >>= λ es. some (chars text ∷ es))
lex_escaped text rest =
    lex_chars (escape_xml text) text rest (Inert-Lacks_open _ (escape_xml-IsInert text))
      (decode-escape_xml text)

lex_escaped_attr :
    (text rest : Str)
    → lex quoted [] (escape_xml text ++ b'"' ∷ rest)
      ≡ (lex tag [] rest >>= λ es. some (attr text ∷ es))
lex_escaped_attr text rest =
    lex_attr (escape_xml text) text rest (Inert-Lacks_quote _ (escape_xml-IsInert text))
      (decode-escape_xml text)

iso-Lacks :
    (c : ℕ) (s : Str) → is_iso_char c ≡ false → All (λ d. is_iso_char d ≡ true) s → Lacks c s
iso-Lacks c [] e h = tt
iso-Lacks c (d ∷ s) e (i, h) = (λ same. ground arith, iso-Lacks c s e h)

lex_date :
    (date rest : Str)
    → All (λ c. is_iso_char c ≡ true) date
    → lex content [] (date ++ b'<' ∷ rest) ≡ (lex tag [] rest >>= λ es. some (chars date ∷ es))
lex_date date rest h =
    lex_chars date date rest (iso-Lacks b'<' date refl h)
      (decode_of_Lacks date (iso-Lacks b'&' date refl h))

lex_entry :
    (bridge_origin : Str) (entry : FeedEntry) (date rest : Str) (es : List Event)
    → All (λ c. is_iso_char c ≡ true) date
    → lex content [] rest ≡ some es
    → lex content (codes "\n") (entry_text entry bridge_origin date ++ rest)
      ≡ some (entry_events bridge_origin entry date es)
unfolding entry_text lex
lex_entry bridge_origin entry date rest es h e = simp append_assoc (
    rw (
      lex_escaped entry.id,
      lex_escaped entry.title,
      lex_date date _ h,
      lex_escaped_attr (entry_link entry bridge_origin),
      lex_escaped entry.readable_content,
      e,
    ))

lex_head :
    (source : FeedSource) (bridge_origin date body : Str) (es : List Event)
    → All (λ c. is_iso_char c ≡ true) date
    → lex content (codes "\n") (body ++ codes "\n</feed>\n") ≡ some es
    → lex content [] (feed_text source bridge_origin date body)
      ≡ some (head_events source bridge_origin date es)
unfolding feed_text lex
lex_head source bridge_origin date body es h e = rw (
  lex_escaped (bridge_origin ++ (codes "/feed/" ++ (source.source_id ++ codes ".atom"))),
  lex_escaped source.display_name,
  lex_date date _ h,
  lex_escaped source.display_name,
  e,
)

unfoldable pub entries_text : Str → List FeedEntry → List Str
entries_text bridge_origin [] = []
entries_text bridge_origin (entry ∷ entries) =
    entry_text entry bridge_origin (date_text entry.published_at)
    ∷ entries_text bridge_origin entries

abbrev pub HasDate : FeedEntry → Type 0
HasDate entry = IsPrintable entry.published_at

entry_xmls_lem :
    (bridge_origin : Str) (entries : List FeedEntry)
    → All HasDate entries
    → entry_xmls bridge_origin entries ≡ ok (entries_text bridge_origin entries)
unfolding entry_xmls entry_xml entries_text
entry_xmls_lem bridge_origin [] h = refl
entry_xmls_lem bridge_origin (entry ∷ entries) (d, h) =
    rw ((to_iso_of_IsPrintable entry.published_at d).0, entry_xmls_lem bridge_origin entries h)

lex_newline : (s : Str) → lex content [] (b'\n' ∷ s) ≡ lex content (codes "\n") s
unfolding lex
lex_newline s = refl

lex_body :
    (bridge_origin : Str) (entries : List FeedEntry)
    → All HasDate entries
    → lex content
        (codes "\n")
        (join (entries_text bridge_origin entries) (codes "\n") ++ codes "\n</feed>\n")
      ≡ some (body_events bridge_origin entries)
unfolding join entries_text
lex_body bridge_origin [] h = unfold lex in refl
lex_body bridge_origin (entry ∷ []) (d, h) =
    lex_entry bridge_origin entry (date_text entry.published_at) (codes "\n</feed>\n") _
      (date_text-IsIso entry.published_at d) (unfold lex in refl)
lex_body bridge_origin (entry ∷ next ∷ entries) (d, h) = rw append_assoc (
    lex_entry bridge_origin entry (date_text entry.published_at) _ _
      (date_text-IsIso entry.published_at d)
      (lex_newline _ ∙ lex_body bridge_origin (next ∷ entries) h))

-- The document as the sequence of its parts, with the texts of the dates.
abbrev pub document : FeedSource → List FeedEntry → Str → ℕ → Str
document source entries bridge_origin now_ms =
    feed_text source bridge_origin (date_text (feed_updated entries now_ms))
      (join (entries_text bridge_origin entries) (codes "\n"))

pub build_atom_feed_lem :
    (source : FeedSource) (entries : List FeedEntry) (bridge_origin : Str) (now_ms : ℕ)
    → IsPrintable (feed_updated entries now_ms)
    → All HasDate entries
    → build_atom_feed source entries bridge_origin now_ms
      ≡ ok (document source entries bridge_origin now_ms)
unfolding build_atom_feed
build_atom_feed_lem source entries bridge_origin now_ms d h = rw (
  (to_iso_of_IsPrintable (feed_updated entries now_ms) d).0,
  entry_xmls_lem bridge_origin entries h,
)

pub lex-document :
    (source : FeedSource) (entries : List FeedEntry) (bridge_origin : Str) (now_ms : ℕ)
    → IsPrintable (feed_updated entries now_ms)
    → All HasDate entries
    → lex content [] (document source entries bridge_origin now_ms)
      ≡ some (feed_events source entries bridge_origin now_ms)
lex-document source entries bridge_origin now_ms d h =
    lex_head source bridge_origin _ _ _ (date_text-IsIso (feed_updated entries now_ms) d)
      (lex_body bridge_origin entries h)
