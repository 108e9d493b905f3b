-- ===== src/Ingest/Readable/Whole.antt =====
-- The whole of `toReadableContent` of n8n/src/sanitize.js: what every entry of the feed shows.
use agregado.Base.{refl, [], ◌∷◌, false}
use agregado.Text.{Str}
use agregado.Text.Trim.{is_space, trim, strip, strip_start}
use agregado.Platform.Crypto.{CaseMap, NodeText}
use agregado.Html.{Cheerio}
use agregado.Ingest.Readable.{
  walk, collapse, paragraphs, plain_text_to_html, or_plain_text, readable_nodes,
  to_readable_content,
}
use agregado.Ingest.Readable.Reader.{content, at, IsReadable}
use agregado.Ingest.Readable.Collapse.{read-collapse, read-strip_start, read-strip_end}
use agregado.Ingest.Readable.Walk.{read-walk, read-print_paragraphs}

plain_text_to_html-IsReadable : (plain : Str) → IsReadable (plain_text_to_html plain)
unfolding plain_text_to_html
plain_text_to_html-IsReadable plain = read-print_paragraphs (paragraphs 0 plain)

trim-IsReadable : (s : Str) → IsReadable s → IsReadable (trim s)
unfolding trim strip
trim-IsReadable s h =
    read-strip_end (at content []) (at content []) (strip_start is_space s) refl
      (read-strip_start [] (at content []) s h)

or_plain_text-IsReadable : (s plain : Str) → IsReadable s → IsReadable (or_plain_text s plain)
unfolding or_plain_text
or_plain_text-IsReadable [] plain h = plain_text_to_html-IsReadable plain
or_plain_text-IsReadable (c ∷ s) plain h = h

-- Whatever the mail holds, the readable content is read to its end by a reader that takes text without
-- a tag, the twenty tags of the list properly nested and closed, and no attribute but the `href` of an
-- `a`.
pub to_readable_content-IsReadable :
    (case_map : CaseMap) (node_text : NodeText) (cheerio : Cheerio) (html plain : Str)
    → IsReadable (to_readable_content case_map node_text cheerio html plain)
unfolding to_readable_content
to_readable_content-IsReadable case_map node_text cheerio html plain = go (trim html)
  where
    go :
        (t : Str)
        → IsReadable (elim t [
          | [] ↦ plain_text_to_html plain
          | c ∷ s ↦
              or_plain_text
                (trim (
                  collapse false
                    (walk (readable_nodes case_map node_text cheerio (cheerio.load html)))))
                plain
        ])
    go [] = plain_text_to_html-IsReadable plain
    go (c ∷ s) =
        let nodes = readable_nodes case_map node_text cheerio (cheerio.load html) in
        or_plain_text-IsReadable (trim (collapse false (walk nodes))) plain (
          trim-IsReadable (collapse false (walk nodes)) (
            read-collapse false (at content []) (at content []) (walk nodes) tt tt
              (read-walk [] nodes)))
