-- ===== src/Worker/Handlers/Serving.antt =====
-- `handleFeedRequest` of email-worker/src/index.ts on requests with the right credentials.
use native.Mathlib.Bridge.{le_prop}
use agregado.Base.{
  ℕ, ◌+◌, ◌/◌, ◌≤◌, ◌≡◌, ap, ◌∙◌, Bool, true, List, [], ◌∷◌, map, none, some, arith, All, All-perm,
  Bool-cases, inl, inr, if◌then◌else◌,
}
use agregado.Base.Outcome.{ok}
use agregado.Text.{Str}
use agregado.Xml.{normalise, read_xml}
use agregado.Atom.Feed.{feed_updated}
use agregado.Atom.Feed.Document.{feed_events, is_clean, IsPrintable}
use agregado.Atom.Feed.Reading.{HasDate}
use agregado.Atom.Feed.Laws.{build_atom_feed-read_xml}
use agregado.BasicAuth.{Digest}
use agregado.Worker.Effects.{Timeline, Async}
use agregado.Worker.Store.{SourceRow, EntryRow, EntryRecord, Engine, select, is_wanted}
use agregado.Worker.Handlers.{
  Request, Response, Url, feed_response, to_feed_entry, to_feed_source, cutoff_at, feed_clock,
  serve_feed, render_feed, authorize, handle_feed_request,
}
use agregado.Worker.Handlers.Feed.{IsAccepted}

abbrev IsPrintableRow : EntryRow → Type 0
IsPrintableRow row = IsPrintable row.published_at

All-select :
    (wanted : EntryRecord → Bool) (rs : List EntryRecord)
    → All (λ r. IsPrintableRow r.row) rs
    → All IsPrintableRow (select wanted rs)
unfolding select
All-select wanted [] h = tt
All-select wanted (r ∷ rs) (hr, h) = elim (Bool-cases (wanted r)) [
  | inl t ↦ rw t (hr, All-select wanted rs h)
  | inr f ↦ rw f (All-select wanted rs h)
]

All-to_feed_entry :
    (rows : List EntryRow) → All IsPrintableRow rows → All HasDate (map to_feed_entry rows)
All-to_feed_entry [] h = tt
All-to_feed_entry (r ∷ rows) (hr, h) = (unfold to_feed_entry in hr, All-to_feed_entry rows h)

module _ (engine : Engine) (digest : Digest) (parse_url : Str → Url) (request : Request)
    (w : Timeline) where
  -- What the feed shows at a moment: the rows of the query.
  abbrev pub rows_at : Str → ℕ → List EntryRow
  rows_at source_id n = engine.entries_since (w (n + 1)).entries source_id (cutoff_at (w n).now_ms)

  -- A body that a reader of XML finds to hold the rows, if they hold only characters of XML.
  abbrev pub Shows : SourceRow → List EntryRow → Str → Type 0
  Shows source rows body =
      (now_ms : ℕ) × (read_xml body ≡ (
        if is_clean (to_feed_source source) (map to_feed_entry rows) (parse_url request.url).origin
        then some (
            map normalise (
              feed_events (to_feed_source source) (map to_feed_entry rows)
                (parse_url request.url).origin now_ms))
        else none))

  render_feed_total :
      (source : SourceRow) (rows : List EntryRow) (n : ℕ)
      → (w n).now_ms / 1000 ≤ 8640000000000
      → All IsPrintableRow rows
      → (body : Str) × (m : ℕ) × (render_feed engine digest parse_url request source rows w n
          ≡ (ok (feed_response body), m))
        × Shows source rows body
  unfolding render_feed feed_clock
  render_feed_total source [] n soon h =
      let (body, built, read) =
        build_atom_feed-read_xml (to_feed_source source) [] (parse_url request.url).origin
          (w n).now_ms (unfold feed_updated in omega arith) tt in
      (body, n + 1, rw built, ((w n).now_ms, read))
  render_feed_total source (row ∷ rows) n soon h =
      let (body, built, read) =
        build_atom_feed-read_xml (to_feed_source source) (map to_feed_entry (row ∷ rows))
          (parse_url request.url).origin 0 (unfold feed_updated to_feed_entry in h.0)
          (All-to_feed_entry (row ∷ rows) h) in
      (body, n, rw built, (0, read))

  known_step :
      (source_id : Str) (source : SourceRow) (n : ℕ)
      → engine.source_by_id (w n).sources source_id ≡ some source
      → (w n).d1_up ≡ true
      → handle_feed_request engine digest parse_url request source_id w n
        ≡ authorize engine digest parse_url request source
            (serve_feed engine digest parse_url request source source_id)
            w
            (n + 1)
  unfolding handle_feed_request
  known_step source_id source n known up = ground arith

  accepted_step :
      (source : SourceRow) (next : Async Response)
      → IsAccepted engine digest parse_url request w source
      → authorize engine digest parse_url request source next ≡ next
  unfolding authorize
  accepted_step source next accepted = ground (arith, accepted.presented, accepted.verified)

  selected_step :
      (source_id : Str) (source : SourceRow) (n : ℕ)
      → (w (n + 1)).d1_up ≡ true
      → serve_feed engine digest parse_url request source source_id w n
        ≡ render_feed engine digest parse_url request source (rows_at source_id n) w (n + 1 + 1)
  unfolding serve_feed
  selected_step source_id source n up = ground arith

  -- With a known source, accepted credentials, a database that answers both queries, and a clock and
  -- entries whose dates JavaScript can print, the answer is a feed. If the values of the rows that
  -- the query gave hold only characters of XML, a reader of XML finds those rows in it, in their
  -- order, with their line ends, and white space in an attribute, normalised as XML 1.0 has it; if
  -- not, the feed is not well-formed.
  pub handle_feed_request_total :
      (source_id : Str) (source : SourceRow) (n : ℕ)
      → engine.source_by_id (w n).sources source_id ≡ some source
      → IsAccepted engine digest parse_url request w source
      → (w n).d1_up ≡ true
      → (w (n + 1 + 1)).d1_up ≡ true
      → All (λ r. IsPrintable r.row.published_at) (w (n + 1 + 1)).entries
      → (w (n + 1 + 1 + 1)).now_ms / 1000 ≤ 8640000000000
      → (body : Str) × (m : ℕ) × (handle_feed_request engine digest parse_url request source_id w n
          ≡ (ok (feed_response body), m))
        × Shows source (rows_at source_id (n + 1)) body
  handle_feed_request_total source_id source n known accepted up up' dates soon =
      let rows = rows_at source_id (n + 1) in
      let wanted = is_wanted source_id (cutoff_at (w (n + 1)).now_ms) in
      let printable : All IsPrintableRow rows =
        All-perm IsPrintableRow (λ r. le_prop) rows (select wanted (w (n + 1 + 1)).entries)
          (engine.entries_selected (w (n + 1 + 1)).entries source_id (cutoff_at (w (n + 1)).now_ms))
          (All-select wanted (w (n + 1 + 1)).entries dates) in
      let (body, m, rendered, shown) =
        render_feed_total source rows (n + 1 + 1 + 1) soon printable in
      (
        body,
        m,
        known_step source_id source n known up
            ∙ ap (λ (f : Async Response). f w (n + 1))
                (accepted_step source (serve_feed engine digest parse_url request source source_id)
                  accepted)
            ∙ selected_step source_id source (n + 1) up'
            ∙ rendered,
        shown,
      )
