-- ===== src/Ingest/Published/Served.antt =====
-- What the Worker of email-worker/src/index.ts serves of what the ingest has stored.
use agregado.Base.{
  ℕ, ◌+◌, ◌≡◌, sym, ap, ◌∙◌, Bool, List, [], ◌∷◌, map, Option, some, arith, All, All-perm, All-map,
  Bool-cases, Option-cases, inl, inr,
}
use mathlib.Core.Path.{subst}
use agregado.Base.Int.{ℤ}
use agregado.Base.Outcome.{ok}
use agregado.Text.{Str}
use agregado.Platform.Crypto.{CaseMap, KeyedHash, NodeText}
use agregado.BasicAuth.{Digest}
use agregado.Atom.Feed.{build_atom_feed}
use agregado.Html.{Cheerio}
use agregado.Worker.Effects.{Timeline}
use agregado.Worker.Store.{Engine, EntryRow, EntryRecord, SourceRow, select, is_wanted}
use agregado.Worker.Handlers.{
  Request, Response, Url, to_feed_entry, to_feed_source, cutoff_at, handle_feed_request,
  handle_permalink_request,
}
use agregado.Worker.Handlers.Feed.{handle_feed_request_sound}
use agregado.Ingest.Identity.{Hmac}
use agregado.Ingest.Readable.Reader.{IsReadable}
use agregado.Ingest.Workflow.{Settings}
use agregado.Ingest.Workflow.System.{System, Reaches}
use agregado.Ingest.Workflow.Contents.{WorldHolds, SystemHolds}
use agregado.Ingest.Published.{
  content_of, IsCleanRow, IsCleanPage, IsCapturedPage, Reaches-WorldHolds,
}

IsReadable-IsProp : (s : Str) → IsProp (IsReadable s)
IsReadable-IsProp s = hlevel

select-All :
    (P : EntryRow → Type 0) (wanted : EntryRecord → Bool) (entries : List EntryRecord)
    → All (λ r. P r.row) entries
    → All P (select wanted entries)
unfolding select
select-All P wanted [] h = tt
select-All P wanted (r ∷ rs) (hr, h) = elim (Bool-cases (wanted r)) [
  | inl t ↦ rw t (hr, select-All P wanted rs h)
  | inr f ↦ rw f (select-All P wanted rs h)
]

-- A permalink that is answered by a page is answered by an object of the bucket.
handle_permalink_request_sound :
    (engine : Engine) (digest : Digest) (parse_url : Str → Url) (w : Timeline) (uuid : Str)
    (n m : ℕ) (response : Response)
    → handle_permalink_request engine digest parse_url uuid w n ≡ (ok response, m)
    → response.status ≡ 200
    → (key : Str) × ((w (n + 1)).bucket key ≡ some response.body)
unfolding handle_permalink_request
handle_permalink_request_sound engine digest parse_url w uuid n m response h served =
    elim (Bool-cases (w n).d1_up) [
      | inr down ↦ absurd (ground arith)
      | inl up ↦ elim (Option-cases (engine.entry_by_permalink (w n).entries uuid)) [
        | inl missing ↦ absurd (ground arith)
        | inr (id, found) ↦ elim (Bool-cases (w (n + 1)).r2_up) [
          | inr down ↦ absurd (ground arith)
          | inl up' ↦ elim (Option-cases ((w (n + 1)).bucket id)) [
            | inl gone ↦ absurd (ground arith)
            | inr (body, e) ↦ (id, ground arith)
          ]
        ]
      ]
    ]

module _ (case_map : CaseMap) (node_text : NodeText) (cheerio : Cheerio)
    (links_of : Str → List (Str × Str)) (parse_date : Str → Option ℤ) (hash : KeyedHash)
    (digest : Digest) (hmac : Hmac) (engine : Engine) (payload_of : Str → Option Str)
    (settings : Settings) (parse_url : Str → Url) (w : Timeline) where
  abbrev pub Ingested : System → System → Type 0
  Ingested =
      Reaches case_map hash node_text digest hmac
        (content_of case_map node_text cheerio links_of parse_date) engine payload_of settings

  abbrev pub Clean : System → Type 0
  Clean =
      SystemHolds (IsCleanRow case_map node_text cheerio links_of parse_date)
        (IsCleanPage case_map node_text cheerio links_of parse_date)
        (IsCapturedPage case_map node_text cheerio links_of parse_date)

  world_then :
      {s t : System}
      → Clean s
      → Ingested s t
      → WorldHolds
          (IsCleanRow case_map node_text cheerio links_of parse_date)
          (IsCleanPage case_map node_text cheerio links_of parse_date)
          (IsCapturedPage case_map node_text cheerio links_of parse_date)
          t.bridge.world
  world_then clean reached =
      Reaches-WorldHolds case_map node_text cheerio links_of parse_date hash digest hmac engine
        payload_of settings clean reached

  -- The ingest has gone on from a clean system, in any way, until the Worker reads the bucket. A
  -- permalink that is then answered by status 200 is answered by a page that was sanitized, or written
  -- from the text of a mail without HTML, before its assets were captured.
  pub handle_permalink_request-IsCapturedPage :
      {s t : System} (uuid : Str) (n m : ℕ) (response : Response)
      → Clean s
      → Ingested s t
      → w (n + 1) ≡ t.bridge.world
      → handle_permalink_request engine digest parse_url uuid w n ≡ (ok response, m)
      → response.status ≡ 200
      → IsCapturedPage case_map node_text cheerio links_of parse_date response.body
  handle_permalink_request-IsCapturedPage uuid n m response clean reached now h served =
      let (key, stored) =
        handle_permalink_request_sound engine digest parse_url w uuid n m response h served in
      (world_then clean reached).1 key response.body (ap (λ v. v.bucket key) (sym now) ∙ stored)

  -- The ingest has gone on from a clean system, in any way, until the Worker reads the entries. A feed
  -- that is then answered by status 200 is built of rows whose contents hold text, the tags of the list
  -- properly nested, and no attribute but the `href` of an `a`.
  pub handle_feed_request-IsReadable :
      {s t : System} (request : Request) (source_id : Str) (n m : ℕ) (response : Response)
      → Clean s
      → Ingested s t
      → w (n + 1 + 1) ≡ t.bridge.world
      → handle_feed_request engine digest parse_url request source_id w n ≡ (ok response, m)
      → response.status ≡ 200
      → (source : SourceRow) × (rows : List EntryRow) × (now_ms : ℕ) × (build_atom_feed
            (to_feed_source source)
            (map to_feed_entry rows)
            (parse_url request.url).origin
            now_ms
          ≡ ok response.body)
        × All (λ row. IsReadable row.readable_content) rows
  handle_feed_request-IsReadable {s} {t} request source_id n m response clean reached now h served =
      let (source, member, named, accepted, feed) =
        handle_feed_request_sound engine digest parse_url request w source_id n m response h
          served in
      let entries = (w (n + 1 + 1)).entries in
      let wanted = is_wanted source_id (cutoff_at (w (n + 1)).now_ms) in
      let clean_rows : All (IsCleanRow case_map node_text cheerio links_of parse_date) entries =
        subst (λ v. All (IsCleanRow case_map node_text cheerio links_of parse_date) v.entries)
          (sym now) (world_then clean reached).0 in
      (
        source,
        feed.rows,
        feed.now_ms,
        feed.built,
        All-perm (λ (row : EntryRow). IsReadable row.readable_content)
            (λ row. IsReadable-IsProp row.readable_content) feed.rows (select wanted entries)
            feed.selected
            (select-All (λ row. IsReadable row.readable_content) wanted entries
              (All-map (IsCleanRow case_map node_text cheerio links_of parse_date)
                (λ r. IsReadable r.row.readable_content) entries (λ r c. c.0) clean_rows)),
      )
