-- ===== src/Worker/Handlers.antt =====
-- The handlers of email-worker/src/index.ts. The database engine, SHA-256 and the URL parser are
-- parameters.
pub mod Routing
pub mod Feed
pub mod Permalink
pub mod Serving
pub mod Refused
use agregado.Base.{
  ℕ, ◌+◌, ◌*◌, ◌/◌, Bool, true, false, List, [], ◌∷◌, map, Option, none, some, if◌then◌else◌,
}
use agregado.Base.Int.{ℤ, sub_ℕ}
use agregado.Text.{Str, codes}
use agregado.Atom.Feed.{FeedEntry, FeedSource, build_atom_feed}
use agregado.BasicAuth.{Digest, parse_basic_auth, verify_secret}
use agregado.Worker.Effects.{Timeline, Async, ◌>>=◌, pure, lift, query, get_object, date_now, World}
use agregado.Worker.Routes.{feed_match, permalink_match}
use agregado.Worker.Store.{SourceRow, EntryRow, Engine}

abbrev pub feed_window_seconds : ℕ
feed_window_seconds = 30 * 24 * 60 * 60

pub record Request : Type 0 where
  pub url : Str
  pub headers : List (Str × Str)

-- The status, the headers that the code sets and the body.
pub record Response : Type 0 where
  pub status : ℕ
  pub headers : List (Str × Str)
  pub body : Str

-- `new URL(request.url)`, for the URL of a request, which always parses.
pub record Url : Type 0 where
  pub origin : Str
  pub pathname : Str

abbrev pub not_found : Response
not_found = record { status = 404; headers = []; body = codes "Not Found" }

abbrev pub unauthorized : Response
unauthorized = record {
  status = 401;
  headers = (codes "WWW-Authenticate", codes "Basic realm=\"bridge feed\"") ∷ [];
  body = codes "Unauthorized";
}

abbrev pub feed_response : Str → Response
feed_response xml = record {
  status = 200;
  headers = (codes "Content-Type", codes "application/atom+xml; charset=utf-8") ∷ [];
  body = xml;
}

abbrev pub html_response : Str → Response
html_response body = record {
  status = 200;
  headers = (codes "Content-Type", codes "text/html; charset=utf-8") ∷ [];
  body = body;
}

unfoldable pub to_feed_entry : EntryRow → FeedEntry
to_feed_entry row = record {
  id = row.id;
  permalink_uuid = row.permalink_uuid;
  canonical_url = row.canonical_url;
  title = row.title;
  readable_content = row.readable_content;
  published_at = row.published_at;
}

unfoldable pub to_feed_source : SourceRow → FeedSource
to_feed_source source = record { source_id = source.id; display_name = source.display_name }

-- `Math.floor(Date.now() / 1000) - FEED_WINDOW_SECONDS`
unfoldable pub cutoff_at : ℕ → ℤ
cutoff_at now_ms = sub_ℕ (now_ms / 1000) feed_window_seconds

-- `buildAtomFeed` reads the clock only where there is no entry.
unfoldable pub feed_clock : List FeedEntry → Async ℕ
feed_clock [] = date_now
feed_clock (entry ∷ entries) = pure 0

module _ (engine : Engine) (digest : Digest) (parse_url : Str → Url) where
  -- The feed of the rows that the query gave.
  unfoldable pub render_feed : Request → SourceRow → List EntryRow → Async Response
  render_feed request source results =
      let entries = map to_feed_entry results in
      let bridge_origin = (parse_url request.url).origin in
      do
        now_ms ← feed_clock entries
        xml ← lift (build_atom_feed (to_feed_source source) entries bridge_origin now_ms)
        pure (feed_response xml)

  -- What follows once the credentials are accepted.
  unfoldable pub serve_feed : Request → SourceRow → Str → Async Response
  serve_feed request source source_id = do
    now_ms ← date_now
    results ← query (λ w. engine.entries_since w.entries source_id (cutoff_at now_ms))
    render_feed request source results

  -- The two guards of the credentials.
  unfoldable pub authorize : Request → SourceRow → Async Response → Async Response
  authorize request source next = elim (parse_basic_auth request.headers) [
    | none ↦ pure unauthorized
    | some credentials ↦
        if verify_secret digest credentials.password source.basic_auth_secret_hash
        then next
        else pure unauthorized
  ]

  unfoldable pub handle_feed_request : Request → Str → Async Response
  handle_feed_request request source_id =
      query (λ w. engine.source_by_id w.sources source_id) >>= λ found. elim found [
        | none ↦ pure not_found
        | some source ↦ authorize request source (serve_feed request source source_id)
      ]

  unfoldable pub handle_permalink_request : Str → Async Response
  handle_permalink_request uuid = query (λ w. engine.entry_by_permalink w.entries uuid) >>= λ entry.
      elim entry [
        | none ↦ pure not_found
        | some id ↦ get_object id >>= λ object. elim object [
          | none ↦ pure not_found
          | some body ↦ pure (html_response body)
        ]
      ]

  unfoldable pub fetch : Request → Async Response
  fetch request =
      let pathname = (parse_url request.url).pathname in
      elim (feed_match pathname) [
        | some source_id ↦ handle_feed_request request source_id
        | none ↦ elim (permalink_match pathname) [
          | some uuid ↦ handle_permalink_request uuid
          | none ↦ pure not_found
        ]
      ]
