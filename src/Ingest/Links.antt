-- ===== src/Ingest/Links.antt =====
-- From the ingest (n8n/src/identity.js) to the reader: the links that a feed of email-worker/src gives
-- for entries without a canonical URL.
use agregado.Base.{ℕ, ◌+◌, ◌≡◌, ap, ◌∙◌, true, All, ◌++◌, none, some, arith}
use agregado.Base.Outcome.{ok}
use agregado.Text.{Str, codes}
use agregado.Atom.Feed.{FeedEntry, entry_link, permalink_url}
use agregado.BasicAuth.{Digest}
use agregado.Worker.Effects.{World, Timeline, Async}
use agregado.Worker.Store.{Engine}
use agregado.Worker.Handlers.{Request, Response, Url, html_response, fetch}
use agregado.Worker.Handlers.Routing.{fetch-permalink}
use agregado.Ingest.{Reach}
use agregado.Ingest.Identity.{Hmac, permalink_uuid, permalink_uuid-chars, not_slash, is_uuid_char}
use agregado.Ingest.Permalinks.{handle_permalink_request_resolves}
use agregado.Ingest.Resolves.{IsSound, HasPermalink}

-- `new URL` splits the URL of a permalink at the end of the origin.
abbrev pub SplitsPermalinks : (Str → Url) → Str → Type 0
SplitsPermalinks parse_url bridge_origin =
    (uuid : Str)
    → All (λ c. is_uuid_char c ≡ true) uuid
    → (parse_url (bridge_origin ++ (codes "/p/" ++ uuid))).pathname ≡ codes "/p/" ++ uuid

module _ (uuid_of : Str → Str) (hmac : Hmac) (secret : Str) (engine : Engine) (digest : Digest)
    (parse_url : Str → Url) where
  -- Let the ingest make its permalinks with a secret. The link that a feed gives for an entry
  -- without a canonical URL is served by the Worker once the database has had its permalink: at any
  -- later moment, while the database and the bucket answer, and whatever the writers do meanwhile.
  pub fetch-entry_link :
      (w : Timeline) (start : World) (n : ℕ) (request : Request) (entry : FeedEntry)
      (bridge_origin : Str)
      → ((id : Str) → permalink_uuid hmac id secret ≡ some (uuid_of id))
      → SplitsPermalinks parse_url bridge_origin
      → entry.canonical_url ≡ none
      → entry.permalink_uuid ≡ uuid_of entry.id
      → request.url ≡ entry_link entry bridge_origin
      → IsSound uuid_of start
      → HasPermalink uuid_of (uuid_of entry.id) start.entries
      → Reach uuid_of start (w n)
      → Reach uuid_of (w n) (w (n + 1))
      → (w n).d1_up ≡ true
      → (w (n + 1)).r2_up ≡ true
      → (body : Str) × ((fetch engine digest parse_url request w n).0 ≡ ok (html_response body))
  unfolding entry_link permalink_url
  fetch-entry_link w start n request entry bridge_origin made splits bare derived url sound has
        before meanwhile up up' =
      let uuid = uuid_of entry.id in
      let link : request.url ≡ bridge_origin ++ (codes "/p/" ++ uuid) = ground arith in
      let (ne, chars) = permalink_uuid-chars hmac entry.id secret uuid (made entry.id) in
      let path : (parse_url request.url).pathname ≡ codes "/p/" ++ uuid =
        ap (λ u. (parse_url u).pathname) link ∙ splits uuid chars in
      let (body, served) =
        handle_permalink_request_resolves uuid_of engine digest parse_url w start uuid n sound has
          before meanwhile up up' in
      (
        body,
        ap (λ (f : Async Response). (f w n).0)
              (fetch-permalink engine digest parse_url request uuid path ne (not_slash uuid chars))
            ∙ served,
      )
