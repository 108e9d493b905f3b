-- ===== src/Worker/Handlers/Routing.antt =====
-- `fetch` of email-worker/src/index.ts: which handler answers.
use agregado.Base.{◌≡◌, ◌≢◌, refl, [], ◌++◌, none, some, arith, Option-cases, inl, inr, Lacks}
use agregado.Text.{Str, codes, after_prefix}
use agregado.BasicAuth.{Digest}
use agregado.Worker.Effects.{pure}
use agregado.Worker.Routes.{feed_match, permalink_match}
use agregado.Worker.Routes.Laws.{feed_match_iff, permalink_match_iff}
use agregado.Worker.Store.{Engine}
use agregado.Worker.Handlers.{
  Request, Url, not_found, fetch, handle_feed_request, handle_permalink_request,
}

no_feed : (uuid : Str) → feed_match (codes "/p/" ++ uuid) ≡ none
unfolding feed_match after_prefix
no_feed uuid = refl

module _ (engine : Engine) (digest : Digest) (parse_url : Str → Url) (request : Request) where
  abbrev path : Str
  path = (parse_url request.url).pathname

  -- A path `/feed/<id>.atom`, with an id that is not empty and has no slash, is answered by the feed's
  -- handler for that id.
  pub fetch-feed :
      (source_id : Str)
      → path ≡ codes "/feed/" ++ (source_id ++ codes ".atom")
      → source_id ≢ []
      → Lacks b'/' source_id
      → fetch engine digest parse_url request
        ≡ handle_feed_request engine digest parse_url request source_id
  unfolding fetch
  fetch-feed source_id e ne lacks =
      let taken : feed_match path ≡ some source_id =
        (feed_match_iff path source_id).1 (e, ne, lacks) in
      ground arith

  -- A path `/p/<uuid>`, with a uuid that is not empty and has no slash, is answered by the
  -- permalink's handler for that uuid.
  pub fetch-permalink :
      (uuid : Str)
      → path ≡ codes "/p/" ++ uuid
      → uuid ≢ []
      → Lacks b'/' uuid
      → fetch engine digest parse_url request
        ≡ handle_permalink_request engine digest parse_url uuid
  unfolding fetch
  fetch-permalink uuid e ne lacks =
      let passed : feed_match path ≡ none = rw e (no_feed uuid) in
      let taken : permalink_match path ≡ some uuid =
        (permalink_match_iff path uuid).1 (e, ne, lacks) in
      ground arith

  -- A path that is neither `/feed/<id>.atom` nor `/p/<uuid>`, with an id or a uuid that is not empty
  -- and has no slash, is answered by 404 with no look at the database or the bucket.
  pub fetch_other :
      ((source_id : Str)
        → path ≡ codes "/feed/" ++ (source_id ++ codes ".atom")
        → Lacks b'/' source_id
        → source_id ≡ [])
      → ((uuid : Str) → path ≡ codes "/p/" ++ uuid → Lacks b'/' uuid → uuid ≡ [])
      → fetch engine digest parse_url request ≡ pure not_found
  unfolding fetch
  fetch_other no_feed no_permalink = elim (Option-cases (feed_match path)) [
    | inr (source_id, e) ↦
        let (whole, ne, lacks) = (feed_match_iff path source_id).0 e in
        absurd (ne (no_feed source_id whole lacks))
    | inl e ↦ elim (Option-cases (permalink_match path)) [
      | inr (uuid, f) ↦
          let (whole, ne, lacks) = (permalink_match_iff path uuid).0 f in
          absurd (ne (no_permalink uuid whole lacks))
      | inl f ↦ ground arith
    ]
  ]
