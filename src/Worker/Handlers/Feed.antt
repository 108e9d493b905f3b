-- ===== src/Worker/Handlers/Feed.antt =====
-- `handleFeedRequest` of email-worker/src/index.ts: who gets a feed, and what is in it.
use mathlib.Core.List.{Mem, Perm}
use agregado.Base.{
  ℕ, ◌+◌, ◌≡◌, ◌≢◌, refl, sym, ap, ◌∙◌, true, false, List, [], ◌∷◌, map, some, arith, All, All-Mem,
  Option-cases, Bool-cases, inl, inr, ◌⊎◌,
}
use mathlib.Core.HLevel.{¬_prop}
use agregado.Base.Options.{eq_of_some}
use agregado.Base.Outcome.{Outcome, ok, throws}
use agregado.Text.{Str}
use agregado.Atom.Feed.{build_atom_feed}
use agregado.BasicAuth.{BasicAuthCredentials, Digest, parse_basic_auth, verify_secret}
use agregado.Worker.Effects.{
  Timeline, Async, World, pure, query, lift, ◌>>=◌, >>=-eq-ok, query-eq-ok,
}
use agregado.Worker.Store.{SourceRow, EntryRow, Engine, select, is_wanted, IsNewestFirst}
use agregado.Worker.Handlers.{
  Request, Response, Url, not_found, unauthorized, feed_response, to_feed_entry, to_feed_source,
  cutoff_at, feed_clock, serve_feed, render_feed, authorize, handle_feed_request,
}

module _ (engine : Engine) (digest : Digest) (parse_url : Str → Url) (request : Request)
    (w : Timeline) where
  -- The request's credentials are accepted for a source.
  pub record IsAccepted (source : SourceRow) : Type 0 where
    pub credentials : BasicAuthCredentials
    pub presented : parse_basic_auth request.headers ≡ some credentials
    pub verified : verify_secret digest credentials.password source.basic_auth_secret_hash ≡ true

  -- What a feed holds that is computed from a moment on: the entries of the source in the window, the
  -- newest first.
  pub record IsFeed (source : SourceRow) (source_id : Str) (n : ℕ) (body : Str) : Type 0 where
    pub rows : List EntryRow
    pub now_ms : ℕ
    pub selected :
        Perm rows (select (is_wanted source_id (cutoff_at (w n).now_ms)) (w (n + 1)).entries)
    pub ordered : IsNewestFirst rows
    pub built :
        build_atom_feed
          (to_feed_source source)
          (map to_feed_entry rows)
          (parse_url request.url).origin
          now_ms
        ≡ ok body

  built_sound :
      (o : Outcome Str) (n m : ℕ) (response : Response)
      → (lift o >>= λ xml. pure (feed_response xml)) w n ≡ (ok response, m)
      → (body : Str) × (o ≡ ok body) × (response ≡ feed_response body)
  built_sound (ok xml) n m response h = (xml, refl, ground arith)
  built_sound (throws e) n m response h = cc

  render_feed_sound :
      (source : SourceRow) (rows : List EntryRow) (n m : ℕ) (response : Response)
      → render_feed engine digest parse_url request source rows w n ≡ (ok response, m)
      → (now_ms : ℕ) × (body : Str) × (build_atom_feed
            (to_feed_source source)
            (map to_feed_entry rows)
            (parse_url request.url).origin
            now_ms
          ≡ ok body)
        × (response ≡ feed_response body)
  unfolding render_feed feed_clock
  render_feed_sound source [] n m response h =
      let (body, built, e) = built_sound _ (n + 1) m response h in ((w n).now_ms, body, built, e)
  render_feed_sound source (row ∷ rows) n m response h =
      let (body, built, e) = built_sound _ n m response h in (0, body, built, e)

  serve_feed_sound :
      (source : SourceRow) (source_id : Str) (n m : ℕ) (response : Response)
      → serve_feed engine digest parse_url request source source_id w n ≡ (ok response, m)
      → (body : Str) × IsFeed source source_id n body × (response ≡ feed_response body)
  unfolding serve_feed
  serve_feed_sound source source_id n m response h =
      let read = λ (v : World). engine.entries_since v.entries source_id (cutoff_at (w n).now_ms) in
      let (rows, n₁, answered, h₁) =
        >>=-eq-ok (query read) (render_feed engine digest parse_url request source) w (n + 1) m
          response h in
      let (now_ms, body, built, e) = render_feed_sound source rows n₁ m response h₁ in
      let same : rows ≡ read (w (n + 1)) = (query-eq-ok read w (n + 1) n₁ rows answered).0 in
      (
        body,
        record {
          rows = rows;
          now_ms = now_ms;
          selected =
              rw same
                (engine.entries_selected (w (n + 1)).entries source_id (cutoff_at (w n).now_ms));
          ordered =
              rw same
                (engine.entries_ordered (w (n + 1)).entries source_id (cutoff_at (w n).now_ms));
          built = built;
        },
        e,
      )

  -- The credentials are refused: there are none, or the password does not have the stored hash.
  abbrev pub IsRefused : SourceRow → Type 0
  IsRefused source =
      (credentials : BasicAuthCredentials)
      → parse_basic_auth request.headers ≡ some credentials
      → verify_secret digest credentials.password source.basic_auth_secret_hash ≡ false

  pub authorize_cases :
      (source : SourceRow) (next : Async Response)
      → (IsAccepted source × (authorize engine digest parse_url request source next ≡ next))
        ⊎ (IsRefused source
            × (authorize engine digest parse_url request source next ≡ pure unauthorized))
  unfolding authorize
  authorize_cases source next = elim (Option-cases (parse_basic_auth request.headers)) [
    | inl e ↦ inr ((λ c p. absurd (ground arith)), ground arith)
    | inr (c, e) ↦
        elim (Bool-cases (verify_secret digest c.password source.basic_auth_secret_hash)) [
          | inl v ↦ inl (record { credentials = c; presented = e; verified = v }, ground arith)
          | inr v ↦ inr ((λ d p. rw (eq_of_some d c (sym p ∙ e)) v), ground arith)
        ]
  ]

  module _ (source_id : Str) (n : ℕ) where
    -- While the database answers, a source that is not in its table is answered like a missing
    -- route, by 404, whatever the credentials.
    pub handle_feed_request_unknown :
        (w n).d1_up ≡ true
        → All (λ s. s.id ≢ source_id) (w n).sources
        → handle_feed_request engine digest parse_url request source_id w n ≡ (ok not_found, n + 1)
    unfolding handle_feed_request
    handle_feed_request_unknown up missing =
        elim (Option-cases (engine.source_by_id (w n).sources source_id)) [
          | inl e ↦ ground arith
          | inr (source, e) ↦
              let (m, named) = engine.source_found (w n).sources source_id source e in
              absurd (All-Mem _ (λ s. ¬_prop) (w n).sources missing m named)
        ]

    -- A response of status 200 comes only for a source of the table, to credentials whose password
    -- has the stored hash; its body is a feed of that source's entries of the window, all of them,
    -- the newest first.
    pub handle_feed_request_sound :
        (m : ℕ) (response : Response)
        → handle_feed_request engine digest parse_url request source_id w n ≡ (ok response, m)
        → response.status ≡ 200
        → (source : SourceRow) × Mem source (w n).sources
          × (source.id ≡ source_id)
          × IsAccepted source
          × IsFeed source source_id (n + 1) response.body
    unfolding handle_feed_request
    handle_feed_request_sound m response h served = elim (Bool-cases (w n).d1_up) [
      | inr down ↦ absurd (ground arith)
      | inl up ↦ elim (Option-cases (engine.source_by_id (w n).sources source_id)) [
        | inl missing ↦ absurd (ground arith)
        | inr (source, known) ↦
            elim (authorize_cases source
              (serve_feed engine digest parse_url request source source_id)) [
                | inr (r, e) ↦ absurd (ground arith)
                | inl (accepted, e) ↦
                    let serving : serve_feed engine digest parse_url request source source_id w
                          (n + 1)
                        ≡ (ok response, m) =
                      ground arith in
                    let (body, feed, same) =
                      serve_feed_sound source source_id (n + 1) m response serving in
                    let (member, named) =
                      engine.source_found (w n).sources source_id source known in
                    let same_body : response.body ≡ body = ap (λ (r : Response). r.body) same in
                    (source, member, named, accepted, rw same_body feed)
              ]
      ]
    ]
