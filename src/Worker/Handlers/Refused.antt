-- ===== src/Worker/Handlers/Refused.antt =====
-- `handleFeedRequest` of email-worker/src/index.ts on credentials that are not a source's.
use mathlib.Core.List.{Mem}
use mathlib.Core.Logic.{∥∥₁_elim}
use mathlib.Core.HLevel.{¬_prop, ⊥_prop}
use agregado.Base.{ℕ, ◌+◌, ◌≡◌, true, All, All-Mem, All-Memᴰ, Option-cases, inl, inr, arith}
use agregado.Base.Outcome.{ok}
use agregado.Text.{Str, IsUtf16}
use agregado.BasicAuth.{BasicAuthCredentials, Digest, hash_secret}
use agregado.BasicAuth.Parse.{Presents, parse_basic_auth_iff}
use agregado.BasicAuth.Verify.{verify_secret_iff}
use agregado.Worker.Effects.{Timeline}
use agregado.Worker.Store.{SourceRow, Engine}
use agregado.Worker.Handlers.{Request, Url, unauthorized, serve_feed, handle_feed_request}
use agregado.Worker.Handlers.Feed.{IsAccepted, authorize_cases}

module _ (engine : Engine) (digest : Digest) (parse_url : Str → Url) (request : Request)
    (w : Timeline) where
  -- The request presents a password with the hash of that row.
  abbrev pub HasPassword : SourceRow → Type 0
  HasPassword source =
      (c : BasicAuthCredentials) × Presents request.headers c
      × (hash_secret digest c.password ≡ source.basic_auth_secret_hash)

  accepted-HasPassword :
      (source : SourceRow)
      → IsUtf16 source.basic_auth_secret_hash
      → IsAccepted engine digest parse_url request w source
      → HasPassword source
  accepted-HasPassword source units accepted = (
    accepted.credentials,
    (parse_basic_auth_iff request.headers accepted.credentials).0 accepted.presented,
    (verify_secret_iff digest accepted.credentials.password source.basic_auth_secret_hash units).0
        accepted.verified,
  )

  -- While the database answers, a request for a source of the table is answered by 401, before any
  -- entry is read, if no row of that id holds the hash of a password that the request presents. The
  -- hashes of the table are texts of 16-bit units, as JavaScript has them.
  pub handle_feed_request_of_stranger :
      (source_id : Str) (source : SourceRow) (n : ℕ)
      → (w n).d1_up ≡ true
      → Mem source (w n).sources
      → source.id ≡ source_id
      → All (λ s. IsUtf16 s.basic_auth_secret_hash) (w n).sources
      → All (λ s. ¬ ((s.id ≡ source_id) × HasPassword s)) (w n).sources
      → handle_feed_request engine digest parse_url request source_id w n ≡ (ok unauthorized, n + 1)
  unfolding handle_feed_request
  handle_feed_request_of_stranger source_id source n up member named units strange =
      elim (Option-cases (engine.source_by_id (w n).sources source_id)) [
        | inl e ↦ absurd (
            All-Mem _ (λ s. ¬_prop) (w n).sources (engine.source_missing (w n).sources source_id e)
              member named)
        | inr (found, e) ↦
            let (m, same) = engine.source_found (w n).sources source_id found e in
            elim (authorize_cases engine digest parse_url request w found
              (serve_feed engine digest parse_url request found source_id)) [
                | inr (r, refused) ↦ ground arith
                | inl (accepted, passed) ↦
                    let stays : ¬ (IsUtf16 found.basic_auth_secret_hash) = λ u.
                      All-Mem _ (λ s. ¬_prop) (w n).sources strange m
                        (same, accepted-HasPassword found u accepted) in
                    absurd (∥∥₁_elim m ⊥_prop (λ d. stays (All-Memᴰ _ (w n).sources units d)))
              ]
      ]
