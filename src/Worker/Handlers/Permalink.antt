-- ===== src/Worker/Handlers/Permalink.antt =====
-- `handlePermalinkRequest` of email-worker/src/index.ts.
use agregado.Base.{ℕ, ◌+◌, ◌≡◌, true, false, Option, none, some, arith}
use agregado.Base.Outcome.{ok, throws, rejected}
use agregado.Text.{Str}
use agregado.BasicAuth.{Digest}
use agregado.Worker.Effects.{Timeline}
use agregado.Worker.Store.{Engine}
use agregado.Worker.Handlers.{Url, not_found, html_response, handle_permalink_request}

module _ (engine : Engine) (digest : Digest) (parse_url : Str → Url) (w : Timeline) (uuid : Str)
    (n : ℕ) where
  -- What the permalink shows: the object of the entry that the database has at the first read, as
  -- the bucket has it at the second.
  abbrev pub shown : Option Str
  shown = elim (engine.entry_by_permalink (w n).entries uuid) [
    | none ↦ none
    | some id ↦ (w (n + 1)).bucket id
  ]

  -- While the database and the bucket answer, the response is the object if there is one, and a 404
  -- if the entry or the object is missing.
  pub handle_permalink_request_lem :
      (w n).d1_up ≡ true
      → (w (n + 1)).r2_up ≡ true
      → (handle_permalink_request engine digest parse_url uuid w n).0
        ≡ ok (elim shown [ none ↦ not_found | some body ↦ html_response body ])
  unfolding handle_permalink_request
  handle_permalink_request_lem up up' = ground arith

  -- A read that fails is not an answer: the exception goes on to the caller.
  pub handle_permalink_request_down :
      (w n).d1_up ≡ false
      → (handle_permalink_request engine digest parse_url uuid w n).0 ≡ throws rejected
  unfolding handle_permalink_request
  handle_permalink_request_down down = ground arith
