-- ===== src/Ingest/Permalinks.antt =====
-- `handlePermalinkRequest` of email-worker/src/index.ts, with the writers at work before a request and
-- while it waits.
use mathlib.Core.HLevel.{¬_prop}
use mathlib.Core.Path.{subst}
use mathlib.Core.Logic.{∥∥₁_elim}
use agregado.Base.{
  ℕ, ◌+◌, ◌≡◌, ◌≢◌, true, List, [], ◌∷◌, Option, none, some, arith, All, All-Mem, Option-cases, inl,
  inr,
}
use agregado.Base.Outcome.{ok}
use agregado.Text.{Str}
use agregado.BasicAuth.{Digest}
use agregado.Worker.Effects.{World, Timeline}
use agregado.Worker.Store.{EntryRecord, Engine}
use agregado.Worker.Handlers.{Url, html_response, handle_permalink_request}
use agregado.Worker.Handlers.Permalink.{handle_permalink_request_lem}
use agregado.Ingest.{Reach}
use agregado.Ingest.Resolves.{
  IsSound, IsSoundRow, Reach-IsSound, Reach-keeps, HasPermalink, Reach-HasPermalink,
}

module _ (uuid_of : Str → Str) (engine : Engine) (digest : Digest) (parse_url : Str → Url) where
  backed :
      (bucket : Str → Option Str) (rs : List EntryRecord)
      → All (IsSoundRow uuid_of bucket) rs
      → All (λ r. bucket r.row.id ≢ none) rs
  backed bucket [] h = tt
  backed bucket (r ∷ rs) (hr, h) = (hr.0, backed bucket rs h)

  found_is_backed :
      (v : World) (uuid id : Str)
      → IsSound uuid_of v
      → engine.entry_by_permalink v.entries uuid ≡ some id
      → v.bucket id ≢ none
  found_is_backed v uuid id sound found =
      ∥∥₁_elim (engine.permalink_found v.entries uuid id found) ¬_prop λ (r, m, same_uuid, same_id).
        subst (λ k. v.bucket k ≢ none) same_id
          (All-Mem (λ o. v.bucket o.row.id ≢ none) (λ o. ¬_prop) v.entries
            (backed v.bucket v.entries sound) m)

  missing_has_none :
      (uuid : Str) (rs : List EntryRecord)
      → All (λ r. r.row.permalink_uuid ≢ uuid) rs
      → ¬ (HasPermalink uuid_of uuid rs)
  missing_has_none uuid [] h k = k
  missing_has_none uuid (r ∷ rs) (ne, h) (inl e) = ne e
  missing_has_none uuid (r ∷ rs) (ne, h) (inr k) = missing_has_none uuid rs h k

  -- Take a world in which every entry has its object and its id's permalink, and a permalink that
  -- its database has. From then on, while the database and the bucket answer, that permalink is
  -- served: at any moment that the writers reach, and whatever they write between the two reads.
  pub handle_permalink_request_resolves :
      (w : Timeline) (start : World) (uuid : Str) (n : ℕ)
      → IsSound uuid_of start
      → HasPermalink uuid_of uuid start.entries
      → Reach uuid_of start (w n)
      → Reach uuid_of (w n) (w (n + 1))
      → (w n).d1_up ≡ true
      → (w (n + 1)).r2_up ≡ true
      → (body : Str) × ((handle_permalink_request engine digest parse_url uuid w n).0
          ≡ ok (html_response body))
  handle_permalink_request_resolves w start uuid n sound has before meanwhile up up' =
      let sound' = Reach-IsSound uuid_of sound before in
      elim (Option-cases (engine.entry_by_permalink (w n).entries uuid)) [
        | inl missing ↦ absurd (
            missing_has_none uuid (w n).entries
              (engine.permalink_missing (w n).entries uuid missing)
              (Reach-HasPermalink uuid_of uuid sound before has))
        | inr (id, found) ↦ elim (Option-cases ((w (n + 1)).bucket id)) [
          | inl gone ↦
              absurd
                (Reach-keeps uuid_of meanwhile id (found_is_backed (w n) uuid id sound' found) gone)
          | inr (body, e) ↦ (
            body,
            ground (arith, handle_permalink_request_lem engine digest parse_url w uuid n up up'),
          )
        ]
      ]
