-- ===== src/Ingest/Workflow/Served.antt =====
-- From the answer 200 of the workflow of n8n/scripts/build-workflow.js to the page that
-- `handlePermalinkRequest` of email-worker/src/index.ts serves.
use agregado.Base.{ℕ, ◌+◌, ◌≡◌, refl, true, List, [], ◌∷◌, ◌++◌, Option, none, some, All-split}
use agregado.Base.Outcome.{ok}
use agregado.Text.{Str}
use agregado.Platform.Crypto.{CaseMap, KeyedHash, NodeText}
use agregado.BasicAuth.{Digest}
use agregado.Worker.Effects.{Timeline}
use agregado.Worker.Handlers.{Url, html_response, handle_permalink_request}
use agregado.Worker.Store.{Engine}
use agregado.Ingest.{Reach}
use agregado.Ingest.Entry.{NewEntry, Content}
use agregado.Ingest.Identity.{Hmac, permalink_uuid}
use agregado.Ingest.Permalinks.{handle_permalink_request_resolves}
use agregado.Ingest.Workflow.{Settings, Node, ended, stored}
use agregado.Ingest.Workflow.Invariant.{Derives, NodeInv}
use agregado.Ingest.Workflow.System.{System, SystemInv, Reaches, Reaches-Reach}

-- The permalink of an id, with the empty text for one that has none.
abbrev pub uuid_under : Hmac → Settings → Str → Str
uuid_under hmac settings id = elim (permalink_uuid hmac id settings.permalink_secret) [
  | none ↦ []
  | some uuid ↦ uuid
]

under-Derives :
    (hmac : Hmac) (settings : Settings) → Derives hmac settings (uuid_under hmac settings)
under-Derives hmac settings id uuid e = rw (e, uuid_under) refl

module _ (case_map : CaseMap) (hash : KeyedHash) (node_text : NodeText) (digest : Digest)
    (hmac : Hmac) (content : Content) (engine : Engine) (payload_of : Str → Option Str)
    (settings : Settings) where
  abbrev uuid_of : Str → Str
  uuid_of = uuid_under hmac settings

  -- From a system whose stores are sound and whose runs have what they rely on, every sequence of
  -- moves gives the stores a sequence of steps of the writers, and leads to such a system.
  pub Reaches-Reach_of_run :
      (s t : System)
      → SystemInv case_map hash node_text digest hmac content engine payload_of settings uuid_of s
      → Reaches case_map hash node_text digest hmac content engine payload_of settings s t
      → Reach uuid_of s.bridge.world t.bridge.world
        × SystemInv case_map hash node_text digest hmac content engine payload_of settings uuid_of t
  Reaches-Reach_of_run s t h m =
      Reaches-Reach case_map hash node_text digest hmac content engine payload_of settings uuid_of
        (under-Derives hmac settings) h m

  -- Start from a system whose stores are sound and whose runs have what they rely on. Once a run of a
  -- system that its moves reach has ended with an entry stored, the entry's permalink is served: at
  -- any later moment while the database and the bucket answer, whatever the writers do before the
  -- request and between its two reads.
  pub stored-resolves :
      (parse_url : Str → Url) (s t : System) (before after : List Node) (entry : NewEntry)
      (w : Timeline) (n : ℕ)
      → SystemInv case_map hash node_text digest hmac content engine payload_of settings uuid_of s
      → Reaches case_map hash node_text digest hmac content engine payload_of settings s t
      → t.runs ≡ before ++ ended (stored entry) ∷ after
      → Reach uuid_of t.bridge.world (w n)
      → Reach uuid_of (w n) (w (n + 1))
      → (w n).d1_up ≡ true
      → (w (n + 1)).r2_up ≡ true
      → (body : Str) × ((handle_permalink_request engine digest parse_url
            entry.record_of.row.permalink_uuid w n).0
          ≡ ok (html_response body))
  stored-resolves parse_url s t before after entry w n h m at later meanwhile up up' =
      let (r, (sound, runs)) = Reaches-Reach_of_run s t h m in
      let mine =
        (All-split (NodeInv hmac settings uuid_of t.bridge.world) before
          (ended (stored entry) ∷ after) (rw at at runs)).1 in
      handle_permalink_request_resolves uuid_of engine digest parse_url w t.bridge.world
        entry.record_of.row.permalink_uuid n sound mine.0 later meanwhile up up'
