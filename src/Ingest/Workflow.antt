-- ===== src/Ingest/Workflow.antt =====
-- The newsletter ingest of n8n/scripts/build-workflow.js: its nodes and connections, with the code of
-- its Code nodes. A run stands at a node with the data that the nodes from there on use.
pub mod Invariant
pub mod Writes
pub mod Runs
pub mod System
pub mod Served
pub mod Contents
pub mod Stored
pub mod Graph
pub mod Connected
use agregado.Base.{
  ℕ, zero, suc, ◌+◌, ◌/◌, ◌≡◌, ◌≢◌, refl, Bool, true, false, not, ◌&&◌, ◌||◌, List, [], ◌∷◌, ◌++◌,
  Option, none, some, if◌then◌else◌, ltb,
}
use agregado.Base.Outcome.{Outcome, ok, throws}
use agregado.Text.{Str, codes, str_eq}
use agregado.Platform.Crypto.{CaseMap, KeyedHash, NodeText}
use agregado.BasicAuth.{Digest}
use agregado.Worker.Effects.{World}
use agregado.Worker.Store.{SourceRow, Engine}
use agregado.Ingest.{put_object, upsert_entry}
use agregado.Ingest.Assets.{Asset}
use agregado.Ingest.Entry.{
  Email, NewEntry, SourceStatus, Content, gate_source, alias_from_recipients, build_entry,
}
use agregado.Ingest.Identity.{Hmac}
use agregado.Ingest.MessageId.{entry_id}
use agregado.Ingest.Svix.{Delivery, verify_svix}

-- The stores that the workflow writes: the Worker's, the table `ingest_alerts`, and the
-- notifications sent, by their keys.
pub record Bridge : Type 0 where
  pub world : World
  pub alerts : List Str
  pub sent : List Str

-- The environment variables. `r2_keys` tells whether both keys of R2 are set.
pub record Settings : Type 0 where
  pub svix_secret : Str
  pub permalink_secret : Str
  pub r2_keys : Bool

-- What the outside gives a node: the mail that Resend has, the replies to the fetches of assets, none
-- where the node itself is ended, whether the service called accepts the call, and whether its reply arrives.
pub record Answers : Type 0 where
  pub email : Option Email
  pub fetch_asset : Option (Str → Option Asset)
  pub accepted : Bool
  pub reply : Bool

pub data Ending : Type 0 where
  unauthorized : Ending
  no_op : Ending
  stored : NewEntry → Ending
  failed : Ending

-- The nodes, named as in the workflow, and the end of a run. The last text is the alert's key.
pub data Node : Type 0 where
  verify : Delivery → Node
  signature_ok : Option (Str × Str) → Node
  respond_401 : Node
  fetch_email : Str → Str → Node
  alias_query : Email → Str → Node
  lookup_source : Email → Str → Str → Node
  build : Email → Option SourceStatus → Str → Node
  skip : Option NewEntry → Str → Node
  respond_no_op : Node
  capture_assets : NewEntry → Str → Node
  sign_request : NewEntry → Str → Node
  write_r2 : NewEntry → Str → Node
  upsert_query : NewEntry → Str → Node
  write_d1 : NewEntry → Str → Node
  respond_ok : NewEntry → Node
  -- none where the key is not known, since "Verify Svix" failed
  alert_claim_query : Option Str → Node
  claim_alert : Str → Node
  first_failure : Str → ℕ → Node
  notify : Str → Node
  fail : Node
  ended : Ending → Node

-- `headers[name]`
unfoldable pub exact_header : Str → List (Str × Str) → Str → Str
exact_header name [] found = found
exact_header name ((key, value) ∷ headers) found =
    exact_header name headers (if str_eq key name then value else found)

unfoldable pub has_alert : List Str → Str → Bool
has_alert [] key = false
has_alert (k ∷ ks) key = str_eq k key || has_alert ks key

-- `INSERT OR IGNORE INTO ingest_alerts`, and the rows that it changed.
unfoldable pub claim : Str → List Str → List Str × ℕ
claim key alerts = if has_alert alerts key then (alerts, 0) else (key ∷ alerts, 1)

abbrev pub now_of : Bridge → ℕ
now_of b = b.world.now_ms / 1000

abbrev pub status_of : Option SourceRow → Option SourceStatus
status_of none = none
status_of (some source) = some (record { id = source.id; status = source.status })

unfoldable pub at_write_r2 : Answers → Bridge → NewEntry → Str → Bridge × Node
at_write_r2 a b entry key =
    let bucket = put_object entry.record_of.row.id entry.permalink_html b.world.bucket in
    let put = record b { world = record b.world { bucket = bucket } } in
    if b.world.r2_up && a.accepted
    then (put, if a.reply then upsert_query entry key else alert_claim_query (some key))
    else (b, alert_claim_query (some key))

unfoldable pub at_write_d1 : Answers → Bridge → NewEntry → Str → Bridge × Node
at_write_d1 a b entry key =
    let entries = upsert_entry entry.record_of b.world.entries in
    let written = record b { world = record b.world { entries = entries } } in
    if b.world.d1_up && a.accepted
    then (written, if a.reply then respond_ok entry else alert_claim_query (some key))
    else (b, alert_claim_query (some key))

unfoldable pub at_claim : Answers → Bridge → Str → Bridge × Node
at_claim a b key =
    let (alerts, changes) = claim key b.alerts in
    if b.world.d1_up && a.accepted
    then (record b { alerts = alerts }, if a.reply then first_failure key changes else ended failed)
    else (b, ended failed)

module _ (case_map : CaseMap) (hash : KeyedHash) (node_text : NodeText) (digest : Digest)
    (hmac : Hmac) (content : Content) (engine : Engine) (payload_of : Str → Option Str)
    (settings : Settings) where
  -- "Verify Svix". `payload_of` is `JSON.parse(rawBody).data.email_id`, none if the text is no JSON.
  unfoldable pub at_verify : Delivery → ℕ → Node
  at_verify delivery now =
      if not (verify_svix case_map hash node_text settings.svix_secret delivery now)
      then signature_ok none
      else (elim (payload_of delivery.raw_body) [
        | none ↦ alert_claim_query none
        | some email_id ↦
            elim (entry_id digest (exact_header (codes "svix-id") delivery.headers [])) [
              | throws e ↦ alert_claim_query none
              | ok key ↦ signature_ok (some (email_id, key))
            ]
      ])

  -- "Build entry", behind the lookup.
  unfoldable pub at_build : Email → Option SourceStatus → Str → ℕ → Node
  at_build email none key now = skip none key
  at_build email (some source) key now =
      if gate_source (some source)
      then (elim (build_entry digest hmac content email source.id settings.permalink_secret now) [
        | throws e ↦ alert_claim_query (some key)
        | ok entry ↦ skip (some entry) key
      ])
      else skip none key

  -- One node of a run.
  unfoldable pub advance : Answers → Bridge → Node → Bridge × Node
  advance a b (verify delivery) = (b, at_verify delivery (now_of b))
  advance a b (signature_ok none) = (b, respond_401)
  advance a b (signature_ok (some (email_id, key))) = (b, fetch_email email_id key)
  advance a b respond_401 = (b, ended unauthorized)
  advance a b (fetch_email email_id key) =
      (b, elim a.email [ none ↦ alert_claim_query (some key) | some email ↦ alias_query email key ])
  advance a b (alias_query email key) = (
    b,
    elim (alias_from_recipients case_map email.to) [
      | none ↦ alert_claim_query (some key)
      | some alias ↦ lookup_source email alias key
    ],
  )
  advance a b (lookup_source email alias key) = (
    b,
    if b.world.d1_up && (a.accepted && a.reply)
        then build email (status_of (engine.source_by_id b.world.sources alias)) key
        else alert_claim_query (some key),
  )
  advance a b (build email source key) = (b, at_build email source key (now_of b))
  advance a b (skip none key) = (b, respond_no_op)
  advance a b (skip (some entry) key) = (b, capture_assets entry key)
  advance a b respond_no_op = (b, ended no_op)
  advance a b (capture_assets entry key) = (
    b,
    elim a.fetch_asset [
      | none ↦ alert_claim_query (some key)
      | some fetch ↦
          let (html, skipped) = content.inline_assets fetch entry.permalink_html in
          sign_request (record entry { permalink_html = html }) key
    ],
  )
  advance a b (sign_request entry key) =
      (b, if settings.r2_keys then write_r2 entry key else alert_claim_query (some key))
  advance a b (write_r2 entry key) = at_write_r2 a b entry key
  advance a b (upsert_query entry key) = (b, write_d1 entry key)
  advance a b (write_d1 entry key) = at_write_d1 a b entry key
  advance a b (respond_ok entry) = (b, ended (stored entry))
  advance a b (alert_claim_query none) = (b, ended failed)
  advance a b (alert_claim_query (some key)) = (b, claim_alert key)
  advance a b (claim_alert key) = at_claim a b key
  advance a b (first_failure key changes) = (b, if ltb 0 changes then notify key else fail)
  advance a b (notify key) =
      if a.accepted
      then (record b { sent = key ∷ b.sent }, if a.reply then fail else ended failed)
      else (b, ended failed)
  advance a b fail = (b, ended failed)
  advance a b (ended e) = (b, ended e)

  -- The nodes of one run, with no other run between them.
  unfoldable pub run : List Answers → Bridge → Node → Bridge × Node
  run [] b n = (b, n)
  run (a ∷ rest) b n = let (b', n') = advance a b n in run rest b' n'
