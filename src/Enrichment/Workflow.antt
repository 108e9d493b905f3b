-- ===== src/Enrichment/Workflow.antt =====
-- The workflow of n8n/scripts/build-article-enrichment.js: its nodes and connections, with the code of
-- its Code nodes.
pub mod Retries
pub mod Calls
use agregado.Base.{
  ℕ, zero, suc, ◌+◌, ◌^◌, ◌≡◌, refl, Bool, true, false, not, ◌&&◌, List, [], ◌∷◌, ◌++◌, Option,
  none, some, if◌then◌else◌, ltb, leb,
}
use agregado.Base.Outcome.{Outcome, ok, throws}
use agregado.Text.{Str, codes}
use agregado.Text.Print.{decimal}
use agregado.Platform.Crypto.{KeyedHash, CaseMap}
use agregado.Ingest.Workflow.{claim}
use agregado.Enrichment.Miniflux.{
  Entry, Payload, CaseFold, parse_new_entries, match_bridge_permalink, verify_miniflux_signature,
  Classification, terminal, retryable, classify_enrich_failure,
}
use agregado.Enrichment.Request.{Body, build_enrich_request}

abbrev pub max_enrich_retries : ℕ
max_enrich_retries = 3

-- What the workflow does to the outside: the calls of the enrich API, the seconds that it waits, the
-- alerts claimed and the notifications sent, by their keys.
pub record Effects : Type 0 where
  pub calls : List Body
  pub waited : ℕ
  pub alerts : List Str
  pub sent : List Str

-- A failed request: its message, and whether the item behind it still has the fields of the item
-- before it, which n8n does not promise.
pub record Failure : Type 0 where
  pub message : Str
  pub carries : Bool

-- What the outside gives a node: the result of the bridge's database, the enrich API's failure if
-- there is one, and whether another service accepts a call and its reply arrives.
pub data Rows : Type 0 where
  no_answer : Rows
  no_row : Rows
  row : Str → Rows

pub record Answers : Type 0 where
  pub rows : Rows
  pub failure : Option Failure
  pub accepted : Bool
  pub reply : Bool

-- The nodes, named as in the workflow. The number of a call is the field `attempt` of its item, 0
-- where there is none.
pub data Node : Type 0 where
  verify_signature : Str → Str → Node
  respond_401 : Node
  parse_entries : Option Payload → Node
  determine_bridge_match : List Entry → Node
  bridge_content_query : Entry → Str → Node
  lookup_bridge_content : Entry → Str → Node
  attach_bridge_content : Entry → Option Str → Node
  build_request : Entry → Option Str → Node
  call_enrich_api : Entry → Body → ℕ → Node
  classify_failure : Entry → Body → ℕ → Failure → Node
  retry_enrich : Entry → Body → ℕ → Classification → Node
  wait_before_retry : Entry → Body → ℕ → Node
  entry_failed : Entry → Node
  alert_claim_query : Entry → Node
  claim_alert : Entry → Node
  first_failure : Entry → ℕ → Node
  notify : Entry → Node
  fail : Node
  ended : Bool → Node

abbrev pub alert_key : Entry → Str
alert_key entry = codes "enrich-" ++ decimal entry.id

-- `{ ...err, attempt: (err.attempt || 0) + 1 }`
unfoldable pub next_attempt : ℕ → Failure → ℕ
next_attempt attempt failure = if failure.carries then attempt + 1 else 1

unfoldable pub should_retry : ℕ → Classification → Bool
should_retry attempt terminal = false
should_retry attempt retryable = leb attempt max_enrich_retries

module _ (hash : KeyedHash) (fold : CaseFold) (case_map : CaseMap) (webhook_secret : Str)
    (bridge_origin : Str) (payload_of : Str → Option (Option Payload)) where
  -- `payload_of` is `JSON.parse`, none where it throws.
  unfoldable pub at_signature : Str → Str → Node
  at_signature signature_header raw_body =
      if verify_miniflux_signature hash webhook_secret signature_header raw_body
      then elim (payload_of raw_body) [ none ↦ ended false | some payload ↦ parse_entries payload ]
      else respond_401

  -- The node takes the first of its items. It does not run where there is none.
  unfoldable pub at_match : List Entry → Node
  at_match [] = ended true
  at_match (entry ∷ more) = elim (match_bridge_permalink fold case_map entry.url bridge_origin) [
    | none ↦ build_request entry none
    | some uuid ↦ bridge_content_query entry uuid
  ]

  -- One node of a run.
  unfoldable pub advance : Answers → Effects → Node → Effects × Node
  advance a w (verify_signature header raw_body) = (w, at_signature header raw_body)
  advance a w respond_401 = (w, ended true)
  advance a w (parse_entries payload) = (w, determine_bridge_match (parse_new_entries payload))
  advance a w (determine_bridge_match entries) = (w, at_match entries)
  advance a w (bridge_content_query entry uuid) = (w, lookup_bridge_content entry uuid)
  advance a w (lookup_bridge_content entry uuid) = (
    w,
    elim a.rows [
      | no_answer ↦ entry_failed entry
      | no_row ↦ attach_bridge_content entry none
      | row content ↦ attach_bridge_content entry (some content)
    ],
  )
  advance a w (attach_bridge_content entry none) = (w, entry_failed entry)
  advance a w (attach_bridge_content entry (some content)) = (w, build_request entry (some content))
  advance a w (build_request entry content) = (
    w,
    elim (build_enrich_request (some entry) content) [
      | throws e ↦ entry_failed entry
      | ok body ↦ call_enrich_api entry body 0
    ],
  )
  advance a w (call_enrich_api entry body attempt) = (
    record w { calls = body ∷ w.calls },
    elim a.failure [
      | none ↦ ended true
      | some failure ↦ classify_failure entry body attempt failure
    ],
  )
  advance a w (classify_failure entry body attempt failure) = (
    w,
    retry_enrich entry body (next_attempt attempt failure)
        (classify_enrich_failure failure.message),
  )
  advance a w (retry_enrich entry body attempt classification) = (
    w,
    if should_retry attempt classification
        then wait_before_retry entry body attempt
        else alert_claim_query entry,
  )
  advance a w (wait_before_retry entry body attempt) =
      (record w { waited = w.waited + 2 ^ attempt }, call_enrich_api entry body attempt)
  advance a w (entry_failed entry) = (w, alert_claim_query entry)
  advance a w (alert_claim_query entry) = (w, claim_alert entry)
  advance a w (claim_alert entry) =
      let (alerts, changes) = claim (alert_key entry) w.alerts in
      if a.accepted
      then (
        record w { alerts = alerts },
        if a.reply then first_failure entry changes else ended false,
      )
      else (w, ended false)
  advance a w (first_failure entry changes) = (w, if ltb 0 changes then notify entry else fail)
  advance a w (notify entry) =
      if a.accepted
      then (record w { sent = alert_key entry ∷ w.sent }, if a.reply then fail else ended false)
      else (w, ended false)
  advance a w fail = (w, ended false)
  advance a w (ended success) = (w, ended success)

  unfoldable pub run : List Answers → Effects → Node → Effects × Node
  run [] w n = (w, n)
  run (a ∷ rest) w n = let (w', n') = advance a w n in run rest w' n'
