-- ===== src/Digests/Workflow.antt =====
-- The workflow of n8n/scripts/build-daily-digest.js: its nodes and connections, with the code of its
-- Code nodes.
pub mod Retries
pub mod Graph
use agregado.Base.{
  ℕ, zero, suc, ◌+◌, ◌^◌, ◌≡◌, refl, Bool, true, false, not, ◌&&◌, List, [], ◌∷◌, ◌++◌, Option,
  none, some, if◌then◌else◌, ltb, leb,
}
use agregado.Base.Int.{ℤ}
use agregado.Base.Outcome.{Outcome, ok, throws}
use agregado.Text.{Str, codes}
use agregado.Ingest.Workflow.{claim}
use agregado.Digests.{DigestRequest, build_digest_request, Artifact, empty_digest_alert}

abbrev pub max_send_retries : ℕ
max_send_retries = 3

-- What the workflow does to the outside: the URLs that it fetches, the digests that the mail server
-- is given, the seconds that it waits, the alerts claimed and the notifications sent. `attempt` is the
-- field of that name in the last output of "Classify send failure", 0 before there is one.
pub record Effects : Type 0 where
  pub fetched : List Str
  pub mailed : List Artifact
  pub waited : ℕ
  pub attempt : ℕ
  pub alerts : List Str
  pub sent : List Str

-- What the outside gives a node: the digest or a failure, whether a service accepts a call, and
-- whether its reply arrives.
pub record Answers : Type 0 where
  pub digest : Option Artifact
  pub accepted : Bool
  pub reply : Bool

-- The nodes, named as in the workflow. `ended` tells whether the execution succeeded.
pub data Node : Type 0 where
  build_request : ℤ → Option Str → Node
  get_digest : DigestRequest → Node
  digest_fetch_failed : DigestRequest → Node
  send_digest_email : DigestRequest → Artifact → Node
  check_empty_digest : DigestRequest → Artifact → Node
  classify_send_failure : DigestRequest → Node
  retry_send : DigestRequest → ℕ → Node
  wait_before_retry : DigestRequest → ℕ → Node
  alert_claim_query : Str → Node
  claim_alert : Str → Node
  first_failure : Str → ℕ → Node
  notify : Str → Node
  fail : Node
  ended : Bool → Node

abbrev pub alert_key : Str → Str
alert_key date = codes "digest-" ++ date

unfoldable pub at_send : Answers → Effects → DigestRequest → Artifact → Effects × Node
at_send a w request artifact =
    if a.accepted
    then (
      record w { mailed = artifact ∷ w.mailed },
      if a.reply then check_empty_digest request artifact else classify_send_failure request,
    )
    else (w, classify_send_failure request)

unfoldable pub at_claim : Answers → Effects → Str → Effects × Node
at_claim a w date =
    let (alerts, changes) = claim (alert_key date) w.alerts in
    if a.accepted
    then (record w { alerts = alerts }, if a.reply then first_failure date changes else ended false)
    else (w, ended false)

-- One node of a run.
unfoldable pub advance : Answers → Effects → Node → Effects × Node
advance a w (build_request now base_url) = (
  w,
  elim (build_digest_request now base_url) [
    | throws e ↦ ended false
    | ok request ↦ get_digest request
  ],
)
advance a w (get_digest request) = (
  record w { fetched = request.url ∷ w.fetched },
  elim a.digest [
    | none ↦ digest_fetch_failed request
    | some artifact ↦ send_digest_email request artifact
  ],
)
advance a w (digest_fetch_failed request) = (w, alert_claim_query request.date)
advance a w (send_digest_email request artifact) = at_send a w request artifact
advance a w (check_empty_digest request artifact) = (
  w,
  elim (empty_digest_alert (some artifact) request.date) [
    | none ↦ ended true
    | some alert ↦ alert_claim_query alert.date
  ],
)
advance a w (classify_send_failure request) =
    (record w { attempt = w.attempt + 1 }, retry_send request (w.attempt + 1))
advance a w (retry_send request attempt) = (
  w,
  if leb attempt max_send_retries
      then wait_before_retry request attempt
      else alert_claim_query request.date,
)
advance a w (wait_before_retry request attempt) =
    (record w { waited = w.waited + 2 ^ attempt }, get_digest request)
advance a w (alert_claim_query date) = (w, claim_alert date)
advance a w (claim_alert date) = at_claim a w date
advance a w (first_failure date changes) = (w, if ltb 0 changes then notify date else fail)
advance a w (notify date) =
    if a.accepted
    then (record w { sent = alert_key date ∷ w.sent }, if a.reply then fail else ended false)
    else (w, ended false)
advance a w fail = (w, ended false)
advance a w (ended success) = (w, ended success)

unfoldable pub run : List Answers → Effects → Node → Effects × Node
run [] w n = (w, n)
run (a ∷ rest) w n = let (w', n') = advance a w n in run rest w' n'
