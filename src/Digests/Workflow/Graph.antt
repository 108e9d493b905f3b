-- ===== src/Digests/Workflow/Graph.antt =====
-- The nodes and the connections that n8n/scripts/build-daily-digest.js declares, and the runs of
-- Workflow against them.
use agregado.Base.{
  ◌≡◌, refl, ◌&&◌, if◌then◌else◌, true, false, List, [], ◌∷◌, Option, none, some, ltb, leb,
  Bool-cases, Option-cases, inl, inr,
}
use agregado.Base.Outcome.{ok, throws, Outcome-cases}
use agregado.Text.{Str, codes, str_eq}
use agregado.Digests.{build_digest_request, empty_digest_alert}
use agregado.Digests.Workflow.{
  max_send_retries, Effects, Answers, Node, build_request, get_digest, digest_fetch_failed,
  send_digest_email, check_empty_digest, classify_send_failure, retry_send, wait_before_retry,
  alert_claim_query, claim_alert, first_failure, notify, fail, ended, at_send, at_claim, advance,
}
use agregado.Nodes
use agregado.Nodes.{
  Description, code_node, d1_node, Link, link, Connections, is_named, stop_workflow, outputs_of,
  Result, passes, declines, fails, silent, served, only_link, first_output, second_output,
  description_of, go_on, follow,
}

abbrev stopping : List Str
stopping =
    codes "Alert claim query"
    ∷ codes "Claim alert"
    ∷ codes "Digest fetch failed"
    ∷ codes "Classify send failure"
    ∷ codes "Check empty digest"
    ∷ codes "Build digest request"
    ∷ []

unfoldable pub nodes : List Description
nodes =
    stop_workflow (λ d. is_named d.name stopping)
      (Nodes.describe (codes "Digest schedule") (codes "n8n-nodes-base.scheduleTrigger") false
        ∷ code_node (codes "Build digest request")
        ∷ Nodes.describe (codes "Get digest") (codes "n8n-nodes-base.httpRequest") true
        ∷ code_node (codes "Digest fetch failed")
        ∷ Nodes.describe (codes "Send digest email") (codes "n8n-nodes-base.emailSend") true
        ∷ code_node (codes "Check empty digest")
        ∷ code_node (codes "Classify send failure")
        ∷ Nodes.describe (codes "Retry send?") (codes "n8n-nodes-base.if") false
        ∷ Nodes.describe (codes "Wait before retry") (codes "n8n-nodes-base.wait") false
        ∷ code_node (codes "Alert claim query")
        ∷ d1_node (codes "Claim alert")
        ∷ Nodes.describe (codes "First failure?") (codes "n8n-nodes-base.if") false
        ∷ Nodes.describe (codes "Notify") (codes "n8n-nodes-base.httpRequest") false
        ∷ Nodes.describe (codes "Fail execution") (codes "n8n-nodes-base.stopAndError") false
        ∷ [])

unfoldable pub connections : Connections
connections =
    (codes "Digest schedule", (link (codes "Build digest request") ∷ []) ∷ [])
    ∷ (codes "Build digest request", (link (codes "Get digest") ∷ []) ∷ [])
    ∷ (
      codes "Get digest",
      (link (codes "Send digest email") ∷ []) ∷ (link (codes "Digest fetch failed") ∷ []) ∷ [],
    )
    ∷ (codes "Digest fetch failed", (link (codes "Alert claim query") ∷ []) ∷ [])
    ∷ (
      codes "Send digest email",
      (link (codes "Check empty digest") ∷ []) ∷ (link (codes "Classify send failure") ∷ []) ∷ [],
    )
    ∷ (codes "Check empty digest", (link (codes "Alert claim query") ∷ []) ∷ [])
    ∷ (codes "Classify send failure", (link (codes "Retry send?") ∷ []) ∷ [])
    ∷ (
      codes "Retry send?",
      (link (codes "Wait before retry") ∷ []) ∷ (link (codes "Alert claim query") ∷ []) ∷ [],
    )
    ∷ (codes "Wait before retry", (link (codes "Get digest") ∷ []) ∷ [])
    ∷ (codes "Alert claim query", (link (codes "Claim alert") ∷ []) ∷ [])
    ∷ (codes "Claim alert", (link (codes "First failure?") ∷ []) ∷ [])
    ∷ (
      codes "First failure?",
      (link (codes "Notify") ∷ []) ∷ (link (codes "Fail execution") ∷ []) ∷ [],
    )
    ∷ (codes "Notify", (link (codes "Fail execution") ∷ []) ∷ [])
    ∷ []

-- The name of the node that a run stands at, none at its end.
unfoldable pub name_of : Node → Option Str
name_of (build_request now base_url) = some (codes "Build digest request")
name_of (get_digest request) = some (codes "Get digest")
name_of (digest_fetch_failed request) = some (codes "Digest fetch failed")
name_of (send_digest_email request artifact) = some (codes "Send digest email")
name_of (check_empty_digest request artifact) = some (codes "Check empty digest")
name_of (classify_send_failure request) = some (codes "Classify send failure")
name_of (retry_send request attempt) = some (codes "Retry send?")
name_of (wait_before_retry request attempt) = some (codes "Wait before retry")
name_of (alert_claim_query date) = some (codes "Alert claim query")
name_of (claim_alert date) = some (codes "Claim alert")
name_of (first_failure date changes) = some (codes "First failure?")
name_of (notify date) = some (codes "Notify")
name_of fail = some (codes "Fail execution")
name_of (ended success) = none

-- How each node ends. "Check empty digest" gives an item only for a digest to raise an alert for.
unfoldable pub result_of : Answers → Effects → Node → Result
result_of a w (build_request now base_url) = elim (build_digest_request now base_url) [
  | throws e ↦ fails
  | ok request ↦ passes
]
result_of a w (get_digest request) = elim a.digest [ none ↦ fails | some artifact ↦ passes ]
result_of a w (digest_fetch_failed request) = passes
result_of a w (send_digest_email request artifact) = served (a.accepted && a.reply)
result_of a w (check_empty_digest request artifact) =
    elim (empty_digest_alert (some artifact) request.date) [ none ↦ silent | some alert ↦ passes ]
result_of a w (classify_send_failure request) = passes
result_of a w (retry_send request attempt) = if leb attempt 3 then passes else declines
result_of a w (wait_before_retry request attempt) = passes
result_of a w (alert_claim_query date) = passes
result_of a w (claim_alert date) = served (a.accepted && a.reply)
result_of a w (first_failure date changes) = if ltb 0 changes then passes else declines
result_of a w (notify date) = served (a.accepted && a.reply)
result_of a w fail = fails
result_of a w (ended success) = passes

-- From every node a run of the daily digest goes on where the declared nodes and connections lead
-- with the node's result: along the first output with items or a true condition, along the second
-- with a false condition of an `if` or with an error of a node that continues. It ends with an
-- error of another node, with no item, and where the output has no link, and a run that has ended
-- stays so. The result of `Retry send?` is a true condition for at most 3 failed sends.
pub name_of-advance_digest :
    (a : Answers) (w : Effects) (n : Node)
    → name_of (advance a w n).1 ≡ follow nodes connections (name_of n) (result_of a w n)
unfolding advance at_send at_claim nodes connections name_of outputs_of result_of only_link
    first_output second_output description_of go_on follow stop_workflow is_named str_eq
name_of-advance_digest a w (build_request now base_url) =
    elim (Outcome-cases (build_digest_request now base_url)) [
      | inl (request, e) ↦ rw (advance, result_of, e) refl
      | inr (x, e) ↦ rw (advance, result_of, e) refl
    ]
name_of-advance_digest a w (get_digest request) = elim (Option-cases a.digest) [
  | inl e ↦ rw e refl
  | inr (d, e) ↦ rw e refl
]
name_of-advance_digest a w (digest_fetch_failed request) = refl
name_of-advance_digest a w (send_digest_email request artifact) = elim (Bool-cases a.accepted) [
  | inr f ↦ rw f refl
  | inl t ↦ rw t (elim (Bool-cases a.reply) [ inl r ↦ rw r refl | inr r ↦ rw r refl ])
]
name_of-advance_digest a w (check_empty_digest request artifact) =
    elim (Option-cases (empty_digest_alert (some artifact) request.date)) [
      | inl e ↦ rw (advance, result_of, e) refl
      | inr (d, e) ↦ rw (advance, result_of, e) refl
    ]
name_of-advance_digest a w (classify_send_failure request) = refl
name_of-advance_digest a w (retry_send request attempt) =
    elim (Bool-cases (leb attempt max_send_retries)) [ inl t ↦ rw t refl | inr f ↦ rw f refl ]
name_of-advance_digest a w (wait_before_retry request attempt) = refl
name_of-advance_digest a w (alert_claim_query date) = refl
name_of-advance_digest a w (claim_alert date) = elim (Bool-cases a.accepted) [
  | inr f ↦ rw f refl
  | inl t ↦ rw t (elim (Bool-cases a.reply) [ inl r ↦ rw r refl | inr r ↦ rw r refl ])
]
name_of-advance_digest a w (first_failure date changes) = elim (Bool-cases (ltb 0 changes)) [
  | inl t ↦ rw t refl
  | inr f ↦ rw f refl
]
name_of-advance_digest a w (notify date) = elim (Bool-cases a.accepted) [
  | inr f ↦ rw f refl
  | inl t ↦ rw t (elim (Bool-cases a.reply) [ inl r ↦ rw r refl | inr r ↦ rw r refl ])
]
name_of-advance_digest a w fail = refl
name_of-advance_digest a w (ended success) = refl
