-- ===== src/Ingest/Workflow/Graph.antt =====
-- The nodes and the connections that n8n/scripts/build-workflow.js declares, and the runs of Workflow
-- against them.
use agregado.Base.{List, true, false, [], ◌∷◌, Option, none, some}
use agregado.Text.{Str, codes}
use agregado.Ingest.Workflow.{
  Node, verify, signature_ok, respond_401, fetch_email, alias_query, lookup_source, build, skip,
  respond_no_op, capture_assets, sign_request, write_r2, upsert_query, write_d1, respond_ok,
  alert_claim_query, claim_alert, first_failure, notify, fail, ended,
}
use agregado.Nodes.{
  Description, describe, code_node, respond, d1_node, Link, link, Connections, is_named,
  stop_workflow,
}

-- The names of the nodes that "Alert-branch code nodes must not themselves swallow errors silently" is
-- about.
abbrev alert_branch : List Str
alert_branch = codes "Alert claim query" ∷ codes "Claim alert" ∷ []

unfoldable pub nodes : List Description
nodes =
    stop_workflow (λ d. is_named d.name alert_branch)
      (describe (codes "Resend Webhook") (codes "n8n-nodes-base.webhook") false
        ∷ code_node (codes "Verify Svix")
        ∷ describe (codes "Signature OK?") (codes "n8n-nodes-base.if") false
        ∷ respond (codes "Respond 401")
        ∷ describe (codes "Fetch email") (codes "n8n-nodes-base.httpRequest") true
        ∷ code_node (codes "Alias query")
        ∷ d1_node (codes "Lookup source")
        ∷ code_node (codes "Build entry")
        ∷ describe (codes "Skip?") (codes "n8n-nodes-base.if") false
        ∷ respond (codes "Respond 200 no-op")
        ∷ code_node (codes "Capture assets")
        ∷ code_node (codes "Sign R2 request")
        ∷ describe (codes "Write R2") (codes "n8n-nodes-base.httpRequest") true
        ∷ code_node (codes "Upsert query")
        ∷ d1_node (codes "Write D1")
        ∷ respond (codes "Respond 200 ok")
        ∷ code_node (codes "Alert claim query")
        ∷ d1_node (codes "Claim alert")
        ∷ describe (codes "First failure?") (codes "n8n-nodes-base.if") false
        ∷ describe (codes "Notify") (codes "n8n-nodes-base.httpRequest") false
        ∷ describe (codes "Fail execution") (codes "n8n-nodes-base.stopAndError") false
        ∷ [])

abbrev failure : Link
failure = link (codes "Alert claim query")

unfoldable pub connections : Connections
connections =
    (codes "Resend Webhook", (link (codes "Verify Svix") ∷ []) ∷ [])
    ∷ (codes "Verify Svix", (link (codes "Signature OK?") ∷ []) ∷ (failure ∷ []) ∷ [])
    ∷ (
      codes "Signature OK?",
      (link (codes "Fetch email") ∷ []) ∷ (link (codes "Respond 401") ∷ []) ∷ [],
    )
    ∷ (codes "Fetch email", (link (codes "Alias query") ∷ []) ∷ (failure ∷ []) ∷ [])
    ∷ (codes "Alias query", (link (codes "Lookup source") ∷ []) ∷ (failure ∷ []) ∷ [])
    ∷ (codes "Lookup source", (link (codes "Build entry") ∷ []) ∷ (failure ∷ []) ∷ [])
    ∷ (codes "Build entry", (link (codes "Skip?") ∷ []) ∷ (failure ∷ []) ∷ [])
    ∷ (
      codes "Skip?",
      (link (codes "Respond 200 no-op") ∷ []) ∷ (link (codes "Capture assets") ∷ []) ∷ [],
    )
    ∷ (codes "Capture assets", (link (codes "Sign R2 request") ∷ []) ∷ (failure ∷ []) ∷ [])
    ∷ (codes "Sign R2 request", (link (codes "Write R2") ∷ []) ∷ (failure ∷ []) ∷ [])
    ∷ (codes "Write R2", (link (codes "Upsert query") ∷ []) ∷ (failure ∷ []) ∷ [])
    ∷ (codes "Upsert query", (link (codes "Write D1") ∷ []) ∷ (failure ∷ []) ∷ [])
    ∷ (codes "Write D1", (link (codes "Respond 200 ok") ∷ []) ∷ (failure ∷ []) ∷ [])
    ∷ (codes "Alert claim query", (link (codes "Claim alert") ∷ []) ∷ [])
    ∷ (codes "Claim alert", (link (codes "First failure?") ∷ []) ∷ [])
    ∷ (
      codes "First failure?",
      (link (codes "Notify") ∷ []) ∷ (link (codes "Fail execution") ∷ []) ∷ [],
    )
    ∷ (codes "Notify", (link (codes "Fail execution") ∷ []) ∷ [])
    ∷ []

-- The name of the node that a run stands at, none at its end.
unfoldable pub name_of : Node → Option Str
name_of (verify delivery) = some (codes "Verify Svix")
name_of (signature_ok p) = some (codes "Signature OK?")
name_of respond_401 = some (codes "Respond 401")
name_of (fetch_email i key) = some (codes "Fetch email")
name_of (alias_query email key) = some (codes "Alias query")
name_of (lookup_source email alias key) = some (codes "Lookup source")
name_of (build email source key) = some (codes "Build entry")
name_of (skip entry key) = some (codes "Skip?")
name_of respond_no_op = some (codes "Respond 200 no-op")
name_of (capture_assets entry key) = some (codes "Capture assets")
name_of (sign_request entry key) = some (codes "Sign R2 request")
name_of (write_r2 entry key) = some (codes "Write R2")
name_of (upsert_query entry key) = some (codes "Upsert query")
name_of (write_d1 entry key) = some (codes "Write D1")
name_of (respond_ok entry) = some (codes "Respond 200 ok")
name_of (alert_claim_query key) = some (codes "Alert claim query")
name_of (claim_alert key) = some (codes "Claim alert")
name_of (first_failure key changes) = some (codes "First failure?")
name_of (notify key) = some (codes "Notify")
name_of fail = some (codes "Fail execution")
name_of (ended e) = none
