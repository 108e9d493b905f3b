-- ===== src/Preferences/Workflow/Graph.antt =====
-- The nodes and the connections that n8n/scripts/build-preferences-sync.js declares, and the runs of
-- Workflow against them.
use agregado.Base.{
  ◌≡◌, refl, ◌&&◌, if◌then◌else◌, true, false, List, [], ◌∷◌, Option, none, some, Bool-cases,
  Option-cases, inl, inr,
}
use agregado.Base.Outcome.{ok, throws, Outcome-cases}
use agregado.Text.{Str, codes, str_eq}
use agregado.Preferences.{build_requests}
use agregado.Preferences.Workflow.{
  Effects, Answers, Node, build, export_doc, store_profile, regenerate, describe, write_doc,
  notify_change, describe_failure, notify_failure, fail, ended, at_describe, at_store, at_write,
  at_notify, advance,
}
use agregado.Nodes
use agregado.Nodes.{
  Description, code_node, d1_node, Link, link, Connections, is_named, stop_workflow, outputs_of,
  Result, passes, declines, fails, silent, served, only_link, first_output, second_output,
  description_of, go_on, follow,
}

unfoldable pub nodes : List Description
nodes =
    stop_workflow (λ d. str_eq d.type (codes "n8n-nodes-base.code"))
      (Nodes.describe (codes "Preferences schedule") (codes "n8n-nodes-base.scheduleTrigger") false
        ∷ code_node (codes "Build requests")
        ∷ Nodes.describe (codes "Export Doc") (codes "n8n-nodes-base.httpRequest") true
        ∷ Nodes.describe (codes "Store profile") (codes "n8n-nodes-base.httpRequest") true
        ∷ Nodes.describe (codes "Regenerate") (codes "n8n-nodes-base.httpRequest") true
        ∷ code_node (codes "Describe change")
        ∷ Nodes.describe (codes "Write Doc") (codes "n8n-nodes-base.httpRequest") true
        ∷ Nodes.describe (codes "Notify change") (codes "n8n-nodes-base.httpRequest") false
        ∷ code_node (codes "Describe failure")
        ∷ Nodes.describe (codes "Notify failure") (codes "n8n-nodes-base.httpRequest") false
        ∷ Nodes.describe (codes "Fail execution") (codes "n8n-nodes-base.stopAndError") false
        ∷ [])

unfoldable pub connections : Connections
connections =
    (codes "Preferences schedule", (link (codes "Build requests") ∷ []) ∷ [])
    ∷ (codes "Build requests", (link (codes "Export Doc") ∷ []) ∷ [])
    ∷ (
      codes "Export Doc",
      (link (codes "Store profile") ∷ []) ∷ (link (codes "Describe failure") ∷ []) ∷ [],
    )
    ∷ (
      codes "Store profile",
      (link (codes "Regenerate") ∷ []) ∷ (link (codes "Describe failure") ∷ []) ∷ [],
    )
    ∷ (
      codes "Regenerate",
      (link (codes "Describe change") ∷ []) ∷ (link (codes "Describe failure") ∷ []) ∷ [],
    )
    ∷ (codes "Describe change", (link (codes "Write Doc") ∷ []) ∷ [])
    ∷ (
      codes "Write Doc",
      (link (codes "Notify change") ∷ []) ∷ (link (codes "Describe failure") ∷ []) ∷ [],
    )
    ∷ (codes "Describe failure", (link (codes "Notify failure") ∷ []) ∷ [])
    ∷ (codes "Notify failure", (link (codes "Fail execution") ∷ []) ∷ [])
    ∷ []

-- The name of the node that a run stands at, none at its end.
unfoldable pub name_of : Node → Option Str
name_of (build doc_id base_url) = some (codes "Build requests")
name_of (export_doc requests) = some (codes "Export Doc")
name_of (store_profile requests markdown) = some (codes "Store profile")
name_of (regenerate requests markdown) = some (codes "Regenerate")
name_of (describe requests before result) = some (codes "Describe change")
name_of (write_doc requests result change) = some (codes "Write Doc")
name_of (notify_change signals change) = some (codes "Notify change")
name_of (describe_failure step) = some (codes "Describe failure")
name_of (notify_failure message) = some (codes "Notify failure")
name_of fail = some (codes "Fail execution")
name_of (ended success) = none

-- How each node ends. "Describe change" gives no item where the regeneration changed nothing.
unfoldable pub result_of : Answers → Effects → Node → Result
result_of a w (build doc_id base_url) = elim (build_requests doc_id base_url) [
  | throws e ↦ fails
  | ok requests ↦ passes
]
result_of a w (export_doc requests) = elim a.markdown [ none ↦ fails | some markdown ↦ passes ]
result_of a w (store_profile requests markdown) = served (a.accepted && a.reply)
result_of a w (regenerate requests markdown) = elim a.regeneration [
  | none ↦ fails
  | some result ↦ passes
]
result_of a w (describe requests before result) = if result.changed then passes else silent
result_of a w (write_doc requests result change) = served (a.accepted && a.reply)
result_of a w (notify_change signals change) = served (a.accepted && a.reply)
result_of a w (describe_failure step) = passes
result_of a w (notify_failure message) = served (a.accepted && a.reply)
result_of a w fail = fails
result_of a w (ended success) = passes

-- From every node a run of the preferences sync goes on where the declared nodes and connections
-- lead with the node's result: along the first output with items or a true condition, along the
-- second with a false condition of an `if` or with an error of a node that continues. It ends with
-- an error of another node, with no item, and where the output has no link, and a run that has
-- ended stays so.
pub name_of-advance_preferences :
    (a : Answers) (w : Effects) (n : Node)
    → name_of (advance a w n).1 ≡ follow nodes connections (name_of n) (result_of a w n)
unfolding advance at_describe at_store at_write at_notify nodes connections name_of outputs_of
    result_of only_link first_output second_output description_of go_on follow stop_workflow
    is_named str_eq
name_of-advance_preferences a w (build doc_id base_url) =
    elim (Outcome-cases (build_requests doc_id base_url)) [
      | inl (requests, e) ↦ rw (advance, result_of, e) refl
      | inr (x, e) ↦ rw (advance, result_of, e) refl
    ]
name_of-advance_preferences a w (export_doc requests) = elim (Option-cases a.markdown) [
  | inl e ↦ rw e refl
  | inr (d, e) ↦ rw e refl
]
name_of-advance_preferences a w (store_profile requests markdown) = elim (Bool-cases a.accepted) [
  | inr f ↦ rw f refl
  | inl t ↦ rw t (elim (Bool-cases a.reply) [ inl r ↦ rw r refl | inr r ↦ rw r refl ])
]
name_of-advance_preferences a w (regenerate requests markdown) =
    elim (Option-cases a.regeneration) [ inl e ↦ rw e refl | inr (d, e) ↦ rw e refl ]
name_of-advance_preferences a w (describe requests before result) =
    elim (Bool-cases result.changed) [ inl t ↦ rw t refl | inr f ↦ rw f refl ]
name_of-advance_preferences a w (write_doc requests result change) = elim (Bool-cases a.accepted) [
  | inr f ↦ rw f refl
  | inl t ↦ rw t (elim (Bool-cases a.reply) [ inl r ↦ rw r refl | inr r ↦ rw r refl ])
]
name_of-advance_preferences a w (notify_change signals change) = elim (Bool-cases a.accepted) [
  | inr f ↦ rw f refl
  | inl t ↦ rw t (elim (Bool-cases a.reply) [ inl r ↦ rw r refl | inr r ↦ rw r refl ])
]
name_of-advance_preferences a w (describe_failure step) = refl
name_of-advance_preferences a w (notify_failure message) = elim (Bool-cases a.accepted) [
  | inr f ↦ rw f refl
  | inl t ↦ rw t (elim (Bool-cases a.reply) [ inl r ↦ rw r refl | inr r ↦ rw r refl ])
]
name_of-advance_preferences a w fail = refl
name_of-advance_preferences a w (ended success) = refl
