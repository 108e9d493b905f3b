-- ===== src/Preferences/Workflow.antt =====
-- The workflow of n8n/scripts/build-preferences-sync.js: its nodes and connections, with the code of
-- its Code nodes.
pub mod Uploads
pub mod Graph
use agregado.Base.{
  ℕ, suc, ◌≡◌, refl, Bool, true, false, List, [], ◌∷◌, Option, none, some, if◌then◌else◌,
}
use agregado.Base.Outcome.{Outcome, ok, throws}
use agregado.Text.{Str, codes}
use agregado.Preferences.{
  Requests, Item, build_requests, describe_change, default_max_chars, failure_message,
}

-- What Agregado gives for a regeneration.
pub record Regeneration : Type 0 where
  pub changed : Bool
  pub profile : Str
  pub signals : ℕ

pub data Note : Type 0 where
  updated : ℕ → Str → Note
  failure : Str → Note

-- What the workflow does to the outside: the profiles that it stores at Agregado, the regenerations
-- that it asks for, the documents that it uploads and the notifications that it sends.
pub record Effects : Type 0 where
  pub stored : List Str
  pub regenerated : ℕ
  pub uploaded : List Str
  pub notes : List Note

-- What the outside gives a node: the document, the regeneration, the item of a failed node, whether a
-- service accepts a call, and whether its reply arrives.
pub record Answers : Type 0 where
  pub markdown : Option Str
  pub regeneration : Option Regeneration
  pub item : Option Item
  pub accepted : Bool
  pub reply : Bool

-- The nodes, named as in the workflow. The text of `describe_failure` is the name of the node before
-- it; `ended` tells whether the execution succeeded.
pub data Node : Type 0 where
  build : Str → Str → Node
  export_doc : Requests → Node
  store_profile : Requests → Str → Node
  regenerate : Requests → Str → Node
  describe : Requests → Str → Regeneration → Node
  write_doc : Requests → Regeneration → Str → Node
  notify_change : ℕ → Str → Node
  describe_failure : Str → Node
  notify_failure : Str → Node
  fail : Node
  ended : Bool → Node

-- "Describe change", which gives no item where nothing changed.
unfoldable pub at_describe : Requests → Str → Regeneration → Node
at_describe requests before result =
    if result.changed
    then write_doc requests result (describe_change before result.profile default_max_chars)
    else ended true

unfoldable pub at_store : Answers → Effects → Requests → Str → Effects × Node
at_store a w requests markdown =
    if a.accepted
    then (
      record w { stored = markdown ∷ w.stored },
      if a.reply then regenerate requests markdown else describe_failure (codes "Store profile"),
    )
    else (w, describe_failure (codes "Store profile"))

unfoldable pub at_write : Answers → Effects → Regeneration → Str → Effects × Node
at_write a w result change =
    if a.accepted
    then (
      record w { uploaded = result.profile ∷ w.uploaded },
      if a.reply then notify_change result.signals change else describe_failure (codes "Write Doc"),
    )
    else (w, describe_failure (codes "Write Doc"))

unfoldable pub at_notify : Answers → Effects → Note → Node → Effects × Node
at_notify a w note next =
    if a.accepted
    then (record w { notes = note ∷ w.notes }, if a.reply then next else ended false)
    else (w, ended false)

-- One node of a run.
unfoldable pub advance : Answers → Effects → Node → Effects × Node
advance a w (build doc_id base_url) = (
  w,
  elim (build_requests doc_id base_url) [
    | throws e ↦ ended false
    | ok requests ↦ export_doc requests
  ],
)
advance a w (export_doc requests) = (
  w,
  elim a.markdown [
    | none ↦ describe_failure (codes "Export Doc")
    | some markdown ↦ store_profile requests markdown
  ],
)
advance a w (store_profile requests markdown) = at_store a w requests markdown
advance a w (regenerate requests markdown) = (
  record w { regenerated = suc w.regenerated },
  elim a.regeneration [
    | none ↦ describe_failure (codes "Regenerate")
    | some result ↦ describe requests markdown result
  ],
)
advance a w (describe requests before result) = (w, at_describe requests before result)
advance a w (write_doc requests result change) = at_write a w result change
advance a w (notify_change signals change) = at_notify a w (updated signals change) (ended true)
advance a w (describe_failure step) = (w, notify_failure (failure_message step a.item))
advance a w (notify_failure message) = at_notify a w (failure message) fail
advance a w fail = (w, ended false)
advance a w (ended success) = (w, ended success)

unfoldable pub run : List Answers → Effects → Node → Effects × Node
run [] w n = (w, n)
run (a ∷ rest) w n = let (w', n') = advance a w n in run rest w' n'
