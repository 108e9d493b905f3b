-- ===== src/Nodes.antt =====
-- n8n/scripts/lib/nodes.js: what a run goes by in the description of a workflow. The parameters, the ids
-- and the positions of the nodes are left out.
use agregado.Base.{ℕ, Bool, true, false, ◌||◌, List, [], ◌∷◌, Option, none, some, if◌then◌else◌}
use agregado.Text.{Str, codes, str_eq}

-- A node's name and type, and whether its `onError` is "continueErrorOutput".
pub record Description : Type 0 where
  pub name : Str
  pub type : Str
  pub continues : Bool

abbrev pub describe : Str → Str → Bool → Description
describe name type continues = record { name = name; type = type; continues = continues }

abbrev pub code_node : Str → Description
code_node name = describe name (codes "n8n-nodes-base.code") true

abbrev pub respond : Str → Description
respond name = describe name (codes "n8n-nodes-base.respondToWebhook") false

abbrev pub d1_node : Str → Description
d1_node name = describe name (codes "n8n-nodes-base.httpRequest") true

pub record Link : Type 0 where
  pub node : Str
  pub index : ℕ

abbrev pub link : Str → Link
link to = record { node = to; index = 0 }

-- The outputs of each node, with the links of each output.
abbrev pub Connections : Type 0
Connections = List (Str × List (List Link))

-- `[…].includes(n.name)`
unfoldable pub is_named : Str → List Str → Bool
is_named name [] = false
is_named name (n ∷ ns) = str_eq name n || is_named name ns

-- `n.onError = "stopWorkflow"` for the nodes that a test accepts.
unfoldable pub stop_workflow : (Description → Bool) → List Description → List Description
stop_workflow test [] = []
stop_workflow test (d ∷ ds) =
    (if test d then record d { continues = false } else d) ∷ stop_workflow test ds

unfoldable pub outputs_of : Connections → Str → List (List Link)
outputs_of [] name = []
outputs_of ((n, outputs) ∷ rest) name = if str_eq n name then outputs else outputs_of rest name

-- How a node ends: with items or a true condition, with a false condition, with an error, or with no
-- item.
pub data Result : Type 0 where
  passes declines fails silent : Result

abbrev pub served : Bool → Result
served up = if up then passes else fails

-- The node of an output with one link.
unfoldable pub only_link : List Link → Option Str
only_link [] = none
only_link (l ∷ []) = some l.node
only_link (l ∷ m ∷ ls) = none

unfoldable pub first_output : List (List Link) → Option Str
first_output [] = none
first_output (links ∷ outputs) = only_link links

unfoldable pub second_output : List (List Link) → Option Str
second_output [] = none
second_output (links ∷ outputs) = first_output outputs

unfoldable pub description_of : Str → List Description → Option Description
description_of name [] = none
description_of name (d ∷ ds) = if str_eq d.name name then some d else description_of name ds

-- Where n8n goes on from a node: along the first output with items or a true condition, along the
-- second with a false condition of an `if` and with an error of a node that continues, and nowhere
-- with an error of another node, with no item, or where the output has no link.
unfoldable pub go_on : Description → List (List Link) → Result → Option Str
go_on d outputs passes = first_output outputs
go_on d outputs declines =
    if str_eq d.type (codes "n8n-nodes-base.if") then second_output outputs else none
go_on d outputs fails = if d.continues then second_output outputs else none
go_on d outputs silent = none

module _ (nodes : List Description) (connections : Connections) where
  -- The node after a node, none at the end of a run, which stays so.
  unfoldable pub follow : Option Str → Result → Option Str
  follow none result = none
  follow (some from) result = elim (description_of from nodes) [
    | none ↦ none
    | some d ↦ go_on d (outputs_of connections from) result
  ]
