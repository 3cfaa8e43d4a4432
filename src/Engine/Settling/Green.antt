-- ===== src/Engine/Settling/Green.antt =====
-- When a run of backend/lib/workflow/engine.go settles COMPLETED.
use asgard.Prelude.{◌≡◌, ◌⊎◌, true, false, ◌&&◌, List, [], Memᴰ, Text, Option, some, text_eq}
use asgard.Workflow.{NodeDependency, NodeSpec}
use asgard.Workflow.Results.{NodeResult}
use asgard.Engine.{is_skipped, is_failed, is_succeeded, is_cascaded, has_status}

-- A node that succeeded has an edge with a condition on the failed node.
abbrev pub IsHandled : List NodeSpec → (Text → Option NodeResult) → Text → Type 0
IsHandled nodes results id =
    (m : NodeSpec) × (dep : NodeDependency) × Memᴰ m nodes
    × Memᴰ dep m.depends
    × (text_eq dep.node_id id ≡ true)
    × (text_eq dep.when [] ≡ false)
    × (has_status is_succeeded (results m.id) ≡ true)

-- A node that has a result, was not skipped after a failure, and did not fail unless the failure is handled.
abbrev pub IsAccepted : List NodeSpec → (Text → Option NodeResult) → NodeSpec → Type 0
IsAccepted nodes results n =
    (res : NodeResult) × (results n.id ≡ some res)
    × ((is_skipped res.status && is_cascaded res.skip_reason) ≡ false)
    × ((is_failed res.status ≡ false) ⊎ IsHandled nodes results n.id)
