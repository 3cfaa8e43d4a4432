-- ===== src/Workflow/Cycles.antt =====
-- `detectCycle` of pkg/workflowspec/definition.go, up to the report of the path. The maps `indegree` and
-- `dependents` are functions of the ids; Go ranges over the ids in any order, here in that of the nodes. A
-- counter is decremented only where it is positive. The loop over the queue runs on fuel, the number of
-- nodes.
pub mod Lists
pub mod Counts
pub mod Release
pub mod Sorting
pub mod Order
mod Examples
use asgard.Prelude.{
  ℕ, zero, suc, ◌+◌, ◌-◌, Bool, true, false, not, ◌||◌, List, [], ◌∷◌, ◌++◌, map, Text, Option,
  none, some, length, ◌==◌, text_eq, if◌then◌else◌, keep_if,
}
use asgard.Workflow.{NodeDependency, NodeSpec, among}

-- The edges without a condition, each once.
unfoldable pub needs_from : List Text → List NodeDependency → List Text
unfolding among
needs_from seen [] = []
needs_from seen (dep ∷ deps) =
    let skipped = needs_from seen deps in
    let taken = needs_from (dep.node_id ∷ seen) deps in
    if not (text_eq dep.when []) || among dep.node_id seen then skipped else dep.node_id ∷ taken

unfoldable pub needs : NodeSpec → List Text
unfolding needs_from
needs n = needs_from [] n.depends

unfoldable pub indegree : List NodeSpec → Text → ℕ
unfolding needs
indegree [] id = 0
indegree (n ∷ nodes) id =
    let rest = indegree nodes id in if text_eq n.id id then length (needs n) + rest else rest

unfoldable pub dependents : List NodeSpec → Text → List Text
unfolding needs among
dependents [] id = []
dependents (n ∷ nodes) id =
    let rest = dependents nodes id in if among id (needs n) then n.id ∷ rest else rest

abbrev pub ids : List NodeSpec → List Text
ids nodes = map (λ n. n.id) nodes

-- The loop over the dependents of a node that has been processed.
unfoldable pub decremented : (Text → ℕ) → Text → Text → ℕ
decremented degree x id = if text_eq id x then degree id - 1 else degree id

unfoldable pub released : (Text → ℕ) → List Text → List Text → (Text → ℕ) × List Text
unfolding decremented
released degree queue [] = (degree, queue)
released degree queue (x ∷ nexts) =
    let less = decremented degree x in
    released less (if less x == 0 then queue ++ x ∷ [] else queue) nexts

-- The loop over the queue: how many nodes are processed.
unfoldable pub processed_from : List NodeSpec → ℕ → (Text → ℕ) → List Text → ℕ → Option ℕ
unfolding released dependents
processed_from nodes fuel degree [] n = some n
processed_from nodes zero degree (id ∷ queue) n = none
processed_from nodes (suc fuel) degree (id ∷ queue) n =
    let (less, next) = released degree queue (dependents nodes id) in
    processed_from nodes fuel less next (suc n)

unfoldable pub ready : List NodeSpec → List Text
unfolding indegree
ready nodes = keep_if (λ id. indegree nodes id == 0) (ids nodes)

unfoldable pub processed : List NodeSpec → Option ℕ
unfolding processed_from ready indegree
processed nodes = processed_from nodes (length nodes) (indegree nodes) (ready nodes) 0

-- Whether there is no cycle.
unfoldable pub detect_cycle : List NodeSpec → Option Bool
unfolding processed
detect_cycle nodes = elim (processed nodes) [ none ↦ none | some n ↦ some (n == length nodes) ]
