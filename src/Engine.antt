-- ===== src/Engine.antt =====
-- `Engine.Execute` of backend/lib/workflow/engine.go: the state of the scheduler, under the mutex `mu`, and the
-- indices of the definition that it reads. The map `running` is a function, and the goroutines of the errgroup
-- are workers. Events, logging, the store, quota suspension and cancellation are left out.
pub mod Readiness
pub mod Downstream
pub mod Steps
pub mod Settling
mod Examples
mod Breaches
use asgard.Prelude.{
  ℕ, ℤ, pos, Bool, true, false, not, ◌&&◌, ◌||◌, List, [], ◌∷◌, ◌++◌, Text, bytes, Option, none,
  some, text_eq, if◌then◌else◌, exists, first, keep_if, positive,
}
use asgard.Workflow.{NodeDependency, NodeSpec, LoopSpec, WorkflowDefinition}
use asgard.Workflow.Results.{
  NodeStatus, SkipReason, skipped, failed, succeeded, condition_false, cascaded_failure, NodeResult,
}

-- A goroutine of a launched node: it has not read the results yet, it is to settle as skipped, or it runs.
pub data Phase : Type 0 where
  launched : Phase
  skips : SkipReason → Phase
  runs : Phase

pub record Worker : Type 0 where
  pub id : Text
  pub phase : Phase

-- `stalled` is no state of the source: the recursion of `evaluateDownstream` ran out of the model's fuel.
pub record State : Type 0 where
  pub results : Text → Option NodeResult
  pub ready : List Text
  pub running : Text → Bool
  pub workers : List Worker
  pub executions : Text → ℕ
  pub loop_iterations : Text → ℕ
  pub replaying : Bool
  pub exhausted_no_fallback : Bool
  pub stalled : Bool

-- `m[id] = v`
unfoldable pub put {ℓ} : {A : Type ℓ} → Text → A → (Text → A) → Text → A
put id v m other = if text_eq id other then v else m other

unfoldable pub is_some {ℓ} : {A : Type ℓ} → Option A → Bool
is_some none = false
is_some (some a) = true

-- `maxNodeExecutions`
unfoldable pub max_executions : WorkflowDefinition → ℕ
max_executions defn = elim defn.max_node_executions [
  | pos n ↦ if positive (pos n) then n else 100
  | _ ↦ 100
]

-- `nodeByID[id]`
unfoldable pub find_node : Text → List NodeSpec → Option NodeSpec
find_node id nodes = first (λ n. if text_eq n.id id then some n else none) nodes

-- `conditionalDeps` and `unconditionalDeps` of a node.
unfoldable pub conditional_deps : NodeSpec → List NodeDependency
conditional_deps n = keep_if (λ dep. not (text_eq dep.when [])) n.depends

unfoldable pub unconditional_deps : NodeSpec → List NodeDependency
unconditional_deps n = keep_if (λ dep. text_eq dep.when []) n.depends

-- `dependents[id]`: a node for each of its edges from `id`.
unfoldable pub entries : NodeSpec → Text → List NodeDependency → List NodeSpec
entries n id [] = []
entries n id (dep ∷ deps) =
    let rest = entries n id deps in if text_eq dep.node_id id then n ∷ rest else rest

unfoldable pub dependents : List NodeSpec → Text → List NodeSpec
unfolding entries
dependents [] id = []
dependents (n ∷ nodes) id = entries n id n.depends ++ dependents nodes id

-- `childLoops[id]`
unfoldable pub child_loops : List LoopSpec → Text → List LoopSpec
child_loops loops id =
    keep_if (λ (l : LoopSpec). not (text_eq l.parent []) && text_eq l.parent id) loops

-- `res.Status == …` and `res.SkipReason == …`
unfoldable pub is_skipped : NodeStatus → Bool
is_skipped skipped = true
is_skipped _ = false

unfoldable pub is_failed : NodeStatus → Bool
is_failed failed = true
is_failed _ = false

unfoldable pub is_succeeded : NodeStatus → Bool
is_succeeded succeeded = true
is_succeeded _ = false

unfoldable pub is_condition_false : SkipReason → Bool
is_condition_false condition_false = true
is_condition_false _ = false

unfoldable pub is_cascaded : SkipReason → Bool
is_cascaded cascaded_failure = true
is_cascaded _ = false

-- `res != nil && res.Status == StatusSkipped`, and the like.
unfoldable pub has_status : (NodeStatus → Bool) → Option NodeResult → Bool
has_status is none = false
has_status is (some res) = is res.status

unfoldable pub is_dead_branch : Option NodeResult → Bool
unfolding is_skipped is_condition_false
is_dead_branch none = false
is_dead_branch (some res) = is_skipped res.status && is_condition_false res.skip_reason
