-- ===== src/Engine/Readiness.antt =====
-- `EvaluateNodeReadiness` of backend/lib/workflow/engine.go.
pub mod Reasons
use asgard.Prelude.{
  Bool, true, false, not, ◌&&◌, ◌||◌, List, [], ◌∷◌, Text, bytes, Option, none, some, text_eq,
  if◌then◌else◌,
}
use asgard.Workflow.{NodeDependency, NodeSpec, allows_fail, allows_skip}
use asgard.Workflow.Results.{SkipReason, condition_false, cascaded_failure, NodeResult}
use asgard.Workflow.Expr.{parse_expr_target}
use asgard.Workflow.Expr.Values.{evaluate_simple_expr}
use asgard.Engine.{is_skipped, is_failed, is_cascaded, has_status}

-- `NodeAction`, with the reason of a skip.
pub data NodeAction : Type 0 where
  run : NodeAction
  skip : SkipReason → NodeAction

-- The three variables of the loop over the dependencies.
pub record Edges : Type 0 where
  pub condition_false_edge : Bool
  pub cascaded_edge : Bool
  pub failed_edge : Bool

-- `isStatusQuery`
unfoldable pub is_status_query : Text → Bool
is_status_query when = elim (parse_expr_target when) [
  | none ↦ false
  | some (id, field) ↦ text_eq field (bytes "status") || text_eq field (bytes "skip_reason")
]

-- Whether a condition holds; one that cannot be evaluated does not.
unfoldable pub matches : Text → (Text → Option NodeResult) → Bool
matches when results = elim (evaluate_simple_expr when (some results) none) [
  | none ↦ false
  | some b ↦ b
]

unfoldable pub conditional_edge : NodeDependency → (Text → Option NodeResult) → Edges → Edges
unfolding is_status_query matches
conditional_edge dep upstreams edges =
    if has_status is_skipped (upstreams dep.node_id) && not (is_status_query dep.when)
    then record edges { condition_false_edge = true }
    else (if matches dep.when upstreams
        then edges
        else record edges { condition_false_edge = true })

unfoldable pub default_edge : Option NodeResult → Edges → Edges
default_edge none edges = edges
default_edge (some res) edges =
    if is_failed res.status
    then record edges { failed_edge = true }
    else (if is_skipped res.status
        then (if is_cascaded res.skip_reason
            then record edges { cascaded_edge = true }
            else record edges { condition_false_edge = true })
        else edges)

-- The loop over the dependencies.
unfoldable pub scan : (Text → Option NodeResult) → List NodeDependency → Edges → Edges
unfolding conditional_edge default_edge
scan upstreams [] edges = edges
scan upstreams (dep ∷ deps) edges =
    if not (text_eq dep.when [])
    then scan upstreams deps (conditional_edge dep upstreams edges)
    else scan upstreams deps (default_edge (upstreams dep.node_id) edges)

abbrev pub no_edges : Edges
no_edges = record { condition_false_edge = false; cascaded_edge = false; failed_edge = false }

unfoldable pub settlement : NodeSpec → Edges → NodeAction
settlement n edges =
    if (edges.failed_edge || edges.cascaded_edge) && not (allows_fail n)
    then skip cascaded_failure
    else (if edges.condition_false_edge && not (allows_skip n) then skip condition_false else run)

unfoldable pub evaluate_node_readiness : NodeSpec → (Text → Option NodeResult) → NodeAction
unfolding scan settlement
evaluate_node_readiness n upstreams = settlement n (scan upstreams n.depends no_edges)
