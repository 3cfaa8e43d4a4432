-- ===== src/Engine/Readiness/Reasons.antt =====
-- When a node is skipped, and why: `EvaluateNodeReadiness` of backend/lib/workflow/engine.go against its comment.
use asgard.Prelude.{
  ◌≡◌, refl, inl, inr, ◌↔◌, Bool, true, false, not, ◌&&◌, ◌||◌, List, [], ◌∷◌, Text, Option, none,
  some, text_eq, if◌then◌else◌, exists, arith, Bool-cases,
}
use asgard.Workflow.{NodeDependency, NodeSpec, allows_fail, allows_skip}
use asgard.Workflow.Results.{NodeStatus, condition_false, cascaded_failure, NodeResult}
use asgard.Engine.{is_skipped, is_failed, is_cascaded, has_status}
use asgard.Engine.Readiness.{
  run, skip, Edges, is_status_query, matches, conditional_edge, default_edge, scan, no_edges,
  settlement, evaluate_node_readiness,
}

-- A parent that failed or was skipped after a failure, and one that was skipped for another reason.
unfoldable pub has_broken : Option NodeResult → Bool
has_broken none = false
has_broken (some res) =
    is_failed res.status || (is_skipped res.status && is_cascaded res.skip_reason)

unfoldable pub was_passed_over : Option NodeResult → Bool
was_passed_over none = false
was_passed_over (some res) = is_skipped res.status && not (is_cascaded res.skip_reason)

-- A condition holds of the results; that of a skipped parent must ask for the status or the reason of a skip.
unfoldable pub holds : (Text → Option NodeResult) → NodeDependency → Bool
holds upstreams dep =
    matches dep.when upstreams
    && (not (has_status is_skipped (upstreams dep.node_id)) || is_status_query dep.when)

-- An edge without a condition from a broken parent.
unfoldable pub is_broken : (Text → Option NodeResult) → NodeDependency → Bool
unfolding has_broken
is_broken upstreams dep = text_eq dep.when [] && has_broken (upstreams dep.node_id)

-- An edge whose condition does not hold, or without a condition from a parent that was passed over.
unfoldable pub is_closed : (Text → Option NodeResult) → NodeDependency → Bool
unfolding was_passed_over holds
is_closed upstreams dep =
    if text_eq dep.when []
    then was_passed_over (upstreams dep.node_id)
    else not (holds upstreams dep)

broken : Edges → Bool
broken edges = edges.failed_edge || edges.cascaded_edge

exclusive : (status : NodeStatus) → is_failed status ≡ true → is_skipped status ≡ false
unfolding is_failed is_skipped
exclusive NodeStatus.unset e = refl
exclusive NodeStatus.pending e = refl
exclusive NodeStatus.running e = refl
exclusive NodeStatus.succeeded e = refl
exclusive NodeStatus.skipped e = (cc)
exclusive NodeStatus.failed e = refl

default_edge-broken :
    (o : Option NodeResult) (edges : Edges)
    → broken (default_edge o edges) ≡ (broken edges || has_broken o)
unfolding default_edge has_broken broken
default_edge-broken none edges = ground arith
default_edge-broken (some res) edges = ground arith

default_edge-closed :
    (o : Option NodeResult) (edges : Edges)
    → (default_edge o edges).condition_false_edge
      ≡ (edges.condition_false_edge || was_passed_over o)
unfolding default_edge was_passed_over
default_edge-closed none edges = ground arith
default_edge-closed (some res) edges = ground (arith, exclusive res.status)

module _ (upstreams : Text → Option NodeResult) where
  conditional_edge-broken :
      (dep : NodeDependency) (edges : Edges)
      → broken (conditional_edge dep upstreams edges) ≡ broken edges
  unfolding conditional_edge broken
  conditional_edge-broken dep edges = ground arith

  conditional_edge-closed :
      (dep : NodeDependency) (edges : Edges)
      → (conditional_edge dep upstreams edges).condition_false_edge
        ≡ (edges.condition_false_edge || not (holds upstreams dep))
  unfolding conditional_edge holds
  conditional_edge-closed dep edges = ground arith

  scan-broken :
      (deps : List NodeDependency) (edges : Edges)
      → broken (scan upstreams deps edges) ≡ (broken edges || exists (is_broken upstreams) deps)
  unfolding scan exists is_broken
  scan-broken [] edges = ground arith
  scan-broken (dep ∷ deps) edges = elim (Bool-cases (text_eq dep.when [])) [
    | inl t ↦
        let h = scan-broken deps (default_edge (upstreams dep.node_id) edges) in
        let one = default_edge-broken (upstreams dep.node_id) edges in
        rw (t, scan) (ground (arith, h, one))
    | inr f ↦
        let h = scan-broken deps (conditional_edge dep upstreams edges) in
        let one = conditional_edge-broken dep edges in rw (f, scan) (ground (arith, h, one))
  ]

  scan-closed :
      (deps : List NodeDependency) (edges : Edges)
      → (scan upstreams deps edges).condition_false_edge
        ≡ (edges.condition_false_edge || exists (is_closed upstreams) deps)
  unfolding scan exists is_closed
  scan-closed [] edges = ground arith
  scan-closed (dep ∷ deps) edges = elim (Bool-cases (text_eq dep.when [])) [
    | inl t ↦
        let h = scan-closed deps (default_edge (upstreams dep.node_id) edges) in
        let one = default_edge-closed (upstreams dep.node_id) edges in
        rw (t, scan) (ground (arith, h, one))
    | inr f ↦
        let h = scan-closed deps (conditional_edge dep upstreams edges) in
        let one = conditional_edge-closed dep edges in rw (f, scan) (ground (arith, h, one))
  ]

  -- A node is skipped after a failure exactly if an edge without a condition comes from a parent that failed or
  -- was itself skipped after a failure, and the node does not allow failures; `on_skip: run` does not help it,
  -- although the comment on the function says that it may opt in that way. Otherwise it is skipped for a
  -- condition exactly if an edge is closed, and the node does not allow skips: the condition of the edge does
  -- not hold, or the edge has none and its parent was skipped for another reason. Otherwise the node runs.
  pub evaluate_node_readiness_iff :
      (n : NodeSpec)
      → ((evaluate_node_readiness n upstreams ≡ skip cascaded_failure)
          ↔ ((exists (is_broken upstreams) n.depends && not (allows_fail n)) ≡ true))
        × ((evaluate_node_readiness n upstreams ≡ skip condition_false) ↔ (
            ((exists (is_broken upstreams) n.depends && not (allows_fail n)) ≡ false)
            × ((exists (is_closed upstreams) n.depends && not (allows_skip n)) ≡ true)))
        × ((evaluate_node_readiness n upstreams ≡ run) ↔ (
            ((exists (is_broken upstreams) n.depends && not (allows_fail n)) ≡ false)
            × ((exists (is_closed upstreams) n.depends && not (allows_skip n)) ≡ false)))
  unfolding evaluate_node_readiness settlement broken
  evaluate_node_readiness_iff n =
      ground (arith, scan-broken n.depends no_edges, scan-closed n.depends no_edges)
