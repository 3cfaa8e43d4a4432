-- ===== src/Engine/Downstream.antt =====
-- The closures of `Execute` in backend/lib/workflow/engine.go that admit nodes: `enqueue`, `isPending`,
-- `resetDescendantLoops`, `admitViaEdge` and `evaluateDownstream`. Both recursions run on fuel: one
-- more than the number of loops, and one more than the number of nodes.
pub mod Lookups
pub mod Keeps
pub mod Resets
pub mod Fuel
use asgard.Prelude.{
  ℕ, zero, suc, ◌+◌, Bool, true, false, not, ◌&&◌, ◌||◌, List, [], ◌∷◌, ◌++◌, foldl, Text, bytes,
  Option, none, some, length, leb, ◌==◌, text_eq, if◌then◌else◌, exists, first, ℤ, pos, negsuc,
  positive,
}
use asgard.Workflow.{NodeDependency, NodeSpec, LoopSpec, WorkflowDefinition, among, find_loop}
use asgard.Workflow.Results.{
  SkipReason, skipped, failed, no_reason, condition_false, NodeResult, settled,
}
use asgard.Workflow.Expr.Values.{itoa}
use asgard.Engine.{
  State, put, is_some, max_executions, conditional_deps, unconditional_deps, dependents,
  child_loops, is_skipped, is_succeeded, has_status, is_dead_branch,
}
use asgard.Engine.Readiness.{
  NodeAction, run, skip, is_status_query, matches, evaluate_node_readiness,
}

-- `isPending`
unfoldable pub is_pending : Text → State → Bool
is_pending id s = s.running id || among id s.ready

-- `enqueue`: whether the node was admitted, and the state.
unfoldable pub enqueue : WorkflowDefinition → Text → State → Bool × State
enqueue defn id s =
    if s.running id
    then (false, s)
    else (if among id s.ready
        then (false, s)
        else (if leb (max_executions defn) (s.executions id)
            then (false, s)
            else (true, record s { ready = s.ready ++ id ∷ [] })))

-- `resetDescendantLoops`
unfoldable pub reset_descendants : List LoopSpec → ℕ → Text → (Text → ℕ) → Text → ℕ
reset_descendants loops zero id iterations = iterations
reset_descendants loops (suc fuel) id iterations =
    foldl (λ counts (l : LoopSpec). reset_descendants loops fuel l.id (put l.id 0 counts))
      iterations (child_loops loops id)

unfoldable pub reset_below : WorkflowDefinition → Text → State → State
unfolding reset_descendants
reset_below defn id s = record s {
  loop_iterations = reset_descendants defn.loops (suc (length defn.loops)) id s.loop_iterations;
}

-- `loop.MaxIterations > 0 && loopIter[loop.ID] >= loop.MaxIterations`
unfoldable pub reached : ℤ → ℕ → Bool
reached (pos n) k = positive (pos n) && leb n k
reached (negsuc n) k = false

unfoldable pub is_exhausted : LoopSpec → (Text → ℕ) → Bool
unfolding reached
is_exhausted l iterations = reached l.max_iterations (iterations l.id)

unfoldable pub set_result : Text → Option NodeResult → State → State
set_result id res s = record s { results = put id res s.results }

-- The conditional successors of a target that had settled lose their results.
unfoldable pub has_when_edge : Text → NodeSpec → Bool
has_when_edge id n = exists (λ dep. text_eq dep.node_id id && not (text_eq dep.when [])) n.depends

unfoldable pub invalidate : Text → List NodeSpec → State → State
unfolding has_when_edge set_result
invalidate id [] s = s
invalidate id (n ∷ nodes) s =
    invalidate id nodes (if has_when_edge id n then set_result n.id none s else s)

-- `%q` prints an id between quotes; one with a byte that it escapes is not modelled.
unfoldable pub exhausted_error : LoopSpec → Text → Text
exhausted_error l target =
    bytes "loop "
    ++ (34 ∷ l.id)
    ++ (34 ∷ bytes " exhausted after ")
    ++ itoa l.max_iterations
    ++ bytes " iterations; node "
    ++ target
    ++ bytes " not re-entered"

-- The breach of a quota that has no fallback.
unfoldable pub fail_target :
    WorkflowDefinition → (Text → State → State) → LoopSpec → Text → State → State
unfolding set_result invalidate exhausted_error
fail_target defn rec l target s =
    let failing =
      set_result target (some (settled failed no_reason (some (exhausted_error l target))))
        (record s { exhausted_no_fallback = true }) in
    elim (is_some (s.results target)) [
      | true ↦ invalidate target (dependents defn.nodes target) failing
      | false ↦ rec target failing
    ]

-- A counting edge into a target.
unfoldable pub count_loop : WorkflowDefinition → LoopSpec → Bool × State → State
unfolding reset_below
count_loop defn l (false, s) = s
count_loop defn l (true, s) =
    reset_below defn l.id
      (record s { loop_iterations = put l.id (s.loop_iterations l.id + 1) s.loop_iterations })

unfoldable pub admit_counting :
    WorkflowDefinition → (Text → State → State) → LoopSpec → Text → State → State
unfolding is_pending is_exhausted enqueue fail_target count_loop
admit_counting defn rec l target s =
    if is_pending target s then s else elim (is_exhausted l s.loop_iterations) [
      | true ↦ elim (text_eq l.on_exhausted []) [
        | false ↦ (enqueue defn l.on_exhausted s).1
        | true ↦ fail_target defn rec l target s
      ]
      | false ↦ count_loop defn l (enqueue defn target s)
    ]

-- `admitViaEdge`, with the recursive call of `evaluateDownstream`.
unfoldable pub admit_via_edge :
    WorkflowDefinition → (Text → State → State) → NodeDependency → Text → State → State
unfolding reset_below enqueue admit_counting
admit_via_edge defn rec dep target s =
    if s.replaying && is_some (s.results target)
    then s
    else (if not (text_eq dep.resets_loop [])
        then (enqueue defn target (
            reset_below defn dep.resets_loop
              (record s { loop_iterations = put dep.resets_loop 0 s.loop_iterations }))).1
        else (if text_eq dep.counts_loop []
            then (enqueue defn target s).1
            else elim (find_loop dep.counts_loop defn.loops) [
              | none ↦ (enqueue defn target s).1
              | some l ↦ admit_counting defn rec l target s
            ]))

-- The first conditional edge from a settled node whose condition holds.
unfoldable pub matching_edge :
    Text → Bool → (Text → Option NodeResult) → List NodeDependency → Option NodeDependency
matching_edge id parent_skipped results conds =
    first
      (λ cond.
        if not (text_eq cond.node_id id)
        then none
        else (if (not parent_skipped || is_status_query cond.when) && matches cond.when results
            then some cond
            else none))
      conds

unfoldable pub edge_from : Text → List NodeDependency → Option NodeDependency
edge_from id deps = first (λ dep. if text_eq dep.node_id id then some dep else none) deps

unfoldable pub all_settled : (Text → Option NodeResult) → List NodeDependency → Bool
all_settled results deps = not (exists (λ dep. not (is_some (results dep.node_id))) deps)

-- A node is settled as skipped and its dependents are evaluated, unless it is skipped already.
unfoldable pub skip_node : (Text → State → State) → SkipReason → Text → State → State
unfolding set_result
skip_node rec why id s = elim (has_status is_skipped (s.results id)) [
  | true ↦ s
  | false ↦ rec id (set_result id (some (settled skipped why none)) s)
]

unfoldable pub by_readiness :
    WorkflowDefinition
    → (Text → State → State)
    → NodeDependency
    → NodeSpec
    → NodeAction
    → State
    → State
unfolding skip_node admit_via_edge
by_readiness defn rec dep n (skip why) s = skip_node rec why n.id s
by_readiness defn rec dep n run s = admit_via_edge defn rec dep n.id s

-- No condition matched, and the settled node is an unconditional parent.
unfoldable pub visit_unconditional :
    WorkflowDefinition → (Text → State → State) → Text → NodeDependency → NodeSpec → State → State
unfolding all_settled by_readiness
visit_unconditional defn rec id dep n s =
    elim (all_settled s.results (unconditional_deps n)
      || (text_eq n.join (bytes "always") && has_status is_succeeded (s.results id))) [
        | true ↦ by_readiness defn rec dep n (evaluate_node_readiness n s.results) s
        | false ↦ s
      ]

-- No condition matched, and the settled node is no unconditional parent.
unfoldable pub visit_conditional : (Text → State → State) → NodeSpec → State → State
unfolding all_settled skip_node
visit_conditional rec n s =
    elim (length (unconditional_deps n) == 0 && all_settled s.results (conditional_deps n)) [
      | true ↦ skip_node rec condition_false n.id s
      | false ↦ s
    ]

-- One dependent of a settled node.
unfoldable pub visit :
    WorkflowDefinition → (Text → State → State) → Text → Bool → Bool → NodeSpec → State → State
unfolding matching_edge edge_from admit_via_edge visit_unconditional visit_conditional
visit defn rec id dead parent_skipped n s =
    if dead && is_some (s.results n.id)
    then s
    else elim (matching_edge id parent_skipped s.results (conditional_deps n)) [
      | some dep ↦ admit_via_edge defn rec dep n.id s
      | none ↦ elim (edge_from id (unconditional_deps n)) [
        | some dep ↦ visit_unconditional defn rec id dep n s
        | none ↦ visit_conditional rec n s
      ]
    ]

unfoldable pub visit_all :
    WorkflowDefinition → (Text → State → State) → Text → Bool → Bool → List NodeSpec → State → State
unfolding visit
visit_all defn rec id dead parent_skipped [] s = s
visit_all defn rec id dead parent_skipped (n ∷ nodes) s =
    visit_all defn rec id dead parent_skipped nodes (visit defn rec id dead parent_skipped n s)

-- `evaluateDownstream`
unfoldable pub evaluate_downstream : WorkflowDefinition → ℕ → Text → State → State
unfolding visit_all
evaluate_downstream defn zero id s = record s { stalled = true }
evaluate_downstream defn (suc fuel) id s =
    visit_all defn (λ next t. evaluate_downstream defn fuel next t) id
      (is_dead_branch (s.results id)) (has_status is_skipped (s.results id))
      (dependents defn.nodes id) s

-- The fuel: one more than the number of nodes.
unfoldable pub downstream : WorkflowDefinition → Text → State → State
unfolding evaluate_downstream
downstream defn id s = evaluate_downstream defn (suc (length defn.nodes)) id s
