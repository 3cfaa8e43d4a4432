-- ===== src/Engine/Settling.antt =====
-- The end of `Execute` in backend/lib/workflow/engine.go: the sweep of the fallbacks that never fired, and the
-- status of the run. The error text of the run is left out. `mark` runs on fuel, one
-- more than the number of nodes. `strings.ToLower` is a parameter.
pub mod Marks
pub mod Sweep
pub mod Aborts
pub mod Green
use asgard.Prelude.{
  ℕ, zero, suc, Bool, true, false, not, ◌&&◌, ◌||◌, List, [], ◌∷◌, foldl, Text, bytes, Option, none,
  some, length, ◌==◌, text_eq, if◌then◌else◌, exists, has_prefix,
}
use asgard.Workflow.{NodeType, NodeDependency, NodeSpec, LoopSpec, WorkflowDefinition}
use asgard.Workflow.Results.{skipped, never_activated, NodeResult, settled}
use asgard.Workflow.Expr.{trim_space}
use asgard.Engine.{
  State, put, is_some, find_node, dependents, is_skipped, is_failed, is_succeeded, is_cascaded,
  has_status,
}
use asgard.Engine.Downstream.{has_when_edge}

abbrev pub dormant : NodeResult
dormant = settled skipped never_activated none

-- `mark` of `sweepDormantOrphans`
unfoldable pub mark :
    List NodeSpec → ℕ → Text → (Text → Option NodeResult) → Text → Option NodeResult
unfolding put is_some dependents
mark nodes zero id results = results
mark nodes (suc fuel) id results = elim (is_some (results id)) [
  | true ↦ results
  | false ↦
      foldl (λ marked (n : NodeSpec). mark nodes fuel n.id marked) (put id (some dormant) results)
        (dependents nodes id)
]

unfoldable pub sweep_loops :
    WorkflowDefinition → List LoopSpec → (Text → Option NodeResult) → Text → Option NodeResult
unfolding mark
sweep_loops defn [] results = results
sweep_loops defn (l ∷ loops) results = sweep_loops defn loops (
    if text_eq l.on_exhausted []
    then results
    else mark defn.nodes (suc (length defn.nodes)) l.on_exhausted results)

-- `sweepDormantOrphans`
unfoldable pub sweep_dormant_orphans :
    WorkflowDefinition → (Text → Option NodeResult) → Text → Option NodeResult
unfolding sweep_loops
sweep_dormant_orphans defn results = sweep_loops defn defn.loops results

-- `WorkflowRunStatus`
pub data RunStatus : Type 0 where
  run_completed : RunStatus
  run_failed : RunStatus
  run_canceled : RunStatus

-- `failureHandled`, over the nodes with a condition on an edge from `id`.
unfoldable pub failure_handled : List NodeSpec → (Text → Option NodeResult) → Text → Bool
unfolding has_when_edge
failure_handled nodes results id =
    exists (λ m. has_when_edge id m && has_status is_succeeded (results m.id)) nodes

-- Whether a node makes the run fail.
unfoldable pub fails_run :
    List NodeSpec → (Text → Option NodeResult) → NodeSpec → Option NodeResult → Bool
unfolding failure_handled
fails_run nodes results n none = true
fails_run nodes results n (some res) =
    if is_skipped res.status && is_cascaded res.skip_reason
    then true
    else is_failed res.status && not (failure_handled nodes results n.id)

-- `settleGlobalStatus`
unfoldable pub settle_nodes : List NodeSpec → (Text → Option NodeResult) → List NodeSpec → RunStatus
unfolding fails_run
settle_nodes nodes results [] = run_completed
settle_nodes nodes results (n ∷ rest) =
    if fails_run nodes results n (results n.id) then run_failed else settle_nodes nodes results rest

unfoldable pub settle_global_status : WorkflowDefinition → (Text → Option NodeResult) → RunStatus
unfolding settle_nodes
settle_global_status defn results = settle_nodes defn.nodes results defn.nodes

-- `strings.Contains`
unfoldable pub contains : Text → Text → Bool
unfolding has_prefix
contains [] sub = length sub == 0
contains (b ∷ s) sub = has_prefix (b ∷ s) sub || contains s sub

-- `isHumanAbortReply`
unfoldable pub is_abort_option : (Text → Text) → Text → Text → Bool
unfolding contains trim_space
is_abort_option to_lower trimmed opt =
    let option = trim_space (to_lower opt) in
    (contains option (bytes "abort") || contains option (bytes "cancel")) && text_eq trimmed option

unfoldable pub is_abort_word : Text → Bool
is_abort_word trimmed =
    text_eq trimmed (bytes "abort")
    || text_eq trimmed (bytes "abort workflow")
    || text_eq trimmed (bytes "cancel")
    || text_eq trimmed (bytes "cancelled")
    || text_eq trimmed (bytes "canceled")

unfoldable pub is_human_abort_reply : (Text → Text) → Text → List Text → Bool
unfolding is_abort_option is_abort_word trim_space
is_human_abort_reply to_lower output options =
    let trimmed = trim_space (to_lower output) in
    if text_eq trimmed []
    then false
    else (if is_abort_word trimmed then true else exists (is_abort_option to_lower trimmed) options)

unfoldable pub is_human : NodeType → Bool
is_human NodeType.human = true
is_human _ = false

-- The loop over the fallbacks that looks for a human's abort.
unfoldable pub aborts : (Text → Text) → NodeSpec → Option NodeResult → Bool
unfolding is_human is_human_abort_reply
aborts to_lower n none = false
aborts to_lower n (some res) =
    is_human n.node_type && is_human_abort_reply to_lower res.output n.options

unfoldable pub aborted_at : (Text → Text) → Option NodeSpec → Option NodeResult → Bool
unfolding aborts
aborted_at to_lower none res = false
aborted_at to_lower (some n) res = aborts to_lower n res

unfoldable pub is_aborted : (Text → Text) → WorkflowDefinition → (Text → Option NodeResult) → Bool
unfolding aborted_at find_node
is_aborted to_lower defn results =
    exists
      (λ (l : LoopSpec).
        not (text_eq l.on_exhausted [])
        && aborted_at to_lower (find_node l.on_exhausted defn.nodes) (results l.on_exhausted))
      defn.loops

-- A breach of a quota without a fallback fails the run.
unfoldable pub breached : Bool → RunStatus → RunStatus
breached true run_completed = run_failed
breached _ status = status

-- The status of a run, `canceled` when its context has ended, from the state in which it is idle.
unfoldable pub run_status : (Text → Text) → Bool → WorkflowDefinition → State → RunStatus
unfolding sweep_dormant_orphans settle_global_status is_aborted breached
run_status to_lower canceled defn s =
    let results = sweep_dormant_orphans defn s.results in
    if canceled
    then run_canceled
    else (if is_aborted to_lower defn results
        then run_canceled
        else breached s.exhausted_no_fallback (settle_global_status defn results))
