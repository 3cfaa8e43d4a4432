-- ===== src/Engine/Breaches.antt =====
-- A workflow whose loop has a limit and no fallback: how deep `evaluateDownstream` of
-- backend/lib/workflow/engine.go calls itself on it.
use asgard.Prelude.{
  ◌≡◌, refl, ℕ, zero, suc, Bool, true, false, List, [], ◌∷◌, Text, bytes, Option, none, some,
  text_eq, if◌then◌else◌, pos,
}
use asgard.Workflow.{NodeDependency, NodeSpec, LoopSpec, WorkflowDefinition, plain_node}
use asgard.Workflow.Results.{NodeResult, succeeded, failed, no_reason, settled}
use asgard.Workflow.Loops.{validate_loops}
use asgard.Workflow.Cycles.{detect_cycle}
use asgard.Engine.{State, Worker, runs}
use asgard.Engine.Downstream.{evaluate_downstream}
use asgard.Engine.Steps.{RunContext, start, launch, finish}

-- An edge whose condition holds once the first node has succeeded.
abbrev after : Text → Text → NodeDependency
after node counts = record {
  node_id = node;
  when = bytes "nodes.a.exit_code == 0";
  counts_loop = counts;
  resets_loop = [];
}

abbrev needs_a : NodeDependency
needs_a = record (after (bytes "a") []) { when = [] }

abbrev circle : LoopSpec
circle = record {
  id = bytes "l";
  nodes = bytes "b" ∷ bytes "c" ∷ bytes "d" ∷ [];
  parent = [];
  max_iterations = pos 1;
  on_exhausted = [];
}

abbrev knot : WorkflowDefinition
knot = record {
  nodes =
      plain_node (bytes "a") []
      ∷ plain_node (bytes "c") (needs_a ∷ after (bytes "b") (bytes "l") ∷ [])
      ∷ plain_node (bytes "b") (after (bytes "c") [] ∷ after (bytes "d") (bytes "l") ∷ [])
      ∷ plain_node (bytes "d") (after (bytes "c") [] ∷ after (bytes "b") (bytes "l") ∷ [])
      ∷ [];
  loops = circle ∷ [];
  max_node_executions = pos 0;
}

knot-accepted : validate_loops knot ≡ none
unfolding validate_loops text_eq asgard.Prelude.exists asgard.Prelude.is_zero asgard.Prelude.first
knot-accepted = refl

knot-ordered : detect_cycle knot.nodes ≡ some true
unfolding detect_cycle asgard.Prelude.keep_if text_eq asgard.Prelude.exists
knot-ordered = refl

abbrev success : NodeResult
success = settled succeeded no_reason none

abbrev fresh : RunContext
fresh = record {
  seed_nodes = [];
  seed_execution_counts = λ id. 0;
  seed_loop_iterations = λ id. 0;
  activate_nodes = [];
}

-- The queued nodes run, and succeed in the order of the ids.
abbrev succeed : List Text → State → State
succeed [] s = s
succeed (id ∷ ids) s = succeed ids (finish knot (some success) none id s)

abbrev run_queued : List Text → State → State
run_queued ids s = succeed ids (launch s)

abbrev entered : State
entered = run_queued (bytes "c" ∷ []) (run_queued (bytes "a" ∷ []) (start knot fresh))

entered_test : entered.ready ≡ bytes "b" ∷ bytes "d" ∷ []
unfolding start finish asgard.Engine.dependents text_eq asgard.Engine.is_dead_branch
    asgard.Prelude.first asgard.Prelude.keep_if asgard.Engine.has_status
    asgard.Engine.Readiness.matches asgard.Workflow.Expr.Values.evaluate_simple_expr
    asgard.Prelude.exists asgard.Prelude.split_on launch asgard.Engine.is_some
    asgard.Engine.Readiness.evaluate_node_readiness asgard.Engine.max_executions
    asgard.Prelude.positive
entered_test = refl

-- The first success of `b` re-enters the loop by `c`; this is the state after the second one, when `d` has
-- succeeded as well.
abbrev breaching : State
breaching = record {
  results = λ id.
      if text_eq id (bytes "b")
      then none
      else (if text_eq id (bytes "c") then some (settled failed no_reason none) else some success);
  ready = [];
  running = λ id. false;
  workers = [];
  executions = λ id. 2;
  loop_iterations = λ id. 1;
  replaying = false;
  exhausted_no_fallback = true;
  stalled = false;
}

deep_test : (evaluate_downstream knot 15 (bytes "d") breaching).stalled ≡ true
unfolding evaluate_downstream asgard.Engine.dependents text_eq asgard.Engine.is_dead_branch
    asgard.Prelude.first asgard.Engine.conditional_deps asgard.Prelude.keep_if
    asgard.Engine.has_status asgard.Engine.Readiness.matches
    asgard.Workflow.Expr.Values.evaluate_simple_expr asgard.Prelude.exists asgard.Prelude.split_on
    asgard.Workflow.find_loop asgard.Workflow.among asgard.Prelude.positive asgard.Engine.is_some
    asgard.Engine.put
deep_test = refl
