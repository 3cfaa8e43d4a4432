-- ===== src/Engine/Examples.antt =====
-- A workflow that writes code until its test passes, with a person to ask after two retries: runs of it, and
-- instances of the theorems.
use asgard.Prelude.{
  ℕ, suc, ◌+◌, ◌*◌, ◌≤◌, ◌≡◌, ◌≢◌, refl, ◌⊎◌, ◌↔◌, Bool, true, false, not, ◌&&◌, List, [], ◌∷◌,
  Memᴰ, All-at, Text, bytes, Option, none, some, text_eq, if◌then◌else◌, exists, length, ◌==◌,
  positive, pos, negsuc, arith,
}
use asgard.Prelude.Memᴰ
use asgard.Workflow.{
  NodeType, NodeDependency, NodeSpec, LoopSpec, WorkflowDefinition, plain_node, allows_fail,
  allows_skip,
}
use asgard.Workflow.Results.{
  NodeResult, succeeded, failed, no_reason, condition_false, cascaded_failure, settled,
}
use asgard.Workflow.Loops.{loop_in_chain, validate_loops}
use asgard.Engine.Downstream.{reset_below}
use asgard.Engine.Downstream.Resets.{reset_below-in_chain}
use asgard.Engine.{State, Worker, launched, runs, is_some, find_node, max_executions}
use asgard.Engine.Readiness.{run, skip, evaluate_node_readiness}
use asgard.Engine.Readiness.Reasons.{is_broken, is_closed, evaluate_node_readiness_iff}
use asgard.Engine.Downstream.Fuel.{HasFallbacks}
use asgard.Engine.Steps.{RunContext, start, launch, decide, finish, Step, Run, is_idle}
use asgard.Engine.Steps.Queueing.{IsQueued}
use asgard.Engine.Steps.Invariant.{IsWithinLimit, run-IsQueued}
use asgard.Engine.Steps.Quotas.{IsInQuota, run-InQuota}
use asgard.Engine.Steps.Ends.{run-ends}
use asgard.Engine.Settling.{run_completed, sweep_dormant_orphans, run_status, is_human_abort_reply}
use asgard.Engine.Settling.Marks.{Marked}
use asgard.Engine.Settling.Sweep.{sweep_dormant_orphans-Marked}

abbrev on : Text → Text → Text → NodeDependency
on node when counts = record { node_id = node; when = when; counts_loop = counts; resets_loop = [] }

abbrev plan : NodeSpec
plan = plain_node (bytes "p") []

abbrev code : NodeSpec
code =
    plain_node (bytes "c")
      (on (bytes "p") [] [] ∷ on (bytes "t") (bytes "nodes.t.exit_code != 0") (bytes "r") ∷ [])

abbrev test : NodeSpec
test = plain_node (bytes "t") (on (bytes "c") [] [] ∷ [])

abbrev help : NodeSpec
help = record (plain_node (bytes "h") []) { node_type = NodeType.human }

abbrev after_help : NodeSpec
after_help = plain_node (bytes "a") (on (bytes "h") [] [] ∷ [])

abbrev retries : LoopSpec
retries = record {
  id = bytes "r";
  nodes = bytes "c" ∷ bytes "t" ∷ [];
  parent = [];
  max_iterations = pos 2;
  on_exhausted = bytes "h";
}

abbrev retry : WorkflowDefinition
retry = record {
  nodes = plan ∷ code ∷ test ∷ help ∷ after_help ∷ [];
  loops = retries ∷ [];
  max_node_executions = pos 0;
}

retry-accepted : validate_loops retry ≡ none
unfolding validate_loops text_eq exists asgard.Prelude.is_zero asgard.Prelude.first
retry-accepted = refl

abbrev fresh : RunContext
fresh = record {
  seed_nodes = [];
  seed_execution_counts = λ id. 0;
  seed_loop_iterations = λ id. 0;
  activate_nodes = [];
}

abbrev passed : Option NodeResult
passed = some (settled succeeded no_reason none)

-- The test runs, for the third time when `k` is 2.
abbrev testing : ℕ → State
testing k = record {
  results = λ id.
      if text_eq id (bytes "p") then passed else (if text_eq id (bytes "c") then passed else none);
  ready = [];
  running = λ id. text_eq id (bytes "t");
  workers = record { id = bytes "t"; phase = runs } ∷ [];
  executions = λ id. suc k;
  loop_iterations = λ id. k;
  replaying = false;
  exhausted_no_fallback = false;
  stalled = false;
}

abbrev failing : NodeResult
failing = record (settled succeeded no_reason none) { exit_code = pos 1 }

-- A failed test goes back to the code; the third one queues the fallback instead.
retry_test : (finish retry (some failing) none (bytes "t") (testing 1)).ready ≡ bytes "c" ∷ []
unfolding finish asgard.Engine.dependents text_eq asgard.Engine.is_dead_branch asgard.Prelude.first
    asgard.Engine.conditional_deps asgard.Prelude.keep_if asgard.Engine.has_status
    asgard.Engine.Readiness.matches asgard.Workflow.Expr.Values.evaluate_simple_expr exists
    asgard.Prelude.split_on asgard.Workflow.find_loop asgard.Prelude.positive max_executions
retry_test = refl

counted_test :
    (finish retry (some failing) none (bytes "t") (testing 1)).loop_iterations (bytes "r") ≡ 2
unfolding finish asgard.Engine.dependents text_eq asgard.Engine.is_dead_branch asgard.Prelude.first
    asgard.Engine.conditional_deps asgard.Prelude.keep_if asgard.Engine.has_status
    asgard.Engine.Readiness.matches asgard.Workflow.Expr.Values.evaluate_simple_expr exists
    asgard.Prelude.split_on asgard.Workflow.find_loop asgard.Prelude.positive max_executions
    asgard.Engine.child_loops
counted_test = refl

exhausted_test : (finish retry (some failing) none (bytes "t") (testing 2)).ready ≡ bytes "h" ∷ []
unfolding finish asgard.Engine.dependents text_eq asgard.Engine.is_dead_branch asgard.Prelude.first
    asgard.Engine.conditional_deps asgard.Prelude.keep_if asgard.Engine.has_status
    asgard.Engine.Readiness.matches asgard.Workflow.Expr.Values.evaluate_simple_expr exists
    asgard.Prelude.split_on asgard.Workflow.find_loop asgard.Prelude.positive max_executions
exhausted_test = refl

passing_test : is_idle (finish retry passed none (bytes "t") (testing 2)) ≡ true
unfolding finish is_idle asgard.Engine.dependents text_eq asgard.Engine.is_dead_branch
    asgard.Prelude.first asgard.Engine.conditional_deps asgard.Prelude.keep_if
    asgard.Engine.has_status asgard.Engine.Readiness.matches
    asgard.Workflow.Expr.Values.evaluate_simple_expr exists asgard.Prelude.split_on
    asgard.Engine.unconditional_deps
passing_test = refl

abbrev all_passed : State
all_passed = record (testing 2) {
  workers = [];
  results = λ id.
      if text_eq id (bytes "h") then none else (if text_eq id (bytes "a") then none else passed);
}

abbrev lower : Text → Text
lower [] = []
lower (b ∷ s) = (if b == 65 then 97 else b) ∷ lower s

completed_test : run_status lower false retry all_passed ≡ run_completed
unfolding run_status exists text_eq asgard.Prelude.first asgard.Engine.is_skipped
    asgard.Engine.is_failed asgard.Engine.is_cascaded
completed_test = refl

abort_test : is_human_abort_reply lower (bytes " Abort ") [] ≡ true
unfolding is_human_abort_reply text_eq asgard.Prelude.first
abort_test = refl

option_test : is_human_abort_reply lower (bytes "please cancel it") (bytes "cancel it" ∷ []) ≡ false
unfolding is_human_abort_reply text_eq asgard.Prelude.first exists
option_test = refl

-- The first three steps of a run: the plan is launched, may run, and passes.
abbrev launched_plan : State
launched_plan = launch (start retry fresh)

abbrev deciding : State
deciding = decide plan launched_plan

abbrev planned : State
planned = finish retry passed none (bytes "p") deciding

queued_first : (length (start retry fresh).ready == 0) ≡ false
unfolding start exists text_eq asgard.Prelude.keep_if asgard.Workflow.among max_executions positive
queued_first = refl

launched_first : Memᴰ (record { id = bytes "p"; phase = launched }) launched_plan.workers
unfolding launch start exists text_eq asgard.Prelude.keep_if asgard.Workflow.among max_executions
    positive
launched_first = Memᴰ.head refl

running_first : Memᴰ (record { id = bytes "p"; phase = runs }) deciding.workers
unfolding decide launch start exists text_eq asgard.Prelude.keep_if asgard.Workflow.among
    max_executions positive evaluate_node_readiness
running_first = Memᴰ.head refl

found_first : find_node (bytes "p") retry.nodes ≡ some plan
unfolding find_node asgard.Prelude.first text_eq
found_first = refl

first_steps : Run retry 3 (start retry fresh) planned
first_steps =
    Run.then_step
      (Run.then_step (Run.then_step Run.here (Step.launches queued_first))
        (Step.decides launched_first found_first))
      (Step.finishes passed none running_first)

fresh-IsWithinLimit : IsWithinLimit retry fresh
unfolding max_executions
fresh-IsWithinLimit id = omega arith

fresh-IsInQuota : IsInQuota retry fresh.seed_loop_iterations
fresh-IsInQuota l n i e = omega arith

retry-HasFallbacks : HasFallbacks retry
unfolding text_eq
retry-HasFallbacks l i =
    All-at (λ (m : LoopSpec). positive m.max_iterations ≡ true → text_eq m.on_exhausted [] ≡ false)
      retry.loops (fallback, tt) i
  where
    fallback : positive (pos 2) ≡ true → text_eq (bytes "h") [] ≡ false
    fallback e = refl

run-IsQueued_example : IsQueued retry planned
run-IsQueued_example =
    run-IsQueued retry retry-accepted fresh fresh-IsWithinLimit 3 planned first_steps

run-ends_example :
    (3 ≤ 3 * (length retry.nodes * max_executions retry))
    × (planned.stalled ≡ false)
    × ((is_idle planned ≡ true) ⊎ ((t : State) × Step retry planned t))
run-ends_example =
    run-ends retry retry-accepted retry-HasFallbacks fresh fresh-IsWithinLimit 3 planned first_steps

run-InQuota_example : IsInQuota retry planned.loop_iterations
run-InQuota_example = run-InQuota retry retry-accepted fresh fresh-IsInQuota 3 planned first_steps

-- The code after a plan that failed.
abbrev plan_failed : Text → Option NodeResult
plan_failed id = if text_eq id (bytes "p") then some (settled failed no_reason none) else none

evaluate_node_readiness_iff_example :
    ((evaluate_node_readiness code plan_failed ≡ skip cascaded_failure)
      ↔ ((exists (is_broken plan_failed) code.depends && not (allows_fail code)) ≡ true))
    × ((evaluate_node_readiness code plan_failed ≡ skip condition_false) ↔ (
        ((exists (is_broken plan_failed) code.depends && not (allows_fail code)) ≡ false)
        × ((exists (is_closed plan_failed) code.depends && not (allows_skip code)) ≡ true)))
    × ((evaluate_node_readiness code plan_failed ≡ run) ↔ (
        ((exists (is_broken plan_failed) code.depends && not (allows_fail code)) ≡ false)
        × ((exists (is_closed plan_failed) code.depends && not (allows_skip code)) ≡ false)))
evaluate_node_readiness_iff_example = evaluate_node_readiness_iff plan_failed code

sweep_dormant_orphans-Marked_example :
    Marked retry.nodes all_passed.results (sweep_dormant_orphans retry all_passed.results)
    × ((l : LoopSpec)
        → Memᴰ l retry.loops
        → (l.on_exhausted ≡ [])
          ⊎ (is_some (sweep_dormant_orphans retry all_passed.results l.on_exhausted) ≡ true))
sweep_dormant_orphans-Marked_example =
    sweep_dormant_orphans-Marked retry retry-accepted all_passed.results

-- A reset of the only loop has nothing below it.
reset_below-in_chain_example :
    ((loop_in_chain retry.loops retries (bytes "r") ≡ some true)
      × ((reset_below retry (bytes "r") (testing 2)).loop_iterations (bytes "r") ≡ 0))
    ⊎ ((loop_in_chain retry.loops retries (bytes "r") ≢ some true)
        × ((reset_below retry (bytes "r") (testing 2)).loop_iterations (bytes "r") ≡ 2))
reset_below-in_chain_example =
    reset_below-in_chain retry retry-accepted (bytes "r") (testing 2) retries (Memᴰ.head refl)
