-- ===== src/Engine/Steps.antt =====
-- The run of `Execute` in backend/lib/workflow/engine.go: its start from the roots or from a snapshot, and the
-- steps that the scheduling loop and the goroutines of the nodes take under the mutex. What a runner returns
-- is any result and any error.
pub mod Queueing
pub mod Workers
pub mod Quotas
pub mod Invariant
pub mod Costs
pub mod Ends
use asgard.Prelude.{
  ℕ, zero, suc, ◌+◌, ◌≡◌, ℤ, Bool, true, false, not, ◌&&◌, ◌||◌, List, [], ◌∷◌, ◌++◌, map, foldl,
  Memᴰ, Text, bytes, Option, none, some, length, ◌==◌, text_eq, if◌then◌else◌, exists, keep_if,
}
use asgard.Workflow.{NodeDependency, NodeSpec, LoopSpec, WorkflowDefinition, among}
use asgard.Workflow.Results.{
  NodeStatus, SkipReason, unset, skipped, failed, succeeded, no_reason, NodeResult, settled,
}
use asgard.Workflow.Expr.Values.{itoa}
use asgard.Engine.{
  State, Worker, Phase, launched, skips, runs, put, is_some, find_node, is_failed, conditional_deps,
  unconditional_deps,
}
use asgard.Engine.Readiness.{NodeAction, run, skip, evaluate_node_readiness}
use asgard.Engine.Downstream.{enqueue, set_result, downstream}

-- The seeds of `RunContext`: what a snapshot has kept, and the nodes to wake up. A Go map of results is the list
-- of its entries in the order in which `range` has them.
pub record RunContext : Type 0 where
  pub seed_nodes : List (Text × NodeResult)
  pub seed_execution_counts : Text → ℕ
  pub seed_loop_iterations : Text → ℕ
  pub activate_nodes : List Text

unfoldable pub seeded : List (Text × NodeResult) → Text → Option NodeResult
unfolding put
seeded [] = λ id. none
seeded ((id, res) ∷ seeds) = put id (some res) (seeded seeds)

unfoldable pub initial : RunContext → State
unfolding seeded
initial rc = record {
  results = seeded rc.seed_nodes;
  ready = [];
  running = λ id. false;
  workers = [];
  executions = rc.seed_execution_counts;
  loop_iterations = rc.seed_loop_iterations;
  replaying = not (length rc.seed_nodes == 0);
  exhausted_no_fallback = false;
  stalled = false;
}

-- `onExhaustedTargets[id]`
unfoldable pub is_fallback : List LoopSpec → Text → Bool
is_fallback loops id =
    exists (λ (l : LoopSpec). not (text_eq l.on_exhausted []) && text_eq l.on_exhausted id) loops

unfoldable pub is_root : WorkflowDefinition → NodeSpec → Bool
unfolding is_fallback conditional_deps unconditional_deps
is_root defn n =
    not (is_fallback defn.loops n.id)
    && (length n.depends == 0
        || (length (unconditional_deps n) == 0 && length (conditional_deps n) == 0))

unfoldable pub admit_roots : WorkflowDefinition → List NodeSpec → State → State
unfolding is_root enqueue
admit_roots defn [] s = s
admit_roots defn (n ∷ nodes) s =
    admit_roots defn nodes (if is_root defn n then (enqueue defn n.id s).1 else s)

-- The replay of the seeds, and the activation of the suspended nodes.
unfoldable pub replay : WorkflowDefinition → List (Text × NodeResult) → State → State
unfolding downstream
replay defn [] s = record s { replaying = false }
replay defn ((id, res) ∷ seeds) s = replay defn seeds (downstream defn id s)

unfoldable pub activate : WorkflowDefinition → List Text → State → State
unfolding find_node set_result enqueue
activate defn [] s = s
activate defn (id ∷ woken) s =
    activate defn woken
      (if is_some (find_node id defn.nodes) then (enqueue defn id (set_result id none s)).1 else s)

unfoldable pub start : WorkflowDefinition → RunContext → State
unfolding initial admit_roots replay activate
start defn rc =
    if length rc.seed_nodes == 0
    then admit_roots defn defn.nodes (initial rc)
    else activate defn rc.activate_nodes (replay defn rc.seed_nodes (initial rc))

-- The loop over `toLaunch`: a goroutine for each node that was queued.
unfoldable pub launch_node : Text → State → State
unfolding put
launch_node id s = record s {
  running = put id true s.running;
  executions = put id (s.executions id + 1) s.executions;
  workers = s.workers ++ record { id = id; phase = launched } ∷ [];
}

unfoldable pub launch_each : List Text → State → State
unfolding launch_node
launch_each [] s = s
launch_each (id ∷ ids) s = launch_each ids (launch_node id s)

unfoldable pub launch : State → State
unfolding launch_each
launch s = launch_each s.ready (record s { ready = [] })

unfoldable pub set_phase : Text → Phase → List Worker → List Worker
set_phase id p [] = []
set_phase id p (w ∷ workers) =
    (if text_eq w.id id then record w { phase = p } else w) ∷ set_phase id p workers

unfoldable pub phase_of : NodeAction → Phase
phase_of run = runs
phase_of (skip why) = skips why

-- The goroutine reads the results and decides whether its node is to run.
unfoldable pub decide : NodeSpec → State → State
unfolding set_phase phase_of
decide n s = record s {
  workers = set_phase n.id (phase_of (evaluate_node_readiness n s.results)) s.workers;
}

-- `delete(running, id)`, at the end of the goroutine.
unfoldable pub retire : Text → State → State
unfolding put
retire id s = record s {
  running = put id false s.running;
  workers = keep_if (λ w. not (text_eq w.id id)) s.workers;
}

unfoldable pub settle_skip : WorkflowDefinition → SkipReason → Text → State → State
unfolding set_result retire downstream
settle_skip defn why id s =
    downstream defn id (retire id (set_result id (some (settled skipped why none)) s))

-- `normalizeResult`
unfoldable pub normalize_status : NodeResult → NodeResult
normalize_status res = elim res.status [ unset ↦ record res { status = succeeded } | _ ↦ res ]

unfoldable pub normalize_error : NodeResult → NodeResult
unfolding is_failed
normalize_error res =
    if is_failed res.status && not (is_some res.error)
    then record res { error = some (bytes "node failed with exit code " ++ itoa res.exit_code) }
    else res

abbrev pub empty_result : NodeResult
empty_result = settled unset no_reason none

abbrev pub given : Option NodeResult → NodeResult
given none = empty_result
given (some res) = res

unfoldable pub normalize_result : Option NodeResult → Option Text → NodeResult
unfolding normalize_status normalize_error
normalize_result result (some err) = record (given result) { status = failed; error = some err }
normalize_result result none = normalize_error (normalize_status (given result))

-- `snapshotNodeLoops`
unfoldable pub node_loops : List LoopSpec → Text → (Text → ℕ) → List (Text × ℕ)
unfolding among
node_loops [] id iterations = []
node_loops (l ∷ loops) id iterations =
    let rest = node_loops loops id iterations in
    if among id l.nodes then (l.id, iterations l.id) ∷ rest else rest

unfoldable pub snapshot_node_loops : WorkflowDefinition → Text → State → Option (List (Text × ℕ))
unfolding node_loops
snapshot_node_loops defn id s =
    let counts = node_loops defn.loops id s.loop_iterations in
    if length counts == 0 then none else some counts

unfoldable pub finish : WorkflowDefinition → Option NodeResult → Option Text → Text → State → State
unfolding normalize_result snapshot_node_loops set_result retire downstream
finish defn result err id s =
    let res = record (normalize_result result err) {
      loop_iterations = snapshot_node_loops defn id s;
    } in
    downstream defn id (retire id (set_result id (some res) s))

-- The steps of a run. A turn of the scheduling loop that finds nothing queued changes nothing and is none.
pub data Step (defn : WorkflowDefinition) : State → State → Type 0 where
  launches : {s : State} → (length s.ready == 0) ≡ false → Step defn s (launch s)
  decides :
      {s : State} {n : NodeSpec} {id : Text}
      → Memᴰ (record { id = id; phase = launched }) s.workers
      → find_node id defn.nodes ≡ some n
      → Step defn s (decide n s)
  settles :
      {s : State} {id : Text} {why : SkipReason}
      → Memᴰ (record { id = id; phase = skips why }) s.workers
      → Step defn s (settle_skip defn why id s)
  finishes :
      {s : State} {id : Text} (result : Option NodeResult) (err : Option Text)
      → Memᴰ (record { id = id; phase = runs }) s.workers
      → Step defn s (finish defn result err id s)

-- A sequence of steps, with their number.
pub data Run (defn : WorkflowDefinition) : ℕ → State → State → Type 0 where
  here : {s : State} → Run defn 0 s s
  then_step : {k : ℕ} {s t u : State} → Run defn k s t → Step defn t u → Run defn (suc k) s u

-- `len(readyQueue) == 0 && len(running) == 0`, where `running` is empty with the workers.
unfoldable pub is_idle : State → Bool
is_idle s = length s.ready == 0 && length s.workers == 0
