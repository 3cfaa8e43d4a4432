-- ===== src/Engine/Steps/Ends.antt =====
-- How many steps a run of the scheduler in backend/lib/workflow/engine.go takes, and when there is a next one.
use asgard.Prelude.{
  ℕ, suc, ◌+◌, ◌*◌, ◌≤◌, ◌<◌, ◌≡◌, refl, sym, ap, ◌∙◌, subst, ◌⊎◌, inl, inr, true, false, List, [],
  ◌∷◌, Memᴰ, Text, Option, none, some, length, ◌==◌, text_eq, text_eq_refl, if◌then◌else◌,
  first-none, arith, Bool-cases, Option-cases,
}
use asgard.Workflow.{NodeSpec, WorkflowDefinition}
use asgard.Workflow.Results.{skipped, NodeResult, settled}
use asgard.Workflow.Cycles.{ids}
use asgard.Workflow.Cycles.Counts.{ids-mem}
use asgard.Workflow.Loops.{validate_loops}
use asgard.Workflow.Loops.Fallbacks.{HasKnownFallbacks, validate_loops-HasKnownFallbacks}
use asgard.Engine.{State, Worker, Phase, launched, runs, skips, find_node, max_executions}
use asgard.Engine.Readiness.{NodeAction, run, skip, evaluate_node_readiness}
use asgard.Engine.Downstream.{enqueue, set_result, downstream}
use asgard.Engine.Downstream.Keeps.{evaluate_downstream-keeps}
use asgard.Engine.Downstream.Fuel.{HasFallbacks, downstream-stalled}
use asgard.Engine.Steps.{
  RunContext, initial, start, launch_node, launch_each, launch, phase_of, decide, retire,
  settle_skip, normalize_result, snapshot_node_loops, finish, Step, Run, is_idle,
}
use asgard.Engine.Steps.Queueing.{IsQueued, worker_ids}
use asgard.Engine.Steps.Invariant.{
  find_node-mem, IsWithinLimit, start-keeps, run-keeps, start-queue, Step-queue,
}
use asgard.Engine.Steps.Costs.{
  phase_weight, weight, cost, budget_le, launch-cost, set_phase_lt, keep_if_lt,
}

-- The workers and the counts of launches of a state.
abbrev SameWork : State → State → Type 0
SameWork s t = (t.workers ≡ s.workers) × (t.executions ≡ s.executions)

enqueue-work :
    (defn : WorkflowDefinition) (id : Text) (s : State) → SameWork s (enqueue defn id s).1
unfolding enqueue
enqueue-work defn id s = (ground arith, ground arith)

phase_of-weight : (action : NodeAction) → phase_weight (phase_of action) ≡ 1
unfolding phase_weight phase_of
phase_of-weight run = refl
phase_of-weight (skip why) = refl

launch_each-stalled : (xs : List Text) (s : State) → (launch_each xs s).stalled ≡ s.stalled
unfolding launch_each launch_node
launch_each-stalled [] s = refl
launch_each-stalled (id ∷ xs) s = launch_each-stalled xs (launch_node id s)

module _ (defn : WorkflowDefinition) (valid : validate_loops defn ≡ none) where
  known : HasKnownFallbacks defn
  known = validate_loops-HasKnownFallbacks defn valid

  downstream-work : (id : Text) (r s : State) → SameWork r s → SameWork r (downstream defn id s)
  unfolding downstream set_result
  downstream-work id r s same =
      evaluate_downstream-keeps defn known (λ t. SameWork r t)
        (λ next t i p. let e = enqueue-work defn next t in (e.0 ∙ p.0, e.1 ∙ p.1)) (λ next t p. p)
        (λ l t i g p. p) (λ next res t p. p) (λ t p. p) (λ t p. p) (suc (length defn.nodes)) id s
        same

  same-cost : (s t : State) → SameWork s t → cost defn t ≡ cost defn s
  unfolding cost
  same-cost s t (e, f) = rw (e, f) refl

  -- The end of a goroutine takes its worker away.
  settled-cost :
      (id : Text) (p : Phase) (res : Option NodeResult) (s : State)
      → Memᴰ (record { id = id; phase = p }) s.workers
      → cost defn (downstream defn id (retire id (set_result id res s))) < cost defn s
  unfolding cost retire set_result
  settled-cost id p res s i =
      let after = retire id (set_result id res s) in
      let same =
        same-cost after (downstream defn id after) (downstream-work id after after (refl, refl)) in
      let less = keep_if_lt id p s.workers i in omega (arith, same, less)

  Step-cost : {s t : State} → Step defn s t → IsQueued defn s → cost defn t < cost defn s
  unfolding decide settle_skip finish cost
  Step-cost {s} (Step.launches e) q = launch-cost defn s q e
  Step-cost {s} (Step.decides {n = n} {id = id} i e) q =
      let (j, same) = find_node-mem id defn.nodes n e in
      let i' =
        subst (λ (x : Text). Memᴰ (record { id = x; phase = launched }) s.workers) (sym same) i in
      let action = evaluate_node_readiness n s.results in
      let less = set_phase_lt n.id (phase_of action) s.workers (phase_of-weight action) i' in
      omega (arith, less)
  Step-cost {s} (Step.settles {id = id} {why = why} i) q =
      settled-cost id (skips why) (some (settled skipped why none)) s i
  Step-cost {s} (Step.finishes {id = id} result err i) q =
      settled-cost id runs
        (some (record (normalize_result result err) {
          loop_iterations = snapshot_node_loops defn id s;
        }))
        s i

  run-cost :
      {k : ℕ} {s t : State}
      → Run defn k s t
      → IsQueued defn s
      → IsQueued defn t × (k + cost defn t ≤ cost defn s)
  run-cost Run.here q = (q, omega arith)
  run-cost (Run.then_step r step) q =
      let (q', h) = run-cost r q in
      let less = Step-cost step q' in (Step-queue defn valid step q', omega (arith, h, less))

  start-work : (rc : RunContext) → SameWork (initial rc) (start defn rc)
  unfolding set_result
  start-work rc =
      start-keeps defn (λ t. SameWork (initial rc) t)
        (λ next t i p. let e = enqueue-work defn next t in (e.0 ∙ p.0, e.1 ∙ p.1))
        (λ next res t p. p) (λ id t p. downstream-work id (initial rc) t p) (λ t p. p) rc
        (refl, refl)

  start-cost :
      (rc : RunContext) → cost defn (start defn rc) ≤ 3 * (length defn.nodes * max_executions defn)
  unfolding cost initial weight
  start-cost rc =
      let same = same-cost (initial rc) (start defn rc) (start-work rc) in
      let b = budget_le (max_executions defn) (ids defn.nodes) rc.seed_execution_counts in
      let n : length (ids defn.nodes) ≡ length defn.nodes = length-ids defn.nodes in
      rw (same, sym n) (omega (arith, b))
    where
      length-ids : (nodes : List NodeSpec) → length (ids nodes) ≡ length nodes
      length-ids [] = refl
      length-ids (m ∷ nodes) = ap (λ k. suc k) (length-ids nodes)

  -- Where something is queued or a worker is left, there is a step.
  find_known :
      (id : Text) → Memᴰ id (ids defn.nodes) → (n : NodeSpec) × (find_node id defn.nodes ≡ some n)
  unfolding find_node
  find_known id i = elim (Option-cases (find_node id defn.nodes)) [
    | inr found ↦ found
    | inl none_found ↦
        let (m, j, e) = ids-mem defn.nodes id i in
        let f =
          first-none (λ (n : NodeSpec). if text_eq n.id id then some n else none) defn.nodes
            none_found j in
        let t : text_eq m.id id ≡ true = rw e (text_eq_refl id) in (let f' = rw t at f in cc)
  ]

  worker-Step :
      (s : State) (id : Text) (p : Phase)
      → Memᴰ (record { id = id; phase = p }) s.workers
      → Memᴰ id (ids defn.nodes)
      → (t : State) × Step defn s t
  worker-Step s id launched i k = let (n, e) = find_known id k in (decide n s, Step.decides i e)
  worker-Step s id (skips why) i k = (settle_skip defn why id s, Step.settles i)
  worker-Step s id runs i k = (finish defn none none id s, Step.finishes none none i)

  progress : (s : State) → IsQueued defn s → (is_idle s ≡ true) ⊎ ((t : State) × Step defn s t)
  unfolding is_idle
  progress s q = elim (Bool-cases (length s.ready == 0)) [
    | inr f ↦ inr (launch s, Step.launches f)
    | inl e ↦ rw (e, is_idle) (workers s.workers refl)
  ]
    where
      workers :
          (ws : List Worker)
          → s.workers ≡ ws
          → ((length s.workers == 0) ≡ true) ⊎ ((t : State) × Step defn s t)
      workers [] e = inl (rw e refl)
      workers (w ∷ ws) e = inr (
          worker-Step s w.id w.phase (subst (λ xs. Memᴰ w xs) (sym e) (Memᴰ.head refl)) (
            q.workers_known w.id
              (subst (λ xs. Memᴰ w.id (worker_ids xs)) (sym e) (Memᴰ.head refl))))

  -- The recursion of evaluateDownstream does not run out of fuel.
  run-stalled :
      (fallbacks : HasFallbacks defn) (rc : RunContext) {k : ℕ} {s : State}
      → Run defn k (start defn rc) s
      → s.stalled ≡ false
  unfolding enqueue set_result decide retire launch initial
  run-stalled fallbacks rc r =
      run-keeps defn (λ t. t.stalled ≡ false) (λ next t i p. ground (arith, p)) (λ next res t p. p)
        (λ id t p. downstream-stalled defn known fallbacks id t p)
        (λ t p. launch_each-stalled t.ready (record t { ready = [] }) ∙ p) (λ n t p. p)
        (λ id t p. p) r
        (start-keeps defn (λ t. t.stalled ≡ false) (λ next t i p. ground (arith, p))
          (λ next res t p. p) (λ id t p. downstream-stalled defn known fallbacks id t p) (λ t p. p)
          rc refl)

  -- A run of a definition whose loops are accepted, and whose limited loops all have a fallback node, takes at
  -- most three steps for each execution that the limit allows its nodes; no recursive evaluation of dependents
  -- runs out of the model's fuel; and the run can take another step until nothing is queued and no node runs.
  -- It starts at the roots, or from a snapshot whose counts are within the limit.
  pub run-ends :
      (fallbacks : HasFallbacks defn) (rc : RunContext)
      → IsWithinLimit defn rc
      → (k : ℕ) (s : State) → Run defn k (start defn rc) s
      → (k ≤ 3 * (length defn.nodes * max_executions defn))
        × (s.stalled ≡ false)
        × ((is_idle s ≡ true) ⊎ ((t : State) × Step defn s t))
  run-ends fallbacks rc within k s r =
      let (q, h) = run-cost r (start-queue defn valid rc within) in
      let b = start-cost rc in (omega (arith, h, b), run-stalled fallbacks rc r, progress s q)
