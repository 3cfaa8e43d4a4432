-- ===== src/Engine/Steps/Invariant.antt =====
-- Properties of the scheduler's state, backend/lib/workflow/engine.go, through the start and the steps of a run,
-- and the queue and the workers in every state of it.
use asgard.Prelude.{
  ℕ, suc, ◌≤◌, ◌≡◌, refl, subst, inl, inr, Bool, true, false, List, [], ◌∷◌, Memᴰ, Text, Option,
  none, some, length, ◌==◌, text_eq, text_eq_sound, if◌then◌else◌, first-some, Bool-cases,
  Option-cases,
}
use asgard.Workflow.{NodeSpec, WorkflowDefinition}
use asgard.Workflow.Results.{skipped, NodeResult, settled}
use asgard.Workflow.Cycles.{ids}
use asgard.Workflow.Cycles.Counts.{mem-ids}
use asgard.Workflow.Loops.{validate_loops}
use asgard.Workflow.Loops.Fallbacks.{validate_loops-HasKnownFallbacks}
use asgard.Engine.{State, is_some, find_node, max_executions}
use asgard.Engine.Readiness.{evaluate_node_readiness}
use asgard.Engine.Downstream.{enqueue, set_result, downstream}
use asgard.Engine.Downstream.Keeps.{evaluate_downstream-keeps}
use asgard.Engine.Steps.{
  RunContext, initial, is_root, admit_roots, replay, activate, start, launch, phase_of, decide,
  retire, settle_skip, normalize_result, snapshot_node_loops, finish, Step, Run,
}
use asgard.Engine.Steps.Workers.{set_phase-queue, retire-queue}
use asgard.Engine.Steps.Queueing.{IsQueued, enqueue-queue, launch-queue}

pub find_node-mem :
    (id : Text) (nodes : List NodeSpec) (n : NodeSpec)
    → find_node id nodes ≡ some n
    → Memᴰ n nodes × (n.id ≡ id)
unfolding find_node
find_node-mem id nodes n h =
    let (m, i, e) =
      first-some (λ (k : NodeSpec). if text_eq k.id id then some k else none) nodes h in
    elim (Bool-cases (text_eq m.id id)) [
      | inl t ↦
          let taken : some m ≡ some n = rw t at e in
          let same : m ≡ n = cc in
          (
            subst (λ k. Memᴰ k nodes) same i,
            text_eq_sound n.id id (subst (λ (k : NodeSpec). text_eq k.id id ≡ true) same t),
          )
      | inr f ↦ (let e' = rw f at e in cc)
    ]

module _ (defn : WorkflowDefinition) (P : State → Type 0)
    (keep_enqueue : (id : Text) (s : State)
      → Memᴰ id (ids defn.nodes)
      → P s
      → P (enqueue defn id s).1)
    (keep_result : (id : Text) (res : Option NodeResult) (s : State)
      → P s
      → P (set_result id res s))
    (keep_downstream : (id : Text) (s : State) → P s → P (downstream defn id s)) where
  admit_roots-keeps :
      (nodes : List NodeSpec) (s : State)
      → ((n : NodeSpec) → Memᴰ n nodes → Memᴰ n defn.nodes)
      → P s
      → P (admit_roots defn nodes s)
  unfolding admit_roots
  admit_roots-keeps [] s into h = h
  admit_roots-keeps (n ∷ nodes) s into h = elim (Bool-cases (is_root defn n)) [
    | inl t ↦
        rw (t, admit_roots)
          (admit_roots-keeps nodes _ (λ m i. into m (Memᴰ.tail i))
            (keep_enqueue n.id s (mem-ids defn.nodes n (into n (Memᴰ.head refl))) h))
    | inr f ↦ rw (f, admit_roots) (admit_roots-keeps nodes s (λ m i. into m (Memᴰ.tail i)) h)
  ]

  activate-keeps : (woken : List Text) (s : State) → P s → P (activate defn woken s)
  unfolding activate is_some
  activate-keeps [] s h = h
  activate-keeps (id ∷ woken) s h = elim (Option-cases (find_node id defn.nodes)) [
    | inl n ↦ rw (n, activate) (activate-keeps woken s h)
    | inr (n, e) ↦
        let (i, same) = find_node-mem id defn.nodes n e in
        let k = subst (λ (x : Text). Memᴰ x (ids defn.nodes)) same (mem-ids defn.nodes n i) in
        rw (e, activate) (activate-keeps woken _ (keep_enqueue id _ k (keep_result id none s h)))
  ]

  replay-keeps :
      (keep_replayed : (s : State) → P s → P (record s { replaying = false }))
      (seeds : List (Text × NodeResult)) (s : State)
      → P s
      → P (replay defn seeds s)
  unfolding replay
  replay-keeps keep_replayed [] s h = keep_replayed s h
  replay-keeps keep_replayed ((id, res) ∷ seeds) s h =
      replay-keeps keep_replayed seeds (downstream defn id s) (keep_downstream id s h)

  pub start-keeps :
      (keep_replayed : (s : State) → P s → P (record s { replaying = false })) (rc : RunContext)
      → P (initial rc)
      → P (start defn rc)
  unfolding start
  start-keeps keep_replayed rc h =
      if-keeps (length rc.seed_nodes == 0) (admit_roots-keeps defn.nodes (initial rc) (λ n i. i) h)
        (activate-keeps rc.activate_nodes (replay defn rc.seed_nodes (initial rc))
          (replay-keeps keep_replayed rc.seed_nodes (initial rc) h))
    where
      if-keeps : (b : Bool) {x y : State} → P x → P y → P (if b then x else y)
      if-keeps true p q = p
      if-keeps false p q = q

  pub step-keeps :
      (keep_launch : (s : State) → P s → P (launch s))
      (keep_decide : (n : NodeSpec) (s : State) → P s → P (decide n s))
      (keep_retire : (id : Text) (s : State) → P s → P (retire id s)) {s t : State}
      → Step defn s t
      → P s
      → P t
  unfolding settle_skip finish
  step-keeps keep_launch keep_decide keep_retire {s} (Step.launches e) h = keep_launch s h
  step-keeps keep_launch keep_decide keep_retire {s} (Step.decides {n = n} i e) h =
      keep_decide n s h
  step-keeps keep_launch keep_decide keep_retire {s} (Step.settles {id = id} {why = why} i) h =
      keep_downstream id _ (keep_retire id _ (keep_result id (some (settled skipped why none)) s h))
  step-keeps keep_launch keep_decide keep_retire {s} (Step.finishes {id = id} result err i) h =
      keep_downstream id _ (
        keep_retire id _ (
          keep_result id
            (some (record (normalize_result result err) {
              loop_iterations = snapshot_node_loops defn id s;
            }))
            s h))

  pub run-keeps :
      (keep_launch : (s : State) → P s → P (launch s))
      (keep_decide : (n : NodeSpec) (s : State) → P s → P (decide n s))
      (keep_retire : (id : Text) (s : State) → P s → P (retire id s)) {k : ℕ} {s t : State}
      → Run defn k s t
      → P s
      → P t
  run-keeps keep_launch keep_decide keep_retire Run.here h = h
  run-keeps keep_launch keep_decide keep_retire (Run.then_step r step) h =
      step-keeps keep_launch keep_decide keep_retire step
        (run-keeps keep_launch keep_decide keep_retire r h)

-- The launches that a snapshot has counted are within the limit.
abbrev pub IsWithinLimit : WorkflowDefinition → RunContext → Type 0
IsWithinLimit defn rc = (id : Text) → rc.seed_execution_counts id ≤ max_executions defn

module _ (defn : WorkflowDefinition) (valid : validate_loops defn ≡ none) where
  pub downstream-queue :
      (id : Text) (s : State) → IsQueued defn s → IsQueued defn (downstream defn id s)
  unfolding downstream set_result
  downstream-queue id s q =
      evaluate_downstream-keeps defn (validate_loops-HasKnownFallbacks defn valid)
        (λ t. IsQueued defn t) (λ next t i p. enqueue-queue defn next t i p) (λ next t p. p)
        (λ l t i g p. p) (λ next res t p. p) (λ t p. p) (λ t p. p) (suc (length defn.nodes)) id s q

  pub Step-queue : {s t : State} → Step defn s t → IsQueued defn s → IsQueued defn t
  unfolding decide set_result
  Step-queue step q =
      step-keeps defn (λ t. IsQueued defn t) (λ next t i p. enqueue-queue defn next t i p)
        (λ next res t p. p) downstream-queue (launch-queue defn)
        (λ n s p. set_phase-queue defn n.id (phase_of (evaluate_node_readiness n s.results)) s p)
        (retire-queue defn) step q

  pub run-queue : {k : ℕ} {s t : State} → Run defn k s t → IsQueued defn s → IsQueued defn t
  run-queue Run.here q = q
  run-queue (Run.then_step r step) q = Step-queue step (run-queue r q)

  pub start-queue : (rc : RunContext) → IsWithinLimit defn rc → IsQueued defn (start defn rc)
  unfolding initial set_result
  start-queue rc within =
      start-keeps defn (λ t. IsQueued defn t) (λ next t i p. enqueue-queue defn next t i p)
        (λ next res t p. p) downstream-queue (λ t p. p) rc
        (record {
          ready_unique = tt;
          ready_apart = λ id i. refl;
          ready_below = λ id i. elim i [ ];
          ready_known = λ id i. elim i [ ];
          bounded = within;
          workers_unique = tt;
          worker_running = λ id i. elim i [ ];
          running_worker = λ id e. (cc);
          workers_known = λ id i. elim i [ ];
        })

  -- In every state of a run whose loops are accepted, no node is queued twice or queued while it runs, a running
  -- node has exactly one worker, and no node has been launched more often than the limit on executions allows:
  -- the run started from the definition's roots, or from a snapshot whose counts are within the limit.
  pub run-IsQueued :
      (rc : RunContext)
      → IsWithinLimit defn rc
      → (k : ℕ) (s : State) → Run defn k (start defn rc) s
      → IsQueued defn s
  run-IsQueued rc within k s r = run-queue r (start-queue rc within)
