-- ===== src/Engine/Steps/Costs.antt =====
-- What the steps of a run use up, backend/lib/workflow/engine.go: the executions that are left of the limit, and
-- the steps that the workers have still to take.
use asgard.Prelude.{
  ℕ, ◌+◌, ◌-◌, ◌*◌, ◌≤◌, ◌<◌, ◌≡◌, refl, sym, subst, inl, inr, true, false, not, List, [], ◌∷◌,
  ◌++◌, Memᴰ, Text, length, ◌==◌, text_eq, text_eq_sound, text_eq_refl, keep_if, arith, Bool-cases,
}
use native.Mathlib.Nat.{suc-mul}
use asgard.Workflow.{WorkflowDefinition}
use asgard.Workflow.Cycles.{ids}
use asgard.Engine.{State, Worker, Phase, launched, skips, runs, put, max_executions}
use asgard.Engine.Steps.{launch_node, launch_each, launch, set_phase}
use asgard.Engine.Steps.Queueing.{Queue, IsQueued, launch_node-queue}

-- The executions that the nodes have left.
unfoldable pub budget : ℕ → List Text → (Text → ℕ) → ℕ
budget limit [] executions = 0
budget limit (id ∷ known) executions = (limit - executions id) + budget limit known executions

-- The steps that a worker has still to take.
unfoldable pub phase_weight : Phase → ℕ
phase_weight launched = 2
phase_weight (skips why) = 1
phase_weight runs = 1

unfoldable pub weight : List Worker → ℕ
unfolding phase_weight
weight [] = 0
weight (w ∷ workers) = phase_weight w.phase + weight workers

unfoldable pub cost : WorkflowDefinition → State → ℕ
unfolding budget weight
cost defn s = 3 * budget (max_executions defn) (ids defn.nodes) s.executions + weight s.workers

pub budget_le :
    (limit : ℕ) (known : List Text) (executions : Text → ℕ)
    → budget limit known executions ≤ length known * limit
unfolding budget
budget_le limit [] executions = omega arith
budget_le limit (id ∷ known) executions =
    let h = budget_le limit known executions in omega (arith, h, suc-mul (length known) limit)

weight-append :
    (ws : List Worker) (w : Worker) → weight (ws ++ w ∷ []) ≡ weight ws + phase_weight w.phase
unfolding weight
weight-append [] w = omega arith
weight-append (v ∷ ws) w = let h = weight-append ws w in omega (arith, h)

-- A launch takes one execution of its node.
module _ (limit : ℕ) (id : Text) (executions : Text → ℕ) where
  budget-put_le :
      (known : List Text)
      → budget limit known (put id (executions id + 1) executions) ≤ budget limit known executions
  unfolding budget put
  budget-put_le [] = omega arith
  budget-put_le (x ∷ known) =
      let h = budget-put_le known in
      elim (Bool-cases (text_eq id x)) [
        | inl t ↦ let same = text_eq_sound id x t in rw (t, put, sym same) (omega (arith, h))
        | inr f ↦ rw (f, put) (omega (arith, h))
      ]

  budget-put_lt :
      (known : List Text)
      → Memᴰ id known
      → executions id < limit
      → budget limit known (put id (executions id + 1) executions) < budget limit known executions
  unfolding budget put
  budget-put_lt [] i b = elim i [ ]
  budget-put_lt (x ∷ known) (Memᴰ.head e) b =
      let h = budget-put_le known in
      let t : text_eq id x ≡ true = rw (sym e) (text_eq_refl id) in
      rw (t, put, sym e) (omega (arith, h, b))
  budget-put_lt (x ∷ known) (Memᴰ.tail i) b =
      let h = budget-put_lt known i b in
      elim (Bool-cases (text_eq id x)) [
        | inl t ↦ let same = text_eq_sound id x t in rw (t, put, sym same) (omega (arith, h))
        | inr f ↦ rw (f, put) (omega (arith, h))
      ]

module _ (defn : WorkflowDefinition) where
  launch_node-cost :
      (id : Text) (rest : List Text) (s : State)
      → Queue defn (id ∷ rest) s.running s.workers s.executions
      → cost defn (launch_node id s) < cost defn s
  unfolding cost launch_node phase_weight
  launch_node-cost id rest s q =
      let i = Memᴰ.head refl in
      let b =
        budget-put_lt (max_executions defn) id s.executions (ids defn.nodes) (q.ready_known id i)
          (q.ready_below id i) in
      let w = weight-append s.workers (record { id = id; phase = launched }) in omega (arith, b, w)

  launch_each-cost :
      (xs : List Text) (s : State)
      → Queue defn xs s.running s.workers s.executions
      → cost defn (launch_each xs s) + length xs ≤ cost defn s
  unfolding launch_each
  launch_each-cost [] s q = omega arith
  launch_each-cost (id ∷ rest) s q =
      let h = launch_each-cost rest (launch_node id s) (launch_node-queue defn id rest s q) in
      let one = launch_node-cost id rest s q in omega (arith, h, one)

  pub launch-cost :
      (s : State)
      → IsQueued defn s
      → (length s.ready == 0) ≡ false
      → cost defn (launch s) < cost defn s
  unfolding launch cost
  launch-cost s q e =
      let h = launch_each-cost s.ready (record s { ready = [] }) q in ground (arith, h, e)

phase_weight_pos : (p : Phase) → 0 < phase_weight p
unfolding phase_weight
phase_weight_pos launched = omega arith
phase_weight_pos (skips why) = omega arith
phase_weight_pos runs = omega arith

module _ (id : Text) where
  set_phase_le :
      (p : Phase) (ws : List Worker) → phase_weight p ≡ 1 → weight (set_phase id p ws) ≤ weight ws
  unfolding weight set_phase
  set_phase_le p [] e = omega arith
  set_phase_le p (w ∷ ws) e =
      let h = set_phase_le p ws e in
      let pos = phase_weight_pos w.phase in
      elim (Bool-cases (text_eq w.id id)) [
        | inl t ↦ rw (t, set_phase) (omega (arith, h, pos, e))
        | inr f ↦ rw (f, set_phase) (omega (arith, h))
      ]

  pub set_phase_lt :
      (p : Phase) (ws : List Worker)
      → phase_weight p ≡ 1
      → Memᴰ (record { id = id; phase = launched }) ws
      → weight (set_phase id p ws) < weight ws
  unfolding weight set_phase phase_weight
  set_phase_lt p [] e i = elim i [ ]
  set_phase_lt p (w ∷ ws) e (Memᴰ.head same) =
      let h = set_phase_le p ws e in
      subst (λ (v : Worker). weight (set_phase id p (v ∷ ws)) < weight (v ∷ ws)) same
        (rw (text_eq_refl id, set_phase) (omega (arith, h, e)))
  set_phase_lt p (w ∷ ws) e (Memᴰ.tail i) =
      let h = set_phase_lt p ws e i in
      let pos = phase_weight_pos w.phase in
      elim (Bool-cases (text_eq w.id id)) [
        | inl t ↦ rw (t, set_phase) (omega (arith, h, pos, e))
        | inr f ↦ rw (f, set_phase) (omega (arith, h))
      ]

  keep_if_le : (ws : List Worker) → weight (keep_if (λ w. not (text_eq w.id id)) ws) ≤ weight ws
  unfolding weight keep_if
  keep_if_le [] = omega arith
  keep_if_le (w ∷ ws) =
      let h = keep_if_le ws in
      elim (Bool-cases (text_eq w.id id)) [
        | inl t ↦ rw t (omega (arith, h))
        | inr f ↦ rw f (omega (arith, h))
      ]

  pub keep_if_lt :
      (p : Phase) (ws : List Worker)
      → Memᴰ (record { id = id; phase = p }) ws
      → weight (keep_if (λ w. not (text_eq w.id id)) ws) < weight ws
  unfolding weight keep_if
  keep_if_lt p [] i = elim i [ ]
  keep_if_lt p (w ∷ ws) (Memᴰ.head same) =
      let h = keep_if_le ws in
      let pos = phase_weight_pos p in
      subst
        (λ (v : Worker). weight (keep_if (λ w. not (text_eq w.id id)) (v ∷ ws)) < weight (v ∷ ws))
        same (rw (text_eq_refl id) (omega (arith, h, pos)))
  keep_if_lt p (w ∷ ws) (Memᴰ.tail i) =
      let h = keep_if_lt p ws i in
      elim (Bool-cases (text_eq w.id id)) [
        | inl t ↦ rw t (omega (arith, h))
        | inr f ↦ rw f (omega (arith, h))
      ]
