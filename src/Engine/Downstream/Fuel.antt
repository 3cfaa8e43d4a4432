-- ===== src/Engine/Downstream/Fuel.antt =====
-- The fuel of `evaluateDownstream`, backend/lib/workflow/engine.go, for definitions whose loops with a limit have
-- a fallback.
use asgard.Prelude.{
  ℕ, zero, suc, ◌≤◌, ◌<◌, ◌≡◌, refl, sym, inl, inr, true, false, List, [], ◌∷◌, Memᴰ, Text, Option,
  none, some, length, text_eq, text_eq_refl, if◌then◌else◌, leb, &&_split, positive, ℤ, pos, negsuc,
  arith, Bool-cases,
}
use asgard.Workflow.{NodeSpec, LoopSpec, WorkflowDefinition}
use asgard.Workflow.Results.{SkipReason, skipped, NodeResult, settled}
use asgard.Workflow.Loops.Fallbacks.{HasKnownFallbacks}
use asgard.Engine.{State, put, dependents, is_skipped, has_status, is_dead_branch}
use asgard.Engine.Downstream.{
  enqueue, reached, is_exhausted, set_result, evaluate_downstream, downstream,
}
use asgard.Engine.Downstream.Keeps.{visit_all-keeps}
use asgard.Engine.Downstream.Lookups.{mem-dependents}

-- Every loop with a limit has a node that takes over.
abbrev pub HasFallbacks : WorkflowDefinition → Type 0
HasFallbacks defn =
    (l : LoopSpec)
    → Memᴰ l defn.loops
    → positive l.max_iterations ≡ true
    → text_eq l.on_exhausted [] ≡ false

-- How many nodes are not skipped.
unfoldable pub unskipped : List NodeSpec → (Text → Option NodeResult) → ℕ
unskipped [] results = 0
unskipped (n ∷ nodes) results =
    let rest = unskipped nodes results in
    if has_status is_skipped (results n.id) then rest else suc rest

unskipped_le :
    (nodes : List NodeSpec) (results : Text → Option NodeResult)
    → unskipped nodes results ≤ length nodes
unfolding unskipped
unskipped_le [] results = omega arith
unskipped_le (n ∷ nodes) results = let h = unskipped_le nodes results in ground arith

module _ (id : Text) (why : SkipReason) (results : Text → Option NodeResult) where
  abbrev skipping : Text → Option NodeResult
  skipping = put id (some (settled skipped why none)) results

  still_skipped :
      (other : Text)
      → has_status is_skipped (results other) ≡ true
      → has_status is_skipped (skipping other) ≡ true
  unfolding put is_skipped has_status
  still_skipped other h = elim (Bool-cases (text_eq id other)) [
    | inl t ↦ rw (t, put) refl
    | inr f ↦ rw (f, put) h
  ]

  unskipped-put_le : (nodes : List NodeSpec) → unskipped nodes skipping ≤ unskipped nodes results
  unfolding unskipped
  unskipped-put_le [] = omega arith
  unskipped-put_le (n ∷ nodes) =
      let h = unskipped-put_le nodes in
      elim (Bool-cases (has_status is_skipped (results n.id))) [
        | inl t ↦ rw (t, still_skipped n.id t, unskipped) h
        | inr f ↦ rw (f, unskipped) (ground (arith, h))
      ]

  unskipped-put_lt :
      (nodes : List NodeSpec) (n : NodeSpec)
      → Memᴰ n nodes
      → n.id ≡ id
      → has_status is_skipped (results id) ≡ false
      → unskipped nodes skipping < unskipped nodes results
  unfolding unskipped put is_skipped has_status
  unskipped-put_lt [] n i e f = elim i [ ]
  unskipped-put_lt (m ∷ nodes) n (Memᴰ.head same) e f =
      let h = unskipped-put_le nodes in
      let e' : m.id ≡ id = rw (sym same) e in
      let f' : has_status is_skipped (results m.id) ≡ false = rw e' f in
      let t : has_status is_skipped (skipping m.id) ≡ true = rw (e', put, text_eq_refl id) refl in
      rw (f', t, unskipped) (omega (arith, h))
  unskipped-put_lt (m ∷ nodes) n (Memᴰ.tail i) e f =
      let h = unskipped-put_lt nodes n i e f in
      elim (Bool-cases (has_status is_skipped (results m.id))) [
        | inl t ↦ rw (t, still_skipped m.id t, unskipped) h
        | inr g ↦ rw (g, unskipped) (ground (arith, h))
      ]

-- A state whose nodes the fuel is enough for.
abbrev pub IsFed : WorkflowDefinition → ℕ → State → Type 0
IsFed defn fuel s = (unskipped defn.nodes s.results < fuel) × (s.stalled ≡ false)

reached-positive : (limit : ℤ) (k : ℕ) → reached limit k ≡ true → positive limit ≡ true
unfolding reached
reached-positive (pos n) k e = (&&_split (positive (pos n)) (leb n k) e).0
reached-positive (negsuc n) k e = cc

exhausted-positive :
    (l : LoopSpec) (iterations : Text → ℕ)
    → is_exhausted l iterations ≡ true
    → positive l.max_iterations ≡ true
unfolding is_exhausted
exhausted-positive l iterations e = reached-positive l.max_iterations (iterations l.id) e

module _ (defn : WorkflowDefinition) (known : HasKnownFallbacks defn)
    (fallbacks : HasFallbacks defn) where
  pub enqueue-IsFed :
      (fuel : ℕ) (id : Text) (s : State) → IsFed defn fuel s → IsFed defn fuel (enqueue defn id s).1
  unfolding enqueue
  enqueue-IsFed fuel id s (h, e) = (ground (arith, h), ground (arith, e))

  evaluate_downstream-IsFed :
      (fuel : ℕ) (id : Text) (s : State)
      → IsFed defn fuel s
      → IsFed defn fuel (evaluate_downstream defn fuel id s)
  unfolding evaluate_downstream set_result
  evaluate_downstream-IsFed zero id s (h, e) =
      let none_left : ⊥ = omega (arith, h) in elim none_left [ ]
  evaluate_downstream-IsFed (suc fuel) id s h =
      let rec : Text → State → State = λ next t. evaluate_downstream defn fuel next t in
      visit_all-keeps defn known (λ t. IsFed defn (suc fuel) t)
        (λ next t i p. enqueue-IsFed (suc fuel) next t p) (λ next t p. p) (λ l t i g p. p) rec
        (λ n why t i f p.
          let less = unskipped-put_lt n.id why t.results defn.nodes n i refl f in
          let p0 = p.0 in
          let (q, e) =
            evaluate_downstream-IsFed fuel n.id
              (set_result n.id (some (settled skipped why none)) t)
              (omega (arith, less, p0), p.1) in
          (omega (arith, q), e))
        (λ l target t i g f p.
          (let k = fallbacks l i (exhausted-positive l t.loop_iterations g) in cc))
        id (is_dead_branch (s.results id)) (has_status is_skipped (s.results id))
        (dependents defn.nodes id) s (λ n i. mem-dependents defn.nodes id n i) h

  -- One more than the number of nodes is enough fuel.
  pub downstream-stalled :
      (id : Text) (s : State) → s.stalled ≡ false → (downstream defn id s).stalled ≡ false
  unfolding downstream
  downstream-stalled id s e =
      let h = unskipped_le defn.nodes s.results in
      (evaluate_downstream-IsFed (suc (length defn.nodes)) id s (omega (arith, h), e)).1
