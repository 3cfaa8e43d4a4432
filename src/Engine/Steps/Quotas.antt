-- ===== src/Engine/Steps/Quotas.antt =====
-- The counters of loops, backend/lib/workflow/engine.go, against `max_iterations`.
use asgard.Prelude.{
  ℕ, suc, ◌+◌, ◌≤◌, ◌≡◌, refl, sym, ap, ◌∙◌, subst, inl, inr, false, List, [], ◌∷◌, Memᴰ, Text,
  none, length, text_eq, text_eq_sound, arith, Bool-cases, ℤ, pos, positive,
}
use asgard.Workflow.{LoopSpec, WorkflowDefinition}
use asgard.Workflow.Loops.{validate_loops}
use asgard.Workflow.Loops.Fallbacks.{validate_loops-HasKnownFallbacks}
use asgard.Engine.{State, put}
use asgard.Engine.Downstream.{enqueue, reached, is_exhausted, set_result, downstream}
use asgard.Engine.Downstream.Keeps.{evaluate_downstream-keeps}
use asgard.Engine.Downstream.Resets.{same_loop}
use asgard.Engine.Downstream.Lookups.{enqueue-iterations}
use asgard.Engine.Steps.{
  RunContext, initial, start, launch_node, launch_each, launch, decide, retire, Run,
}
use asgard.Engine.Steps.Invariant.{start-keeps, run-keeps}

-- No loop with a limit has been counted past it.
abbrev pub IsInQuota : WorkflowDefinition → (Text → ℕ) → Type 0
IsInQuota defn iterations =
    (l : LoopSpec) (n : ℕ)
    → Memᴰ l defn.loops
    → l.max_iterations ≡ pos (suc n)
    → iterations l.id ≤ suc n

launch_each-iterations :
    (xs : List Text) (s : State) → (launch_each xs s).loop_iterations ≡ s.loop_iterations
unfolding launch_each launch_node
launch_each-iterations [] s = refl
launch_each-iterations (id ∷ xs) s = launch_each-iterations xs (launch_node id s)

reached_below :
    (limit : ℤ) (n k : ℕ) → limit ≡ pos (suc n) → reached limit k ≡ false → k + 1 ≤ suc n
unfolding reached positive
reached_below limit n k e f =
    let f' : reached (pos (suc n)) k ≡ false = subst (λ m. reached m k ≡ false) e f in
    ground (arith, f')

module _ (defn : WorkflowDefinition) (valid : validate_loops defn ≡ none) where
  enqueue-InQuota :
      (id : Text) (s : State)
      → IsInQuota defn s.loop_iterations
      → IsInQuota defn (enqueue defn id s).1.loop_iterations
  enqueue-InQuota id s h = subst (λ c. IsInQuota defn c) (sym (enqueue-iterations defn id s)) h

  reset-InQuota : (id : Text) (c : Text → ℕ) → IsInQuota defn c → IsInQuota defn (put id 0 c)
  unfolding put
  reset-InQuota id c h l n i e = elim (Bool-cases (text_eq id l.id)) [
    | inl t ↦ rw (t, put) (omega arith)
    | inr f ↦ rw (f, put) (h l n i e)
  ]

  count-InQuota :
      (m : LoopSpec) (c : Text → ℕ)
      → Memᴰ m defn.loops
      → is_exhausted m c ≡ false
      → IsInQuota defn c
      → IsInQuota defn (put m.id (c m.id + 1) c)
  unfolding put is_exhausted
  count-InQuota m c j g h l n i e = elim (Bool-cases (text_eq m.id l.id)) [
    | inr f ↦ rw (f, put) (h l n i e)
    | inl t ↦
        let same = same_loop defn valid m l j i (text_eq_sound m.id l.id t) in
        let limit = ap (λ (x : LoopSpec). x.max_iterations) same ∙ e in
        rw (t, put) (reached_below m.max_iterations n (c m.id) limit g)
  ]

  downstream-InQuota :
      (id : Text) (s : State)
      → IsInQuota defn s.loop_iterations
      → IsInQuota defn (downstream defn id s).loop_iterations
  unfolding downstream set_result
  downstream-InQuota id s h =
      evaluate_downstream-keeps defn (validate_loops-HasKnownFallbacks defn valid)
        (λ t. IsInQuota defn t.loop_iterations) (λ next t i p. enqueue-InQuota next t p)
        (λ next t p. reset-InQuota next t.loop_iterations p)
        (λ l t i g p. count-InQuota l t.loop_iterations i g p) (λ next res t p. p) (λ t p. p)
        (λ t p. p) (suc (length defn.nodes)) id s h

  -- In every state of a run whose loops are accepted, no loop with a limit has counted more re-entries than its
  -- max_iterations allows, when the snapshot that the run starts from, if any, has not.
  pub run-InQuota :
      (rc : RunContext)
      → IsInQuota defn rc.seed_loop_iterations
      → (k : ℕ) (s : State) → Run defn k (start defn rc) s
      → IsInQuota defn s.loop_iterations
  unfolding set_result launch decide retire initial
  run-InQuota rc within k s r =
      run-keeps defn (λ t. IsInQuota defn t.loop_iterations)
        (λ next t i p. enqueue-InQuota next t p) (λ next res t p. p) downstream-InQuota
        (λ t p.
          subst (λ c. IsInQuota defn c)
            (sym (launch_each-iterations t.ready (record t { ready = [] }))) p)
        (λ n t p. p) (λ id t p. p) r
        (start-keeps defn (λ t. IsInQuota defn t.loop_iterations)
          (λ next t i p. enqueue-InQuota next t p) (λ next res t p. p) downstream-InQuota (λ t p. p)
          rc within)
