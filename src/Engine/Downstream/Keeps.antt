-- ===== src/Engine/Downstream/Keeps.antt =====
-- Properties of the scheduler's state, backend/lib/workflow/engine.go, through `evaluateDownstream`: section
-- parameters say what its primitive changes of the state do to the property.
use asgard.Prelude.{
  ℕ, zero, suc, ◌+◌, ◌≡◌, refl, inl, inr, Bool, true, false, ◌&&◌, ◌||◌, List, [], ◌∷◌, foldl, Memᴰ,
  Text, bytes, Option, none, some, length, ◌==◌, text_eq, Bool-cases, Option-cases,
}
use asgard.Workflow.{NodeDependency, NodeSpec, LoopSpec, WorkflowDefinition, find_loop}
use asgard.Workflow.Results.{
  SkipReason, skipped, failed, no_reason, condition_false, NodeResult, settled,
}
use asgard.Workflow.Cycles.{ids}
use asgard.Workflow.Cycles.Counts.{mem-ids}
use asgard.Engine.{
  State, put, is_some, conditional_deps, unconditional_deps, dependents, child_loops, is_skipped,
  is_succeeded, has_status, is_dead_branch,
}
use asgard.Engine.Readiness.{NodeAction, run, skip, evaluate_node_readiness}
use asgard.Engine.Downstream.{
  is_pending, enqueue, reset_descendants, reset_below, is_exhausted, set_result, has_when_edge,
  invalidate, fail_target, count_loop, admit_counting, admit_via_edge, matching_edge, edge_from,
  all_settled, skip_node, by_readiness, visit_unconditional, visit_conditional, visit, visit_all,
  evaluate_downstream, exhausted_error,
}
use asgard.Engine.Downstream.Lookups.{mem-dependents, enqueue-iterations}
use asgard.Workflow.Loops.Parents.{find_loop-some}

module _ (defn : WorkflowDefinition)
    (known : (l : LoopSpec)
      → Memᴰ l defn.loops
      → text_eq l.on_exhausted [] ≡ false
      → Memᴰ l.on_exhausted (ids defn.nodes))
    (P : State → Type 0)
    (keep_enqueue : (id : Text) (s : State)
      → Memᴰ id (ids defn.nodes)
      → P s
      → P (enqueue defn id s).1)
    (keep_reset : (id : Text) (s : State)
      → P s
      → P (record s { loop_iterations = put id 0 s.loop_iterations }))
    (keep_count : (l : LoopSpec) (s : State)
      → Memᴰ l defn.loops
      → is_exhausted l s.loop_iterations ≡ false
      → P s
      → P (record s {
        loop_iterations = put l.id (s.loop_iterations l.id + 1) s.loop_iterations;
      })) where
  fold-keeps :
      (s : State) (below : Text → (Text → ℕ) → Text → ℕ)
      → ((id : Text) (counts : Text → ℕ)
          → P (record s { loop_iterations = counts })
          → P (record s { loop_iterations = below id counts }))
      → (children : List LoopSpec) (counts : Text → ℕ) → P (record s { loop_iterations = counts })
      → P (record s {
        loop_iterations =
            foldl (λ counts (l : LoopSpec). below l.id (put l.id 0 counts)) counts children;
      })
  fold-keeps s below keep [] counts h = h
  fold-keeps s below keep (c ∷ children) counts h =
      fold-keeps s below keep children (below c.id (put c.id 0 counts))
        (keep c.id (put c.id 0 counts) (keep_reset c.id (record s { loop_iterations = counts }) h))

  reset_descendants-keeps :
      (fuel : ℕ) (id : Text) (s : State) (counts : Text → ℕ)
      → P (record s { loop_iterations = counts })
      → P (record s { loop_iterations = reset_descendants defn.loops fuel id counts })
  unfolding reset_descendants
  reset_descendants-keeps zero id s counts h = h
  reset_descendants-keeps (suc fuel) id s counts h =
      fold-keeps s (λ child below. reset_descendants defn.loops fuel child below)
        (λ child below g. reset_descendants-keeps fuel child s below g) (child_loops defn.loops id)
        counts h

  reset_below-keeps : (id : Text) (s : State) → P s → P (reset_below defn id s)
  unfolding reset_below
  reset_below-keeps id s h =
      reset_descendants-keeps (suc (length defn.loops)) id s s.loop_iterations h

  -- The recursive call, after a skip and after a breach.
  module _ (rec : Text → State → State)
      (keep_skip : (n : NodeSpec) (why : SkipReason) (s : State)
        → Memᴰ n defn.nodes
        → has_status is_skipped (s.results n.id) ≡ false
        → P s
        → P (rec n.id (set_result n.id (some (settled skipped why none)) s)))
      (keep_breach : (l : LoopSpec) (target : Text) (s : State)
        → Memᴰ l defn.loops
        → is_exhausted l s.loop_iterations ≡ true
        → text_eq l.on_exhausted [] ≡ true
        → P s
        → P (fail_target defn rec l target s)) where
    admit_counting-keeps :
        (l : LoopSpec) (target : Text) (s : State)
        → Memᴰ l defn.loops
        → Memᴰ target (ids defn.nodes)
        → P s
        → P (admit_counting defn rec l target s)
    unfolding admit_counting count_loop
    admit_counting-keeps l target s i j h = elim (Bool-cases (is_pending target s)) [
      | inl t ↦ rw t h
      | inr f ↦ rw f (elim (Bool-cases (is_exhausted l s.loop_iterations)) [
        | inr g ↦ rw g (
            counted (enqueue defn target s) (rw (enqueue-iterations defn target s) g)
              (keep_enqueue target s j h))
        | inl g ↦ rw g (elim (Bool-cases (text_eq l.on_exhausted [])) [
          | inl e ↦ rw e (keep_breach l target s i g e h)
          | inr e ↦ rw e (keep_enqueue l.on_exhausted s (known l i e) h)
        ])
      ])
    ]
      where
        counted :
            (r : Bool × State)
            → is_exhausted l r.1.loop_iterations ≡ false
            → P r.1
            → P (count_loop defn l r)
        counted (false, t) g h = h
        counted (true, t) g h =
            reset_below-keeps l.id
              (record t {
                loop_iterations = put l.id (t.loop_iterations l.id + 1) t.loop_iterations;
              })
              (keep_count l t i g h)

    admit_via_edge-keeps :
        (dep : NodeDependency) (target : Text) (s : State)
        → Memᴰ target (ids defn.nodes)
        → P s
        → P (admit_via_edge defn rec dep target s)
    unfolding admit_via_edge
    admit_via_edge-keeps dep target s j h =
        elim (Bool-cases (s.replaying && is_some (s.results target))) [
          | inl t ↦ rw t h
          | inr f ↦ rw f (elim (Bool-cases (text_eq dep.resets_loop [])) [
            | inr g ↦ rw g (
                keep_enqueue target _ j
                  (reset_below-keeps dep.resets_loop _ (keep_reset dep.resets_loop s h)))
            | inl g ↦ rw g (elim (Bool-cases (text_eq dep.counts_loop [])) [
              | inl e ↦ rw e (keep_enqueue target s j h)
              | inr e ↦ rw e (elim (Option-cases (find_loop dep.counts_loop defn.loops)) [
                | inl n ↦ rw n (keep_enqueue target s j h)
                | inr (l, c) ↦ rw c (
                    admit_counting-keeps l target s
                      (find_loop-some dep.counts_loop defn.loops l c).0 j h)
              ])
            ])
          ])
        ]

    skip_node-keeps :
        (n : NodeSpec) (why : SkipReason) (s : State)
        → Memᴰ n defn.nodes
        → P s
        → P (skip_node rec why n.id s)
    unfolding skip_node
    skip_node-keeps n why s i h = elim (Bool-cases (has_status is_skipped (s.results n.id))) [
      | inl t ↦ rw (t, skip_node) h
      | inr f ↦ rw (f, skip_node) (keep_skip n why s i f h)
    ]

    visit_unconditional-keeps :
        (id : Text) (dep : NodeDependency) (n : NodeSpec) (s : State)
        → Memᴰ n defn.nodes
        → P s
        → P (visit_unconditional defn rec id dep n s)
    unfolding visit_unconditional by_readiness
    visit_unconditional-keeps id dep n s i h =
        elim (Bool-cases (
          all_settled s.results (unconditional_deps n)
          || (text_eq n.join (bytes "always") && has_status is_succeeded (s.results id)))) [
            | inr f ↦ rw (f, visit_unconditional) h
            | inl t ↦ rw (t, visit_unconditional) (decided (evaluate_node_readiness n s.results))
          ]
      where
        decided : (action : NodeAction) → P (by_readiness defn rec dep n action s)
        decided run = admit_via_edge-keeps dep n.id s (mem-ids defn.nodes n i) h
        decided (skip why) = skip_node-keeps n why s i h

    visit_conditional-keeps :
        (n : NodeSpec) (s : State) → Memᴰ n defn.nodes → P s → P (visit_conditional rec n s)
    unfolding visit_conditional
    visit_conditional-keeps n s i h =
        elim (Bool-cases
          (length (unconditional_deps n) == 0 && all_settled s.results (conditional_deps n))) [
            | inr f ↦ rw (f, visit_conditional) h
            | inl t ↦ rw (t, visit_conditional) (skip_node-keeps n condition_false s i h)
          ]

    visit-keeps :
        (id : Text) (dead parent_skipped : Bool) (n : NodeSpec) (s : State)
        → Memᴰ n defn.nodes
        → P s
        → P (visit defn rec id dead parent_skipped n s)
    unfolding visit
    visit-keeps id dead parent_skipped n s i h =
        elim (Bool-cases (dead && is_some (s.results n.id))) [
          | inl t ↦ rw t h
          | inr f ↦
              rw f
                (elim (Option-cases
                  (matching_edge id parent_skipped s.results (conditional_deps n))) [
                    | inr (dep, m) ↦
                        rw m (admit_via_edge-keeps dep n.id s (mem-ids defn.nodes n i) h)
                    | inl m ↦ rw m (elim (Option-cases (edge_from id (unconditional_deps n))) [
                      | inr (dep, u) ↦ rw u (visit_unconditional-keeps id dep n s i h)
                      | inl u ↦ rw u (visit_conditional-keeps n s i h)
                    ])
                  ])
        ]

    pub visit_all-keeps :
        (id : Text) (dead parent_skipped : Bool) (nodes : List NodeSpec) (s : State)
        → ((n : NodeSpec) → Memᴰ n nodes → Memᴰ n defn.nodes)
        → P s
        → P (visit_all defn rec id dead parent_skipped nodes s)
    unfolding visit_all
    visit_all-keeps id dead parent_skipped [] s into h = h
    visit_all-keeps id dead parent_skipped (n ∷ nodes) s into h =
        visit_all-keeps id dead parent_skipped nodes (visit defn rec id dead parent_skipped n s)
          (λ m i. into m (Memᴰ.tail i))
          (visit-keeps id dead parent_skipped n s (into n (Memᴰ.head refl)) h)

  -- A property that every primitive change preserves.
  module _
      (keep_result : (id : Text) (res : Option NodeResult) (s : State)
        → P s
        → P (set_result id res s))
      (keep_breached : (s : State) → P s → P (record s { exhausted_no_fallback = true }))
      (keep_stalled : (s : State) → P s → P (record s { stalled = true })) where
    invalidate-keeps :
        (id : Text) (nodes : List NodeSpec) (s : State) → P s → P (invalidate id nodes s)
    unfolding invalidate
    invalidate-keeps id [] s h = h
    invalidate-keeps id (n ∷ nodes) s h = elim (Bool-cases (has_when_edge id n)) [
      | inl t ↦ rw t (invalidate-keeps id nodes _ (keep_result n.id none s h))
      | inr f ↦ rw f (invalidate-keeps id nodes s h)
    ]

    fail_target-keeps :
        (rec : Text → State → State)
        → ((id : Text) (s : State) → P s → P (rec id s))
        → (l : LoopSpec) (target : Text) (s : State) → P s
        → P (fail_target defn rec l target s)
    unfolding fail_target
    fail_target-keeps rec keep l target s h =
        let failing = some (settled failed no_reason (some (exhausted_error l target))) in
        let h' = keep_result target failing _ (keep_breached s h) in
        elim (Bool-cases (is_some (s.results target))) [
          | inl t ↦
              rw (t, fail_target) (invalidate-keeps target (dependents defn.nodes target) _ h')
          | inr f ↦ rw (f, fail_target) (keep target _ h')
        ]

    pub evaluate_downstream-keeps :
        (fuel : ℕ) (id : Text) (s : State) → P s → P (evaluate_downstream defn fuel id s)
    unfolding evaluate_downstream
    evaluate_downstream-keeps zero id s h = keep_stalled s h
    evaluate_downstream-keeps (suc fuel) id s h =
        let keep = evaluate_downstream-keeps fuel in
        let rec : Text → State → State = λ next t. evaluate_downstream defn fuel next t in
        visit_all-keeps rec (λ n why t i f p. keep n.id _ (keep_result n.id _ t p))
          (λ l target t i e f p. fail_target-keeps rec keep l target t p) id
          (is_dead_branch (s.results id)) (has_status is_skipped (s.results id))
          (dependents defn.nodes id) s (λ n i. mem-dependents defn.nodes id n i) h
