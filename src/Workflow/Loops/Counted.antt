-- ===== src/Workflow/Loops/Counted.antt =====
-- What `validateLoops` of pkg/workflowspec/definition.go makes sure of the edges that count a loop, and of the
-- nodes that take over when a loop is exhausted.
use asgard.Prelude.{
  ◌≡◌, refl, ◌∙◌, ap, ◌⊎◌, inl, inr, true, false, not, ◌&&◌, List, [], ◌∷◌, Memᴰ, map, Text, none,
  some, ◌==◌, text_eq, text_eq_sound, mem-exists, first, first-none, arith, Bool-cases, &&_split,
}
use asgard.Prelude.Memᴰ
use asgard.Workflow.{NodeDependency, NodeSpec, LoopSpec, WorkflowDefinition, among, find_loop}
use asgard.Workflow.Loops.{
  declared, all_declared, counts_outside, fallback_in_loop, uncounted_loop, counts_check,
  resets_check, edge_check, edges_check, counting_of, counting_edges, counted, fallback_outside,
  validate_loops,
}
use asgard.Workflow.Loops.Parents.{and_then-none, fail_if-none, validate_loops-Passed}
use asgard.Workflow.Loops.Laminar.{among-mem, mem-among, find_loop-declared}

-- A node with an edge that counts the loop.
abbrev pub CountingEdge : Text → NodeSpec → NodeDependency → Type 0
CountingEdge id n dep = Memᴰ dep n.depends × (dep.counts_loop ≡ id)

counting_of-some :
    (id : Text) (deps : List NodeDependency)
    → (counting_of id deps == 0) ≡ false
    → (dep : NodeDependency) × Memᴰ dep deps × (dep.counts_loop ≡ id)
unfolding counting_of
counting_of-some id [] e = (cc)
counting_of-some id (dep ∷ deps) e = elim (Bool-cases (text_eq dep.counts_loop id)) [
  | inl t ↦ (dep, Memᴰ.head refl, text_eq_sound dep.counts_loop id t)
  | inr f ↦
      let (x, i, q) = counting_of-some id deps (rw (f, counting_of) at e) in (x, Memᴰ.tail i, q)
]

counting_edges-some :
    (id : Text) (nodes : List NodeSpec)
    → (counting_edges id nodes == 0) ≡ false
    → (n : NodeSpec) × (dep : NodeDependency) × Memᴰ n nodes × CountingEdge id n dep
unfolding counting_edges
counting_edges-some id [] e = (cc)
counting_edges-some id (n ∷ nodes) e = elim (Bool-cases (counting_of id n.depends == 0)) [
  | inr f ↦ let (dep, i, q) = counting_of-some id n.depends f in (n, dep, Memᴰ.head refl, (i, q))
  | inl t ↦
      let (m, dep, i, c) = counting_edges-some id nodes (ground (arith, e, t)) in
      (m, dep, Memᴰ.tail i, c)
]

-- An edge that has been checked lies inside the loop that it counts.
edge_check-inside :
    (loops : List LoopSpec) (n : NodeSpec) (dep : NodeDependency) (l : LoopSpec)
    → edge_check loops n dep ≡ none
    → find_loop dep.counts_loop loops ≡ some l
    → text_eq dep.counts_loop [] ≡ false
    → Memᴰ dep.node_id l.nodes × Memᴰ n.id l.nodes × (text_eq dep.resets_loop [] ≡ true)
unfolding edge_check counts_check
edge_check-inside loops n dep l e found named =
    elim (Bool-cases (not (text_eq dep.counts_loop []) && not (text_eq dep.resets_loop []))) [
      | inl both ↦ (let e' = rw (both, edge_check) at e in cc)
      | inr one ↦
          let (c, _) =
            and_then-none (counts_check loops n dep) (resets_check loops n dep)
              (rw (one, edge_check) at e) in
          let f =
            fail_if-none counts_outside (not (among dep.node_id l.nodes && among n.id l.nodes))
              (rw (named, found, counts_check) at c) in
          let (a, b) =
            &&_split (among dep.node_id l.nodes) (among n.id l.nodes) (ground (arith, f)) in
          (among-mem dep.node_id l.nodes a, among-mem n.id l.nodes b, ground (arith, one, named))
    ]

all_declared-named :
    (known : List Text) (earlier loops : List LoopSpec) {l : LoopSpec}
    → all_declared known earlier loops ≡ none
    → Memᴰ l loops
    → text_eq l.id [] ≡ false
unfolding all_declared declared
all_declared-named known earlier [] e i = elim i [ ]
all_declared-named known earlier (x ∷ loops) {l} e i =
    let (one, rest) =
      and_then-none (declared known earlier x) (all_declared known (x ∷ earlier) loops) e in
    elim (Memᴰ.cases_cons i) [
      | inr j ↦ all_declared-named known (x ∷ earlier) loops rest j
      | inl same ↦ elim (Bool-cases (text_eq x.id [])) [
        | inl t ↦ (let e' = rw (t, declared) at one in cc)
        | inr f ↦ ap (λ (y : LoopSpec). text_eq y.id []) same ∙ f
      ]
    ]

-- Both ends of the edge are in the loop, and it resets none.
abbrev pub CountsInside : LoopSpec → NodeSpec → NodeDependency → Type 0
CountsInside l n dep =
    Memᴰ dep.node_id l.nodes × Memᴰ n.id l.nodes × (text_eq dep.resets_loop [] ≡ true)

-- In a definition whose loops are accepted, every loop has an edge that counts it; every edge that counts it has
-- both ends inside the loop and resets no loop; and the node that takes over when the loop is exhausted, if
-- there is one, is in no loop at all.
pub validate_loops-counted :
    (d : WorkflowDefinition)
    → validate_loops d ≡ none
    → (l : LoopSpec) → Memᴰ l d.loops
    → ((n : NodeSpec) × (dep : NodeDependency) × Memᴰ n d.nodes × CountingEdge l.id n dep)
      × ((n : NodeSpec) (dep : NodeDependency)
          → Memᴰ n d.nodes
          → CountingEdge l.id n dep
          → CountsInside l n dep)
      × ((l.on_exhausted ≡ [])
          ⊎ ((o : LoopSpec) → Memᴰ o d.loops → Memᴰ l.on_exhausted o.nodes → ⊥))
unfolding edges_check counted fallback_outside
validate_loops-counted d e l i =
    let ok = validate_loops-Passed d e in
    let found = find_loop-declared (map (λ n. n.id) d.nodes) [] d.loops ok.declares i in
    let named = all_declared-named (map (λ n. n.id) d.nodes) [] d.loops ok.declares i in
    (
      counting_edges-some l.id d.nodes (
          fail_if-none uncounted_loop (counting_edges l.id d.nodes == 0)
            (first-none (counted d.nodes) d.loops ok.counts i)),
      (λ n dep j c.
          let (k, same) = c in
          edge_check-inside d.loops n dep l
            (first-none (edge_check d.loops n) n.depends
              (first-none (λ x. first (edge_check d.loops x) x.depends) d.nodes ok.edges j) k)
            (ap (λ (x : Text). find_loop x d.loops) same ∙ found)
            (ap (λ (x : Text). text_eq x []) same ∙ named)),
      (elim (Bool-cases (text_eq l.on_exhausted [])) [
        | inl empty ↦ inl (text_eq_sound l.on_exhausted [] empty)
        | inr full ↦ inr (λ o j m.
            let f =
              fail_if-none fallback_in_loop _
                (first-none (fallback_outside d.loops) d.loops ok.fallbacks i) in
            let t =
              mem-exists (λ (x : LoopSpec). among l.on_exhausted x.nodes) d.loops j
                (mem-among l.on_exhausted o.nodes m) in
            let f' = rw (full, t) at f in cc)
      ]),
    )
