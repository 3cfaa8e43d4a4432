-- ===== src/Workflow/Cycles/Counts.antt =====
-- The counters of `detectCycle`, pkg/workflowspec/definition.go, and what the loop over the dependents of a node
-- does to them and to the queue.
use asgard.Prelude.{
  ◌≡◌, refl, sym, ap, subst, inl, inr, true, false, not, ◌||◌, List, [], ◌∷◌, Memᴰ, Unique, Text,
  length, text_eq, text_eq_sound, text_eq_refl, keep_if, arith, Bool-cases,
}
use asgard.Prelude.Memᴰ
use asgard.Workflow.{NodeDependency, NodeSpec, among}
use asgard.Workflow.Loops.Laminar.{among-mem, mem-among}
use asgard.Workflow.Cycles.{needs_from, needs, indegree, dependents, ids}

pub mem-ids : (nodes : List NodeSpec) (n : NodeSpec) → Memᴰ n nodes → Memᴰ n.id (ids nodes)
mem-ids [] n i = elim i [ ]
mem-ids (m ∷ nodes) n (Memᴰ.head e) = Memᴰ.head (ap (λ (x : NodeSpec). x.id) e)
mem-ids (m ∷ nodes) n (Memᴰ.tail i) = Memᴰ.tail (mem-ids nodes n i)

pub ids-mem :
    (nodes : List NodeSpec) (id : Text)
    → Memᴰ id (ids nodes)
    → (n : NodeSpec) × Memᴰ n nodes × (n.id ≡ id)
ids-mem [] id i = elim i [ ]
ids-mem (m ∷ nodes) id (Memᴰ.head e) = (m, Memᴰ.head refl, sym e)
ids-mem (m ∷ nodes) id (Memᴰ.tail i) = let (n, j, e) = ids-mem nodes id i in (n, Memᴰ.tail j, e)

-- What a node needs of what is not done.
abbrev pub lacking : List Text → List Text → List Text
lacking done xs = keep_if (λ d. not (among d done)) xs

needs_from-fresh :
    (seen : List Text) (deps : List NodeDependency) (x : Text)
    → Memᴰ x (needs_from seen deps)
    → among x seen ≡ false
unfolding needs_from
needs_from-fresh seen [] x i = elim i [ ]
needs_from-fresh seen (dep ∷ deps) x i =
    elim (Bool-cases (not (text_eq dep.when []) || among dep.node_id seen)) [
      | inl skip ↦ needs_from-fresh seen deps x (rw (skip, needs_from) at i)
      | inr take ↦ elim (Memᴰ.cases_cons (rw (take, needs_from) at i)) [
        | inl e ↦ rw e (ground (arith, take))
        | inr j ↦ not_seen seen dep.node_id x (needs_from-fresh (dep.node_id ∷ seen) deps x j)
      ]
    ]
  where
    not_seen : (seen : List Text) (y x : Text) → among x (y ∷ seen) ≡ false → among x seen ≡ false
    not_seen seen y x f = elim (Bool-cases (among x seen)) [
      | inr g ↦ g
      | inl t ↦
          let i : Memᴰ x (y ∷ seen) = Memᴰ.tail (among-mem x seen t) in
          let t' = mem-among x (y ∷ seen) i in (cc)
    ]

pub needs-Unique : (n : NodeSpec) → Unique (needs n)
unfolding needs needs_from
needs-Unique n = from [] n.depends
  where
    from : (seen : List Text) (deps : List NodeDependency) → Unique (needs_from seen deps)
    from seen [] = tt
    from seen (dep ∷ deps) =
        let skipped = from seen deps in
        let taken = from (dep.node_id ∷ seen) deps in
        elim (Bool-cases (not (text_eq dep.when []) || among dep.node_id seen)) [
          | inl skip ↦ rw (skip, needs_from) skipped
          | inr take ↦
              rw (take, needs_from)
                (
                  (λ i.
                      let f = needs_from-fresh (dep.node_id ∷ seen) deps dep.node_id i in
                      let t = mem-among dep.node_id (dep.node_id ∷ seen) (Memᴰ.head refl) in (cc)),
                  taken,
                )
        ]

-- The counter of a node starts with the number of nodes it needs.
pub indegree-needs :
    (nodes : List NodeSpec) (n : NodeSpec)
    → Unique (ids nodes)
    → Memᴰ n nodes
    → indegree nodes n.id ≡ length (needs n)
unfolding indegree
indegree-needs [] n u i = elim i [ ]
indegree-needs (m ∷ nodes) n (f, u) (Memᴰ.head e) =
    let t : text_eq m.id n.id ≡ true = rw e (text_eq_refl m.id) in
    let z = absent nodes n.id (λ j. f (subst (λ (x : NodeSpec). Memᴰ x.id (ids nodes)) e j)) in
    let same : length (needs n) ≡ length (needs m) = ap (λ (x : NodeSpec). length (needs x)) e in
    rw (t, indegree) (omega arith)
  where
    absent : (nodes : List NodeSpec) (id : Text) → (Memᴰ id (ids nodes) → ⊥) → indegree nodes id ≡ 0
    absent [] id f = refl
    absent (m ∷ nodes) id f = elim (Bool-cases (text_eq m.id id)) [
      | inl t ↦ elim (f (Memᴰ.head (sym (text_eq_sound m.id id t)))) [ ]
      | inr g ↦ rw (g, indegree) (absent nodes id (λ j. f (Memᴰ.tail j)))
    ]
indegree-needs (m ∷ nodes) n (f, u) (Memᴰ.tail i) = elim (Bool-cases (text_eq m.id n.id)) [
  | inl t ↦
      elim (f (
        subst (λ (x : Text). Memᴰ x (ids nodes)) (sym (text_eq_sound m.id n.id t))
          (mem-ids nodes n i))) [ ]
  | inr g ↦ rw (g, indegree) (indegree-needs nodes n u i)
]

pub dependents-ids :
    (nodes : List NodeSpec) (id x : Text) → Memᴰ x (dependents nodes id) → Memᴰ x (ids nodes)
unfolding dependents
dependents-ids [] id x i = elim i [ ]
dependents-ids (m ∷ nodes) id x i = elim (Bool-cases (among id (needs m))) [
  | inr f ↦ Memᴰ.tail (dependents-ids nodes id x (rw (f, dependents) at i))
  | inl t ↦ elim (Memᴰ.cases_cons (rw (t, dependents) at i)) [
    | inl e ↦ Memᴰ.head e
    | inr j ↦ Memᴰ.tail (dependents-ids nodes id x j)
  ]
]

pub dependents-Unique :
    (nodes : List NodeSpec) (id : Text) → Unique (ids nodes) → Unique (dependents nodes id)
unfolding dependents
dependents-Unique [] id u = tt
dependents-Unique (m ∷ nodes) id (f, u) = elim (Bool-cases (among id (needs m))) [
  | inr g ↦ rw (g, dependents) (dependents-Unique nodes id u)
  | inl t ↦
      rw (t, dependents) ((λ i. f (dependents-ids nodes id m.id i)), dependents-Unique nodes id u)
]

-- The dependents of an id are the nodes that need it.
pub among-dependents :
    (nodes : List NodeSpec) (id : Text) (n : NodeSpec)
    → Unique (ids nodes)
    → Memᴰ n nodes
    → (Memᴰ n.id (dependents nodes id) → among id (needs n) ≡ true)
      × (among id (needs n) ≡ true → Memᴰ n.id (dependents nodes id))
unfolding dependents
among-dependents [] id n u i = elim i [ ]
among-dependents (m ∷ nodes) id n (f, u) (Memᴰ.head e) = elim (Bool-cases (among id (needs m))) [
  | inl t ↦ rw (t, dependents) ((λ _. rw e t), (λ _. Memᴰ.head (ap (λ (x : NodeSpec). x.id) e)))
  | inr g ↦
      rw (g, dependents)
        (
          (λ j.
              elim (f (
                subst (λ (x : NodeSpec). Memᴰ x.id (ids nodes)) e
                  (dependents-ids nodes id n.id j))) [ ]),
          (λ t. let g' : among id (needs n) ≡ false = rw e g in cc),
        )
]
among-dependents (m ∷ nodes) id n (f, u) (Memᴰ.tail i) =
    let (a, b) = among-dependents nodes id n u i in
    elim (Bool-cases (among id (needs m))) [
      | inr g ↦ rw (g, dependents) (a, b)
      | inl t ↦
          rw (t, dependents)
            (
              (λ j. elim (Memᴰ.cases_cons j) [
                | inl same ↦
                    elim (f (subst (λ (x : Text). Memᴰ x (ids nodes)) same (mem-ids nodes n i))) [ ]
                | inr k ↦ a k
              ]),
              (λ t'. Memᴰ.tail (b t')),
            )
    ]
