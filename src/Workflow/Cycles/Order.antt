-- ===== src/Workflow/Cycles/Order.antt =====
-- What `detectCycle` of pkg/workflowspec/definition.go decides.
use asgard.Prelude.{
  ℕ, zero, suc, ◌+◌, ◌≤◌, ◌≡◌, ◌≢◌, ◌↔◌, refl, sym, ◌∙◌, ap, subst, inl, inr, true, List, [], ◌∷◌,
  Memᴰ, Unique, Text, none, some, length, ◌==◌, keep_if, exists, mem-keep_if, keep_if-mem, arith,
}
use asgard.Prelude.Memᴰ
use asgard.Workflow.{NodeSpec, among}
use asgard.Workflow.Loops.Laminar.{mem-among}
use asgard.Workflow.Cycles.{
  needs, indegree, dependents, ids, released, processed_from, ready, processed, detect_cycle,
}
use asgard.Workflow.Cycles.Lists.{Unique-keep_if, length-Unique, Unique-all}
use asgard.Workflow.Cycles.Counts.{mem-ids, ids-mem, lacking, indegree-needs}
use asgard.Workflow.Cycles.Sorting.{Sorted, TopologicalOrder, Progress, step}

length-ids : (nodes : List NodeSpec) → length (ids nodes) ≡ length nodes
length-ids [] = refl
length-ids (n ∷ nodes) = ap (λ (k : ℕ). suc k) (length-ids nodes)

lacking_nothing : (xs : List Text) → length (lacking [] xs) ≡ length xs
unfolding keep_if among exists
lacking_nothing [] = refl
lacking_nothing (x ∷ xs) = ap (λ (k : ℕ). suc k) (lacking_nothing xs)

all_done :
    (done xs : List Text) → ((d : Text) → Memᴰ d xs → Memᴰ d done) → length (lacking done xs) ≡ 0
unfolding keep_if
all_done done [] h = refl
all_done done (x ∷ xs) h =
    rw (mem-among x done (h x (Memᴰ.head refl))) (all_done done xs (λ d i. h d (Memᴰ.tail i)))

start-Progress :
    (nodes : List NodeSpec) → Unique (ids nodes) → Progress nodes (indegree nodes) (ready nodes) []
unfolding ready
start-Progress nodes u = record {
  queue_unique = Unique-keep_if (λ id. indegree nodes id == 0) (ids nodes) u;
  done_unique = tt;
  apart = λ x i j. elim j [ ];
  queue_known = λ x i. (mem-keep_if (λ id. indegree nodes id == 0) (ids nodes) i).0;
  done_known = λ x i. elim i [ ];
  counts = λ n i. indegree-needs nodes n u i ∙ sym (lacking_nothing (needs n));
  waits = λ n i z. inl (
      keep_if-mem (λ id. indegree nodes id == 0) (ids nodes) (mem-ids nodes n i)
        (ground (arith, z)));
  free = λ n i m. elim m [
    | inl j ↦
        let (_, q) = mem-keep_if (λ id. indegree nodes id == 0) (ids nodes) j in ground (arith, q)
    | inr j ↦ elim j [ ]
  ];
  sorted = tt;
}

-- The loop over the queue ends, with the ids that it has processed.
finished :
    (nodes : List NodeSpec)
    → Unique (ids nodes)
    → (fuel : ℕ) (degree : Text → ℕ) (queue done : List Text) → Progress nodes degree queue done
    → length nodes ≤ fuel + length done
    → (last : Text → ℕ) × (all : List Text) × (processed_from nodes fuel degree queue (length done)
        ≡ some (length all))
      × Progress nodes last [] all
unfolding processed_from
finished nodes u fuel degree [] done p l = (degree, done, refl, p)
finished nodes u zero degree (id ∷ queue) done p l =
    let n =
      length-Unique (id ∷ done) (ids nodes) ((λ i. p.apart id (Memᴰ.head refl) i), p.done_unique)
        (λ x i. elim (Memᴰ.cases_cons i) [
          | inl e ↦
              subst (λ (y : Text). Memᴰ y (ids nodes)) (sym e) (p.queue_known id (Memᴰ.head refl))
          | inr j ↦ p.done_known x j
        ]) in
    let bad : ⊥ = omega (arith, n, l, length-ids nodes) in elim bad [ ]
finished nodes u (suc fuel) degree (id ∷ queue) done p l =
    let r = released degree queue (dependents nodes id) in
    finished nodes u fuel r.0 r.1 (id ∷ done) (step nodes u degree id queue done p) (omega arith)

processed-Progress :
    (nodes : List NodeSpec)
    → Unique (ids nodes)
    → (last : Text → ℕ) × (all : List Text) × (processed nodes ≡ some (length all))
      × Progress nodes last [] all
unfolding processed
processed-Progress nodes u =
    finished nodes u (length nodes) (indegree nodes) (ready nodes) [] (start-Progress nodes u)
      (omega arith)

-- Every id of an order is processed.
order-done :
    (nodes : List NodeSpec) (last : Text → ℕ) (all : List Text)
    → Progress nodes last [] all
    → (order : List Text) → Sorted nodes order
    → ((id : Text) → Memᴰ id order → Memᴰ id (ids nodes))
    → (id : Text) → Memᴰ id order
    → Memᴰ id all
order-done nodes last all p [] s known id i = elim i [ ]
order-done nodes last all p (x ∷ order) (behind, s) known id i =
    let rest = order-done nodes last all p order s (λ y j. known y (Memᴰ.tail j)) in
    elim (Memᴰ.cases_cons i) [
      | inr j ↦ rest id j
      | inl e ↦
          let (n, k, same) = ids-mem nodes x (known x (Memᴰ.head refl)) in
          let z = all_done all (needs n) (λ d m. rest d (behind n k same d m)) in
          elim (p.waits n k (p.counts n k ∙ z)) [
            | inl j ↦ elim j [ ]
            | inr j ↦ subst (λ (y : Text). Memᴰ y all) (same ∙ sym e) j
          ]
    ]

-- On nodes with distinct ids: the check ends, and it accepts exactly the definitions whose nodes can be put in an
-- order in which every node stands behind those that it depends on without a condition.
pub detect_cycle_iff :
    (nodes : List NodeSpec)
    → Unique (ids nodes)
    → (detect_cycle nodes ≢ none)
      × ((detect_cycle nodes ≡ some true) ↔ ((order : List Text) × TopologicalOrder nodes order))
unfolding detect_cycle
detect_cycle_iff nodes u =
    let (last, all, e, p) = processed-Progress nodes u in
    let n = length-ids nodes in
    let decided : detect_cycle nodes ≡ some (length all == length nodes) =
      rw (e, detect_cycle) refl in
    (
      (λ x. let y = sym decided ∙ x in cc),
      (
        (λ x.
            let t : some (length all == length nodes) ≡ some true = sym decided ∙ x in
            let t' : (length all == length nodes) ≡ true = cc in
            (
              all,
              record {
                sorted = p.sorted;
                covers =
                    Unique-all all (ids nodes) p.done_unique p.done_known (ground (arith, t', n));
                known = p.done_known;
              },
            )),
        (λ x.
            let (order, o) = x in
            let below = length-Unique all (ids nodes) p.done_unique p.done_known in
            let above =
              length-Unique (ids nodes) all u
                (λ id i. order-done nodes last all p order o.sorted o.known id (o.covers id i)) in
            let t : (length all == length nodes) ≡ true = ground (arith, below, above, n) in
            decided ∙ ap some t),
      ),
    )
