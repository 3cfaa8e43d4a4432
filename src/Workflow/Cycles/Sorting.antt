-- ===== src/Workflow/Cycles/Sorting.antt =====
-- `detectCycle` of pkg/workflowspec/definition.go accepts the definitions whose nodes can be put in order.
use asgard.Prelude.{
  ℕ, ◌-◌, ◌≡◌, ◌≢◌, ◌↔◌, refl, sym, ◌∙◌, subst, ◌⊎◌, inl, inr, false, not, List, [], ◌∷◌, ◌++◌,
  Memᴰ, Unique, Text, length, ◌==◌, keep_if, mem-keep_if, keep_if-mem, arith, Bool-cases,
}
use asgard.Prelude.Memᴰ
use asgard.Workflow.{NodeSpec, among}
use asgard.Workflow.Loops.Laminar.{among-mem, mem-among}
use asgard.Workflow.Cycles.{needs, dependents, ids, released}
use asgard.Workflow.Cycles.Lists.{mem-append, append-mem, Unique-append, Unique-keep_if}
use asgard.Workflow.Cycles.Counts.{
  ids-mem, lacking, needs-Unique, dependents-ids, dependents-Unique, among-dependents,
}
use asgard.Workflow.Cycles.Release.{absent, length-lacking, released-degree, released-queue}

-- Each node stands behind those that it needs: the last one first.
abbrev pub Sorted : List NodeSpec → List Text → Type 0
Sorted nodes [] = Unit
Sorted nodes (x ∷ order) =
    ((n : NodeSpec) → Memᴰ n nodes → n.id ≡ x → (d : Text) → Memᴰ d (needs n) → Memᴰ d order)
    × Sorted nodes order

-- An order of all nodes and of nothing else.
pub record TopologicalOrder (nodes : List NodeSpec) (order : List Text) : Type 0 where
  pub sorted : Sorted nodes order
  pub covers : (id : Text) → Memᴰ id (ids nodes) → Memᴰ id order
  pub known : (id : Text) → Memᴰ id order → Memᴰ id (ids nodes)

-- The state of the loop over the queue: `done` are the ids that have been processed, the last one first.
pub record Progress (nodes : List NodeSpec) (degree : Text → ℕ) (queue done : List Text)
    : Type 0 where
  pub queue_unique : Unique queue
  pub done_unique : Unique done
  pub apart : (x : Text) → Memᴰ x queue → Memᴰ x done → ⊥
  pub queue_known : (x : Text) → Memᴰ x queue → Memᴰ x (ids nodes)
  pub done_known : (x : Text) → Memᴰ x done → Memᴰ x (ids nodes)
  pub counts : (n : NodeSpec) → Memᴰ n nodes → degree n.id ≡ length (lacking done (needs n))
  pub waits : (n : NodeSpec) → Memᴰ n nodes → degree n.id ≡ 0 → Memᴰ n.id queue ⊎ Memᴰ n.id done
  pub free : (n : NodeSpec) → Memᴰ n nodes → Memᴰ n.id queue ⊎ Memᴰ n.id done → degree n.id ≡ 0
  pub sorted : Sorted nodes done

pub none_lacking :
    (done xs : List Text) → length (lacking done xs) ≡ 0 → (d : Text) → Memᴰ d xs → Memᴰ d done
none_lacking done xs e d i = elim (Bool-cases (among d done)) [
  | inl t ↦ among-mem d done t
  | inr f ↦
      let still : Memᴰ d (lacking done xs) =
        keep_if-mem (λ x. not (among x done)) xs i (rw f refl) in
      elim (occupied (lacking done xs) still e) [ ]
]
  where
    occupied : (ys : List Text) → Memᴰ d ys → length ys ≡ 0 → ⊥
    occupied [] i e = elim i [ ]
    occupied (y ∷ ys) i e = omega arith

module _ (nodes : List NodeSpec) (u : Unique (ids nodes)) where
  module _ (degree : Text → ℕ) (id : Text) (queue done : List Text)
      (p : Progress nodes degree (id ∷ queue) done) where
    nexts : List Text
    nexts = dependents nodes id

    fresh : List Text
    fresh = keep_if (λ x. degree x - 1 == 0) nexts

    less : Text → ℕ
    less = (released degree queue nexts).0

    undone : among id done ≡ false
    undone = absent id done (λ i. p.apart id (Memᴰ.head refl) i)

    -- The counter of a node after the step.
    less-counts : (n : NodeSpec) → Memᴰ n nodes → less n.id ≡ length (lacking (id ∷ done) (needs n))
    unfolding less nexts
    less-counts n i =
        let d = released-degree degree queue nexts n.id (dependents-Unique nodes id u) in
        let l = length-lacking id done (needs n) (needs-Unique n) undone in
        let c = p.counts n i in
        let (a, b) = among-dependents nodes id n u i in
        elim (Bool-cases (among id (needs n))) [
          | inl t ↦
              let t' = mem-among n.id nexts (b t) in
              let d' = rw t' at d in let l' = rw t at l in omega (arith, d', l', c)
          | inr f ↦
              let f' = absent n.id nexts (λ j. let t = a j in cc) in
              let d' = rw f' at d in let l' = rw f at l in omega (arith, d', l', c)
        ]

    -- What is queued anew is waited for by nobody before.
    fresh-positive : (n : NodeSpec) → Memᴰ n nodes → Memᴰ n.id nexts → degree n.id ≢ 0
    unfolding nexts
    fresh-positive n i j z =
        let (a, b) = among-dependents nodes id n u i in
        let l = length-lacking id done (needs n) (needs-Unique n) undone in
        let l' = rw (a j) at l in let c = p.counts n i in omega (arith, l', c, z)

    fresh-new : (x : Text) → Memᴰ x fresh → Memᴰ x (id ∷ queue) ⊎ Memᴰ x done → ⊥
    unfolding fresh nexts
    fresh-new x i m =
        let (j, _) = mem-keep_if (λ y. degree y - 1 == 0) nexts i in
        let (n, k, e) = ids-mem nodes x (dependents-ids nodes id x j) in
        fresh-positive n k (subst (λ (y : Text). Memᴰ y nexts) (sym e) j)
          (p.free n k (subst (λ (y : Text). Memᴰ y (id ∷ queue) ⊎ Memᴰ y done) (sym e) m))

    -- Which counters are zero after the step.
    less-zero :
        (n : NodeSpec) → Memᴰ n nodes → (less n.id ≡ 0) ↔ (Memᴰ n.id fresh ⊎ (degree n.id ≡ 0))
    unfolding less nexts fresh
    less-zero n i =
        let d = released-degree degree queue nexts n.id (dependents-Unique nodes id u) in
        elim (Bool-cases (among n.id nexts)) [
          | inl t ↦
              let d' = rw t at d in
              (
                (λ z. inl (
                    keep_if-mem (λ y. degree y - 1 == 0) nexts (among-mem n.id nexts t)
                      (ground (arith, d', z)))),
                (λ m. elim m [
                  | inl j ↦
                      let (_, q) = mem-keep_if (λ y. degree y - 1 == 0) nexts j in
                      ground (arith, d', q)
                  | inr z ↦ omega (arith, d', z)
                ]),
              )
          | inr f ↦
              let d' = rw f at d in
              (
                (λ z. inr (omega (arith, d', z))),
                (λ m. elim m [
                  | inl j ↦
                      let (k, _) = mem-keep_if (λ y. degree y - 1 == 0) nexts j in
                      let t = mem-among n.id nexts k in (cc)
                  | inr z ↦ omega (arith, d', z)
                ]),
              )
        ]

    stepped : Progress nodes less (queue ++ fresh) (id ∷ done)
    unfolding fresh nexts
    stepped =
        let (id_new, queue_unique) = p.queue_unique in
        record {
          queue_unique =
              Unique-append queue fresh queue_unique
                (Unique-keep_if (λ y. degree y - 1 == 0) nexts (dependents-Unique nodes id u))
                (λ x i j. fresh-new x j (inl (Memᴰ.tail i)));
          done_unique = ((λ i. p.apart id (Memᴰ.head refl) i), p.done_unique);
          apart = λ x i j. elim (mem-append queue fresh i) [
            | inl k ↦ elim (Memᴰ.cases_cons j) [
              | inl e ↦ id_new (subst (λ (y : Text). Memᴰ y queue) e k)
              | inr m ↦ p.apart x (Memᴰ.tail k) m
            ]
            | inr k ↦ elim (Memᴰ.cases_cons j) [
              | inl e ↦ fresh-new x k (inl (Memᴰ.head e))
              | inr m ↦ fresh-new x k (inr m)
            ]
          ];
          queue_known = λ x i. elim (mem-append queue fresh i) [
            | inl k ↦ p.queue_known x (Memᴰ.tail k)
            | inr k ↦ dependents-ids nodes id x (mem-keep_if (λ y. degree y - 1 == 0) nexts k).0
          ];
          done_known = λ x i. elim (Memᴰ.cases_cons i) [
            | inl e ↦
                subst (λ (y : Text). Memᴰ y (ids nodes)) (sym e) (p.queue_known id (Memᴰ.head refl))
            | inr k ↦ p.done_known x k
          ];
          counts = λ n i. less-counts n i;
          waits = λ n i z. elim ((less-zero n i).0 z) [
            | inl k ↦ inl (append-mem queue fresh (inr k))
            | inr old ↦ elim (p.waits n i old) [
              | inr k ↦ inr (Memᴰ.tail k)
              | inl k ↦ elim (Memᴰ.cases_cons k) [
                | inl e ↦ inr (Memᴰ.head e)
                | inr m ↦ inl (append-mem queue fresh (inl m))
              ]
            ]
          ];
          free = λ n i m. (less-zero n i).1 (elim m [
            | inl k ↦ elim (mem-append queue fresh k) [
              | inl j ↦ inr (p.free n i (inl (Memᴰ.tail j)))
              | inr j ↦ inl j
            ]
            | inr k ↦ elim (Memᴰ.cases_cons k) [
              | inl e ↦ inr (p.free n i (inl (Memᴰ.head e)))
              | inr j ↦ inr (p.free n i (inr j))
            ]
          ]);
          sorted = (
            (λ n i e d j.
                none_lacking done (needs n) (sym (p.counts n i) ∙ p.free n i (inl (Memᴰ.head e))) d
                  j),
            p.sorted,
          );
        }

    pub step :
        Progress nodes
          (released degree queue (dependents nodes id)).0
          (released degree queue (dependents nodes id)).1
          (id ∷ done)
    unfolding less nexts fresh
    step =
        subst (λ (q : List Text). Progress nodes less q (id ∷ done))
          (sym (released-queue degree queue nexts (dependents-Unique nodes id u))) stepped
