-- ===== src/Engine/Steps/Queueing.antt =====
-- The queue and the workers of the scheduler, backend/lib/workflow/engine.go: what `enqueue` and the
-- launch do to them.
use asgard.Prelude.{
  ℕ, ◌+◌, ◌≤◌, ◌<◌, ◌≡◌, refl, sym, ap, ◌∙◌, subst, inl, inr, Bool, true, false, List, [], ◌∷◌,
  ◌++◌, map, Memᴰ, Unique, Text, text_eq, text_eq_sound, text_eq_refl, leb, arith, Bool-cases,
}
use asgard.Prelude.Memᴰ
use asgard.Workflow.{WorkflowDefinition, among}
use asgard.Workflow.Loops.Laminar.{mem-among}
use asgard.Workflow.Cycles.{ids}
use asgard.Workflow.Cycles.Lists.{mem-append, append-mem, Unique-append}
use asgard.Engine.{State, Worker, launched, put, max_executions}
use asgard.Engine.Downstream.{enqueue}
use asgard.Engine.Steps.{launch_node, launch_each, launch}

abbrev pub worker_ids : List Worker → List Text
worker_ids workers = map (λ (w : Worker). w.id) workers

-- No node is queued twice or queued while it runs, a running node has exactly one worker, and no node has been
-- launched more often than the limit, nor is a node queued that has reached it.
pub record Queue (defn : WorkflowDefinition) (ready : List Text) (running : Text → Bool)
    (workers : List Worker) (executions : Text → ℕ) : Type 0 where
  pub ready_unique : Unique ready
  pub ready_apart : (id : Text) → Memᴰ id ready → running id ≡ false
  pub ready_below : (id : Text) → Memᴰ id ready → executions id < max_executions defn
  pub ready_known : (id : Text) → Memᴰ id ready → Memᴰ id (ids defn.nodes)
  pub bounded : (id : Text) → executions id ≤ max_executions defn
  pub workers_unique : Unique (worker_ids workers)
  pub worker_running : (id : Text) → Memᴰ id (worker_ids workers) → running id ≡ true
  pub running_worker : (id : Text) → running id ≡ true → Memᴰ id (worker_ids workers)
  pub workers_known : (id : Text) → Memᴰ id (worker_ids workers) → Memᴰ id (ids defn.nodes)

abbrev pub IsQueued : WorkflowDefinition → State → Type 0
IsQueued defn s = Queue defn s.ready s.running s.workers s.executions

pub put_same {ℓ} : {A : Type ℓ} (id : Text) (v : A) (m : Text → A) → put id v m id ≡ v
unfolding put
put_same id v m = rw (text_eq_refl id) refl

pub put_other {ℓ} :
    {A : Type ℓ} (id : Text) (v : A) (m : Text → A) (other : Text)
    → text_eq id other ≡ false
    → put id v m other ≡ m other
unfolding put
put_other id v m other f = rw f refl

mem-single : {x y : Text} → Memᴰ x (y ∷ []) → x ≡ y
mem-single i = elim (Memᴰ.cases_cons i) [ inl e ↦ e | inr j ↦ elim j [ ] ]

Unique-last : (xs : List Text) (x : Text) → Unique xs → (Memᴰ x xs → ⊥) → Unique (xs ++ x ∷ [])
Unique-last xs x u f =
    Unique-append xs (x ∷ []) u ((λ i. elim i [ ]), tt)
      (λ y i j. f (subst (λ (z : Text). Memᴰ z xs) (mem-single j) i))

module _ (defn : WorkflowDefinition) where
  pub enqueue-queue :
      (id : Text) (s : State)
      → Memᴰ id (ids defn.nodes)
      → IsQueued defn s
      → IsQueued defn (enqueue defn id s).1
  unfolding enqueue
  enqueue-queue id s k q = elim (Bool-cases (s.running id)) [
    | inl t ↦ rw t q
    | inr f ↦ rw f (elim (Bool-cases (among id s.ready)) [
      | inl t ↦ rw t q
      | inr g ↦ rw g (elim (Bool-cases (leb (max_executions defn) (s.executions id))) [
        | inl t ↦ rw t q
        | inr l ↦
            rw l (admitted f (λ i. (let t = mem-among id s.ready i in cc)) (ground (arith, l)))
      ])
    ])
  ]
    where
      split :
          (P : Text → Type 0) (other : Text)
          → ((i : Memᴰ other s.ready) → P other)
          → P id
          → Memᴰ other (s.ready ++ id ∷ [])
          → P other
      split P other old new i = elim (mem-append s.ready (id ∷ []) i) [
        | inl j ↦ old j
        | inr j ↦ subst P (sym (mem-single j)) new
      ]

      admitted :
          s.running id ≡ false
          → (Memᴰ id s.ready → ⊥)
          → s.executions id < max_executions defn
          → IsQueued defn (record s { ready = s.ready ++ id ∷ [] })
      admitted f fresh below = record {
        bounded = q.bounded;
        workers_unique = q.workers_unique;
        worker_running = q.worker_running;
        running_worker = q.running_worker;
        workers_known = q.workers_known;
        ready_unique = Unique-last s.ready id q.ready_unique fresh;
        ready_apart = λ other i. split (λ o. s.running o ≡ false) other (q.ready_apart other) f i;
        ready_below = λ other i.
            split (λ o. s.executions o < max_executions defn) other (q.ready_below other) below i;
        ready_known =
            λ other i. split (λ o. Memᴰ o (ids defn.nodes)) other (q.ready_known other) k i;
      }

  worker_ids-append :
      (ws : List Worker) (w : Worker) → worker_ids (ws ++ w ∷ []) ≡ worker_ids ws ++ w.id ∷ []
  worker_ids-append [] w = refl
  worker_ids-append (v ∷ ws) w = ap (λ xs. v.id ∷ xs) (worker_ids-append ws w)

  pub launch_node-queue :
      (id : Text) (rest : List Text) (s : State)
      → Queue defn (id ∷ rest) s.running s.workers s.executions
      → Queue defn rest
          (launch_node id s).running
          (launch_node id s).workers
          (launch_node id s).executions
  unfolding launch_node
  launch_node-queue id rest s q = record {
    ready_unique = q.ready_unique.1;
    ready_apart = λ other i.
        put_other id true s.running other (apart other i) ∙ q.ready_apart other (Memᴰ.tail i);
    ready_below = λ other i.
        subst (λ n. n < max_executions defn)
          (sym (put_other id (s.executions id + 1) s.executions other (apart other i)))
          (q.ready_below other (Memᴰ.tail i));
    ready_known = λ other i. q.ready_known other (Memᴰ.tail i);
    bounded = bound;
    workers_unique =
        subst Unique (sym all_ids) (Unique-last (worker_ids s.workers) id q.workers_unique idle);
    worker_running = λ other i. on other (subst (λ xs. Memᴰ other xs) all_ids i);
    running_worker = λ other h. subst (λ xs. Memᴰ other xs) (sym all_ids) (off other h);
    workers_known = λ other i. named other (subst (λ xs. Memᴰ other xs) all_ids i);
  }
    where
      not_running : s.running id ≡ false
      not_running = q.ready_apart id (Memᴰ.head refl)

      all_ids :
          worker_ids (s.workers ++ record { id = id; phase = launched } ∷ [])
          ≡ worker_ids s.workers ++ id ∷ []
      all_ids = worker_ids-append s.workers (record { id = id; phase = launched })

      apart : (other : Text) → Memᴰ other rest → text_eq id other ≡ false
      apart other i = elim (Bool-cases (text_eq id other)) [
        | inl t ↦
            elim (q.ready_unique.0
              (subst (λ (z : Text). Memᴰ z rest) (sym (text_eq_sound id other t)) i)) [ ]
        | inr f ↦ f
      ]

      idle : Memᴰ id (worker_ids s.workers) → ⊥
      idle i = (let t = q.worker_running id i in let f = not_running in cc)

      bound : (other : Text) → put id (s.executions id + 1) s.executions other ≤ max_executions defn
      bound other = elim (Bool-cases (text_eq id other)) [
        | inl t ↦
            let below = q.ready_below id (Memᴰ.head refl) in rw (t, put) (omega (arith, below))
        | inr f ↦ rw (f, put) (q.bounded other)
      ]

      on :
          (other : Text)
          → Memᴰ other (worker_ids s.workers ++ id ∷ [])
          → put id true s.running other ≡ true
      on other i = elim (Bool-cases (text_eq id other)) [
        | inl t ↦ rw (t, put) refl
        | inr f ↦ elim (mem-append (worker_ids s.workers) (id ∷ []) i) [
          | inl j ↦ put_other id true s.running other f ∙ q.worker_running other j
          | inr j ↦ (let same = mem-single j in let t = text_eq_refl id in cc)
        ]
      ]

      off :
          (other : Text)
          → put id true s.running other ≡ true
          → Memᴰ other (worker_ids s.workers ++ id ∷ [])
      off other h =
          append-mem (worker_ids s.workers) (id ∷ []) (elim (Bool-cases (text_eq id other)) [
            | inl t ↦ inr (Memᴰ.head (sym (text_eq_sound id other t)))
            | inr f ↦ inl (q.running_worker other (sym (put_other id true s.running other f) ∙ h))
          ])

      named :
          (other : Text)
          → Memᴰ other (worker_ids s.workers ++ id ∷ [])
          → Memᴰ other (ids defn.nodes)
      named other i = elim (mem-append (worker_ids s.workers) (id ∷ []) i) [
        | inl j ↦ q.workers_known other j
        | inr j ↦ q.ready_known other (Memᴰ.head (mem-single j))
      ]

  pub launch_each-queue :
      (xs : List Text) (s : State)
      → s.ready ≡ []
      → Queue defn xs s.running s.workers s.executions
      → IsQueued defn (launch_each xs s)
  unfolding launch_each launch_node
  launch_each-queue [] s e q =
      subst (λ xs. Queue defn xs s.running s.workers s.executions) (sym e) q
  launch_each-queue (id ∷ rest) s e q =
      launch_each-queue rest (launch_node id s) e (launch_node-queue id rest s q)

  pub launch-queue : (s : State) → IsQueued defn s → IsQueued defn (launch s)
  unfolding launch
  launch-queue s q = launch_each-queue s.ready (record s { ready = [] }) refl q
