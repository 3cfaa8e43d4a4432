-- ===== src/Engine/Steps/Workers.antt =====
-- The workers of the scheduler, backend/lib/workflow/engine.go: their decisions and their end.
use asgard.Prelude.{
  ◌≡◌, refl, sym, ap, ◌∙◌, subst, inl, inr, true, false, not, List, [], ◌∷◌, Memᴰ, Unique, Text,
  text_eq, text_eq_sound, text_eq_refl, keep_if, mem-keep_if, keep_if-mem, arith, Bool-cases,
}
use asgard.Workflow.{WorkflowDefinition}
use asgard.Workflow.Cycles.Lists.{Unique-keep_if}
use asgard.Engine.{State, Worker, Phase, put}
use asgard.Engine.Steps.{set_phase, retire}
use asgard.Engine.Steps.Queueing.{worker_ids, IsQueued, put_other}

module _ (defn : WorkflowDefinition) where
  pub worker_ids-set_phase :
      (id : Text) (p : Phase) (ws : List Worker) → worker_ids (set_phase id p ws) ≡ worker_ids ws
  unfolding set_phase
  worker_ids-set_phase id p [] = refl
  worker_ids-set_phase id p (w ∷ ws) = elim (Bool-cases (text_eq w.id id)) [
    | inl t ↦ rw (t, set_phase) (ap (λ xs. w.id ∷ xs) (worker_ids-set_phase id p ws))
    | inr f ↦ rw (f, set_phase) (ap (λ xs. w.id ∷ xs) (worker_ids-set_phase id p ws))
  ]

  pub set_phase-queue :
      (id : Text) (p : Phase) (s : State)
      → IsQueued defn s
      → IsQueued defn (record s { workers = set_phase id p s.workers })
  set_phase-queue id p s q =
      let e = worker_ids-set_phase id p s.workers in
      record {
        ready_unique = q.ready_unique;
        ready_apart = q.ready_apart;
        ready_below = q.ready_below;
        ready_known = q.ready_known;
        bounded = q.bounded;
        workers_unique = subst Unique (sym e) q.workers_unique;
        worker_running = λ other i. q.worker_running other (subst (λ xs. Memᴰ other xs) e i);
        running_worker = λ other h. subst (λ xs. Memᴰ other xs) (sym e) (q.running_worker other h);
        workers_known = λ other i. q.workers_known other (subst (λ xs. Memᴰ other xs) e i);
      }

  worker_ids-keep_if :
      (id : Text) (ws : List Worker)
      → worker_ids (keep_if (λ w. not (text_eq w.id id)) ws)
        ≡ keep_if (λ other. not (text_eq other id)) (worker_ids ws)
  unfolding keep_if
  worker_ids-keep_if id [] = refl
  worker_ids-keep_if id (w ∷ ws) = elim (Bool-cases (text_eq w.id id)) [
    | inl t ↦ rw t (worker_ids-keep_if id ws)
    | inr f ↦ rw f (ap (λ xs. w.id ∷ xs) (worker_ids-keep_if id ws))
  ]

  pub retire-queue : (id : Text) (s : State) → IsQueued defn s → IsQueued defn (retire id s)
  unfolding retire
  retire-queue id s q = record {
    ready_unique = q.ready_unique;
    ready_below = q.ready_below;
    ready_known = q.ready_known;
    bounded = q.bounded;
    ready_apart = λ other i. stopped other (q.ready_apart other i);
    workers_unique =
        subst Unique (sym kept) (
          Unique-keep_if (λ other. not (text_eq other id)) (worker_ids s.workers) q.workers_unique);
    worker_running = λ other i. on other (mem other i);
    running_worker = off;
    workers_known = λ other i. q.workers_known other (mem other i).0;
  }
    where
      kept :
          worker_ids (keep_if (λ w. not (text_eq w.id id)) s.workers)
          ≡ keep_if (λ other. not (text_eq other id)) (worker_ids s.workers)
      kept = worker_ids-keep_if id s.workers

      mem :
          (other : Text)
          → Memᴰ other (worker_ids (keep_if (λ w. not (text_eq w.id id)) s.workers))
          → Memᴰ other (worker_ids s.workers) × (not (text_eq other id) ≡ true)
      mem other i =
          mem-keep_if (λ o. not (text_eq o id)) (worker_ids s.workers)
            (subst (λ xs. Memᴰ other xs) kept i)

      stopped : (other : Text) → s.running other ≡ false → put id false s.running other ≡ false
      stopped other h = elim (Bool-cases (text_eq id other)) [
        | inl t ↦ rw (t, put) refl
        | inr f ↦ rw (f, put) h
      ]

      on :
          (other : Text)
          → Memᴰ other (worker_ids s.workers) × (not (text_eq other id) ≡ true)
          → put id false s.running other ≡ true
      on other (i, n) = elim (Bool-cases (text_eq id other)) [
        | inl t ↦
            (let same = text_eq_sound id other t in
              let r = text_eq_refl id in
              let n' : text_eq other id ≡ false = ground (arith, n) in cc)
        | inr f ↦ rw (f, put) (q.worker_running other i)
      ]

      differs : (other : Text) → text_eq id other ≡ false → not (text_eq other id) ≡ true
      differs other f = elim (Bool-cases (text_eq other id)) [
        | inl t ↦ (let same = text_eq_sound other id t in let r = text_eq_refl id in cc)
        | inr g ↦ rw g refl
      ]

      off :
          (other : Text)
          → put id false s.running other ≡ true
          → Memᴰ other (worker_ids (keep_if (λ w. not (text_eq w.id id)) s.workers))
      off other h = elim (Bool-cases (text_eq id other)) [
        | inl t ↦ (let h' = rw (t, put) at h in cc)
        | inr f ↦
            subst (λ xs. Memᴰ other xs) (sym kept)
              (keep_if-mem (λ o. not (text_eq o id)) (worker_ids s.workers)
                (q.running_worker other (sym (put_other id false s.running other f) ∙ h))
                (differs other f))
      ]
