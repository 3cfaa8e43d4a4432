-- ===== src/Engine/Downstream/Lookups.antt =====
-- The lookups of the scheduler in its definition, backend/lib/workflow/engine.go, find what is there.
use asgard.Prelude.{◌≡◌, arith, inl, inr, List, [], ◌∷◌, Memᴰ, Text, text_eq, Bool-cases}
use asgard.Prelude.Memᴰ
use asgard.Workflow.{NodeDependency, NodeSpec, WorkflowDefinition}
use asgard.Workflow.Cycles.Lists.{mem-append}
use asgard.Engine.{State, entries, dependents}
use asgard.Engine.Downstream.{enqueue}

pub mem-dependents :
    (nodes : List NodeSpec) (id : Text) (n : NodeSpec) → Memᴰ n (dependents nodes id) → Memᴰ n nodes
unfolding dependents entries
mem-dependents [] id n i = elim i [ ]
mem-dependents (m ∷ nodes) id n i =
    elim (mem-append (entries m id m.depends) (dependents nodes id) i) [
      | inl j ↦ Memᴰ.head (mem-entries m.depends j)
      | inr j ↦ Memᴰ.tail (mem-dependents nodes id n j)
    ]
  where
    mem-entries : (deps : List NodeDependency) → Memᴰ n (entries m id deps) → n ≡ m
    mem-entries [] j = elim j [ ]
    mem-entries (dep ∷ deps) j = elim (Bool-cases (text_eq dep.node_id id)) [
      | inl e ↦ elim (Memᴰ.cases_cons (rw (e, entries) at j)) [
        | inl same ↦ same
        | inr later ↦ mem-entries deps later
      ]
      | inr e ↦ mem-entries deps (rw (e, entries) at j)
    ]

pub enqueue-iterations :
    (defn : WorkflowDefinition) (id : Text) (s : State)
    → (enqueue defn id s).1.loop_iterations ≡ s.loop_iterations
unfolding enqueue
enqueue-iterations defn id s = ground arith
