-- ===== src/Workflow/Loops/Fallbacks.antt =====
-- What `validateLoops` of pkg/workflowspec/definition.go makes sure of the nodes that take over from exhausted loops.
use asgard.Prelude.{
  ◌≡◌, sym, subst, inl, inr, true, false, List, [], ◌∷◌, Memᴰ, Text, none, length, ◌==◌, text_eq,
  exists, Bool-cases, is_zero,
}
use asgard.Workflow.{LoopSpec, WorkflowDefinition, among}
use asgard.Workflow.Cycles.{ids}
use asgard.Workflow.Loops.{is_negative, listed, limited, declared, all_declared, validate_loops}
use asgard.Workflow.Loops.Laminar.{among-mem}
use asgard.Workflow.Loops.Parents.{and_then-none, validate_loops-Passed}

-- The node that takes over from a loop, if there is one, is a node of the definition.
abbrev pub HasKnownFallbacks : WorkflowDefinition → Type 0
HasKnownFallbacks d =
    (l : LoopSpec)
    → Memᴰ l d.loops
    → text_eq l.on_exhausted [] ≡ false
    → Memᴰ l.on_exhausted (ids d.nodes)

limited-known :
    (known : List Text) (l : LoopSpec)
    → limited known l ≡ none
    → text_eq l.on_exhausted [] ≡ false
    → among l.on_exhausted known ≡ true
unfolding limited
limited-known known l e f = elim (Bool-cases (is_negative l.max_iterations)) [
  | inl a ↦ (let e' = rw (a, limited) at e in cc)
  | inr a ↦ elim (Bool-cases (is_zero l.max_iterations)) [
    | inl z ↦ (let e' = rw (a, z, f, limited) at e in cc)
    | inr z ↦ elim (Bool-cases (among l.on_exhausted known)) [
      | inl t ↦ t
      | inr g ↦ (let e' = rw (a, z, f, g, limited) at e in cc)
    ]
  ]
]

declared-limited :
    (known : List Text) (earlier : List LoopSpec) (l : LoopSpec)
    → declared known earlier l ≡ none
    → limited known l ≡ none
unfolding declared
declared-limited known earlier l e = elim (Bool-cases (text_eq l.id [])) [
  | inl a ↦ (let e' = rw (a, declared) at e in cc)
  | inr b ↦ elim (Bool-cases (exists (λ o. text_eq o.id l.id) earlier)) [
    | inl c ↦ (let e' = rw (b, c, declared) at e in cc)
    | inr d ↦ elim (Bool-cases (length l.nodes == 0)) [
      | inl z ↦ (let e' = rw (b, d, z, declared) at e in cc)
      | inr z ↦
          (and_then-none (listed known [] l.nodes) (limited known l)
            (rw (b, d, z, declared) at e)).1
    ]
  ]
]

all_declared-limited :
    (known : List Text) (earlier loops : List LoopSpec) (l : LoopSpec)
    → all_declared known earlier loops ≡ none
    → Memᴰ l loops
    → limited known l ≡ none
unfolding all_declared
all_declared-limited known earlier [] l e i = elim i [ ]
all_declared-limited known earlier (x ∷ loops) l e (Memᴰ.head same) =
    let (one, rest) =
      and_then-none (declared known earlier x) (all_declared known (x ∷ earlier) loops) e in
    subst (λ (y : LoopSpec). limited known y ≡ none) (sym same)
      (declared-limited known earlier x one)
all_declared-limited known earlier (x ∷ loops) l e (Memᴰ.tail i) =
    let (one, rest) =
      and_then-none (declared known earlier x) (all_declared known (x ∷ earlier) loops) e in
    all_declared-limited known (x ∷ earlier) loops l rest i

pub validate_loops-HasKnownFallbacks :
    (d : WorkflowDefinition) → validate_loops d ≡ none → HasKnownFallbacks d
validate_loops-HasKnownFallbacks d e l i f = among-mem l.on_exhausted (ids d.nodes) (
    limited-known (ids d.nodes) l
      (all_declared-limited (ids d.nodes) [] d.loops l (validate_loops-Passed d e).declares i) f)
