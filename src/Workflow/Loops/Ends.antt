-- ===== src/Workflow/Loops/Ends.antt =====
-- `validateLoops` of pkg/workflowspec/definition.go ends on every definition.
use asgard.Prelude.{
  ◌≡◌, ◌≢◌, refl, Bool, true, false, not, ◌&&◌, inl, inr, List, [], ◌∷◌, Memᴰ, map, Text, Option,
  none, some, length, ◌==◌, text_eq, exists, first, first-none, arith, Bool-cases, Option-cases,
}
use asgard.Workflow.{NodeDependency, NodeSpec, LoopSpec, WorkflowDefinition, among, find_loop}
use asgard.Workflow.Loops.{
  LoopError, out_of_fuel, shared_node, fail_if, is_negative, listed, limited, declared,
  all_declared, parent_check, loop_in_chain, or_in_chain, loops_related, apart_unless, pairs_apart,
  counts_check, resets_check, edge_check, edges_check, counted, fallback_outside, validate_loops,
}
use asgard.Workflow.Loops.Parents.{and_then_not, first-not, parent_check-ends, loop_in_chain-ends}

fail_if_not : (x e : LoopError) (b : Bool) → x ≢ e → fail_if x b ≢ some e
unfolding fail_if
fail_if_not x e true n h = n cc
fail_if_not x e false n h = cc

listed-ends : (known seen ids : List Text) → listed known seen ids ≢ some out_of_fuel
unfolding listed
listed-ends known seen [] e = cc
listed-ends known seen (id ∷ ids) e =
    let rest = listed-ends known (id ∷ seen) ids in
    elim (Bool-cases (not (among id known))) [
      | inl u ↦ (let e' = rw (u, listed) at e in cc)
      | inr k ↦ elim (Bool-cases (among id seen)) [
        | inl d ↦ (let e' = rw (k, d, listed) at e in cc)
        | inr n ↦ rest (rw (k, n, listed) at e)
      ]
    ]

limited-ends : (known : List Text) (l : LoopSpec) → limited known l ≢ some out_of_fuel
unfolding limited
limited-ends known l e = elim (Bool-cases (is_negative l.max_iterations)) [
  | inl a ↦ (let e' = rw (a, limited) at e in cc)
  | inr b ↦ grind arith
]

declared-ends :
    (known : List Text) (earlier : List LoopSpec) (l : LoopSpec)
    → declared known earlier l ≢ some out_of_fuel
unfolding declared
declared-ends known earlier l e = elim (Bool-cases (text_eq l.id [])) [
  | inl a ↦ (let e' = rw (a, declared) at e in cc)
  | inr b ↦ elim (Bool-cases (exists (λ o. text_eq o.id l.id) earlier)) [
    | inl c ↦ (let e' = rw (b, c, declared) at e in cc)
    | inr d ↦ elim (Bool-cases (length l.nodes == 0)) [
      | inl z ↦ (let e' = rw (b, d, z, declared) at e in cc)
      | inr p ↦
          and_then_not out_of_fuel (listed known [] l.nodes) (limited known l)
            (listed-ends known [] l.nodes) (λ _. limited-ends known l) (rw (b, d, p, declared) at e)
    ]
  ]
]

all_declared-ends :
    (known : List Text) (earlier loops : List LoopSpec)
    → all_declared known earlier loops ≢ some out_of_fuel
unfolding all_declared
all_declared-ends known earlier [] e = cc
all_declared-ends known earlier (l ∷ loops) e =
    and_then_not out_of_fuel (declared known earlier l) (all_declared known (l ∷ earlier) loops)
      (declared-ends known earlier l) (λ _. all_declared-ends known (l ∷ earlier) loops) e

or_in_chain_not : (a b : Option Bool) → a ≢ none → b ≢ none → or_in_chain a b ≢ none
unfolding or_in_chain
or_in_chain_not none b f g e = f refl
or_in_chain_not (some true) b f g e = cc
or_in_chain_not (some false) b f g e = g e

apart_unless-ends :
    (r : Option Bool) (a b : LoopSpec) → r ≢ none → apart_unless r a b ≢ some out_of_fuel
unfolding apart_unless
apart_unless-ends none a b f e = f refl
apart_unless-ends (some true) a b f e = cc
apart_unless-ends (some false) a b f e =
    first-not (λ id. fail_if shared_node (among id b.nodes)) a.nodes out_of_fuel
      (λ id _. fail_if_not shared_node out_of_fuel (among id b.nodes) (λ h. cc)) e

pairs_apart-ends :
    (loops rest : List LoopSpec)
    → ((l : LoopSpec) → Memᴰ l rest → parent_check loops l ≡ none)
    → pairs_apart loops rest ≢ some out_of_fuel
unfolding pairs_apart loops_related
pairs_apart-ends loops [] c e = cc
pairs_apart-ends loops (a ∷ rest) c e =
    and_then_not out_of_fuel (first (λ b. apart_unless (loops_related loops a b) a b) rest)
      (pairs_apart loops rest)
      (first-not (λ b. apart_unless (loops_related loops a b) a b) rest out_of_fuel
        (λ b i. apart_unless-ends (loops_related loops a b) a b (
          or_in_chain_not (loop_in_chain loops a b.id) (loop_in_chain loops b a.id)
            (loop_in_chain-ends loops a b.id (c a (Memᴰ.head refl)))
            (loop_in_chain-ends loops b a.id (c b (Memᴰ.tail i))))))
      (λ _. pairs_apart-ends loops rest (λ l i. c l (Memᴰ.tail i))) e

counts_check-ends :
    (loops : List LoopSpec) (n : NodeSpec) (dep : NodeDependency)
    → counts_check loops n dep ≢ some out_of_fuel
unfolding counts_check fail_if
counts_check-ends loops n dep e = elim (Option-cases (find_loop dep.counts_loop loops)) [
  | inl gone ↦ (let e' = rw (gone, counts_check) at e in grind arith)
  | inr (l, found) ↦ (let e' = rw (found, counts_check) at e in grind arith)
]

resets_check-ends :
    (loops : List LoopSpec) (n : NodeSpec) (dep : NodeDependency)
    → resets_check loops n dep ≢ some out_of_fuel
unfolding resets_check fail_if
resets_check-ends loops n dep e = elim (Option-cases (find_loop dep.resets_loop loops)) [
  | inl gone ↦ (let e' = rw (gone, resets_check) at e in grind arith)
  | inr (l, found) ↦ (let e' = rw (found, resets_check) at e in grind arith)
]

edge_check-ends :
    (loops : List LoopSpec) (n : NodeSpec) (dep : NodeDependency)
    → edge_check loops n dep ≢ some out_of_fuel
unfolding edge_check
edge_check-ends loops n dep e =
    elim (Bool-cases (not (text_eq dep.counts_loop []) && not (text_eq dep.resets_loop []))) [
      | inl both ↦ (let e' = rw (both, edge_check) at e in cc)
      | inr one ↦
          and_then_not out_of_fuel (counts_check loops n dep) (resets_check loops n dep)
            (counts_check-ends loops n dep) (λ _. resets_check-ends loops n dep)
            (rw (one, edge_check) at e)
    ]

-- On every definition, the validation of the loops ends: no walk up the parents of a loop runs out of fuel, one
-- more than the number of loops, also where the parents are a cycle.
pub validate_loops-ends : (d : WorkflowDefinition) → validate_loops d ≢ some out_of_fuel
unfolding validate_loops edges_check counted fallback_outside
validate_loops-ends d =
    let loops = d.loops in
    and_then_not out_of_fuel _ _ (all_declared-ends (map (λ n. n.id) d.nodes) [] loops) (λ _.
      and_then_not out_of_fuel _ _
        (first-not (parent_check loops) loops out_of_fuel (λ l _. parent_check-ends loops l))
        (λ p.
          and_then_not out_of_fuel _ _
            (pairs_apart-ends loops loops (λ l i. first-none (parent_check loops) loops p i))
            (λ _.
              and_then_not out_of_fuel _ _
                (first-not _ d.nodes out_of_fuel
                  (λ n _. first-not _ n.depends out_of_fuel (λ dep _. edge_check-ends loops n dep)))
                (λ _.
                  and_then_not out_of_fuel _ _
                    (first-not _ loops out_of_fuel (λ l _. fail_if_not _ out_of_fuel _ (λ h. cc)))
                    (λ _.
                      first-not _ loops out_of_fuel
                        (λ l _. fail_if_not _ out_of_fuel _ (λ h. cc)))))))
