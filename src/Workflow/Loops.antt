-- ===== src/Workflow/Loops.antt =====
-- `validateLoops` of pkg/workflowspec/definition.go. The errors are its `fmt.Errorf` returns, in their order;
-- `out_of_fuel` is none of them: the two loops up the chain of parents run on fuel, one more than the number
-- of loops.
pub mod Parents
pub mod Ends
pub mod Laminar
pub mod Counted
pub mod Fallbacks
mod Examples
use asgard.Prelude.{
  ℕ, zero, suc, ◌+◌, Bool, true, false, not, ◌&&◌, List, [], ◌∷◌, ◌++◌, map, Text, Option, none,
  some, length, ◌==◌, text_eq, if◌then◌else◌, exists, first,
}
use asgard.Prelude.{ℤ, pos, negsuc, is_zero}
use asgard.Workflow.{NodeDependency, NodeSpec, LoopSpec, WorkflowDefinition, among, find_loop}

pub data LoopError : Type 0 where
  empty_id : LoopError
  duplicate_loop : LoopError
  empty_loop : LoopError
  unknown_node : LoopError
  duplicate_node : LoopError
  negative_iterations : LoopError
  unlimited_fallback : LoopError
  unknown_fallback : LoopError
  unknown_parent : LoopError
  parent_cycle : LoopError
  outside_parent : LoopError
  shared_node : LoopError
  both_declared : LoopError
  unknown_counted : LoopError
  counts_outside : LoopError
  unknown_reset : LoopError
  resets_outside : LoopError
  uncounted_loop : LoopError
  fallback_in_loop : LoopError
  out_of_fuel : LoopError

-- A check that returns early.
unfoldable pub and_then : Option LoopError → Option LoopError → Option LoopError
and_then none next = next
and_then (some e) next = some e

unfoldable pub fail_if : LoopError → Bool → Option LoopError
fail_if e b = if b then some e else none

unfoldable pub is_negative : ℤ → Bool
is_negative (pos n) = false
is_negative (negsuc n) = true

-- The first loop of `validateLoops`, over the loops and over the nodes of one.
unfoldable pub listed : List Text → List Text → List Text → Option LoopError
unfolding among
listed known seen [] = none
listed known seen (id ∷ ids) =
    let rest = listed known (id ∷ seen) ids in
    if not (among id known)
    then some unknown_node
    else if among id seen
    then some duplicate_node
    else rest

unfoldable pub limited : List Text → LoopSpec → Option LoopError
unfolding is_negative among
limited known l =
    if is_negative l.max_iterations
    then some negative_iterations
    else if is_zero l.max_iterations && not (text_eq l.on_exhausted [])
    then some unlimited_fallback
    else if not (text_eq l.on_exhausted []) && not (among l.on_exhausted known)
    then some unknown_fallback
    else none

unfoldable pub declared : List Text → List LoopSpec → LoopSpec → Option LoopError
unfolding listed limited and_then
declared known earlier l =
    if text_eq l.id []
    then some empty_id
    else if exists (λ o. text_eq o.id l.id) earlier
    then some duplicate_loop
    else if length l.nodes == 0
    then some empty_loop
    else and_then (listed known [] l.nodes) (limited known l)

unfoldable pub all_declared : List Text → List LoopSpec → List LoopSpec → Option LoopError
unfolding declared and_then
all_declared known earlier [] = none
all_declared known earlier (l ∷ loops) =
    and_then (declared known earlier l) (all_declared known (l ∷ earlier) loops)

-- The walk to the ancestors of a loop that looks for a cycle.
unfoldable pub parent_walk : List LoopSpec → ℕ → List Text → Text → Option LoopError
unfolding among find_loop
parent_walk loops zero seen cur = some out_of_fuel
parent_walk loops (suc fuel) seen cur =
    if text_eq cur []
    then none
    else if among cur seen
    then some parent_cycle
    else elim (find_loop cur loops) [
      | none ↦ none
      | some ancestor ↦ parent_walk loops fuel (cur ∷ seen) ancestor.parent
    ]

unfoldable pub within : List Text → List Text → Option LoopError
unfolding among fail_if
within outer ids = first (λ id. fail_if outside_parent (not (among id outer))) ids

unfoldable pub parent_check : List LoopSpec → LoopSpec → Option LoopError
unfolding parent_walk within and_then find_loop
parent_check loops l = if text_eq l.parent [] then none else elim (find_loop l.parent loops) [
  | none ↦ some unknown_parent
  | some parent ↦
      and_then (parent_walk loops (suc (length loops)) (l.id ∷ []) l.parent)
        (within parent.nodes l.nodes)
]

-- `loopInChain`, from the loop's parent; none when the fuel is out.
unfoldable pub in_chain : List LoopSpec → Text → ℕ → Text → Option Bool
unfolding find_loop
in_chain loops target zero cur = none
in_chain loops target (suc fuel) cur =
    if text_eq cur []
    then some false
    else if text_eq cur target
    then some true
    else elim (find_loop cur loops) [
      | none ↦ some false
      | some ancestor ↦ in_chain loops target fuel ancestor.parent
    ]

unfoldable pub loop_in_chain : List LoopSpec → LoopSpec → Text → Option Bool
unfolding in_chain
loop_in_chain loops l target = in_chain loops target (suc (length loops)) l.parent

unfoldable pub or_in_chain : Option Bool → Option Bool → Option Bool
or_in_chain none other = none
or_in_chain (some true) other = some true
or_in_chain (some false) other = other

-- `loopsRelated`
unfoldable pub loops_related : List LoopSpec → LoopSpec → LoopSpec → Option Bool
unfolding loop_in_chain or_in_chain
loops_related loops a b = or_in_chain (loop_in_chain loops a b.id) (loop_in_chain loops b a.id)

-- Two loops without an ancestor relation must not share nodes.
unfoldable pub apart_unless : Option Bool → LoopSpec → LoopSpec → Option LoopError
unfolding fail_if among
apart_unless none a b = some out_of_fuel
apart_unless (some true) a b = none
apart_unless (some false) a b = first (λ id. fail_if shared_node (among id b.nodes)) a.nodes

unfoldable pub pairs_apart : List LoopSpec → List LoopSpec → Option LoopError
unfolding apart_unless and_then loops_related
pairs_apart loops [] = none
pairs_apart loops (a ∷ rest) =
    and_then (first (λ b. apart_unless (loops_related loops a b) a b) rest) (pairs_apart loops rest)

-- The references of an edge to loops.
unfoldable pub counts_check : List LoopSpec → NodeSpec → NodeDependency → Option LoopError
unfolding find_loop among fail_if
counts_check loops n dep =
    if text_eq dep.counts_loop [] then none else elim (find_loop dep.counts_loop loops) [
      | none ↦ some unknown_counted
      | some l ↦ fail_if counts_outside (not (among dep.node_id l.nodes && among n.id l.nodes))
    ]

unfoldable pub resets_check : List LoopSpec → NodeSpec → NodeDependency → Option LoopError
unfolding find_loop among fail_if
resets_check loops n dep =
    if text_eq dep.resets_loop [] then none else elim (find_loop dep.resets_loop loops) [
      | none ↦ some unknown_reset
      | some l ↦ fail_if resets_outside (not (among n.id l.nodes))
    ]

unfoldable pub edge_check : List LoopSpec → NodeSpec → NodeDependency → Option LoopError
unfolding counts_check resets_check and_then
edge_check loops n dep =
    if not (text_eq dep.counts_loop []) && not (text_eq dep.resets_loop [])
    then some both_declared
    else and_then (counts_check loops n dep) (resets_check loops n dep)

unfoldable pub edges_check : List LoopSpec → List NodeSpec → Option LoopError
unfolding edge_check
edges_check loops nodes = first (λ n. first (edge_check loops n) n.depends) nodes

-- `countingEdges[id]`
unfoldable pub counting_of : Text → List NodeDependency → ℕ
counting_of id [] = 0
counting_of id (dep ∷ deps) =
    let rest = counting_of id deps in if text_eq dep.counts_loop id then suc rest else rest

unfoldable pub counting_edges : Text → List NodeSpec → ℕ
unfolding counting_of
counting_edges id [] = 0
counting_edges id (n ∷ nodes) = counting_of id n.depends + counting_edges id nodes

unfoldable pub counted : List NodeSpec → LoopSpec → Option LoopError
unfolding counting_edges fail_if
counted nodes l = fail_if uncounted_loop (counting_edges l.id nodes == 0)

unfoldable pub fallback_outside : List LoopSpec → LoopSpec → Option LoopError
unfolding among fail_if
fallback_outside loops l =
    fail_if fallback_in_loop
      (not (text_eq l.on_exhausted []) && exists (λ o. among l.on_exhausted o.nodes) loops)

unfoldable pub validate_loops : WorkflowDefinition → Option LoopError
unfolding all_declared parent_check pairs_apart edges_check counted fallback_outside and_then
validate_loops d = and_then (all_declared (map (λ n. n.id) d.nodes) [] d.loops) (
    and_then (first (parent_check d.loops) d.loops) (
      and_then (pairs_apart d.loops d.loops) (
        and_then (edges_check d.loops d.nodes)
          (and_then (first (counted d.nodes) d.loops) (first (fallback_outside d.loops) d.loops)))))
