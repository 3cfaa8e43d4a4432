-- ===== src/Workflow/Loops/Examples.antt =====
-- A workflow with a loop inside a loop, one whose parents are a cycle, and instances of the theorems.
use asgard.Prelude.{
  ◌≡◌, ◌≢◌, refl, ◌⊎◌, true, [], ◌∷◌, Memᴰ, Text, bytes, none, some, text_eq, exists, first, pos,
  is_zero,
}
use asgard.Workflow.{
  NodeDependency, NodeSpec, LoopSpec, WorkflowDefinition, plain_node, among, find_loop,
}
use asgard.Workflow.Loops.{
  out_of_fuel, parent_cycle, and_then, fail_if, is_negative, listed, limited, declared,
  all_declared, parent_walk, within, parent_check, in_chain, loop_in_chain, or_in_chain,
  loops_related, apart_unless, pairs_apart, counts_check, resets_check, edge_check, edges_check,
  counting_of, counting_edges, counted, fallback_outside, validate_loops,
}
use asgard.Workflow.Loops.Ends.{validate_loops-ends}
use asgard.Workflow.Loops.Laminar.{Inside, Disjoint, validate_loops-nested, loop_in_chain-Inside}
use asgard.Workflow.Loops.Counted.{CountingEdge, CountsInside, validate_loops-counted}

abbrev edge : Text → Text → NodeDependency
edge node counts = record {
  node_id = node;
  when = bytes "x";
  counts_loop = counts;
  resets_loop = [];
}

abbrev outer : LoopSpec
outer = record {
  id = bytes "o";
  nodes = bytes "a" ∷ bytes "b" ∷ [];
  parent = [];
  max_iterations = pos 3;
  on_exhausted = bytes "h";
}

abbrev inner : LoopSpec
inner = record {
  id = bytes "i";
  nodes = bytes "b" ∷ [];
  parent = bytes "o";
  max_iterations = pos 0;
  on_exhausted = [];
}

abbrev nested : WorkflowDefinition
nested = record {
  nodes =
      plain_node (bytes "a") (edge (bytes "b") (bytes "o") ∷ [])
      ∷ plain_node (bytes "b") (edge (bytes "b") (bytes "i") ∷ [])
      ∷ plain_node (bytes "h") ([])
      ∷ [];
  loops = outer ∷ inner ∷ [];
  max_node_executions = pos 0;
}

abbrev cyclic : WorkflowDefinition
cyclic = record nested { loops = record outer { parent = bytes "i" } ∷ inner ∷ [] }

validation : Unit {0}
unfolding text_eq exists first is_zero among find_loop and_then fail_if is_negative listed limited
    declared all_declared parent_walk within parent_check in_chain loop_in_chain or_in_chain
    loops_related apart_unless pairs_apart counts_check resets_check edge_check edges_check
    counting_of counting_edges counted fallback_outside validate_loops
validation = tt

nested-accepted : validate_loops nested ≡ none
unfolding validation
nested-accepted = refl

cyclic-refused : validate_loops cyclic ≡ some parent_cycle
unfolding validation
cyclic-refused = refl

validate_loops-ends_example : validate_loops cyclic ≢ some out_of_fuel
validate_loops-ends_example = validate_loops-ends cyclic

validate_loops-nested_example : Inside inner outer ⊎ (Inside outer inner ⊎ Disjoint inner outer)
validate_loops-nested_example =
    validate_loops-nested nested nested-accepted inner outer (Memᴰ.tail (Memᴰ.head refl))
      (Memᴰ.head refl)

inner-outer : loop_in_chain nested.loops inner outer.id ≡ some true
unfolding validation
inner-outer = refl

loop_in_chain-Inside_example : Inside inner outer
loop_in_chain-Inside_example =
    loop_in_chain-Inside nested nested-accepted inner outer (Memᴰ.tail (Memᴰ.head refl))
      (Memᴰ.head refl) inner-outer

validate_loops-counted_example :
    ((n : NodeSpec) × (dep : NodeDependency) × Memᴰ n nested.nodes × CountingEdge outer.id n dep)
    × ((n : NodeSpec) (dep : NodeDependency)
        → Memᴰ n nested.nodes
        → CountingEdge outer.id n dep
        → CountsInside outer n dep)
    × ((outer.on_exhausted ≡ [])
        ⊎ ((o : LoopSpec) → Memᴰ o nested.loops → Memᴰ outer.on_exhausted o.nodes → ⊥))
validate_loops-counted_example =
    validate_loops-counted nested nested-accepted outer (Memᴰ.head refl)
