-- ===== src/Workflow/Cycles/Examples.antt =====
-- A workflow whose back edge has a condition, one with a cycle, and an instance of the theorem.
use asgard.Prelude.{
  ◌≡◌, ◌≢◌, ◌↔◌, refl, inl, inr, true, false, List, [], ◌∷◌, Unique, Text, bytes, none, some,
  text_eq, exists, keep_if, ap,
}
use asgard.Prelude.Memᴰ
use asgard.Workflow.{NodeDependency, NodeSpec, plain_node, among}
use asgard.Workflow.Cycles.{
  needs_from, needs, indegree, dependents, ids, decremented, released, processed_from, ready,
  processed, detect_cycle,
}
use asgard.Workflow.Cycles.Sorting.{TopologicalOrder}
use asgard.Workflow.Cycles.Order.{detect_cycle_iff}

abbrev edge : Text → Text → NodeDependency
edge node when = record { node_id = node; when = when; counts_loop = []; resets_loop = [] }

abbrev review : List NodeSpec
review =
    plain_node (bytes "a") (edge (bytes "b") (bytes "x") ∷ [])
    ∷ plain_node (bytes "b") (edge (bytes "a") [] ∷ edge (bytes "a") [] ∷ [])
    ∷ []

abbrev cyclic : List NodeSpec
cyclic =
    plain_node (bytes "a") (edge (bytes "b") [] ∷ [])
    ∷ plain_node (bytes "b") (edge (bytes "a") [] ∷ [])
    ∷ []

sorting : Unit {0}
unfolding text_eq exists keep_if among needs_from needs indegree dependents decremented released
    processed_from ready processed detect_cycle
sorting = tt

review-accepted : detect_cycle review ≡ some true
unfolding sorting
review-accepted = refl

cyclic-refused : detect_cycle cyclic ≡ some false
unfolding sorting
cyclic-refused = refl

review-Unique : Unique (ids review)
unfolding text_eq
review-Unique = (
  (λ i. elim (Memᴰ.cases_cons i) [
    | inl e ↦ (let t = ap (λ (x : Text). text_eq x (bytes "b")) e in cc)
    | inr j ↦ elim j [ ]
  ]),
  ((λ i. elim i [ ]), tt),
)

detect_cycle_iff_example :
    (detect_cycle review ≢ none)
    × ((detect_cycle review ≡ some true) ↔ ((order : List Text) × TopologicalOrder review order))
detect_cycle_iff_example = detect_cycle_iff review review-Unique
