-- ===== src/Workflow/Loops/Parents.antt =====
-- The walks up the chain of parents end, pkg/workflowspec/definition.go.
use asgard.Prelude.{
  ℕ, zero, suc, ◌≤◌, ◌<◌, ◌≡◌, ◌≢◌, refl, sym, ◌∙◌, ap, subst, Bool, true, false, not, inl, inr,
  List, [], ◌∷◌, Memᴰ, map, Text, Option, none, some, length, text_eq, text_eq_sound, text_eq_refl,
  if◌then◌else◌, keep_if, exists, first, first-some, arith, Bool-cases, Option-cases,
}
use asgard.Workflow.{LoopSpec, WorkflowDefinition, among, find_loop}
use asgard.Workflow.Loops.{
  LoopError, out_of_fuel, and_then, fail_if, all_declared, parent_walk, within, parent_check,
  in_chain, loop_in_chain, pairs_apart, edges_check, counted, fallback_outside, validate_loops,
}

-- A check that is done with what stands before it.
pub and_then-none : (a b : Option LoopError) → and_then a b ≡ none → (a ≡ none) × (b ≡ none)
unfolding and_then
and_then-none none b e = (refl, e)
and_then-none (some x) b e = cc

pub and_then_not :
    (x : LoopError) (a b : Option LoopError)
    → a ≢ some x
    → (a ≡ none → b ≢ some x)
    → and_then a b ≢ some x
unfolding and_then
and_then_not x none b f g = g refl
and_then_not x (some y) b f g = f

pub first-not {ℓ} :
    {A : Type ℓ} (f : A → Option LoopError) (xs : List A) (x : LoopError)
    → ((a : A) → Memᴰ a xs → f a ≢ some x)
    → first f xs ≢ some x
first-not f xs x h e = let (a, i, q) = first-some f xs e in h a i q

pub fail_if-none : (x : LoopError) (b : Bool) → fail_if x b ≡ none → b ≡ false
unfolding fail_if
fail_if-none x true e = cc
fail_if-none x false e = refl

-- What the lookup of a loop finds.
pub find_loop-some :
    (id : Text) (loops : List LoopSpec) (l : LoopSpec)
    → find_loop id loops ≡ some l
    → Memᴰ l loops × (l.id ≡ id)
unfolding find_loop
find_loop-some id loops l e =
    let (a, i, q) = first-some (λ o. if text_eq o.id id then some o else none) loops e in
    elim (Bool-cases (text_eq a.id id)) [
      | inl t ↦
          let s : some a ≡ some l = (rw t at q) in
          let same : a ≡ l = cc in
          subst (λ (o : LoopSpec). Memᴰ o loops × (o.id ≡ id)) same (i, text_eq_sound a.id id t)
      | inr f ↦ (let q' = rw f at q in cc)
    ]

-- The loops that a walk has not met.
unmet : List Text → List LoopSpec → List LoopSpec
unmet seen loops = keep_if (λ l. not (among l.id seen)) loops

unmet-le :
    (id : Text) (seen : List Text) (loops : List LoopSpec)
    → length (unmet (id ∷ seen) loops) ≤ length (unmet seen loops)
unfolding unmet keep_if among exists
unmet-le id seen [] = omega arith
unmet-le id seen (l ∷ loops) =
    let h = unmet-le id seen loops in
    elim (Bool-cases (text_eq id l.id)) [
      | inl t ↦ elim (Bool-cases (among l.id seen)) [
        | inl old ↦ rw (t, old, among) h
        | inr new ↦ rw (t, new, among) (omega arith)
      ]
      | inr f ↦ elim (Bool-cases (among l.id seen)) [
        | inl old ↦ rw (f, old, among) h
        | inr new ↦ rw (f, new, among) (omega arith)
      ]
    ]

unmet-length : (seen : List Text) (loops : List LoopSpec) → length (unmet seen loops) ≤ length loops
unfolding unmet keep_if
unmet-length seen [] = omega arith
unmet-length seen (l ∷ loops) = let h = unmet-length seen loops in ground arith

-- Meeting a loop leaves fewer.
unmet-lt :
    (id : Text) (seen : List Text) (loops : List LoopSpec) {l : LoopSpec}
    → Memᴰ l loops
    → l.id ≡ id
    → among id seen ≡ false
    → length (unmet (id ∷ seen) loops) < length (unmet seen loops)
unfolding unmet keep_if among exists
unmet-lt id seen [] i e new = elim i [ ]
unmet-lt id seen (o ∷ loops) (Memᴰ.head same) e new =
    let named : o.id ≡ id = sym (ap (λ (x : LoopSpec). x.id) same) ∙ e in
    let met : text_eq id o.id ≡ true = rw named (text_eq_refl id) in
    let old : among o.id seen ≡ false = rw named new in
    let h = unmet-le id seen loops in rw (met, old, among) (omega arith)
unmet-lt id seen (o ∷ loops) (Memᴰ.tail i) e new =
    let h = unmet-lt id seen loops i e new in
    elim (Bool-cases (text_eq id o.id)) [
      | inl t ↦ elim (Bool-cases (among o.id seen)) [
        | inl old ↦ rw (t, old, among) h
        | inr other ↦ rw (t, other, among) (omega arith)
      ]
      | inr f ↦ elim (Bool-cases (among o.id seen)) [
        | inl old ↦ rw (f, old, among) h
        | inr other ↦ rw (f, other, among) (omega arith)
      ]
    ]

parent_walk-ends :
    (loops : List LoopSpec) (fuel : ℕ) (seen : List Text) (cur : Text)
    → length (unmet seen loops) < fuel
    → parent_walk loops fuel seen cur ≢ some out_of_fuel
unfolding parent_walk
parent_walk-ends loops zero seen cur l e = omega arith
parent_walk-ends loops (suc fuel) seen cur l e = elim (Bool-cases (text_eq cur [])) [
  | inl top ↦ (let e' = rw (top, parent_walk) at e in cc)
  | inr below ↦ elim (Bool-cases (among cur seen)) [
    | inl again ↦ (let e' = rw (below, again, parent_walk) at e in cc)
    | inr new ↦ elim (Option-cases (find_loop cur loops)) [
      | inl gone ↦ (let e' = rw (below, new, gone, parent_walk) at e in cc)
      | inr (a, found) ↦
          let (i, named) = find_loop-some cur loops a found in
          let fewer = unmet-lt cur seen loops i named new in
          parent_walk-ends loops fuel (cur ∷ seen) a.parent (omega arith)
            (rw (below, new, found, parent_walk) at e)
    ]
  ]
]

-- Where the walk that looks for a cycle has come to the top, the other one does too.
in_chain-ends :
    (loops : List LoopSpec) (target : Text) (fuel : ℕ) (seen : List Text) (cur : Text)
    → parent_walk loops fuel seen cur ≡ none
    → in_chain loops target fuel cur ≢ none
unfolding parent_walk in_chain
in_chain-ends loops target zero seen cur w e = cc
in_chain-ends loops target (suc fuel) seen cur w e = elim (Bool-cases (text_eq cur [])) [
  | inl top ↦ (let e' = rw (top, in_chain) at e in cc)
  | inr below ↦ elim (Bool-cases (text_eq cur target)) [
    | inl hit ↦ (let e' = rw (below, hit, in_chain) at e in cc)
    | inr other ↦ elim (Option-cases (find_loop cur loops)) [
      | inl gone ↦ (let e' = rw (below, other, gone, in_chain) at e in cc)
      | inr (a, found) ↦ elim (Bool-cases (among cur seen)) [
        | inl again ↦ (let w' = rw (below, again, parent_walk) at w in cc)
        | inr new ↦
            in_chain-ends loops target fuel (cur ∷ seen) a.parent
              (rw (below, new, found, parent_walk) at w) (rw (below, other, found, in_chain) at e)
      ]
    ]
  ]
]

pub parent_check-ends :
    (loops : List LoopSpec) (l : LoopSpec) → parent_check loops l ≢ some out_of_fuel
unfolding parent_check within fail_if
parent_check-ends loops l e = elim (Bool-cases (text_eq l.parent [])) [
  | inl top ↦ (let e' = rw (top, parent_check) at e in cc)
  | inr below ↦ elim (Option-cases (find_loop l.parent loops)) [
    | inl gone ↦ (let e' = rw (below, gone, parent_check) at e in cc)
    | inr (p, found) ↦
        let fewer = unmet-length (l.id ∷ []) loops in
        and_then_not out_of_fuel (parent_walk loops (suc (length loops)) (l.id ∷ []) l.parent)
          (within p.nodes l.nodes)
          (parent_walk-ends loops (suc (length loops)) (l.id ∷ []) l.parent (omega arith))
          (λ _. first-not _ l.nodes out_of_fuel (λ id _ h. elim (Bool-cases (among id p.nodes)) [
            | inl t ↦ (let h' = rw t at h in cc)
            | inr f ↦ (let h' = rw f at h in cc)
          ]))
          (rw (below, found, parent_check) at e)
  ]
]

-- A loop whose parents have been checked.
pub loop_in_chain-ends :
    (loops : List LoopSpec) (l : LoopSpec) (target : Text)
    → parent_check loops l ≡ none
    → loop_in_chain loops l target ≢ none
unfolding parent_check loop_in_chain in_chain
loop_in_chain-ends loops l target c e = elim (Bool-cases (text_eq l.parent [])) [
  | inl top ↦ (let e' = rw (top, loop_in_chain, in_chain) at e in cc)
  | inr below ↦ elim (Option-cases (find_loop l.parent loops)) [
    | inl gone ↦ (let c' = rw (below, gone, parent_check) at c in cc)
    | inr (p, found) ↦
        let (w, _) =
          and_then-none (parent_walk loops (suc (length loops)) (l.id ∷ []) l.parent)
            (within p.nodes l.nodes) (rw (below, found, parent_check) at c) in
        in_chain-ends loops target (suc (length loops)) (l.id ∷ []) l.parent w e
  ]
]

-- The checks that an accepted definition has passed.
pub record Passed (d : WorkflowDefinition) : Type 0 where
  pub declares : all_declared (map (λ n. n.id) d.nodes) [] d.loops ≡ none
  pub parents : first (parent_check d.loops) d.loops ≡ none
  pub pairs : pairs_apart d.loops d.loops ≡ none
  pub edges : edges_check d.loops d.nodes ≡ none
  pub counts : first (counted d.nodes) d.loops ≡ none
  pub fallbacks : first (fallback_outside d.loops) d.loops ≡ none

pub validate_loops-Passed : (d : WorkflowDefinition) → validate_loops d ≡ none → Passed d
unfolding validate_loops
validate_loops-Passed d e =
    let outside = first (fallback_outside d.loops) d.loops in
    let counting = and_then (first (counted d.nodes) d.loops) outside in
    let edges = and_then (edges_check d.loops d.nodes) counting in
    let pairs = and_then (pairs_apart d.loops d.loops) edges in
    let parents = and_then (first (parent_check d.loops) d.loops) pairs in
    let (e1, r1) = and_then-none (all_declared (map (λ n. n.id) d.nodes) [] d.loops) parents e in
    let (e2, r2) = and_then-none (first (parent_check d.loops) d.loops) pairs r1 in
    let (e3, r3) = and_then-none (pairs_apart d.loops d.loops) edges r2 in
    let (e4, r4) = and_then-none (edges_check d.loops d.nodes) counting r3 in
    let (e5, e6) = and_then-none (first (counted d.nodes) d.loops) outside r4 in
    record { declares = e1; parents = e2; pairs = e3; edges = e4; counts = e5; fallbacks = e6 }
