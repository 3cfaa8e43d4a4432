-- ===== src/Workflow/Loops/Laminar.antt =====
-- What `validateLoops` of pkg/workflowspec/definition.go makes sure of the loops' nodes.
use asgard.Prelude.{
  ℕ, zero, suc, ◌≡◌, refl, sym, ◌∙◌, ap, subst, ◌⊎◌, inl, inr, Bool, true, false, not, List, [],
  ◌∷◌, Memᴰ, map, Text, Option, none, some, length, text_eq, text_eq_sound, text_eq_refl, exists,
  exists-mem, mem-exists, first, first-none, arith, Bool-cases, Option-cases,
}
use asgard.Prelude.Memᴰ
use asgard.Workflow.{LoopSpec, WorkflowDefinition, among, find_loop}
use asgard.Workflow.Loops.{
  outside_parent, shared_node, fail_if, declared, all_declared, parent_walk, within, parent_check,
  in_chain, loop_in_chain, or_in_chain, loops_related, apart_unless, pairs_apart, validate_loops,
}
use asgard.Workflow.Loops.Parents.{
  and_then-none, fail_if-none, find_loop-some, validate_loops-Passed,
}

abbrev pub Inside : LoopSpec → LoopSpec → Type 0
Inside a b = (id : Text) → Memᴰ id a.nodes → Memᴰ id b.nodes

abbrev pub Disjoint : LoopSpec → LoopSpec → Type 0
Disjoint a b = (id : Text) → Memᴰ id a.nodes → Memᴰ id b.nodes → ⊥

pub among-mem : (id : Text) (ids : List Text) → among id ids ≡ true → Memᴰ id ids
unfolding among
among-mem id ids e =
    let (a, i, t) = exists-mem (λ other. text_eq other id) ids e in
    subst (λ (x : Text). Memᴰ x ids) (text_eq_sound a id t) i

pub mem-among : (id : Text) (ids : List Text) → Memᴰ id ids → among id ids ≡ true
unfolding among
mem-among id ids i = mem-exists (λ other. text_eq other id) ids i (text_eq_refl id)

declared-new :
    (known : List Text) (earlier : List LoopSpec) (l : LoopSpec)
    → declared known earlier l ≡ none
    → exists (λ o. text_eq o.id l.id) earlier ≡ false
unfolding declared
declared-new known earlier l e = elim (Bool-cases (text_eq l.id [])) [
  | inl a ↦ (let e' = rw (a, declared) at e in cc)
  | inr b ↦ elim (Bool-cases (exists (λ o. text_eq o.id l.id) earlier)) [
    | inl c ↦ (let e' = rw (b, c, declared) at e in cc)
    | inr d ↦ d
  ]
]

-- A loop that is declared has no id of an earlier one.
all_declared-new :
    (known : List Text) (earlier loops : List LoopSpec) {o l : LoopSpec}
    → all_declared known earlier loops ≡ none
    → Memᴰ o earlier
    → Memᴰ l loops
    → text_eq o.id l.id ≡ false
unfolding all_declared
all_declared-new known earlier [] e i j = elim j [ ]
all_declared-new known earlier (x ∷ loops) {o} {l} e i (Memᴰ.head same) =
    let (first_one, rest) =
      and_then-none (declared known earlier x) (all_declared known (x ∷ earlier) loops) e in
    elim (Bool-cases (text_eq o.id l.id)) [
      | inr f ↦ f
      | inl t ↦
          let t' : text_eq o.id x.id ≡ true =
            subst (λ (y : LoopSpec). text_eq o.id y.id ≡ true) same t in
          let found = mem-exists (λ y. text_eq y.id x.id) earlier i t' in
          (let new = declared-new known earlier x first_one in cc)
    ]
all_declared-new known earlier (x ∷ loops) e i (Memᴰ.tail j) =
    let (first_one, rest) =
      and_then-none (declared known earlier x) (all_declared known (x ∷ earlier) loops) e in
    all_declared-new known (x ∷ earlier) loops rest (Memᴰ.tail i) j

-- So the lookup of its id finds it.
pub find_loop-declared :
    (known : List Text) (earlier loops : List LoopSpec) {l : LoopSpec}
    → all_declared known earlier loops ≡ none
    → Memᴰ l loops
    → find_loop l.id loops ≡ some l
unfolding all_declared find_loop first
find_loop-declared known earlier [] e i = elim i [ ]
find_loop-declared known earlier (x ∷ loops) {l} e (Memᴰ.head same) =
    let t : text_eq x.id l.id ≡ true = rw same (text_eq_refl x.id) in
    rw (t, find_loop, first) (ap some (sym same))
find_loop-declared known earlier (x ∷ loops) {l} e (Memᴰ.tail i) =
    let (first_one, rest) =
      and_then-none (declared known earlier x) (all_declared known (x ∷ earlier) loops) e in
    let f = all_declared-new known (x ∷ earlier) loops rest (Memᴰ.head refl) i in
    rw (f, find_loop, first) (find_loop-declared known (x ∷ earlier) loops rest i)

within-Inside : (p l : LoopSpec) → within p.nodes l.nodes ≡ none → Inside l p
unfolding within
within-Inside p l e id i =
    let h = first-none (λ x. fail_if outside_parent (not (among x p.nodes))) l.nodes e i in
    let n = fail_if-none outside_parent (not (among id p.nodes)) h in
    among-mem id p.nodes (ground (arith, n))

-- A loop with a parent lies inside of it.
parent_check-Inside :
    (loops : List LoopSpec) (l p : LoopSpec)
    → parent_check loops l ≡ none
    → text_eq l.parent [] ≡ false
    → find_loop l.parent loops ≡ some p
    → Inside l p
unfolding parent_check
parent_check-Inside loops l p c below found =
    let (_, w) =
      and_then-none (parent_walk loops (suc (length loops)) (l.id ∷ []) l.parent)
        (within p.nodes l.nodes) (rw (below, found, parent_check) at c) in
    within-Inside p l w

-- A loop lies inside each of its ancestors.
in_chain-Inside :
    (loops : List LoopSpec)
    → ((l : LoopSpec) → Memᴰ l loops → parent_check loops l ≡ none)
    → (t : LoopSpec) → find_loop t.id loops ≡ some t
    → (fuel : ℕ) (l : LoopSpec) → Memᴰ l loops
    → in_chain loops t.id fuel l.parent ≡ some true
    → Inside l t
unfolding in_chain
in_chain-Inside loops c t at_t zero l i e = (cc)
in_chain-Inside loops c t at_t (suc fuel) l i e = elim (Bool-cases (text_eq l.parent [])) [
  | inl top ↦ (let e' = rw (top, in_chain) at e in cc)
  | inr below ↦ elim (Bool-cases (text_eq l.parent t.id)) [
    | inl hit ↦
        let found = ap (λ (x : Text). find_loop x loops) (text_eq_sound l.parent t.id hit) ∙ at_t in
        parent_check-Inside loops l t (c l i) below found
    | inr other ↦ elim (Option-cases (find_loop l.parent loops)) [
      | inl gone ↦ (let e' = rw (below, other, gone, in_chain) at e in cc)
      | inr (p, found) ↦
          let (j, _) = find_loop-some l.parent loops p found in
          let up =
            in_chain-Inside loops c t at_t fuel p j (rw (below, other, found, in_chain) at e) in
          λ id m. up id (parent_check-Inside loops l p (c l i) below found id m)
    ]
  ]
]

or_in_chain-true :
    (x y : Option Bool) → or_in_chain x y ≡ some true → (x ≡ some true) ⊎ (y ≡ some true)
unfolding or_in_chain
or_in_chain-true none y e = (cc)
or_in_chain-true (some true) y e = inl refl
or_in_chain-true (some false) y e = inr e

apart_unless-none :
    (r : Option Bool) (a b : LoopSpec) → apart_unless r a b ≡ none → (r ≡ some true) ⊎ Disjoint a b
unfolding apart_unless
apart_unless-none none a b e = (cc)
apart_unless-none (some true) a b e = inl refl
apart_unless-none (some false) a b e = inr (λ id i j.
    let h = first-none (λ x. fail_if shared_node (among x b.nodes)) a.nodes e i in
    let n = fail_if-none shared_node (among id b.nodes) h in let m = mem-among id b.nodes j in (cc))

Compared : List LoopSpec → LoopSpec → LoopSpec → Type 0
Compared loops a b = apart_unless (loops_related loops a b) a b ≡ none

pairs_apart-at :
    (loops rest : List LoopSpec) (a b : LoopSpec)
    → pairs_apart loops rest ≡ none
    → Memᴰ a rest
    → Memᴰ b rest
    → (a ≡ b) ⊎ (Compared loops a b ⊎ Compared loops b a)
unfolding pairs_apart Compared
pairs_apart-at loops [] a b e i j = elim i [ ]
pairs_apart-at loops (x ∷ rest) a b e i j =
    let (one, others) =
      and_then-none (first (λ y. apart_unless (loops_related loops x y) x y) rest)
        (pairs_apart loops rest) e in
    elim (Memᴰ.cases_cons i) [
      | inl p ↦ elim (Memᴰ.cases_cons j) [
        | inl q ↦ inl (p ∙ sym q)
        | inr j' ↦
            inr (
              inl (subst (λ (y : LoopSpec). Compared loops y b) (sym p) (first-none _ rest one j')))
      ]
      | inr i' ↦ elim (Memᴰ.cases_cons j) [
        | inl q ↦
            inr (
              inr (subst (λ (y : LoopSpec). Compared loops y a) (sym q) (first-none _ rest one i')))
        | inr j' ↦ pairs_apart-at loops rest a b others i' j'
      ]
    ]

-- Two loops that the validation has compared.
Compared-Inside :
    (loops : List LoopSpec)
    → ((l : LoopSpec) → Memᴰ l loops → parent_check loops l ≡ none)
    → ((l : LoopSpec) → Memᴰ l loops → find_loop l.id loops ≡ some l)
    → (a b : LoopSpec) → Memᴰ a loops
    → Memᴰ b loops
    → Compared loops a b
    → Inside a b ⊎ (Inside b a ⊎ Disjoint a b)
unfolding Compared loops_related loop_in_chain
Compared-Inside loops c at a b i j e = elim (apart_unless-none (loops_related loops a b) a b e) [
  | inr apart ↦ inr (inr apart)
  | inl r ↦ elim (or_in_chain-true (loop_in_chain loops a b.id) (loop_in_chain loops b a.id) r) [
    | inl up ↦ inl (in_chain-Inside loops c b (at b j) (suc (length loops)) a i up)
    | inr up ↦ inr (inl (in_chain-Inside loops c a (at a i) (suc (length loops)) b j up))
  ]
]

module _ (d : WorkflowDefinition) (e : validate_loops d ≡ none) where
  checked : (l : LoopSpec) → Memᴰ l d.loops → parent_check d.loops l ≡ none
  checked l i = first-none (parent_check d.loops) d.loops (validate_loops-Passed d e).parents i

  found : (l : LoopSpec) → Memᴰ l d.loops → find_loop l.id d.loops ≡ some l
  found l i =
      find_loop-declared (map (λ n. n.id) d.nodes) [] d.loops (validate_loops-Passed d e).declares i

  -- In a definition whose loops are accepted, the loops are nested or apart: of two loops, the nodes of one
  -- are all in the other, or they share no node.
  pub validate_loops-nested :
      (a b : LoopSpec) → Memᴰ a d.loops → Memᴰ b d.loops → Inside a b ⊎ (Inside b a ⊎ Disjoint a b)
  validate_loops-nested a b i j =
      elim (pairs_apart-at d.loops d.loops a b (validate_loops-Passed d e).pairs i j) [
        | inl same ↦ inl (λ id m. subst (λ (y : LoopSpec). Memᴰ id y.nodes) same m)
        | inr (inl x) ↦ Compared-Inside d.loops checked found a b i j x
        | inr (inr x) ↦ elim (Compared-Inside d.loops checked found b a j i x) [
          | inl q ↦ inr (inl q)
          | inr (inl q) ↦ inl q
          | inr (inr q) ↦ inr (inr (λ id m n. q id n m))
        ]
      ]

  -- In a definition whose loops are accepted, a loop that has another in its chain of parents, however far up,
  -- has no node that the other has not.
  pub loop_in_chain-Inside :
      (a b : LoopSpec)
      → Memᴰ a d.loops
      → Memᴰ b d.loops
      → loop_in_chain d.loops a b.id ≡ some true
      → Inside a b
  unfolding loop_in_chain
  loop_in_chain-Inside a b i j up =
      in_chain-Inside d.loops checked b (found b j) (suc (length d.loops)) a i up
