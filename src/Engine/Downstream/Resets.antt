-- ===== src/Engine/Downstream/Resets.antt =====
-- `resetDescendantLoops` of backend/lib/workflow/engine.go against `loopInChain` of
-- pkg/workflowspec/definition.go.
use asgard.Prelude.{
  ℕ, zero, suc, ◌≡◌, ◌≢◌, refl, sym, ap, ◌∙◌, subst, ◌⊎◌, inl, inr, true, false, not, ◌&&◌, List,
  [], ◌∷◌, foldl, Memᴰ, Text, none, some, length, text_eq, text_eq_sound, text_eq_refl, mem-keep_if,
  keep_if-mem, &&_split, arith, Bool-cases, Option-cases,
}
use asgard.Workflow.{LoopSpec, WorkflowDefinition, find_loop}
use asgard.Workflow.Loops.{in_chain, loop_in_chain, validate_loops}
use asgard.Engine.{State, put, child_loops}
use asgard.Engine.Downstream.{reset_descendants, reset_below}
use asgard.Workflow.Loops.Laminar.{find_loop-declared}
use asgard.Workflow.Loops.Parents.{find_loop-some, validate_loops-Passed}
use asgard.Workflow.Cycles.{ids}

-- The loops at most so many levels below a loop.
data Below (loops : List LoopSpec) : ℕ → Text → LoopSpec → Type 0 where
  child :
      {k : ℕ} {id : Text} {l : LoopSpec} → Memᴰ l (child_loops loops id) → Below loops (suc k) id l
  deeper :
      {k : ℕ} {id : Text} {l : LoopSpec} (c : LoopSpec)
      → Memᴰ c (child_loops loops id)
      → Below loops k c.id l
      → Below loops (suc k) id l

-- A child is a loop whose parent is set to the id.
mem-child :
    (loops : List LoopSpec) (id : Text) (l : LoopSpec)
    → Memᴰ l (child_loops loops id)
    → Memᴰ l loops × (text_eq l.parent [] ≡ false) × (text_eq l.parent id ≡ true)
unfolding child_loops
mem-child loops id l i =
    let (j, h) =
      mem-keep_if (λ (m : LoopSpec). not (text_eq m.parent []) && text_eq m.parent id) loops i in
    let (a, b) = &&_split (not (text_eq l.parent [])) (text_eq l.parent id) h in
    (j, ground (arith, a), b)

child-mem :
    (loops : List LoopSpec) (id : Text) (l : LoopSpec)
    → Memᴰ l loops
    → text_eq l.parent [] ≡ false
    → text_eq l.parent id ≡ true
    → Memᴰ l (child_loops loops id)
unfolding child_loops
child-mem loops id l i a b =
    keep_if-mem (λ (m : LoopSpec). not (text_eq m.parent []) && text_eq m.parent id) loops i
      (rw (a, b) refl)

module _ (loops : List LoopSpec) where
  -- What a loop over children leaves: a counter as it was, or zero.
  each : (below : Text → (Text → ℕ) → Text → ℕ) → (Text → ℕ) → List LoopSpec → Text → ℕ
  each below counts children =
      foldl (λ counts (c : LoopSpec). below c.id (put c.id 0 counts)) counts children

  put-zero :
      (id : Text) (c : Text → ℕ) (x : Text) → (put id 0 c x ≡ c x) ⊎ ((put id 0 c x ≡ 0) × (id ≡ x))
  unfolding put
  put-zero id c x = elim (Bool-cases (text_eq id x)) [
    | inl t ↦ inr (rw (t, put) refl, text_eq_sound id x t)
    | inr f ↦ inl (rw (f, put) refl)
  ]

  -- A counter is kept, or it is zero and that of a loop below.
  abbrev Outcome : ℕ → Text → (Text → ℕ) → (Text → ℕ) → Text → Type 0
  Outcome k id before after x =
      (after x ≡ before x) ⊎ ((after x ≡ 0) × ((l : LoopSpec) × Below loops k id l × (l.id ≡ x)))

  each-Outcome :
      (k : ℕ) (id : Text) (below : Text → (Text → ℕ) → Text → ℕ)
      → ((next : Text) (c : Text → ℕ) (x : Text) → Outcome k next c (below next c) x)
      → (children : List LoopSpec)
      → ((m : LoopSpec) → Memᴰ m children → Memᴰ m (child_loops loops id))
      → (c : Text → ℕ) (x : Text) → Outcome (suc k) id c (each below c children) x
  unfolding each
  each-Outcome k id below h [] into c x = inl refl
  each-Outcome k id below h (m ∷ children) into c x =
      let i = into m (Memᴰ.head refl) in
      elim (each-Outcome k id below h children (λ n j. into n (Memᴰ.tail j))
        (below m.id (put m.id 0 c)) x) [
          | inr z ↦ inr z
          | inl e ↦ elim (h m.id (put m.id 0 c) x) [
            | inr (z, (l, b, same)) ↦ inr (e ∙ z, (l, Below.deeper m i b, same))
            | inl f ↦ elim (put-zero m.id c x) [
              | inl g ↦ inl (e ∙ (f ∙ g))
              | inr (z, same) ↦ inr (e ∙ (f ∙ z), (m, Below.child i, same))
            ]
          ]
        ]

  reset-Outcome :
      (k : ℕ) (id : Text) (c : Text → ℕ) (x : Text)
      → Outcome k id c (reset_descendants loops k id c) x
  unfolding reset_descendants each
  reset-Outcome zero id c x = inl refl
  reset-Outcome (suc k) id c x =
      each-Outcome k id (λ next d. reset_descendants loops k next d)
        (λ next d y. reset-Outcome k next d y) (child_loops loops id) (λ m i. i) c x

  -- Zero stays.
  Outcome-zero :
      (k : ℕ) (id : Text) (before after : Text → ℕ) (x : Text)
      → Outcome k id before after x
      → before x ≡ 0
      → after x ≡ 0
  Outcome-zero k id before after x (inl e) z = e ∙ z
  Outcome-zero k id before after x (inr r) z = r.0

  each-zero :
      (k : ℕ) (id : Text) (children : List LoopSpec)
      → ((m : LoopSpec) → Memᴰ m children → Memᴰ m (child_loops loops id))
      → (m : LoopSpec) → Memᴰ m children
      → (x : Text) → ((d : Text → ℕ) → reset_descendants loops k m.id (put m.id 0 d) x ≡ 0)
      → (c : Text → ℕ) → each (λ next d. reset_descendants loops k next d) c children x ≡ 0
  unfolding each
  each-zero k id [] into m i x h c = elim i [ ]
  each-zero k id (n ∷ children) into m (Memᴰ.head same) x h c =
      let next = reset_descendants loops k n.id (put n.id 0 c) in
      let z : next x ≡ 0 =
        subst (λ (y : LoopSpec). reset_descendants loops k y.id (put y.id 0 c) x ≡ 0) same (h c) in
      Outcome-zero (suc k) id next (each (λ next d. reset_descendants loops k next d) next children)
        x
        (each-Outcome k id (λ next d. reset_descendants loops k next d)
          (λ next d y. reset-Outcome k next d y) children (λ o j. into o (Memᴰ.tail j)) next x)
        z
  each-zero k id (n ∷ children) into m (Memᴰ.tail i) x h c =
      each-zero k id children (λ o j. into o (Memᴰ.tail j)) m i x h
        (reset_descendants loops k n.id (put n.id 0 c))

  reset-Below :
      (k : ℕ) (id : Text) (l : LoopSpec)
      → Below loops k id l
      → (c : Text → ℕ) → reset_descendants loops k id c l.id ≡ 0
  unfolding reset_descendants each put
  reset-Below zero id l b c = elim b [ ]
  reset-Below (suc k) id l (Below.child i) c =
      each-zero k id (child_loops loops id) (λ m j. j) l i l.id
        (λ d.
          Outcome-zero k l.id (put l.id 0 d) (reset_descendants loops k l.id (put l.id 0 d)) l.id
            (reset-Outcome k l.id (put l.id 0 d) l.id) (rw (text_eq_refl l.id, put) refl))
        c
  reset-Below (suc k) id l (Below.deeper m i b) c =
      each-zero k id (child_loops loops id) (λ n j. j) m i l.id
        (λ d. reset-Below k m.id l b (put m.id 0 d)) c

-- The loops below another are those that have it among their ancestors.
module _ (defn : WorkflowDefinition) (valid : validate_loops defn ≡ none) where
  found : (l : LoopSpec) → Memᴰ l defn.loops → find_loop l.id defn.loops ≡ some l
  found l i =
      find_loop-declared (ids defn.nodes) [] defn.loops (validate_loops-Passed defn valid).declares
        i

  pub same_loop : (l m : LoopSpec) → Memᴰ l defn.loops → Memᴰ m defn.loops → l.id ≡ m.id → l ≡ m
  same_loop l m i j e =
      let a = found l i in
      let b = found m j in
      let both : some l ≡ some m = sym a ∙ (ap (λ id. find_loop id defn.loops) e ∙ b) in cc

  -- One more level up: the parent of the ancestor that was found.
  in_chain-parent :
      (m : LoopSpec) (id cur : Text) (k : ℕ)
      → Memᴰ m defn.loops
      → text_eq m.parent [] ≡ false
      → text_eq m.parent id ≡ true
      → in_chain defn.loops m.id k cur ≡ some true
      → in_chain defn.loops id (suc k) cur ≡ some true
  unfolding in_chain
  in_chain-parent m id cur zero i a b h = cc
  in_chain-parent m id cur (suc k) i a b h = elim (Bool-cases (text_eq cur [])) [
    | inl t ↦ (let h' = rw (t, in_chain) at h in cc)
    | inr f ↦ elim (Bool-cases (text_eq cur id)) [
      | inl t ↦ rw (f, t, in_chain) refl
      | inr g ↦ elim (Bool-cases (text_eq cur m.id)) [
        | inl t ↦
            let e : find_loop cur defn.loops ≡ some m =
              ap (λ x. find_loop x defn.loops) (text_eq_sound cur m.id t) ∙ found m i in
            let last : in_chain defn.loops id (suc k) m.parent ≡ some true =
              rw (a, b, in_chain) refl in
            rw (f, g, e, in_chain) last
        | inr n ↦ elim (Option-cases (find_loop cur defn.loops)) [
          | inl none_there ↦ (let h' = rw (f, n, none_there, in_chain) at h in cc)
          | inr (p, e) ↦
              let up = in_chain-parent m id p.parent k i a b (rw (f, n, e, in_chain) at h) in
              rw (f, g, e, in_chain) up
        ]
      ]
    ]
  ]

  Below-in_chain :
      (k : ℕ) (id : Text) (l : LoopSpec)
      → Below defn.loops k id l
      → in_chain defn.loops id k l.parent ≡ some true
  unfolding in_chain
  Below-in_chain zero id l b = elim b [ ]
  Below-in_chain (suc k) id l (Below.child i) =
      let (j, a, b) = mem-child defn.loops id l i in rw (a, b, in_chain) refl
  Below-in_chain (suc k) id l (Below.deeper m i deep) =
      let (j, a, b) = mem-child defn.loops id m i in
      in_chain-parent m id l.parent k j a b (Below-in_chain k m.id l deep)

  Below-child :
      (k : ℕ) (id : Text) (p l : LoopSpec)
      → Below defn.loops k id p
      → Memᴰ l (child_loops defn.loops p.id)
      → Below defn.loops (suc k) id l
  Below-child zero id p l b j = elim b [ ]
  Below-child (suc k) id p l (Below.child i) j = Below.deeper p i (Below.child j)
  Below-child (suc k) id p l (Below.deeper m i b) j = Below.deeper m i (Below-child k m.id p l b j)

  in_chain-Below :
      (k : ℕ) (id : Text) (l : LoopSpec)
      → Memᴰ l defn.loops
      → in_chain defn.loops id k l.parent ≡ some true
      → Below defn.loops k id l
  unfolding in_chain
  in_chain-Below zero id l i h = cc
  in_chain-Below (suc k) id l i h = elim (Bool-cases (text_eq l.parent [])) [
    | inl t ↦ (let h' = rw (t, in_chain) at h in cc)
    | inr f ↦ elim (Bool-cases (text_eq l.parent id)) [
      | inl t ↦ Below.child (child-mem defn.loops id l i f t)
      | inr g ↦ elim (Option-cases (find_loop l.parent defn.loops)) [
        | inl none_there ↦ (let h' = rw (f, g, none_there, in_chain) at h in cc)
        | inr (p, e) ↦
            let (j, same) = find_loop-some l.parent defn.loops p e in
            let up = in_chain-Below k id p j (rw (f, g, e, in_chain) at h) in
            Below-child k id p l up
              (child-mem defn.loops p.id l i f (rw same (text_eq_refl l.parent)))
      ]
    ]
  ]

  Below-mem : (k : ℕ) (id : Text) (l : LoopSpec) → Below defn.loops k id l → Memᴰ l defn.loops
  Below-mem zero id l b = elim b [ ]
  Below-mem (suc k) id l (Below.child i) = (mem-child defn.loops id l i).0
  Below-mem (suc k) id l (Below.deeper m i b) = Below-mem k m.id l b

  -- The counter of a loop of a definition whose loops are accepted is set to zero by resetDescendantLoops if the
  -- loop that is reset is an ancestor of it, as loopInChain of the validation finds; otherwise it is kept.
  pub reset_below-in_chain :
      (id : Text) (s : State) (l : LoopSpec)
      → Memᴰ l defn.loops
      → ((loop_in_chain defn.loops l id ≡ some true)
          × ((reset_below defn id s).loop_iterations l.id ≡ 0))
        ⊎ ((loop_in_chain defn.loops l id ≢ some true)
            × ((reset_below defn id s).loop_iterations l.id ≡ s.loop_iterations l.id))
  unfolding reset_below loop_in_chain
  reset_below-in_chain id s l i =
      let k = suc (length defn.loops) in
      elim (Option-cases (in_chain defn.loops id k l.parent)) [
        | inl n ↦ inr (λ e. (cc), kept (λ e. (cc)))
        | inr (b, e) ↦ elim (Bool-cases b) [
          | inl t ↦
              let yes : in_chain defn.loops id k l.parent ≡ some true = e ∙ ap some t in
              inl
                (yes, reset-Below defn.loops k id l (in_chain-Below k id l i yes) s.loop_iterations)
          | inr f ↦ inr (λ h. (cc), kept (λ h. (cc)))
        ]
      ]
    where
      kept :
          (in_chain defn.loops id (suc (length defn.loops)) l.parent ≢ some true)
          → reset_descendants defn.loops (suc (length defn.loops)) id s.loop_iterations l.id
            ≡ s.loop_iterations l.id
      kept n = elim (reset-Outcome defn.loops (suc (length defn.loops)) id s.loop_iterations l.id) [
        | inl e ↦ e
        | inr (z, (m, b, same)) ↦
            let e = same_loop m l (Below-mem _ id m b) i same in
            elim (n (
              subst
                (λ (x : LoopSpec).
                  in_chain defn.loops id (suc (length defn.loops)) x.parent ≡ some true)
                e (Below-in_chain _ id m b))) [ ]
      ]
