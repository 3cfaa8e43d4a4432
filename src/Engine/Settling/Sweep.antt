-- ===== src/Engine/Settling/Sweep.antt =====
-- What `sweepDormantOrphans` of backend/lib/workflow/engine.go leaves behind.
use asgard.Prelude.{
  ℕ, zero, suc, ◌<◌, ◌≡◌, refl, sym, ap, ◌∙◌, subst, ◌⊎◌, inl, inr, true, false, List, [], ◌∷◌,
  foldl, Memᴰ, Text, Option, none, some, length, text_eq, text_eq_sound, text_eq_refl, arith,
  Bool-cases,
}
use asgard.Prelude.Memᴰ
use asgard.Workflow.{NodeSpec, LoopSpec, WorkflowDefinition}
use asgard.Workflow.Results.{NodeResult}
use asgard.Workflow.Cycles.{ids}
use asgard.Workflow.Cycles.Counts.{mem-ids}
use asgard.Workflow.Loops.{validate_loops}
use asgard.Workflow.Loops.Fallbacks.{validate_loops-HasKnownFallbacks}
use asgard.Engine.{put, is_some, dependents}
use asgard.Engine.Downstream.Lookups.{mem-dependents}
use asgard.Engine.Settling.{dormant, mark, sweep_loops, sweep_dormant_orphans}
use asgard.Engine.Settling.Marks.{
  Marked, unset_count, some-is_some, unset_count_le, Marked-refl, Marked-set, Marked-trans,
  unset_count-Marked, put-unset_count_lt,
}

module _ (nodes : List NodeSpec) where
  -- The loop over the dependents, when each call of `mark` marks its node.
  each-marks :
      (rec : Text → (Text → Option NodeResult) → Text → Option NodeResult) (bound : ℕ)
      → ((id : Text) (r : Text → Option NodeResult)
          → Memᴰ id (ids nodes)
          → unset_count nodes r < bound
          → Marked nodes r (rec id r) × (is_some (rec id r id) ≡ true))
      → (next : List NodeSpec) (r : Text → Option NodeResult)
      → ((n : NodeSpec) → Memᴰ n next → Memᴰ n nodes)
      → unset_count nodes r < bound
      → Marked nodes r (foldl (λ marked (n : NodeSpec). rec n.id marked) r next)
        × ((n : NodeSpec)
            → Memᴰ n next
            → is_some (foldl (λ marked (n : NodeSpec). rec n.id marked) r next n.id) ≡ true)
  each-marks rec bound marks [] r into b = (Marked-refl nodes r, λ n i. elim i [ ])
  each-marks rec bound marks (m ∷ next) r into b =
      let (one, set) = marks m.id r (mem-ids nodes m (into m (Memᴰ.head refl))) b in
      let fewer = unset_count-Marked nodes nodes r (rec m.id r) one in
      let (rest, all_set) =
        each-marks rec bound marks next (rec m.id r) (λ n i. into n (Memᴰ.tail i))
          (omega (arith, fewer, b)) in
      let last = foldl (λ marked (n : NodeSpec). rec n.id marked) (rec m.id r) next in
      (
        Marked-trans nodes r (rec m.id r) last one rest,
        λ n i. elim (Memᴰ.cases_cons i) [
          | inl e ↦
              subst (λ (k : NodeSpec). is_some (last k.id) ≡ true) (sym e)
                (Marked-set nodes (rec m.id r) last rest m.id set)
          | inr j ↦ all_set n j
        ],
      )

  -- A node without a result, and then its dependents.
  put-Marked :
      (id : Text) (r after : Text → Option NodeResult)
      → is_some (r id) ≡ false
      → Marked nodes (put id (some dormant) r) after
      → ((n : NodeSpec) → Memᴰ n (dependents nodes id) → is_some (after n.id) ≡ true)
      → Marked nodes r after × (is_some (after id) ≡ true)
  unfolding put is_some
  put-Marked id r after f m deps =
      let here : put id (some dormant) r id ≡ some dormant = rw (text_eq_refl id) refl in
      let there : after id ≡ some dormant = m.keeps id dormant here in
      (
        record {
          keeps = λ x res e. elim (Bool-cases (text_eq id x)) [
            | inl t ↦
                let same = text_eq_sound id x t in
                let found = some-is_some (r id) res (ap r same ∙ e) in (cc)
            | inr g ↦ m.keeps x res (rw (g, put) e)
          ];
          fresh = λ x e. elim (Bool-cases (text_eq id x)) [
            | inl t ↦
                subst
                  (λ (y : Text).
                    (after y ≡ none)
                    ⊎ ((after y ≡ some dormant)
                        × ((n : NodeSpec)
                            → Memᴰ n (dependents nodes y)
                            → is_some (after n.id) ≡ true)))
                  (text_eq_sound id x t) (inr (there, deps))
            | inr g ↦ m.fresh x (rw (g, put) e)
          ];
        },
        some-is_some (after id) dormant there,
      )

  mark-Marked :
      (fuel : ℕ) (id : Text) (r : Text → Option NodeResult)
      → Memᴰ id (ids nodes)
      → unset_count nodes r < fuel
      → Marked nodes r (mark nodes fuel id r) × (is_some (mark nodes fuel id r id) ≡ true)
  unfolding mark
  mark-Marked zero id r i b = let none_left : ⊥ = omega (arith, b) in elim none_left [ ]
  mark-Marked (suc fuel) id r i b =
      let rec : Text → (Text → Option NodeResult) → Text → Option NodeResult =
        λ next marked. mark nodes fuel next marked in
      elim (Bool-cases (is_some (r id))) [
        | inl t ↦ rw (t, mark) (Marked-refl nodes r, t)
        | inr f ↦
            let less = put-unset_count_lt id r nodes i f in
            let (rest, set) =
              each-marks rec fuel (λ next marked j c. mark-Marked fuel next marked j c)
                (dependents nodes id) (put id (some dormant) r) (λ n j. mem-dependents nodes id n j)
                (omega (arith, less, b)) in
            rw (f, mark) (put-Marked id r _ f rest set)
      ]

module _ (defn : WorkflowDefinition) (valid : validate_loops defn ≡ none) where
  swept :
      (loops : List LoopSpec) (r : Text → Option NodeResult)
      → ((l : LoopSpec) → Memᴰ l loops → Memᴰ l defn.loops)
      → Marked defn.nodes r (sweep_loops defn loops r)
        × ((l : LoopSpec)
            → Memᴰ l loops
            → (l.on_exhausted ≡ []) ⊎ (is_some (sweep_loops defn loops r l.on_exhausted) ≡ true))
  unfolding sweep_loops
  swept [] r into = (Marked-refl defn.nodes r, λ l i. elim i [ ])
  swept (m ∷ loops) r into = elim (Bool-cases (text_eq m.on_exhausted [])) [
    | inl t ↦
        let (rest, set) = swept loops r (λ l i. into l (Memᴰ.tail i)) in
        rw (t, sweep_loops)
          (
            rest,
            λ l i. elim (Memᴰ.cases_cons i) [
              | inl e ↦
                  inl (ap (λ (k : LoopSpec). k.on_exhausted) e ∙ text_eq_sound m.on_exhausted [] t)
              | inr j ↦ set l j
            ],
          )
    | inr f ↦
        let k = validate_loops-HasKnownFallbacks defn valid m (into m (Memᴰ.head refl)) f in
        let b = unset_count_le defn.nodes r in
        let (one, here) =
          mark-Marked defn.nodes (suc (length defn.nodes)) m.on_exhausted r k (omega (arith, b)) in
        let marked = mark defn.nodes (suc (length defn.nodes)) m.on_exhausted r in
        let (rest, set) = swept loops marked (λ l i. into l (Memᴰ.tail i)) in
        rw (f, sweep_loops)
          (
            Marked-trans defn.nodes r marked (sweep_loops defn loops marked) one rest,
            λ l i. elim (Memᴰ.cases_cons i) [
              | inl e ↦ inr (
                  subst
                    (λ (n : LoopSpec).
                      is_some (sweep_loops defn loops marked n.on_exhausted) ≡ true)
                    (sym e)
                    (Marked-set defn.nodes marked (sweep_loops defn loops marked) rest
                      m.on_exhausted here))
              | inr j ↦ set l j
            ],
          )
  ]

  -- The sweep of a definition whose loops are accepted changes no result that is there. It gives the fallback
  -- node of every loop a result if it has none, and then every node that depends on a node it has marked:
  -- all of these results are skips of nodes that were never activated.
  pub sweep_dormant_orphans-Marked :
      (r : Text → Option NodeResult)
      → Marked defn.nodes r (sweep_dormant_orphans defn r)
        × ((l : LoopSpec)
            → Memᴰ l defn.loops
            → (l.on_exhausted ≡ [])
              ⊎ (is_some (sweep_dormant_orphans defn r l.on_exhausted) ≡ true))
  unfolding sweep_dormant_orphans
  sweep_dormant_orphans-Marked r = swept defn.loops r (λ l i. i)
