-- ===== src/Engine/Settling/Marks.antt =====
-- The results that `sweepDormantOrphans` of backend/lib/workflow/engine.go adds, and how many are missing.
use asgard.Prelude.{
  ℕ, suc, ◌≤◌, ◌<◌, ◌≡◌, refl, sym, ◌⊎◌, inl, inr, true, false, List, [], ◌∷◌, Memᴰ, Text, Option,
  none, some, length, text_eq, text_eq_refl, if◌then◌else◌, arith, Bool-cases, Option-cases,
}
use asgard.Workflow.{NodeSpec}
use asgard.Workflow.Results.{NodeResult}
use asgard.Workflow.Cycles.{ids}
use asgard.Engine.{put, is_some, dependents}
use asgard.Engine.Settling.{dormant}

-- What is there stays. A node that has got a result was marked as never activated, and then so was, or had
-- a result before, every node that depends on it.
pub record Marked (nodes : List NodeSpec) (before after : Text → Option NodeResult) : Type 0 where
  pub keeps : (x : Text) (res : NodeResult) → before x ≡ some res → after x ≡ some res
  pub fresh :
      (x : Text)
      → before x ≡ none
      → (after x ≡ none)
        ⊎ ((after x ≡ some dormant)
            × ((n : NodeSpec) → Memᴰ n (dependents nodes x) → is_some (after n.id) ≡ true))

-- How many nodes have no result.
unfoldable pub unset_count : List NodeSpec → (Text → Option NodeResult) → ℕ
unfolding is_some
unset_count [] results = 0
unset_count (n ∷ nodes) results =
    let rest = unset_count nodes results in if is_some (results n.id) then rest else suc rest

pub some-is_some {ℓ} : {A : Type ℓ} (o : Option A) (a : A) → o ≡ some a → is_some o ≡ true
unfolding is_some
some-is_some o a e = rw e refl

pub none-is_some {ℓ} : {A : Type ℓ} (o : Option A) → is_some o ≡ false → o ≡ none
unfolding is_some
none-is_some none e = refl
none-is_some (some a) e = (cc)

pub unset_count_le :
    (nodes : List NodeSpec) (results : Text → Option NodeResult)
    → unset_count nodes results ≤ length nodes
unfolding unset_count
unset_count_le [] results = omega arith
unset_count_le (n ∷ nodes) results = let h = unset_count_le nodes results in ground arith

module _ (all : List NodeSpec) where
  pub Marked-refl : (r : Text → Option NodeResult) → Marked all r r
  Marked-refl r = record { keeps = λ x res e. e; fresh = λ x e. inl e }

  pub Marked-set :
      (a b : Text → Option NodeResult)
      → Marked all a b
      → (x : Text) → is_some (a x) ≡ true
      → is_some (b x) ≡ true
  unfolding is_some
  Marked-set a b m x e = elim (Option-cases (a x)) [
    | inl n ↦ (let e' = rw n at e in cc)
    | inr (res, s) ↦ some-is_some (b x) res (m.keeps x res s)
  ]

  pub Marked-trans :
      (a b c : Text → Option NodeResult) → Marked all a b → Marked all b c → Marked all a c
  Marked-trans a b c m k = record {
    keeps = λ x res e. k.keeps x res (m.keeps x res e);
    fresh = λ x e. elim (m.fresh x e) [
      | inl n ↦ k.fresh x n
      | inr (s, deps) ↦ inr (k.keeps x dormant s, λ n i. Marked-set b c k n.id (deps n i))
    ];
  }

  pub unset_count-Marked :
      (nodes : List NodeSpec) (a b : Text → Option NodeResult)
      → Marked all a b
      → unset_count nodes b ≤ unset_count nodes a
  unfolding unset_count
  unset_count-Marked [] a b m = omega arith
  unset_count-Marked (n ∷ nodes) a b m =
      let h = unset_count-Marked nodes a b m in
      elim (Bool-cases (is_some (a n.id))) [
        | inl t ↦ rw (t, Marked-set a b m n.id t, unset_count) h
        | inr f ↦ rw (f, unset_count) (ground (arith, h))
      ]

pub put-set :
    (id : Text) (r : Text → Option NodeResult) (x : Text)
    → is_some (r x) ≡ true
    → is_some (put id (some dormant) r x) ≡ true
unfolding put is_some
put-set id r x e = elim (Bool-cases (text_eq id x)) [
  | inl t ↦ rw (t, put) refl
  | inr f ↦ rw (f, put) e
]

pub put-unset_count_le :
    (id : Text) (r : Text → Option NodeResult) (nodes : List NodeSpec)
    → unset_count nodes (put id (some dormant) r) ≤ unset_count nodes r
unfolding unset_count
put-unset_count_le id r [] = omega arith
put-unset_count_le id r (n ∷ nodes) =
    let h = put-unset_count_le id r nodes in
    elim (Bool-cases (is_some (r n.id))) [
      | inl t ↦ rw (t, put-set id r n.id t, unset_count) h
      | inr f ↦ rw (f, unset_count) (ground (arith, h))
    ]

pub put-unset_count_lt :
    (id : Text) (r : Text → Option NodeResult) (nodes : List NodeSpec)
    → Memᴰ id (ids nodes)
    → is_some (r id) ≡ false
    → unset_count nodes (put id (some dormant) r) < unset_count nodes r
unfolding unset_count put is_some
put-unset_count_lt id r [] i f = elim i [ ]
put-unset_count_lt id r (n ∷ nodes) (Memᴰ.head e) f =
    let h = put-unset_count_le id r nodes in
    let f' : is_some (r n.id) ≡ false = rw (sym e) f in
    let t : is_some (put id (some dormant) r n.id) ≡ true = rw (sym e, put, text_eq_refl id) refl in
    rw (f', t, unset_count) (omega (arith, h))
put-unset_count_lt id r (n ∷ nodes) (Memᴰ.tail i) f =
    let h = put-unset_count_lt id r nodes i f in
    elim (Bool-cases (is_some (r n.id))) [
      | inl t ↦ rw (t, put-set id r n.id t, unset_count) h
      | inr g ↦ rw (g, unset_count) (ground (arith, h))
    ]
