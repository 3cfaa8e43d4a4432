-- ===== src/Workflow/Cycles/Release.antt =====
-- What processing a node does to the counters and to the queue, `detectCycle` of pkg/workflowspec/definition.go.
use asgard.Prelude.{
  ℕ, ◌+◌, ◌-◌, ◌≡◌, refl, sym, ◌∙◌, ap, subst, inl, inr, Bool, true, false, List, [], ◌∷◌, ◌++◌,
  append_assoc, append-nil, Memᴰ, Unique, Text, length, ◌==◌, text_eq, text_eq_sound, text_eq_refl,
  text_eq_complete, if◌then◌else◌, keep_if, exists, arith, Bool-cases,
}
use asgard.Workflow.{among}
use asgard.Workflow.Loops.Laminar.{among-mem}
use asgard.Workflow.Cycles.{decremented, released}
use asgard.Workflow.Cycles.Counts.{lacking}
use asgard.Workflow.Cycles.Lists.{keep_if_same}

among_here : (x y : Text) (xs : List Text) → text_eq x y ≡ true → among y (x ∷ xs) ≡ true
unfolding among exists
among_here x y xs t = rw (t, among, exists) refl

among_later : (x y : Text) (xs : List Text) → text_eq x y ≡ false → among y (x ∷ xs) ≡ among y xs
unfolding among exists
among_later x y xs f = rw (f, among, exists) refl

pub differs : (x y : Text) → text_eq x y ≡ false → text_eq y x ≡ false
differs x y f = elim (Bool-cases (text_eq y x)) [
  | inr g ↦ g
  | inl t ↦ (let t' = text_eq_complete x y (sym (text_eq_sound y x t)) in cc)
]

pub absent : (x : Text) (xs : List Text) → (Memᴰ x xs → ⊥) → among x xs ≡ false
absent x xs f = elim (Bool-cases (among x xs)) [
  | inr g ↦ g
  | inl t ↦ elim (f (among-mem x xs t)) [ ]
]

-- One more that is done is one less that is lacking, where it is needed.
pub length-lacking :
    (id : Text) (done xs : List Text)
    → Unique xs
    → among id done ≡ false
    → length (lacking done xs) ≡ length (lacking (id ∷ done) xs) + (if among id xs then 1 else 0)
unfolding keep_if
length-lacking id done [] u new = elim (Bool-cases (among id [])) [
  | inl t ↦ elim (among-mem id [] t) [ ]
  | inr f ↦ rw f refl
]
length-lacking id done (x ∷ xs) (f, u) new =
    let rest = length-lacking id done xs u new in
    elim (Bool-cases (text_eq x id)) [
      | inl t ↦
          let e = text_eq_sound x id t in
          let a : among x done ≡ false = rw e new in
          let b = among_here id x done (text_eq_complete id x (sym e)) in
          let c = among_here x id xs t in
          let d : among id xs ≡ false =
            absent id xs (λ i. f (subst (λ (y : Text). Memᴰ y xs) (sym e) i)) in
          let rest' : length (lacking done xs) ≡ length (lacking (id ∷ done) xs) + 0 =
            rw d at rest in
          rw (a, b, c) (omega arith)
      | inr g ↦
          let b = among_later id x done (differs x id g) in
          let c = among_later x id xs g in
          elim (Bool-cases (among x done)) [
            | inl t ↦ rw (b, c, t) rest
            | inr n ↦ rw (b, c, n) (omega (arith, rest))
          ]
    ]

decremented_self : (degree : Text → ℕ) (x : Text) → decremented degree x x ≡ degree x - 1
unfolding decremented
decremented_self degree x = rw (text_eq_refl x) refl

decremented_other :
    (degree : Text → ℕ) (x y : Text) → text_eq y x ≡ false → decremented degree x y ≡ degree y
unfolding decremented
decremented_other degree x y f = rw f refl

-- The counters of the dependents go down by one.
pub released-degree :
    (degree : Text → ℕ) (queue nexts : List Text) (x : Text)
    → Unique nexts
    → (released degree queue nexts).0 x ≡ (if among x nexts then degree x - 1 else degree x)
unfolding released
released-degree degree queue [] x u = elim (Bool-cases (among x [])) [
  | inl t ↦ elim (among-mem x [] t) [ ]
  | inr f ↦ rw f refl
]
released-degree degree queue (y ∷ nexts) x (f, u) =
    let less = decremented degree y in
    let rest = released-degree less (if less y == 0 then queue ++ y ∷ [] else queue) nexts x u in
    elim (Bool-cases (text_eq y x)) [
      | inl t ↦
          let e = text_eq_sound y x t in
          let gone : among x nexts ≡ false =
            absent x nexts (λ i. f (subst (λ (z : Text). Memᴰ z nexts) (sym e) i)) in
          let rest' = rw gone at rest in
          rw (among_here y x nexts t) (
            rest'
            ∙ subst (λ (z : Text). decremented degree y z ≡ degree z - 1) e
                (decremented_self degree y))
      | inr g ↦
          let same = decremented_other degree y x (differs y x g) in
          rw (among_later y x nexts g)
            (rest ∙ ap (λ (k : ℕ). if among x nexts then k - 1 else k) same)
    ]

-- And those whose counter is down to zero are queued.
pub released-queue :
    (degree : Text → ℕ) (queue nexts : List Text)
    → Unique nexts
    → (released degree queue nexts).1 ≡ queue ++ keep_if (λ x. degree x - 1 == 0) nexts
unfolding released keep_if
released-queue degree queue [] u = sym (append-nil queue)
released-queue degree queue (y ∷ nexts) (f, u) =
    let less = decremented degree y in
    let self = decremented_self degree y in
    let same =
      keep_if_same (λ x. less x - 1 == 0) (λ x. degree x - 1 == 0) nexts
        (λ x i.
          ap (λ (k : ℕ). k - 1 == 0)
            (decremented_other degree y x (elim (Bool-cases (text_eq x y)) [
              | inr g ↦ g
              | inl t ↦ elim (f (subst (λ (z : Text). Memᴰ z nexts) (text_eq_sound x y t) i)) [ ]
            ]))) in
    let rest = released-queue less (if less y == 0 then queue ++ y ∷ [] else queue) nexts u in
    rest
    ∙ (ap (λ (l : List Text). (if less y == 0 then queue ++ y ∷ [] else queue) ++ l) same
        ∙ (ap
              (λ (k : ℕ).
                (if k == 0 then queue ++ y ∷ [] else queue)
                ++ keep_if (λ x. degree x - 1 == 0) nexts)
              self
            ∙ push (degree y - 1 == 0) (keep_if (λ x. degree x - 1 == 0) nexts)))
  where
    push :
        (b : Bool) (rest : List Text)
        → (if b then queue ++ y ∷ [] else queue) ++ rest ≡ queue ++ (if b then y ∷ rest else rest)
    push true rest = append_assoc queue (y ∷ []) rest
    push false rest = refl
