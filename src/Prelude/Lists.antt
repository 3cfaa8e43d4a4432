-- ===== src/Prelude/Lists.antt =====
-- Lists: lengths over the native numbers, predicates by recursion, and the loops that return early.
use Prim.Native.Nat.{ℕ, suc, ◌+◌}
use mathlib.Core.Path.{◌≡◌, refl, sym, ap, ◌∙◌, subst}
use mathlib.Core.Logic.{inl, inr}
use mathlib.Core.Bool.{Bool, true, false}
use mathlib.Core.Option.{Option, none, some}
use mathlib.Core.List.Memᴰ
use mathlib.Core.List.{List, [], ◌∷◌, ◌++◌, Memᴰ}
use native.Mathlib.Omega.{arith}
use asgard.Prelude.Tests.{if◌then◌else◌, Bool-cases, Option-cases}

module _ {ℓ} {A : Type ℓ} where
  abbrev pub length : List A → ℕ
  length [] = 0
  length (x ∷ xs) = suc (length xs)

  pub length-append : (xs ys : List A) → length (xs ++ ys) ≡ length xs + length ys
  length-append [] ys = omega arith
  length-append (x ∷ xs) ys = omega (arith, length-append xs ys)

  abbrev pub All {κ} : (A → Type κ) → List A → Type κ
  All P [] = Unit
  All P (x ∷ xs) = P x × All P xs

  pub All-at {κ} : (P : A → Type κ) (xs : List A) {a : A} → All P xs → Memᴰ a xs → P a
  All-at P [] h i = elim i [ ]
  All-at P (x ∷ xs) h (Memᴰ.head e) = subst P (sym e) h.0
  All-at P (x ∷ xs) h (Memᴰ.tail i) = All-at P xs h.1 i

  pub All-of {κ} : (P : A → Type κ) (xs : List A) → ((a : A) → Memᴰ a xs → P a) → All P xs
  All-of P [] f = tt
  All-of P (x ∷ xs) f = (f x (Memᴰ.head refl), All-of P xs (λ a i. f a (Memᴰ.tail i)))

  pub All-append {κ} : (P : A → Type κ) (xs ys : List A) → All P xs → All P ys → All P (xs ++ ys)
  All-append P [] ys hx hy = hy
  All-append P (x ∷ xs) ys hx hy = (hx.0, All-append P xs ys hx.1 hy)

  -- No element stands twice.
  abbrev pub Unique : List A → Type ℓ
  Unique [] = Unit
  Unique (x ∷ xs) = (Memᴰ x xs → ⊥) × Unique xs

  -- A loop that keeps the elements that pass a test.
  unfoldable pub keep_if : (A → Bool) → List A → List A
  keep_if p [] = []
  keep_if p (x ∷ xs) = let rest = keep_if p xs in if p x then x ∷ rest else rest

  pub mem-keep_if :
      (p : A → Bool) (xs : List A) {a : A} → Memᴰ a (keep_if p xs) → Memᴰ a xs × (p a ≡ true)
  unfolding keep_if
  mem-keep_if p [] i = elim i [ ]
  mem-keep_if p (x ∷ xs) {a} i = elim (Bool-cases (p x)) [
    | inl e ↦ elim (Memᴰ.cases_cons (rw (e, keep_if) at i)) [
      | inl same ↦ (Memᴰ.head same, ap p same ∙ e)
      | inr later ↦ let (j, q) = mem-keep_if p xs later in (Memᴰ.tail j, q)
    ]
    | inr e ↦ let (j, q) = mem-keep_if p xs (rw (e, keep_if) at i) in (Memᴰ.tail j, q)
  ]

  pub keep_if-mem :
      (p : A → Bool) (xs : List A) {a : A} → Memᴰ a xs → p a ≡ true → Memᴰ a (keep_if p xs)
  unfolding keep_if
  keep_if-mem p [] i h = elim i [ ]
  keep_if-mem p (x ∷ xs) (Memᴰ.head e) h =
      let e' : p x ≡ true = sym (ap p e) ∙ h in rw (e', keep_if) (Memᴰ.head e)
  keep_if-mem p (x ∷ xs) (Memᴰ.tail i) h = elim (Bool-cases (p x)) [
    | inl e ↦ rw (e, keep_if) (Memᴰ.tail (keep_if-mem p xs i h))
    | inr e ↦ rw (e, keep_if) (keep_if-mem p xs i h)
  ]

  -- A loop that returns true at the first element that passes.
  unfoldable pub exists : (A → Bool) → List A → Bool
  exists p [] = false
  exists p (x ∷ xs) = if p x then true else exists p xs

  pub exists-mem :
      (p : A → Bool) (xs : List A) → exists p xs ≡ true → (a : A) × Memᴰ a xs × (p a ≡ true)
  unfolding exists
  exists-mem p [] h = cc
  exists-mem p (x ∷ xs) h = elim (Bool-cases (p x)) [
    | inl e ↦ (x, Memᴰ.head refl, e)
    | inr e ↦ let (a, i, q) = exists-mem p xs (rw e at h) in (a, Memᴰ.tail i, q)
  ]

  pub mem-exists :
      (p : A → Bool) (xs : List A) {a : A} → Memᴰ a xs → p a ≡ true → exists p xs ≡ true
  unfolding exists
  mem-exists p [] i h = elim i [ ]
  mem-exists p (x ∷ xs) (Memᴰ.head e) h = let e' : p x ≡ true = sym (ap p e) ∙ h in rw e'
  mem-exists p (x ∷ xs) (Memᴰ.tail i) h = ground (arith, mem-exists p xs i h)

module _ {ℓ κ} {A : Type ℓ} {B : Type κ} where
  -- A loop that returns the first result.
  unfoldable pub first : (A → Option B) → List A → Option B
  first f [] = none
  first f (x ∷ xs) = elim (f x) [ some b ↦ some b | none ↦ first f xs ]

  pub first-none :
      (f : A → Option B) (xs : List A) {a : A} → first f xs ≡ none → Memᴰ a xs → f a ≡ none
  unfolding first
  first-none f [] h i = elim i [ ]
  first-none f (x ∷ xs) h (Memᴰ.head e) = elim (Option-cases (f x)) [
    | inl n ↦ ap f e ∙ n
    | inr (b, s) ↦ (let h' = rw (s, first) at h in cc)
  ]
  first-none f (x ∷ xs) h (Memᴰ.tail i) = elim (Option-cases (f x)) [
    | inl n ↦ first-none f xs (rw (n, first) at h) i
    | inr (b, s) ↦ (let h' = rw (s, first) at h in cc)
  ]

  pub first-some :
      (f : A → Option B) (xs : List A) {b : B}
      → first f xs ≡ some b
      → (a : A) × Memᴰ a xs × (f a ≡ some b)
  unfolding first
  first-some f [] h = cc
  first-some f (x ∷ xs) h = elim (Option-cases (f x)) [
    | inl n ↦ let (a, i, q) = first-some f xs (rw (n, first) at h) in (a, Memᴰ.tail i, q)
    | inr (c, s) ↦ (x, Memᴰ.head refl, s ∙ (rw (s, first) at h))
  ]
