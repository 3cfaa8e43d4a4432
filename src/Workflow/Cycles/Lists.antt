-- ===== src/Workflow/Cycles/Lists.antt =====
-- Lists of distinct texts, and what is lacking of one.
use asgard.Prelude.{
  ◌≤◌, ◌<◌, ◌≡◌, refl, sym, subst, ◌⊎◌, inl, inr, Bool, true, not, List, [], ◌∷◌, ◌++◌, Memᴰ,
  Unique, Text, length, text_eq, text_eq_sound, text_eq_refl, keep_if, mem-keep_if, keep_if-mem,
  arith, Bool-cases,
}
use asgard.Prelude.Memᴰ
use asgard.Workflow.{among}
use asgard.Workflow.Loops.Laminar.{among-mem, mem-among}

pub mem-append {ℓ} :
    {A : Type ℓ} {x : A} (xs ys : List A) → Memᴰ x (xs ++ ys) → Memᴰ x xs ⊎ Memᴰ x ys
mem-append [] ys i = inr i
mem-append (y ∷ xs) ys i = elim (Memᴰ.cases_cons i) [
  | inl e ↦ inl (Memᴰ.head e)
  | inr j ↦ elim (mem-append xs ys j) [ inl k ↦ inl (Memᴰ.tail k) | inr k ↦ inr k ]
]

pub append-mem : {x : Text} (xs ys : List Text) → Memᴰ x xs ⊎ Memᴰ x ys → Memᴰ x (xs ++ ys)
append-mem [] ys (inl i) = elim i [ ]
append-mem [] ys (inr i) = i
append-mem (y ∷ xs) ys (inl i) = elim (Memᴰ.cases_cons i) [
  | inl e ↦ Memᴰ.head e
  | inr j ↦ Memᴰ.tail (append-mem xs ys (inl j))
]
append-mem (y ∷ xs) ys (inr i) = Memᴰ.tail (append-mem xs ys (inr i))

pub Unique-append :
    (xs ys : List Text)
    → Unique xs
    → Unique ys
    → ((x : Text) → Memᴰ x xs → Memᴰ x ys → ⊥)
    → Unique (xs ++ ys)
Unique-append [] ys u v d = v
Unique-append (x ∷ xs) ys (f, u) v d = (
  (λ i. elim (mem-append xs ys i) [ inl j ↦ f j | inr j ↦ d x (Memᴰ.head refl) j ]),
  Unique-append xs ys u v (λ y j. d y (Memᴰ.tail j)),
)

pub Unique-keep_if : (p : Text → Bool) (xs : List Text) → Unique xs → Unique (keep_if p xs)
unfolding keep_if
Unique-keep_if p [] u = u
Unique-keep_if p (x ∷ xs) (f, u) = elim (Bool-cases (p x)) [
  | inl e ↦ rw e ((λ i. f (mem-keep_if p xs i).0), Unique-keep_if p xs u)
  | inr e ↦ rw e (Unique-keep_if p xs u)
]

pub keep_if_same :
    (p q : Text → Bool) (xs : List Text)
    → ((x : Text) → Memᴰ x xs → p x ≡ q x)
    → keep_if p xs ≡ keep_if q xs
unfolding keep_if
keep_if_same p q [] h = refl
keep_if_same p q (x ∷ xs) h =
    rw (h x (Memᴰ.head refl), keep_if_same p q xs (λ y j. h y (Memᴰ.tail j))) refl

-- The rest of a list, without one text.
without : Text → List Text → List Text
without x ys = keep_if (λ y. not (text_eq y x)) ys

length-without_le : (x : Text) (ys : List Text) → length (without x ys) ≤ length ys
unfolding without keep_if
length-without_le x [] = omega arith
length-without_le x (y ∷ ys) = let h = length-without_le x ys in ground arith

length-without : (x : Text) (ys : List Text) → Memᴰ x ys → length (without x ys) < length ys
unfolding without keep_if
length-without x [] i = elim i [ ]
length-without x (y ∷ ys) (Memᴰ.head e) =
    let t : text_eq y x ≡ true = rw e (text_eq_refl y) in
    let h = length-without_le x ys in rw (t) (omega arith)
length-without x (y ∷ ys) (Memᴰ.tail i) = let h = length-without x ys i in ground arith

-- Distinct texts among others are no more than those.
pub length-Unique :
    (xs ys : List Text) → Unique xs → ((x : Text) → Memᴰ x xs → Memᴰ x ys) → length xs ≤ length ys
unfolding without
length-Unique [] ys u h = omega arith
length-Unique (x ∷ xs) ys (f, u) h =
    let shorter = length-without x ys (h x (Memᴰ.head refl)) in
    let rest = length-Unique xs (without x ys) u (λ y i.
      keep_if-mem (λ z. not (text_eq z x)) ys (h y (Memᴰ.tail i))
        (elim (Bool-cases (text_eq y x)) [
          | inl t ↦ elim (f (subst (λ (z : Text). Memᴰ z xs) (text_eq_sound y x t) i)) [ ]
          | inr g ↦ rw g refl
        ])) in
    omega arith

-- As many distinct texts among others are all of them.
pub Unique-all :
    (xs ys : List Text)
    → Unique xs
    → ((x : Text) → Memᴰ x xs → Memᴰ x ys)
    → length xs ≡ length ys
    → (y : Text) → Memᴰ y ys
    → Memᴰ y xs
Unique-all xs ys u h e y i = elim (Bool-cases (among y xs)) [
  | inl t ↦ among-mem y xs t
  | inr f ↦
      let more =
        length-Unique (y ∷ xs) ys ((λ j. let t = mem-among y xs j in (cc)), u)
          (λ x j. elim (Memᴰ.cases_cons j) [
            | inl same ↦ subst (λ (z : Text). Memᴰ z ys) (sym same) i
            | inr k ↦ h x k
          ]) in
      let bad : ⊥ = omega arith in elim bad [ ]
]
