-- ===== src/Peers/Lists.antt =====
-- Chains without their last agent, as `leavePeerCall` of backend/lib/api/peer_nesting.go cuts them.
use asgard.Prelude.Memᴰ
use asgard.Prelude.{
  Unique, suc, ◌≡◌, refl, sym, ap, inl, inr, List, [], ◌∷◌, ◌++◌, Memᴰ, Text, length,
}
use asgard.Peers.{but_last}

pub Unique-append :
    (xs : List Text) (t : Text) → Unique xs → (Memᴰ t xs → ⊥) → Unique (xs ++ t ∷ [])
Unique-append [] t u n = ((λ i. elim i [ ]), tt)
Unique-append (a ∷ xs) t (n, u) new = (
  λ i. elim (Memᴰ.append_cases xs i) [
    | inl l ↦ n l
    | inr r ↦ new (Memᴰ.head (sym (Memᴰ.eq_of_singleton r)))
  ],
  Unique-append xs t u (λ i. new (Memᴰ.tail i)),
)

pub mem-but_last : (xs : List Text) {x : Text} → Memᴰ x (but_last xs) → Memᴰ x xs
unfolding but_last
mem-but_last [] i = i
mem-but_last (a ∷ []) i = elim i [ ]
mem-but_last (a ∷ b ∷ xs) (Memᴰ.head e) = Memᴰ.head e
mem-but_last (a ∷ b ∷ xs) (Memᴰ.tail i) = Memᴰ.tail (mem-but_last (b ∷ xs) i)

pub Unique-but_last : (xs : List Text) → Unique xs → Unique (but_last xs)
unfolding but_last
Unique-but_last [] u = tt
Unique-but_last (a ∷ []) u = tt
Unique-but_last (a ∷ b ∷ xs) (n, u) =
    ((λ i. n (mem-but_last (b ∷ xs) i)), Unique-but_last (b ∷ xs) u)

pub length-but_last :
    (a : Text) (xs : List Text) → suc (length (but_last (a ∷ xs))) ≡ length (a ∷ xs)
unfolding but_last
length-but_last a [] = refl
length-but_last a (b ∷ xs) = ap suc (length-but_last b xs)

pub but_last-append : (xs : List Text) (t : Text) → but_last (xs ++ t ∷ []) ≡ xs
unfolding but_last
but_last-append [] t = refl
but_last-append (a ∷ []) t = refl
but_last-append (a ∷ b ∷ xs) t = ap (λ (l : List Text). a ∷ l) (but_last-append (b ∷ xs) t)
