-- ===== src/Peers/Chains.antt =====
-- The chains of backend/lib/api/peer_nesting.go: no agent waits on itself, chains stay short, and leaving
-- undoes entering.
use asgard.Prelude.{
  Unique, subst, ◌≤◌, ◌≡◌, refl, sym, ◌∙◌, ap, ◌≢◌, ◌⊎◌, inl, inr, false, List, [], ◌∷◌, ◌++◌, Memᴰ,
  Text, text_eq, text_eq_refl, arith, Bool-cases, length, length-append, exists, mem-exists, leb,
  if◌then◌else◌, text_eq_sound,
}
use asgard.Peers.{
  PeerChains, Refusal, set_chain, but_last, root_of, started, extended, enter_peer_call,
  peer_chain_root, leave_peer_call,
}
use asgard.Peers.Lists.{Unique-append, Unique-but_last, length-but_last, but_last-append}
use mathlib.Core.Path.{fun_ext}

-- A stored chain: nobody is on it twice, it has at most four agents, and it is never a single agent.
pub record IsChain (chain : List Text) : Type 0 where
  pub unique : Unique chain
  pub short : length chain ≤ 4
  pub paired : length chain ≢ 1

abbrev pub AreChains : PeerChains → Type 0
AreChains chains = (chat : Text) → IsChain (chains chat)

-- What a call that is let in has checked.
abbrev Extension : Text → Text → List Text → List Text → Type 0
Extension caller target stored chain =
    (chain ≡ started caller stored ++ target ∷ [])
    × (Memᴰ target (started caller stored) → ⊥)
    × (length chain ≤ 4)

not-mem :
    (target : Text) (xs : List Text)
    → exists (λ id. text_eq id target) xs ≡ false
    → Memᴰ target xs
    → ⊥
not-mem target xs e i =
    let f = mem-exists (λ id. text_eq id target) xs i (text_eq_refl target) in ground arith

extended-Extension :
    (caller target : Text) (stored chain : List Text)
    → extended caller target stored ≡ inr chain
    → Extension caller target stored chain
unfolding extended
extended-Extension caller target stored chain e =
    elim (Bool-cases (exists (λ id. text_eq id target) (started caller stored))) [
      | inl c ↦ absurd (ground arith)
      | inr n ↦
          let same : chain ≡ started caller stored ++ target ∷ [] = ground arith in
          (
            same,
            not-mem target (started caller stored) n,
            ground (arith, same, length-append (started caller stored) (target ∷ [])),
          )
    ]

Unique-started :
    (caller : Text) (stored : List Text) → Unique stored → Unique (started caller stored)
unfolding started
Unique-started caller [] u = ((λ i. elim i [ ]), tt)
Unique-started caller (a ∷ xs) u = u

length-started : (caller : Text) (stored : List Text) → 1 ≤ length (started caller stored)
unfolding started
length-started caller [] = omega arith
length-started caller (a ∷ xs) = omega arith

Extension-IsChain :
    (caller target : Text) (stored chain : List Text)
    → IsChain stored
    → Extension caller target stored chain
    → IsChain chain
Extension-IsChain caller target stored chain ok (e, new, few) =
    let n = ap length e ∙ length-append (started caller stored) (target ∷ []) in
    record {
      unique = subst Unique (sym e) (
          Unique-append (started caller stored) target (Unique-started caller stored ok.unique)
            new);
      short = few;
      paired = λ one. ground (arith, length-started caller stored);
    }

IsChain-nil : IsChain []
IsChain-nil = record { unique = tt; short = omega arith; paired = λ e. omega arith }

IsChain-but_last : (xs : List Text) → IsChain xs → leb (length xs) 2 ≡ false → IsChain (but_last xs)
IsChain-but_last [] ok l = absurd (ground arith)
IsChain-but_last (a ∷ xs) ok l = record {
  unique = Unique-but_last (a ∷ xs) ok.unique;
  short = omega (arith, length-but_last a xs, ok.short);
  paired = λ one. ground (arith, length-but_last a xs);
}

AreChains-set_chain :
    (chat : Text) (chain : List Text) (chains : PeerChains)
    → IsChain chain
    → AreChains chains
    → AreChains (set_chain chat chain chains)
unfolding set_chain
AreChains-set_chain chat chain chains ok all other = elim (Bool-cases (text_eq other chat)) [
  | inl same ↦ rw same ok
  | inr different ↦ rw different (all other)
]

entered-chain :
    (chat caller target : Text) (chains after : PeerChains)
    → enter_peer_call chat caller target chains ≡ inr after
    → (chain : List Text) × (extended caller target (chains chat) ≡ inr chain)
      × (after ≡ set_chain chat chain chains)
unfolding enter_peer_call
entered-chain chat caller target chains after e = go (extended caller target (chains chat)) refl e
  where
    go :
        (r : Refusal ⊎ List Text)
        → extended caller target (chains chat) ≡ r
        → (elim r [ inl x ↦ inl x | inr chain ↦ inr (set_chain chat chain chains) ]) ≡ inr after
        → (chain : List Text) × (extended caller target (chains chat) ≡ inr chain)
          × (after ≡ set_chain chat chain chains)
    go (inl x) q f = cc
    go (inr chain) q f = (chain, q, cc)

pub enter_peer_call-AreChains :
    (chat caller target : Text) (chains after : PeerChains)
    → AreChains chains
    → enter_peer_call chat caller target chains ≡ inr after
    → AreChains after
enter_peer_call-AreChains chat caller target chains after all e =
    let (chain, x, s) = entered-chain chat caller target chains after e in
    subst AreChains (sym s) (
      AreChains-set_chain chat chain chains
        (Extension-IsChain caller target (chains chat) chain (all chat)
          (extended-Extension caller target (chains chat) chain x))
        all)

pub leave_peer_call-AreChains :
    (chat : Text) (chains : PeerChains) → AreChains chains → AreChains (leave_peer_call chat chains)
unfolding leave_peer_call
leave_peer_call-AreChains chat chains all = elim (Bool-cases (leb (length (chains chat)) 2)) [
  | inl few ↦ rw few (AreChains-set_chain chat [] chains IsChain-nil all)
  | inr many ↦ rw many (
      AreChains-set_chain chat (but_last (chains chat)) chains
        (IsChain-but_last (chains chat) (all chat) many) all)
]

-- The states that calls of the operations reach from the empty map.
pub data Reach : PeerChains → Type 0 where
  start : Reach (λ chat. [])
  enters :
      {chains after : PeerChains} (chat caller target : Text)
      → Reach chains
      → enter_peer_call chat caller target chains ≡ inr after
      → Reach after
  leaves : {chains : PeerChains} (chat : Text) → Reach chains → Reach (leave_peer_call chat chains)

-- Whatever calls are entered and left, in whatever order: in each chat's chain no agent stands twice, so no
-- agent waits on itself; a chain has at most four agents; and it is not a single agent.
pub reach-AreChains : (chains : PeerChains) → Reach chains → AreChains chains
reach-AreChains chains start = λ chat. IsChain-nil
reach-AreChains chains (enters chat caller target r e) =
    enter_peer_call-AreChains chat caller target _ chains (reach-AreChains _ r) e
reach-AreChains chains (leaves chat r) = leave_peer_call-AreChains chat _ (reach-AreChains _ r)

chain_at :
    (chat : Text) (chain : List Text) (chains : PeerChains)
    → set_chain chat chain chains chat ≡ chain
unfolding set_chain
chain_at chat chain chains = rw (text_eq_refl chat)

-- What leaving does to a chain that a call has just extended.
left-chain :
    (caller target : Text) (stored : List Text)
    → IsChain stored
    → (let chain = started caller stored ++ target ∷ [] in
        if leb (length chain) 2 then [] else but_last chain)
      ≡ stored
unfolding started
left-chain caller target [] ok = refl
left-chain caller target (a ∷ []) ok = absurd (ok.paired refl)
left-chain caller target (a ∷ b ∷ more) ok =
    let n = length-append more (target ∷ []) in
    let f : leb (length ((a ∷ b ∷ more) ++ target ∷ [])) 2 ≡ false = ground (arith, n) in
    rw f (but_last-append (a ∷ b ∷ more) target)

left-at :
    (chat other : Text) (chains : PeerChains)
    → leave_peer_call chat chains other ≡ (
        if text_eq other chat
        then (if leb (length (chains chat)) 2 then [] else but_last (chains chat))
        else chains other)
unfolding leave_peer_call set_chain
left-at chat other chains = ground arith

-- In states whose chains are right, leaving a call that has just been entered gives every chat the chain it
-- had, and while the call lasts the root of its chain is the root it had before.
pub leave-enter :
    (chat caller target : Text) (chains after : PeerChains)
    → AreChains chains
    → enter_peer_call chat caller target chains ≡ inr after
    → (leave_peer_call chat after ≡ chains)
      × (peer_chain_root chat caller after ≡ peer_chain_root chat caller chains)
unfolding peer_chain_root root_of started set_chain
leave-enter chat caller target chains after all e = (fun_ext back, root)
  where
    parts :
        (chain : List Text) × (extended caller target (chains chat) ≡ inr chain)
        × (after ≡ set_chain chat chain chains)
    parts = entered-chain chat caller target chains after e

    now : after chat ≡ started caller (chains chat) ++ target ∷ []
    now =
        let (chain, x, s) = parts in
        ap (λ (f : PeerChains). f chat) s
        ∙ chain_at chat chain chains
        ∙ (extended-Extension caller target (chains chat) chain x).0

    back : (other : Text) → leave_peer_call chat after other ≡ chains other
    back other = elim (Bool-cases (text_eq other chat)) [
      | inl same ↦
          left-at chat other after
          ∙ (rw (same, now)
              (left-chain caller target (chains chat) (all chat)
                ∙ ap chains (sym (text_eq_sound other chat same))))
      | inr different ↦
          let (chain, x, s) = parts in
          left-at chat other after ∙ (rw (different, s, set_chain) (rw different))
    ]

    same_root :
        (stored : List Text)
        → root_of caller (started caller stored ++ target ∷ []) ≡ root_of caller stored
    same_root [] = refl
    same_root (a ∷ more) = refl

    root : peer_chain_root chat caller after ≡ peer_chain_root chat caller chains
    root = ap (root_of caller) now ∙ same_root (chains chat)
