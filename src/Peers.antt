-- ===== src/Peers.antt =====
-- The call-peer chains of backend/lib/api/peer_nesting.go: `enterPeerCall`, `leavePeerCall` and
-- `peerChainRoot`. A chain lists the agents of a chat that wait on each other, the root caller first. The
-- map `Server.peerChains` is a function that is the empty chain where the map has no key, as Go reads a
-- missing key; the lock makes each operation one step.
pub mod Lists
pub mod Chains
mod Examples
use asgard.Prelude.{
  ℕ, Bool, true, false, ◌||◌, not, List, [], ◌∷◌, ◌++◌, Text, text_eq, exists, length, leb,
  if◌then◌else◌, ◌⊎◌, inl, inr,
}

abbrev pub max_peer_call_depth : ℕ
max_peer_call_depth = 4

abbrev pub PeerChains : Type 0
PeerChains = Text → List Text

-- Why a call is refused.
pub data Refusal : Type 0 where
  already_waiting : Refusal
  cycle : List Text → Refusal
  too_deep : List Text → Refusal

unfoldable pub set_chain : Text → List Text → PeerChains → PeerChains
set_chain chat chain chains other = if text_eq other chat then chain else chains other

-- `chain[len(chain)-1]`, and `first` for an empty chain.
unfoldable pub last_of : Text → List Text → Text
last_of first [] = first
last_of first (a ∷ chain) = last_of a chain

-- `chain[:len(chain)-1]`
unfoldable pub but_last : List Text → List Text
but_last [] = []
but_last (a ∷ []) = []
but_last (a ∷ b ∷ chain) = a ∷ but_last (b ∷ chain)

-- The chain the call starts from.
unfoldable pub started : Text → List Text → List Text
started caller [] = caller ∷ []
started caller (a ∷ chain) = a ∷ chain

unfoldable pub extended : Text → Text → List Text → Refusal ⊎ List Text
unfolding last_of started exists
extended caller target stored =
    let chain = started caller stored in
    if not (text_eq (last_of caller stored) caller)
    then inl already_waiting
    else if exists (λ id. text_eq id target) chain
    then inl (cycle (chain ++ target ∷ []))
    else if leb max_peer_call_depth (length chain)
    then inl (too_deep chain)
    else inr (chain ++ target ∷ [])

unfoldable pub enter_peer_call : Text → Text → Text → PeerChains → Refusal ⊎ PeerChains
unfolding extended set_chain
enter_peer_call chat caller target chains = elim (extended caller target (chains chat)) [
  | inl e ↦ inl e
  | inr chain ↦ inr (set_chain chat chain chains)
]

-- `chain[0]`, and `caller` for an empty chain.
unfoldable pub root_of : Text → List Text → Text
root_of caller [] = caller
root_of caller (a ∷ chain) = a

unfoldable pub peer_chain_root : Text → Text → PeerChains → Text
unfolding root_of
peer_chain_root chat caller chains = root_of caller (chains chat)

unfoldable pub leave_peer_call : Text → PeerChains → PeerChains
unfolding but_last set_chain
leave_peer_call chat chains =
    let chain = chains chat in
    if leb (length chain) 2
    then set_chain chat [] chains
    else set_chain chat (but_last chain) chains
