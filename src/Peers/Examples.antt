-- ===== src/Peers/Examples.antt =====
-- Calls between the agents of one chat.
use asgard.Prelude.{◌≡◌, refl, inl, inr, [], ◌∷◌, Text, bytes, text_eq, exists}
use asgard.Peers.{
  PeerChains, already_waiting, cycle, set_chain, last_of, started, extended, enter_peer_call,
  peer_chain_root, leave_peer_call,
}
use asgard.Peers.Chains.{AreChains, start, enters, reach-AreChains, leave-enter}

abbrev nobody : PeerChains
nobody chat = []

abbrev chat : Text
chat = bytes "c"

abbrev ann : Text
ann = bytes "ann"

abbrev bob : Text
bob = bytes "bob"

abbrev one_call : PeerChains
one_call = set_chain chat (ann ∷ bob ∷ []) nobody

first_call : enter_peer_call chat ann bob nobody ≡ inr one_call
unfolding enter_peer_call extended started last_of exists text_eq
first_call = refl

call_back : enter_peer_call chat bob ann one_call ≡ inl (cycle (ann ∷ bob ∷ ann ∷ []))
unfolding enter_peer_call extended started last_of exists text_eq set_chain
call_back = refl

call_twice : enter_peer_call chat ann (bytes "eve") one_call ≡ inl already_waiting
unfolding enter_peer_call extended started last_of exists text_eq set_chain
call_twice = refl

reach-AreChains_example : AreChains one_call
reach-AreChains_example = reach-AreChains one_call (enters chat ann bob start first_call)

leave-enter_example :
    (leave_peer_call chat one_call ≡ nobody)
    × (peer_chain_root chat ann one_call ≡ peer_chain_root chat ann nobody)
leave-enter_example =
    leave-enter chat ann bob nobody one_call (reach-AreChains nobody start) first_call
