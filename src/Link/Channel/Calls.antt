-- ===== src/Link/Channel/Calls.antt =====
-- What a call of the runner does to the two facts that the link keeps.
use asgard.Prelude.{ℕ, ◌≤◌, refl, inl, inr, List, arith}
use asgard.Link.{Payload, RunnerMessage}
use asgard.Link.Client.{Client}
use asgard.Link.Channel.Flight.{
  Balanced, Flying, Balanced-lasting, Balanced-snoc, Flying-lasting, Flying-snoc,
}
use asgard.Link.Channel.Sending.{Queues}

module _ (p : Payload) (c c' : Client) where
  pub Balanced-queued :
      {highest : ℕ}
      → Queues p c c'
      → Balanced highest c.queue c.next_seq
      → Balanced highest c'.queue c'.next_seq
  Balanced-queued {highest} (base, is, q) b =
      let b' : Balanced highest base c.next_seq = (elim is [
        | inl e ↦ rw e b
        | inr e ↦ rw e (Balanced-lasting b)
      ]) in
      elim q [ inl (x, y) ↦ rw (x, y) b' | inr (x, y) ↦ rw (x, y) (Balanced-snoc _ b' refl) ]

  pub Flying-queued :
      {highest sent : ℕ} {pipe : List RunnerMessage}
      → Queues p c c'
      → sent ≤ c.next_seq
      → Flying highest sent pipe c.queue c.next_seq
      → Flying highest sent pipe c'.queue c'.next_seq
  Flying-queued {highest} {sent} {pipe} (base, is, q) l f =
      let f' : Flying highest sent pipe base c.next_seq = (elim is [
        | inl e ↦ rw e f
        | inr e ↦ rw e (Flying-lasting f)
      ]) in
      elim q [ inl (x, y) ↦ rw (x, y) f' | inr (x, y) ↦ rw (x, y) (Flying-snoc _ f' l refl) ]

  pub Queues-le : Queues p c c' → c.next_seq ≤ c'.next_seq
  Queues-le (base, is, q) = elim q [ inl (x, y) ↦ omega (arith, y) | inr (x, y) ↦ omega (arith, y) ]
