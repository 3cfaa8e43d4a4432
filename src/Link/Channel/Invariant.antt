-- ===== src/Link/Channel/Invariant.antt =====
-- What the link keeps upstream, over the calls of the runner and the frames of both directions.
use asgard.Prelude.{
  ℕ, ◌≤◌, ◌<◌, ◌≡◌, refl, ◌⊎◌, inl, inr, Bool, ◌&&◌, true, false, List, [], ◌∷◌, ◌++◌, Text,
  if◌then◌else◌, arith,
}
use asgard.Link.{max_uint64, Payload}
use asgard.Link.Client.{Options, trim, detach, unsent}
use asgard.Link.Client.Queue.{IsQueue, trim-queue}
use asgard.Link.Client.Steps.{trim-IsQueue}
use asgard.Link.Hub.{Hub}
use asgard.Link.Hub.Registry.{node_of, detach_node}
use asgard.Link.Channel.{
  Channel, entry, highest, send_ack, runner_ends, backend_ends, send, call, write, read_first,
  read_ack,
}
use asgard.Link.Channel.Order.{batch-le_top}
use asgard.Link.Channel.Flight.{Balanced, Flying, Balanced-trim, Flying-trim, Flying-write}
use asgard.Link.Channel.Registering.{SameReach, detach_node-SameReach}
use asgard.Link.Channel.Calls.{Balanced-queued, Flying-queued, Queues-le}
use asgard.Link.Channel.Sending.{send-Queues, send-IsQueue}

pub if-elim :
    (Holds : Channel → Type 0) (t : Bool) {x y : Channel}
    → (t ≡ true → Holds x)
    → Holds y
    → Holds (if t then x else y)
if-elim Holds true f h = f refl
if-elim Holds false f h = h

-- Acknowledgements of nothing that the backend has not reached.
abbrev pub AllReached : ℕ → List ℕ → Type 0
AllReached top [] = 0 ≤ top
AllReached top (a ∷ acks) = (a ≤ top) × AllReached top acks

AllReached-append :
    (top a : ℕ) (acks : List ℕ) → AllReached top acks → a ≤ top → AllReached top (acks ++ a ∷ [])
AllReached-append top a [] h l = (l, omega arith)
AllReached-append top a (b ∷ acks) (k, h) l = (k, AllReached-append top a acks h l)

pub AllReached-le :
    (top higher : ℕ) (acks : List ℕ) → AllReached top acks → top ≤ higher → AllReached higher acks
AllReached-le top higher [] h l = omega arith
AllReached-le top higher (a ∷ acks) (k, h) l = (omega arith, AllReached-le top higher acks h l)

-- `boot` is the boot id of the runner's process. While a connection is bound, what is on its way is kept track of.
pub record Inv (size : ℕ → Payload → ℕ) (can_encode : Payload → Bool) (opts : Options) (boot : Text)
    (s : Channel) : Type 0 where
  pub counted : IsQueue size can_encode opts s.client
  pub balanced : Balanced (highest s) s.client.queue s.client.next_seq
  pub flying : s.bound ≡ true → Flying (highest s) s.sent s.pipe s.client.queue s.client.next_seq
  pub behind : s.sent ≤ s.client.next_seq
  pub told : AllReached (highest s) s.acks
  pub acked : s.conn.ack_seq ≤ highest s
  pub process : ((entry s).runner_boot_id ≡ boot) ⊎ ((highest s ≡ 0) × (s.bound ≡ false))

module _ (size : ℕ → Payload → ℕ) (can_encode : Payload → Bool) (opts : Options)
    (is_allowed : Text → Bool) (boot : Text) where
  pub call-Inv :
      (p : Payload) (s : Channel)
      → Inv size can_encode opts boot s
      → s.client.next_seq < max_uint64
      → Inv size can_encode opts boot (call size can_encode opts is_allowed p s)
  unfolding call
  call-Inv p s i room =
      let after = send size can_encode opts is_allowed p s.client in
      let q = send-Queues size can_encode opts is_allowed p s.client room in
      let l = Queues-le p s.client after q in
      record {
        counted = send-IsQueue size can_encode opts is_allowed p s.client i.counted room;
        balanced = Balanced-queued p s.client after q i.balanced;
        flying = λ b. Flying-queued p s.client after q i.behind (i.flying b);
        behind = omega (arith, i.behind);
        told = i.told;
        acked = i.acked;
        process = i.process;
      }

  pub write-Inv :
      (s : Channel)
      → Inv size can_encode opts boot s
      → Inv size can_encode opts boot (write size can_encode opts is_allowed s)
  unfolding write unsent
  write-Inv s i = record {
    counted = i.counted;
    balanced = i.balanced;
    flying = λ b. rw b (Flying-write i.balanced (i.flying b));
    behind = batch-le_top 0 s.sent s.client.queue s.client.next_seq i.balanced.ordered i.behind;
    told = i.told;
    acked = i.acked;
    process = i.process;
  }

  trimmed-Inv :
      (a : ℕ) (rest : List ℕ) (s : Channel)
      → Inv size can_encode opts boot s
      → a ≤ highest s
      → AllReached (highest s) rest
      → Inv size can_encode opts boot
          (record s { client = trim size can_encode opts a s.client; acks = rest })
  trimmed-Inv a rest s i l all =
      let (q, b, n) = trim-queue size can_encode opts a s.client i.counted in
      record {
        counted = trim-IsQueue size can_encode opts a s.client i.counted;
        balanced = rw (q, n) (Balanced-trim a l i.balanced);
        flying = λ bound. rw (q, n) (Flying-trim a l (i.flying bound));
        behind = omega (arith, n, i.behind);
        told = all;
        acked = i.acked;
        process = i.process;
      }

  pub read_ack-Inv :
      (s : Channel)
      → Inv size can_encode opts boot s
      → Inv size can_encode opts boot (read_ack size can_encode opts is_allowed s)
  unfolding read_ack read_first
  read_ack-Inv s i = read s.acks i.told
    where
      read :
          (acks : List ℕ)
          → AllReached (highest s) acks
          → Inv size can_encode opts boot (read_first size can_encode opts is_allowed acks s)
      read [] all = i
      read (a ∷ rest) (l, all) = trimmed-Inv a rest s i l all

  pub send_ack-Inv :
      (s : Channel) → Inv size can_encode opts boot s → Inv size can_encode opts boot (send_ack s)
  unfolding send_ack
  send_ack-Inv s i =
      if-elim (Inv size can_encode opts boot) (s.bound && s.conn.ack_dirty)
        (λ b. record {
          counted = i.counted;
          balanced = i.balanced;
          flying = i.flying;
          behind = i.behind;
          told = AllReached-append (highest s) s.conn.ack_seq s.acks i.told i.acked;
          acked = i.acked;
          process = i.process;
        })
        i

  pub runner_ends-Inv :
      (s : Channel)
      → Inv size can_encode opts boot s
      → Inv size can_encode opts boot (runner_ends s)
  unfolding runner_ends detach
  runner_ends-Inv s i = record {
    counted = record {
      counted = i.counted.counted;
      ordered = i.counted.ordered;
      bounded = i.counted.bounded;
    };
    balanced = i.balanced;
    flying = i.flying;
    behind = i.behind;
    told = omega arith;
    acked = i.acked;
    process = i.process;
  }

  -- Whatever changes in the hub leaves the link as it is, where the seq that was reached and the process
  -- that it is of stay.
  pub changed-Inv :
      (h : Hub) (s : Channel)
      → SameReach (entry s) (node_of s.conn.node_id h)
      → Inv size can_encode opts boot s
      → Inv size can_encode opts boot (record s { hub = h })
  changed-Inv h s (same, of) i = record {
    counted = i.counted;
    balanced = rw same i.balanced;
    flying = λ b. rw same (i.flying b);
    behind = i.behind;
    told = rw same i.told;
    acked = rw same i.acked;
    process = rw (same, of) i.process;
  }

  pub closed-Inv :
      (h : Hub) (s : Channel)
      → SameReach (entry s) (node_of s.conn.node_id h)
      → Inv size can_encode opts boot s
      → Inv size can_encode opts boot (record s { hub = h; bound = false; pipe = [] })
  closed-Inv h s same i =
      let j = changed-Inv h s same i in
      record {
        counted = j.counted;
        balanced = j.balanced;
        flying = λ (b : false ≡ true). cc;
        behind = j.behind;
        told = j.told;
        acked = j.acked;
        process = (elim j.process [ inl e ↦ inl e | inr (z, _) ↦ inr (z, refl) ]);
      }

  pub backend_ends-Inv :
      (s : Channel)
      → Inv size can_encode opts boot s
      → Inv size can_encode opts boot (backend_ends s)
  unfolding backend_ends
  backend_ends-Inv s i =
      closed-Inv (detach_node s.conn s.hub) s (detach_node-SameReach s.conn s.hub) i
