-- ===== src/Link/Channel/Exact.antt =====
-- What is on its way on a runner's link, whatever ends and comes back.
use asgard.Prelude.{
  ℕ, ◌<◌, ◌≡◌, refl, inl, inr, Bool, some, true, false, [], ◌++◌, keep_if, Text, arith,
}
use asgard.Link.{max_uint64, Payload}
use asgard.Link.Client.{Options, new_client}
use asgard.Link.Hub.{Connection, Hub, Node, is_bound}
use asgard.Link.Hub.Handling.{Begun}
use asgard.Link.Hub.Registry.{Register, node_of}
use asgard.Link.Channel.{
  Channel, entry, highest, deliver, go_on_late, send_ack, runner_ends, backend_ends, call, write,
  read_ack, reconnect, reply_lost,
}
use asgard.Link.Channel.Order.{above, lasting}
use asgard.Link.Channel.Registering.{SameReach}
use asgard.Link.Channel.Invariant.{
  Inv, call-Inv, write-Inv, read_ack-Inv, send_ack-Inv, runner_ends-Inv, backend_ends-Inv,
  changed-Inv,
}
use asgard.Link.Channel.Sessions.{deliver-Inv, late-Inv, reconnect-Inv, reply_lost-Inv}

-- A runner's process that has not connected yet, and a backend that has reached nothing of it.
abbrev pub unconnected : Connection → Hub → Channel
unconnected c h = record {
  client = new_client;
  hub = h;
  conn = c;
  up = false;
  bound = false;
  sent = 0;
  pipe = [];
  acks = [];
}

module _ (size : ℕ → Payload → ℕ) (can_encode : Payload → Bool) (opts : Options)
    (is_allowed : Text → Bool) (boot : Text) where
  -- The states of a link whose runner's process, `boot`, and whose backend live on. The backend may do
  -- anything else in between that leaves what it has reached of this runner. `goes_on_late` is a handler whose
  -- connection was superseded while it applied its message, which the runner then sends again.
  pub data Reach : Channel → Type 0 where
    start :
        (c : Connection) (h : Hub)
        → (node_of c.node_id h).highest_runner_seq ≡ 0
        → c.ack_seq ≡ 0
        → Reach (unconnected c h)
    calls :
        {s : Channel} (p : Payload)
        → Reach s
        → s.client.next_seq < max_uint64
        → Reach (call size can_encode opts is_allowed p s)
    writes : {s : Channel} → Reach s → s.up ≡ true → Reach (write size can_encode opts is_allowed s)
    delivers : {s : Channel} (fails : Bool) → Reach s → Reach (deliver fails s)
    sends_ack : {s : Channel} → Reach s → Reach (send_ack s)
    reads_ack :
        {s : Channel} → Reach s → s.up ≡ true → Reach (read_ack size can_encode opts is_allowed s)
    loses_backend : {s : Channel} → Reach s → Reach (runner_ends s)
    loses_runner : {s : Channel} → Reach s → Reach (backend_ends s)
    connects :
        {s : Channel} (fails : Bool) (id : ℕ) (reg : Register)
        → Reach s
        → s.up ≡ false
        → reg.runner_boot_id ≡ boot
        → Reach (reconnect size can_encode opts is_allowed fails id reg s)
    loses_reply :
        {s : Channel} (fails : Bool) (id : ℕ) (reg : Register)
        → Reach s
        → s.up ≡ false
        → reg.runner_boot_id ≡ boot
        → Reach (reply_lost size can_encode opts is_allowed fails id reg s)
    goes_on_late :
        {s : Channel} (fails : Bool) (c : Connection) (b : Begun) (n : Node)
        → Reach s
        → c.node_id ≡ s.conn.node_id
        → s.hub.nodes c.node_id ≡ some n
        → is_bound c n ≡ false
        → Reach (go_on_late fails c b s)
    changes :
        {s : Channel} (h : Hub)
        → Reach s
        → SameReach (entry s) (node_of s.conn.node_id h)
        → Reach (record s { hub = h })

  start-Inv :
      (c : Connection) (h : Hub)
      → (node_of c.node_id h).highest_runner_seq ≡ 0
      → c.ack_seq ≡ 0
      → Inv size can_encode opts boot (unconnected c h)
  unfolding new_client keep_if
  start-Inv c h e a = record {
    counted = record { counted = refl; ordered = omega arith; bounded = inl (omega arith) };
    balanced = record { ordered = omega arith; covered = omega (arith, e) };
    flying = λ (b : false ≡ true). cc;
    behind = omega arith;
    told = omega arith;
    acked = omega (arith, a);
    process = inr (e, refl);
  }

  reach-Inv : (s : Channel) → Reach s → Inv size can_encode opts boot s
  reach-Inv s (start c h e a) = start-Inv c h e a
  reach-Inv s (calls {s = b} p r room) =
      call-Inv size can_encode opts is_allowed boot p b (reach-Inv b r) room
  reach-Inv s (writes {s = b} r up) =
      write-Inv size can_encode opts is_allowed boot b (reach-Inv b r)
  reach-Inv s (delivers {s = b} fails r) =
      deliver-Inv size can_encode opts is_allowed boot fails b (reach-Inv b r)
  reach-Inv s (sends_ack {s = b} r) =
      send_ack-Inv size can_encode opts is_allowed boot b (reach-Inv b r)
  reach-Inv s (reads_ack {s = b} r up) =
      read_ack-Inv size can_encode opts is_allowed boot b (reach-Inv b r)
  reach-Inv s (loses_backend {s = b} r) =
      runner_ends-Inv size can_encode opts is_allowed boot b (reach-Inv b r)
  reach-Inv s (loses_runner {s = b} r) =
      backend_ends-Inv size can_encode opts is_allowed boot b (reach-Inv b r)
  reach-Inv s (connects {s = b} fails id reg r down mine) =
      reconnect-Inv size can_encode opts is_allowed boot fails id reg b (reach-Inv b r) mine
  reach-Inv s (loses_reply {s = b} fails id reg r down mine) =
      reply_lost-Inv size can_encode opts is_allowed boot fails id reg b (reach-Inv b r) mine
  reach-Inv s (goes_on_late {s = t} fails c b n r own f free) =
      late-Inv size can_encode opts is_allowed boot fails c b n t own f free (reach-Inv t r)
  reach-Inv s (changes {s = b} h r same) =
      changed-Inv size can_encode opts is_allowed boot h b same (reach-Inv b r)

-- While the backend reads from a connection, the messages other than heartbeats that are on their way, followed
-- by those of the queue that the runner's loop has still to send, are those of the queue above the seq that
-- the backend has reached.
pub in_flight_exactly :
    (size : ℕ → Payload → ℕ) (can_encode : Payload → Bool) (opts : Options)
    (is_allowed : Text → Bool) (boot : Text) (s : Channel)
    → Reach size can_encode opts is_allowed boot s
    → s.bound ≡ true
    → lasting (s.pipe ++ above s.sent s.client.queue) ≡ lasting (above (highest s) s.client.queue)
in_flight_exactly size can_encode opts is_allowed boot s r b =
    ((reach-Inv size can_encode opts is_allowed boot s r).flying b).same
