-- ===== src/Link/Hub/Handling.antt =====
-- `handleUpstream` of backend/lib/runnerhub/connection.go: its two sections under the hub's mutex, and what runs
-- between them.
use asgard.Prelude.{ℕ, Bool, true, not, ◌&&◌, Option, none, some, leb, ◌==◌, if◌then◌else◌}
use asgard.Link.{Payload}
use asgard.Link.Hub.{
  Node, Connection, Hub, Upstream, ack, register, sequenced, unknown, UpstreamError, superseded,
  unsequenced, set_node, is_bound, trim_queue, apply,
}

-- What the first section of `handleUpstream` leaves to do: to return, or to go on with a message.
pub data Begun : Type 0 where
  returns : Option UpstreamError → Begun
  goes_on : (dup : Bool) → (seq : ℕ) → Option Payload → Begun

unfoldable pub begin_sequenced : ℕ → Option Payload → Node → Begun
begin_sequenced seq p n =
    if seq == 0 then returns (some unsequenced) else goes_on (leb seq n.highest_runner_seq) seq p

unfoldable pub begin_bound : Connection → Node → Upstream → Hub → Begun × Hub
unfolding trim_queue set_node begin_sequenced
begin_bound c n (ack acked) h =
    (returns none, set_node c.node_id (record n { queue = trim_queue acked n.queue }) h)
begin_bound c n register h = (returns (some unsequenced), set_node c.node_id n h)
begin_bound c n (sequenced m) h = (begin_sequenced m.seq (some m.payload) n, set_node c.node_id n h)
begin_bound c n (unknown seq) h = (begin_sequenced seq none n, set_node c.node_id n h)

-- The first section of `handleUpstream`.
unfoldable pub begin_upstream : Connection → Option Node → Upstream → Hub → Begun × Hub
unfolding begin_bound is_bound
begin_upstream c none msg h = (returns (some superseded), h)
begin_upstream c (some n) msg h =
    if is_bound c n
    then begin_bound c (record n { last_seen = h.clock }) msg h
    else (returns (some superseded), h)

-- What runs outside the mutex.
unfoldable pub apply_new :
    Bool → Connection → Bool → Option Payload → Hub → Option UpstreamError × Hub
unfolding apply
apply_new fails c dup p h = if dup then (none, h) else apply fails c p h

-- The second section of `handleUpstream`, from the node as it is then.
unfoldable pub acknowledge :
    Connection → Bool → ℕ → Option Node → Hub → Option UpstreamError × Connection × Hub
unfolding set_node is_bound
acknowledge c dup seq none h = (none, c, h)
acknowledge c dup seq (some n) h =
    let highest = if not dup && is_bound c n then seq else n.highest_runner_seq in
    (
      none,
      record c { ack_seq = highest; ack_dirty = true },
      set_node c.node_id (record n { highest_runner_seq = highest }) h,
    )

unfoldable pub applied :
    Connection → Bool → ℕ → Option UpstreamError × Hub → Option UpstreamError × Connection × Hub
unfolding acknowledge
applied c dup seq (some e, h) = (some e, c, h)
applied c dup seq (none, h) = acknowledge c dup seq (h.nodes c.node_id) h

unfoldable pub go_on : Bool → Connection → Begun × Hub → Option UpstreamError × Connection × Hub
unfolding apply_new applied
go_on fails c (returns e, h) = (e, c, h)
go_on fails c (goes_on dup seq p, h) = applied c dup seq (apply_new fails c dup p h)

-- `handleUpstream`, where nothing comes between its sections.
unfoldable pub handle_upstream :
    Bool → Connection → Upstream → Hub → Option UpstreamError × Connection × Hub
unfolding begin_upstream go_on
handle_upstream fails c msg h = go_on fails c (begin_upstream c (h.nodes c.node_id) msg h)
