-- ===== src/Link/Channel.antt =====
-- The upstream direction of one runner's link, end to end: the client of runner/lib/conn/client.go, the hub of
-- backend/lib/runnerhub, and what is on its way between them.
--
-- `pipe` holds the messages that `writeLoop` has taken from the queue and the backend has not yet read; `acks`
-- holds the `Ack` frames of the backend that the runner has not yet read. `sent` is the variable of `writeLoop`:
-- a batch is one step, since the loop reads the variable again only when the batch is out. A connection may
-- end at either side at any time, and what is on its way is lost then. The Go stream between them delivers in
-- order what it delivers.
pub mod Order
pub mod Flight
pub mod Registering
pub mod Sending
pub mod Calls
pub mod Invariant
pub mod Sessions
pub mod Exact
mod Examples
use asgard.Prelude.{
  ℕ, Bool, true, false, not, ◌&&◌, List, [], ◌∷◌, ◌++◌, Text, Option, none, some, leb, ◌==◌,
  if◌then◌else◌,
}
use asgard.Link.{Payload, heartbeat, run_event, run_output, run_result, RunnerMessage}
use asgard.Link.Client.{
  Options, Client, Sent, queued, send_event, send_output, send_result, send_heartbeat, unsent, trim,
  attach, detach,
}
use asgard.Link.Hub.{Node, Connection, Hub, sequenced, UpstreamError}
use asgard.Link.Hub.Handling.{Begun, go_on, handle_upstream}
use asgard.Link.Hub.Registry.{
  Register, Registered, rejected, accepted, node_of, register_node, detach_node,
}
use asgard.Link.Channel.Order.{lasting, last_seq}

pub record Channel : Type 0 where
  pub client : Client
  pub hub : Hub
  pub conn : Connection
  pub up : Bool
  pub bound : Bool
  pub sent : ℕ
  pub pipe : List RunnerMessage
  pub acks : List ℕ

-- The registry entry of the runner, and the seq that the backend has reached.
abbrev pub entry : Channel → Node
entry s = node_of s.conn.node_id s.hub

abbrev pub highest : Channel → ℕ
highest s = (entry s).highest_runner_seq

-- The backend has read the first message of the pipe, and `handleUpstream` has returned. After an error it
-- closes the session.
unfoldable pub delivered : Channel → Option UpstreamError × Connection × Hub → Channel
delivered s (none, c, h) = record s { conn = c; hub = h }
delivered s (some e, c, h) = record s { conn = c; hub = detach_node c h; pipe = []; bound = false }

unfoldable pub deliver_first : Bool → List RunnerMessage → Channel → Channel
unfolding delivered
deliver_first fails [] s = s
deliver_first fails (m ∷ rest) s =
    delivered (record s { pipe = rest }) (handle_upstream fails s.conn (sequenced m) s.hub)

-- A turn of the loop of `Connect`.
unfoldable pub deliver : Bool → Channel → Channel
unfolding deliver_first
deliver fails s = if s.bound then deliver_first fails s.pipe s else s

-- The handler of an earlier connection `c` of the runner goes on where it took the mutex off: it applies the
-- message that it has read, and takes the mutex again.
unfoldable pub go_on_late : Bool → Connection → Begun → Channel → Channel
unfolding go_on
go_on_late fails c b s = record s { hub = (go_on fails c (b, s.hub)).2 }

-- The backend's `writeLoop` sends an `Ack` frame, if one is due.
unfoldable pub send_ack : Channel → Channel
send_ack s =
    if s.bound && s.conn.ack_dirty
    then record s {
      conn = record s.conn { ack_dirty = false };
      acks = s.acks ++ s.conn.ack_seq ∷ [];
    }
    else s

-- The runner's session ends, or the backend's.
unfoldable pub runner_ends : Channel → Channel
runner_ends s = record s { client = detach s.client; up = false; acks = [] }

unfoldable pub backend_ends : Channel → Channel
backend_ends s = record s { hub = detach_node s.conn s.hub; bound = false; pipe = [] }

module _ (size : ℕ → Payload → ℕ) (can_encode : Payload → Bool) (opts : Options)
    (is_allowed : Text → Bool) where
  -- The calls by which a runner queues a message.
  unfoldable pub send : Payload → Client → Client
  send (heartbeat hb) c = send_heartbeat size can_encode opts hb c
  send (run_event ev) c = (send_event size can_encode opts ev c).1
  send (run_output chunk) c = (send_output size can_encode opts chunk c).1
  send (run_result res) c = (send_result size can_encode opts res c).1

  unfoldable pub call : Payload → Channel → Channel
  unfolding send
  call p s = record s { client = send p s.client }

  -- A turn of the runner's `writeLoop`; what is sent after the backend has ended is lost.
  unfoldable pub write : Channel → Channel
  unfolding last_seq
  write s =
      let out = unsent s.sent s.client.queue in
      record s { sent = last_seq s.sent out; pipe = (if s.bound then s.pipe ++ out else []) }

  unfoldable pub read_first : List ℕ → Channel → Channel
  read_first [] s = s
  read_first (a ∷ rest) s = record s { client = trim size can_encode opts a s.client; acks = rest }

  -- The runner's `readLoop` reads an `Ack` frame.
  unfoldable pub read_ack : Channel → Channel
  unfolding read_first
  read_ack s = read_first s.acks s

  unfoldable pub registered : Connection → Registered × Hub → Channel → Channel
  registered c (rejected, h) s = s
  registered c (accepted n, h) s = record s {
    client = attach size can_encode opts h.boot_id n s.client;
    hub = h;
    conn = c;
    up = true;
    bound = true;
    sent = 0;
    pipe = [];
    acks = [];
  }

  -- The backend has accepted the runner, and the session has ended before the reply is read.
  unfoldable pub unanswered : Connection → Registered × Hub → Channel → Channel
  unanswered c (rejected, h) s = s
  unanswered c (accepted n, h) s = record s {
    hub = h;
    conn = c;
    up = false;
    bound = false;
    pipe = [];
    acks = [];
  }

  unfoldable pub new_connection : ℕ → Channel → Connection
  new_connection id s = record { id = id; node_id = s.conn.node_id; ack_dirty = false; ack_seq = 0 }

  -- A session of the runner up to `attach`, on the connection `id`, or up to the lost reply.
  unfoldable pub reconnect : Bool → ℕ → Register → Channel → Channel
  unfolding registered new_connection
  reconnect fails id reg s =
      let c = new_connection id s in registered c (register_node is_allowed fails c reg s.hub) s

  unfoldable pub reply_lost : Bool → ℕ → Register → Channel → Channel
  unfolding unanswered new_connection
  reply_lost fails id reg s =
      let c = new_connection id s in unanswered c (register_node is_allowed fails c reg s.hub) s
