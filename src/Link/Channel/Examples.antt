-- ===== src/Link/Channel/Examples.antt =====
-- A runner's link on which a message is lost and sent again, and an instance of the theorem about it.
use asgard.Prelude.{
  ℕ, ◌≡◌, refl, Bool, true, false, [], ◌++◌, Text, none, bytes, length, keep_if, arith, first,
  text_eq,
}
use asgard.Link.{uint64, Payload, run_event}
use asgard.Link.Client.{
  Options, new_client, append, has_space, enqueue, send_event, is_heartbeat, trim, trim_from,
  drops_first, unsent, attach, detach,
}
use asgard.Link.Hub.{
  Connection, Hub, set_node, is_bound, trim_queue, find_run, run_for, apply_event, apply,
}
use asgard.Link.Hub.Handling.{
  acknowledge, applied, begin_sequenced, begin_bound, begin_upstream, apply_new, go_on,
  handle_upstream,
}
use asgard.Link.Hub.Registry.{
  Register, new_node, node_of, queued_start_runs, queued_cancels, has, resumed, rebound, known_runs,
  is_lost, drop_lost, cancel_untracked, is_kept, bind, register_node, detach_node,
}
use asgard.Link.Channel.{
  Channel, highest, delivered, deliver_first, deliver, backend_ends, runner_ends, send, call, write,
  registered, new_connection, reconnect,
}
use asgard.Link.Channel.Order.{above, lasting, last_seq}
use asgard.Link.Channel.Exact.{
  unconnected, Reach, start, calls, writes, delivers, loses_backend, loses_runner, connects,
  in_flight_exactly,
}

abbrev size : ℕ → Payload → ℕ
size seq p = 10

abbrev can_encode : Payload → Bool
can_encode p = true

abbrev opts : Options
opts = record { max_queued = 3; max_queued_bytes = 100; max_runs = 2 }

abbrev is_allowed : Text → Bool
is_allowed node = true

abbrev conn : Connection
conn = record { id = 1; node_id = bytes "n"; ack_dirty = false; ack_seq = 0 }

abbrev hub : Hub
hub = record {
  boot_id = bytes "h";
  closed = false;
  nodes = λ _. none;
  runs = [];
  ended = [];
  finalized = [];
  reports = [];
  clock = 0;
}

abbrev reg : Register
reg = record {
  node_id = bytes "n";
  runner_boot_id = bytes "b";
  last_seen_backend_boot_id = [];
  last_acked_backend_seq = 0;
  active_runs = [];
  completed_unacked_runs = [];
  version = bytes "v2";
  protocol_version = 1;
  supported_clis = [];
}

abbrev event : Text → Payload
event detail = run_event record { run_id = bytes "run"; event_index = 1; detail = detail }

abbrev connected : Channel
connected = reconnect size can_encode opts is_allowed false 2 reg (unconnected conn hub)

abbrev asked : Channel
asked = call size can_encode opts is_allowed (event (bytes "x")) connected

abbrev applied_one : Channel
applied_one = deliver false (write size can_encode opts is_allowed asked)

-- The second message is sent, and the backend ends the connection before it reads it.
abbrev asked_again : Channel
asked_again = call size can_encode opts is_allowed (event (bytes "y")) applied_one

abbrev lost_one : Channel
lost_one = runner_ends (backend_ends (write size can_encode opts is_allowed asked_again))

abbrev back : Channel
back = reconnect size can_encode opts is_allowed false 3 reg lost_one

operations : Unit {0}
unfolding text_eq first detach uint64 new_client append has_space enqueue send_event is_heartbeat
    trim trim_from drops_first unsent attach keep_if set_node is_bound trim_queue find_run run_for
    apply_event apply acknowledge applied begin_sequenced begin_bound begin_upstream apply_new go_on
    handle_upstream new_node node_of queued_start_runs queued_cancels has resumed rebound known_runs
    is_lost drop_lost cancel_untracked is_kept bind register_node detach_node delivered
    deliver_first deliver backend_ends runner_ends send call write registered new_connection
    reconnect last_seq
operations = tt

lost_one-highest : highest lost_one ≡ 1
unfolding operations
lost_one-highest = refl

back-unsent : length (above back.sent back.client.queue) ≡ 1
unfolding operations
back-unsent = refl

connected-Reach : Reach size can_encode opts is_allowed (bytes "b") connected
unfolding operations
connected-Reach = connects false 2 reg (start conn hub refl refl) refl refl

asked-Reach : Reach size can_encode opts is_allowed (bytes "b") asked
unfolding operations
asked-Reach = calls (event (bytes "x")) connected-Reach (omega arith)

applied_one-Reach : Reach size can_encode opts is_allowed (bytes "b") applied_one
unfolding operations
applied_one-Reach = delivers false (writes asked-Reach refl)

asked_again-Reach : Reach size can_encode opts is_allowed (bytes "b") asked_again
unfolding operations
asked_again-Reach = calls (event (bytes "y")) applied_one-Reach (omega arith)

lost_one-Reach : Reach size can_encode opts is_allowed (bytes "b") lost_one
unfolding operations
lost_one-Reach = loses_backend (loses_runner (writes asked_again-Reach refl))

back-Reach : Reach size can_encode opts is_allowed (bytes "b") back
unfolding operations
back-Reach = connects false 3 reg lost_one-Reach refl refl

back-bound : back.bound ≡ true
unfolding operations
back-bound = refl

in_flight_exactly_example :
    lasting (back.pipe ++ above back.sent back.client.queue)
    ≡ lasting (above (highest back) back.client.queue)
in_flight_exactly_example =
    in_flight_exactly size can_encode opts is_allowed (bytes "b") back back-Reach back-bound
