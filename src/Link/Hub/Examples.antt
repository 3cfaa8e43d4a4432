-- ===== src/Link/Hub/Examples.antt =====
-- A runner's messages to the backend, and instances of the theorems about them.
use asgard.Prelude.{
  ◌≡◌, ◌≢◌, refl, ◌⊎◌, [], ◌∷◌, ◌++◌, bytes, text_eq, none, some, true, false, length, first,
  if◌then◌else◌, Text, Bool, Memᴰ, exists, keep_if,
}
use asgard.Link.{uint64, RunResult, run_output, run_result, RunnerMessage}
use asgard.Link.Runs.{Run, output_size_mismatch, new_run, add_chunk, drop, wait, run_lost, finish}
use asgard.Link.Hub.{
  Node, Connection, Hub, sequenced, not_persisted, set_node, is_bound, find_run, run_for,
  update_run, apply_chunk, chunk_applied, result_for, apply_result, apply, unexpected, unknown,
}
use asgard.Link.Hub.Handling.{
  acknowledge, applied, begin_sequenced, begin_bound, begin_upstream, apply_new, go_on,
  handle_upstream,
}
use asgard.Link.Hub.Registry.{
  Register, accepted, node_of, rebound, resumed, known_runs, drop_lost, is_lost, cancel_untracked,
  is_kept, queued_cancels, queued_start_runs, has, bind, register_node,
}
use asgard.Link.Hub.Registry.Known.{register_node-runs}
use asgard.Link.Hub.Registry.Starts.{IsKnown}
use asgard.Link.Hub.Results.{apply_result-wait}

abbrev node : Node
node = record {
  conn = some 7;
  online = true;
  online_gen = 1;
  runner_boot_id = bytes "b";
  next_seq = 0;
  queue = [];
  highest_runner_seq = 0;
  quotas = [];
  max_runs = 1;
  health_error = [];
  last_seen = 0;
  version = [];
  protocol_version = 0;
  supported_clis = [];
}

abbrev conn : Connection
conn = record { id = 7; node_id = bytes "n"; ack_dirty = false; ack_seq = 0 }

abbrev run : Run
run = new_run (bytes "run") (bytes "n")

abbrev hub : Hub
hub = record {
  boot_id = bytes "h";
  closed = false;
  nodes = λ id. if text_eq id (bytes "n") then some node else none;
  runs = run ∷ [];
  ended = [];
  finalized = [];
  reports = [];
  clock = 5;
}

abbrev first_chunk : RunnerMessage
first_chunk = record {
  seq = 1;
  payload = run_output (record { run_id = bytes "run"; offset = 0; payload = bytes "hi" });
}

abbrev result : RunResult
result = record {
  ref = record {
    run_id = bytes "run";
    chat_id = bytes "c";
    attempt = 1;
    workflow_node_id = [];
    run_token = [];
  };
  output_size = 2;
  detail = [];
}

abbrev result_message : RunnerMessage
result_message = record { seq = 2; payload = run_result result }

handling : Unit {0}
unfolding text_eq first uint64 new_run add_chunk drop set_node is_bound find_run run_for update_run
    apply_chunk chunk_applied result_for apply_result apply acknowledge applied begin_sequenced
    begin_bound begin_upstream apply_new go_on handle_upstream
handling = tt

chunk_accepted : (handle_upstream false conn (sequenced first_chunk) hub).0 ≡ none
unfolding handling
chunk_accepted = refl

abbrev with_chunk : Hub
with_chunk = (handle_upstream false conn (sequenced first_chunk) hub).2

store_fails :
    (handle_upstream true conn (sequenced result_message) with_chunk).0 ≡ some not_persisted
unfolding handling
store_fails = refl

no_payload : (handle_upstream true conn (unknown 9) with_chunk).0 ≡ some unexpected
unfolding handling
no_payload = refl

abbrev received : Run
received = record run { output = bytes "hi" }

abbrev received_hub : Hub
received_hub = record hub { runs = received ∷ [] }

is_tracked : find_run (bytes "run") received_hub.runs ≡ some received
unfolding handling
is_tracked = refl

own_node : received.node_id ≡ bytes "n"
unfolding handling
own_node = refl

not_done : received.finished ≡ false
unfolding handling
not_done = refl

apply_result-wait_example :
    let (err, after) = apply_result false conn result received_hub in
    (err ≡ none)
    × ((done : Run) × (after.ended ≡ received_hub.ended ++ done ∷ [])
        × ((wait done ≡ some (some (record { run_result = result; output = bytes "hi" }), none))
            ⊎ ((length received.output ≢ length (bytes "hi"))
                × (wait done
                    ≡ some (
                      received.result,
                      some (output_size_mismatch (length received.output) (length (bytes "hi"))),
                    )))))
apply_result-wait_example =
    apply_result-wait conn result received received_hub (bytes "hi") is_tracked own_node not_done
      ([], refl) refl

-- The runner has started again: it knows nothing of the run.
abbrev registration : Register
registration = record {
  node_id = bytes "n";
  runner_boot_id = bytes "b2";
  last_seen_backend_boot_id = [];
  last_acked_backend_seq = 0;
  active_runs = [];
  completed_unacked_runs = [];
  version = bytes "v2";
  protocol_version = 1;
  supported_clis = [];
}

abbrev everyone : Text → Bool
everyone id = true

registering : Unit {0}
unfolding handling exists keep_if node_of rebound resumed known_runs drop_lost is_lost
    cancel_untracked is_kept queued_cancels queued_start_runs has bind register_node finish
registering = tt

is_accepted : (register_node everyone false conn registration hub).0 ≡ accepted 0
unfolding registering
is_accepted = refl

is_lost_now :
    (register_node everyone false conn registration hub).1.ended
    ≡ finish none (some run_lost) run ∷ []
unfolding registering
is_lost_now = refl

register_node-runs_example :
    let after = (register_node everyone false conn registration hub).1 in
    ((r : Run)
      → Memᴰ r after.runs
      → r.node_id ≡ bytes "n"
      → IsKnown registration (node_of (bytes "n") after) r.run_id)
    × ((r : Run)
        → Memᴰ r hub.runs
        → Memᴰ r after.runs
          ⊎ ((r.node_id ≡ bytes "n")
              × (¬ IsKnown registration (node_of (bytes "n") after) r.run_id)
              × Memᴰ (finish none (some run_lost) r) after.ended))
register_node-runs_example = register_node-runs everyone false conn registration hub 0 is_accepted
