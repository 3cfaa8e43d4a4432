-- ===== src/Link/Client/Examples.antt =====
-- A short exchange of a runner, and instances of the theorems about its queue.
use asgard.Prelude.{
  ℕ, ◌+◌, ◌==◌, if◌then◌else◌, ◌≡◌, refl, Bool, true, [], ◌∷◌, bytes, length, keep_if, ltb, arith,
  map,
}
use asgard.Link.{
  uint64, RunEvent, Heartbeat, Payload, heartbeat, run_event, run_output, run_result, RunnerMessage,
}
use asgard.Link.Client.{
  Options, Client, new_client, append, has_space, enqueue, send_event, send_heartbeat,
  without_heartbeats, is_heartbeat, trim, trim_from, drops_first, unsent,
}
use asgard.Link.Client.Queue.{total, IsQueue, trim-queue}
use asgard.Link.Client.Steps.{Reach, start, sends_event, sends_heartbeat, reach-IsQueue}

abbrev size : ℕ → Payload → ℕ
size seq (heartbeat hb) = 3 + (if seq == 0 then 0 else 2)
size seq (run_event ev) = 10 + (if seq == 0 then 0 else 2)
size seq (run_output chunk) = length chunk.payload + (if seq == 0 then 0 else 2)
size seq (run_result res) = 20 + (if seq == 0 then 0 else 2)

abbrev can_encode : Payload → Bool
can_encode p = true

abbrev opts : Options
opts = record { max_queued = 3; max_queued_bytes = 100; max_runs = 2 }

abbrev ev : RunEvent
ev = record { run_id = bytes "run"; event_index = 1; detail = bytes "x" }

abbrev hb : Heartbeat
hb = record { active_runs = 1; max_runs = 2; health_error = []; detail = [] }

abbrev one : Client
one = send_heartbeat size can_encode opts hb new_client

abbrev two : Client
two = (send_event size can_encode opts ev one).1

-- The second heartbeat takes the place of the first one.
abbrev three : Client
three = send_heartbeat size can_encode opts hb two

operations : Unit {0}
unfolding uint64 new_client append has_space enqueue send_event send_heartbeat without_heartbeats
    is_heartbeat trim trim_from drops_first keep_if unsent
operations = tt

one_seq : one.next_seq ≡ 1
unfolding operations
one_seq = refl

two_seq : two.next_seq ≡ 2
unfolding operations
two_seq = refl

seqs : map (λ (m : RunnerMessage). m.seq) three.queue ≡ 2 ∷ 3 ∷ []
unfolding operations
seqs = refl

acked : map (λ (m : RunnerMessage). m.seq) (trim size can_encode opts 2 three).queue ≡ 3 ∷ []
unfolding operations
acked = refl

left_to_send : map (λ (m : RunnerMessage). m.seq) (unsent 2 three.queue) ≡ 3 ∷ []
unfolding operations
left_to_send = refl

three-Reach : Reach size can_encode opts three
unfolding new_client
three-Reach =
    sends_heartbeat hb
      (sends_event ev (sends_heartbeat hb start (omega arith)) (omega (arith, one_seq)))
      (omega (arith, two_seq))

reach-IsQueue_example : IsQueue size can_encode opts three
reach-IsQueue_example = reach-IsQueue size can_encode opts three three-Reach

three-IsQueue : IsQueue size can_encode opts three
three-IsQueue = reach-IsQueue size can_encode opts three three-Reach

trim-queue_example :
    ((trim size can_encode opts 2 three).queue
      ≡ keep_if (λ (m : RunnerMessage). ltb 2 m.seq) three.queue)
    × ((trim size can_encode opts 2 three).queue_bytes
        ≡ total size can_encode opts (trim size can_encode opts 2 three).queue)
    × ((trim size can_encode opts 2 three).next_seq ≡ three.next_seq)
trim-queue_example = trim-queue size can_encode opts 2 three three-IsQueue
