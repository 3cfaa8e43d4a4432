-- ===== src/Link/Runs/Examples.antt =====
-- A run whose events and chunks are replayed, and instances of the theorems about it.
use asgard.Prelude.{◌+◌, ◌≤◌, ◌<◌, ◌≡◌, refl, [], ◌∷◌, ◌++◌, bytes, none, some, length, arith, true}
use asgard.Link.{uint64, RunEvent, RunOutputChunk}
use asgard.Link.Runs.{
  Run, run_lost, output_gap, event, new_run, next, next_of, add_event, add_chunk, drop, finish,
}
use asgard.Link.Runs.Output.{Starts, IsPart, add_chunk-Starts}
use asgard.Link.Runs.Events.{Rising, start, adds_event, reads, reach-Rising}

abbrev fresh : Run
fresh = new_run (bytes "run") (bytes "node")

abbrev first_event : RunEvent
first_event = record { run_id = bytes "run"; event_index = 1; detail = bytes "x" }

abbrev third_event : RunEvent
third_event = record { run_id = bytes "run"; event_index = 3; detail = bytes "y" }

-- The first event comes twice.
abbrev after_events : Run
after_events = add_event third_event (add_event first_event (add_event first_event fresh))

events_once : after_events.events ≡ first_event ∷ third_event ∷ []
unfolding add_event new_run
events_once = refl

reads_first : (next after_events).0 ≡ event first_event
unfolding add_event new_run next next_of
reads_first = refl

reach-Rising_example :
    Rising 0
      (([] ++ first_event ∷ []) ++ (next after_events).1.events)
      (next after_events).1.last_idx
reach-Rising_example = reach-Rising ([] ++ first_event ∷ []) (next after_events).1 (
    reads first_event
      (adds_event third_event
        (adds_event first_event (adds_event first_event (start (bytes "run") (bytes "node")))))
      reads_first)

abbrev lost : Run
lost = finish none (some run_lost) after_events

is_lost : lost.finished ≡ true
unfolding finish add_event new_run
is_lost = refl

abbrev slice : RunOutputChunk
slice = record { run_id = bytes "run"; offset = 1; payload = bytes "ell" }

abbrev half_way : Run
half_way = record fresh { output = bytes "he" }

half_way_output : half_way.output ≡ bytes "he"
half_way_output = refl

overlapping : (add_chunk slice half_way).1.output ≡ bytes "hell"
unfolding add_chunk uint64 drop
overlapping = refl

slice-IsPart : IsPart (bytes "hello") slice.offset slice.payload
slice-IsPart = record { before = bytes "h"; after = bytes "o"; reads = refl; starts = refl }

add_chunk-Starts_example :
    (length half_way.output < slice.offset
      → ((add_chunk slice half_way).0 ≡ some (output_gap slice.offset (length half_way.output)))
        × ((add_chunk slice half_way).1 ≡ half_way))
    × (slice.offset ≤ length half_way.output
        → ((add_chunk slice half_way).0 ≡ none)
          × Starts (add_chunk slice half_way).1.output (bytes "hello")
          × (length half_way.output ≤ length (add_chunk slice half_way).1.output)
          × (slice.offset + length slice.payload ≤ length (add_chunk slice half_way).1.output))
add_chunk-Starts_example =
    add_chunk-Starts (bytes "hello") slice half_way (bytes "llo", refl) slice-IsPart (omega arith)
