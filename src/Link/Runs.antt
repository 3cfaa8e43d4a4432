-- ===== src/Link/Runs.antt =====
-- The handle of a dispatched run, backend/lib/runnerhub/run.go: each function is one critical section of
-- the run's mutex. `Run.Next` and `Run.Wait` are asked once: `blocked` is where they wait for a change.
pub mod Events
pub mod Output
mod Examples
use asgard.Prelude.{
  ℕ, zero, suc, ◌+◌, ◌-◌, Bool, true, false, ◌||◌, List, [], ◌∷◌, ◌++◌, Text, Option, none, some,
  length, leb, ltb, if◌then◌else◌,
}
use asgard.Link.{uint64, RunEvent, RunOutputChunk, RunResult}

pub data RunError : Type 0 where
  output_gap : ℕ → ℕ → RunError
  run_lost : RunError
  hub_closed : RunError
  output_size_mismatch : ℕ → ℕ → RunError

pub record Result : Type 0 where
  pub run_result : RunResult
  pub output : Text

pub record Run : Type 0 where
  pub run_id : Text
  pub node_id : Text
  pub events : List RunEvent
  pub last_idx : ℕ
  pub output : Text
  pub finished : Bool
  pub result : Option Result
  pub err : Option RunError

unfoldable pub new_run : Text → Text → Run
new_run id node = record {
  run_id = id;
  node_id = node;
  events = [];
  last_idx = 0;
  output = [];
  finished = false;
  result = none;
  err = none;
}

pub data Next : Type 0 where
  event : RunEvent → Next
  end_of_events : Next
  blocked : Next

unfoldable pub next_of : List RunEvent → Run → Next × Run
next_of [] r = if r.finished then (end_of_events, r) else (blocked, r)
next_of (ev ∷ rest) r = (event ev, record r { events = rest })

-- `Run.Next`
unfoldable pub next : Run → Next × Run
unfolding next_of
next r = next_of r.events r

-- `Run.Wait`: `none` while the run is not done.
unfoldable pub wait : Run → Option (Option Result × Option RunError)
wait r = if r.finished then some (r.result, r.err) else none

unfoldable pub add_event : RunEvent → Run → Run
add_event ev r =
    if r.finished || leb ev.event_index r.last_idx
    then r
    else record r { last_idx = ev.event_index; events = r.events ++ ev ∷ [] }

-- `s[n:]`
unfoldable pub drop : ℕ → Text → Text
drop zero s = s
drop (suc n) [] = []
drop (suc n) (b ∷ s) = drop n s

unfoldable pub add_chunk : RunOutputChunk → Run → Option RunError × Run
unfolding uint64 drop
add_chunk c r =
    let have = length r.output in
    if ltb have c.offset
    then (some (output_gap c.offset have), r)
    else if leb (uint64 (c.offset + length c.payload)) have
    then (none, r)
    else (none, record r { output = r.output ++ drop (have - c.offset) c.payload })

unfoldable pub output_size : Run → ℕ
output_size r = length r.output

unfoldable pub finish : Option RunResult → Option RunError → Run → Run
finish res err r = if r.finished then r else record r {
  finished = true;
  result = (elim res [
    | some x ↦ some (record { run_result = x; output = r.output })
    | none ↦ r.result
  ]);
  err = err;
}
