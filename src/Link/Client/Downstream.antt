-- ===== src/Link/Client/Downstream.antt =====
-- What the runner does with a message of the backend: `readLoop` and `handle` of runner/lib/conn/client.go. The
-- calls that `dispatch` gives to the worker of a run are the result, in order.
use asgard.Prelude.{ℕ, Bool, true, false, List, [], ◌∷◌, Text, leb, ◌==◌, if◌then◌else◌}
use asgard.Link.{RunRef, Payload}
use asgard.Link.Client.{Options, Client, begin, trim}

pub data Order : Type 0 where
  start_run : RunRef → Order
  cancel_run : Text → Order
  unknown : Order

pub data Incoming : Type 0 where
  ack : ℕ → Incoming
  register_result : Incoming
  sequenced : ℕ → Order → Incoming

-- A call of the executor.
pub data Call : Type 0 where
  starts : RunRef → Call
  cancels : Text → Call

unfoldable pub handle : Order → Client → List Call × Client
unfolding begin
handle (start_run ref) c =
    let (fresh, active) = begin ref c.active in
    if fresh then (starts ref ∷ [], record c { active = active }) else ([], c)
handle (cancel_run id) c = (cancels id ∷ [], c)
handle unknown c = ([], c)

module _ (size : ℕ → Payload → ℕ) (can_encode : Payload → Bool) (opts : Options) where
  -- One turn of `readLoop`: whether the connection goes on, the calls, and the new state.
  unfoldable pub receive : Incoming → Client → Bool × List Call × Client
  unfolding handle trim
  receive (ack acked) c = (true, [], trim size can_encode opts acked c)
  receive register_result c = (false, [], c)
  receive (sequenced seq order) c =
      let (calls, now) = handle order c in
      if seq == 0
      then (false, [], c)
      else if leb seq c.last_backend_seq
      then (true, [], record c { ack_dirty = true })
      else (true, calls, record now { last_backend_seq = seq; ack_dirty = true })
