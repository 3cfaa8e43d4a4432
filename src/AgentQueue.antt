-- ===== src/AgentQueue.antt =====
-- The queue of steering and follow-up messages of an agent loop, simplest/internal/agent/queue.go. The
-- message type of its client is the parameter `Message`; Go's nil slice and an empty one are both [], since
-- the callers only range over what they get. The lock makes each method one step.
pub mod Fifo
mod Examples
use asgard.Prelude.{
  ℕ, Bool, true, false, List, [], ◌∷◌, ◌++◌, Text, bytes, text_eq, length, if◌then◌else◌,
}

-- A `QueueMode` is a string.
abbrev pub queue_one_at_a_time : Text
queue_one_at_a_time = bytes "one-at-a-time"

abbrev pub queue_all : Text
queue_all = bytes "all"

module _ (Message : Type 0) where
  pub record Queue : Type 0 where
    pub msgs : List Message
    pub mode : Text

  unfoldable pub new_queue : List Text → Queue
  new_queue [] = record { msgs = []; mode = queue_one_at_a_time }
  new_queue (mode ∷ modes) = record {
    msgs = [];
    mode = (if text_eq mode queue_all then queue_all else queue_one_at_a_time);
  }

  unfoldable pub push : List Message → Queue → Queue
  push [] q = q
  push (m ∷ ms) q = record q { msgs = q.msgs ++ m ∷ ms }

  unfoldable pub len : Queue → ℕ
  len q = length q.msgs

  unfoldable pub polled : Bool → List Message → List Message × List Message
  polled every [] = ([], [])
  polled every (m ∷ ms) = if every then (m ∷ ms, []) else (m ∷ [], ms)

  -- What `Poll` returns, and the queue that it leaves.
  unfoldable pub poll : Queue → List Message × Queue
  unfolding polled
  poll q =
      let (out, rest) = polled (text_eq q.mode queue_all) q.msgs in (out, record q { msgs = rest })

  unfoldable pub peeked : Bool → List Message → List Message
  peeked every [] = []
  peeked every (m ∷ ms) = if every then m ∷ ms else m ∷ []

  unfoldable pub peek : Queue → List Message
  unfolding peeked
  peek q = peeked (text_eq q.mode queue_all) q.msgs
