-- ===== src/Link/Client.antt =====
-- The runner's end of the link, runner/lib/conn/client.go: the queue of unacknowledged upstream messages.
-- `proto.Size` and whether `proto.Marshal` succeeds, of the protobuf library, are the parameters `size` and
-- `can_encode`. The channel `space` that senders wait on is its count of closings, `space`; a wake-up of the
-- writer carries no data and is left out. The byte count, a Go int, is a natural number, whose subtraction
-- stops at 0.
pub mod Queue
pub mod Steps
pub mod Downstream
mod Examples
use asgard.Prelude.{
  ℕ, zero, suc, ◌+◌, ◌-◌, Bool, true, false, not, ◌&&◌, ◌||◌, List, [], ◌∷◌, ◌++◌, Text, Option,
  none, some, length, leb, ltb, ◌==◌, text_eq, if◌then◌else◌, keep_if, exists,
}
use asgard.Link.{
  uint64, RunEvent, RunOutputChunk, RunRef, RunResult, Heartbeat, Payload, heartbeat, run_event,
  run_output, run_result, RunnerMessage,
}

-- The options that the queue reads.
pub record Options : Type 0 where
  pub max_queued : ℕ
  pub max_queued_bytes : ℕ
  pub max_runs : ℕ

abbrev pub max_control_message_size : ℕ
max_control_message_size = 12582912

abbrev pub max_output_chunk_size : ℕ
max_output_chunk_size = 1048576

-- The fields of `Client` that the mutex guards, without the channel to the writer. `active` is the run
-- table; `Table.Active` sorts it by run id for the report, which is left out.
pub record Client : Type 0 where
  pub queue : List RunnerMessage
  pub queue_bytes : ℕ
  pub next_seq : ℕ
  pub space : ℕ
  pub last_backend_seq : ℕ
  pub backend_boot : Text
  pub ack_dirty : Bool
  pub connected : Bool
  pub active : List RunRef

unfoldable pub new_client : Client
new_client = record {
  queue = [];
  queue_bytes = 0;
  next_seq = 0;
  space = 0;
  last_backend_seq = 0;
  backend_boot = [];
  ack_dirty = false;
  connected = false;
  active = [];
}

unfoldable pub is_heartbeat : RunnerMessage → Bool
is_heartbeat m = elim m.payload [ heartbeat _ ↦ true | _ ↦ false ]

-- `Table.Begin`, `Table.End` and `Table.Len` of runner/lib/runs/table.go.
unfoldable pub begin : RunRef → List RunRef → Bool × List RunRef
begin ref active =
    if exists (λ r. text_eq r.run_id ref.run_id) active
    then (false, active)
    else (true, active ++ ref ∷ [])

unfoldable pub end : Text → List RunRef → List RunRef
end run_id active = keep_if (λ r. not (text_eq r.run_id run_id)) active

-- What a sender is told: `waits` is where `enqueue` blocks until the queue shrinks.
pub data Sent : Type 0 where
  queued : Sent
  waits : Sent
  too_large : Sent
  invalid_message : Sent

-- `completedLocked`
unfoldable pub completed : List RunnerMessage → List RunRef
completed [] = []
completed (m ∷ queue) =
    let rest = completed queue in elim m.payload [ run_result r ↦ r.ref ∷ rest | _ ↦ rest ]

-- The `active` runs of `buildRegister`: those whose result is not queued.
unfoldable pub active_refs : Client → List RunRef
unfolding completed
active_refs c =
    let finished = completed c.queue in
    keep_if (λ r. not (exists (λ d. text_eq d.run_id r.run_id) finished)) c.active

unfoldable pub detach : Client → Client
detach c = record c { connected = false }

-- What `writeLoop` sends next, when `sent` is the last seq it has sent.
unfoldable pub unsent : ℕ → List RunnerMessage → List RunnerMessage
unsent sent queue = keep_if (λ m. ltb sent m.seq) queue

module _ (size : ℕ → Payload → ℕ) (can_encode : Payload → Bool) (opts : Options) where
  unfoldable pub append : Payload → Client → Client
  unfolding uint64
  append p c =
      let seq = uint64 (suc c.next_seq) in
      record c {
        next_seq = seq;
        queue = c.queue ++ record { seq = seq; payload = p } ∷ [];
        queue_bytes = c.queue_bytes + size seq p;
      }

  -- The loop of `trimLocked`: what stays of the queue, its bytes, and whether anything went.
  unfoldable pub trim_from : ℕ → List RunnerMessage → ℕ → List RunnerMessage × ℕ
  trim_from acked [] n = ([], n)
  trim_from acked (m ∷ queue) n =
      let rest = trim_from acked queue (n - size m.seq m.payload) in
      if leb m.seq acked then rest else (m ∷ queue, n)

  unfoldable pub drops_first : ℕ → List RunnerMessage → Bool
  drops_first acked [] = false
  drops_first acked (m ∷ queue) = leb m.seq acked

  unfoldable pub trim : ℕ → Client → Client
  unfolding trim_from drops_first
  trim acked c =
      let (queue, n) = trim_from acked c.queue c.queue_bytes in
      if drops_first acked c.queue
      then record c { queue = queue; queue_bytes = n; space = suc c.space }
      else c

  unfoldable pub has_space : ℕ → Client → Bool
  has_space n c =
      (length c.queue == 0)
      || (ltb (length c.queue) opts.max_queued && leb (c.queue_bytes + n) opts.max_queued_bytes)

  -- One turn of the loop of `enqueue`.
  unfoldable pub enqueue : Payload → Client → Sent × Client
  unfolding append has_space
  enqueue p c =
      if not (can_encode p)
      then (invalid_message, c)
      else if ltb max_control_message_size (size 0 p)
      then (too_large, c)
      else if has_space (size 0 p) c
      then (queued, append p c)
      else (waits, c)

  unfoldable pub send_event : RunEvent → Client → Sent × Client
  unfolding enqueue
  send_event ev c = enqueue (run_event ev) c

  unfoldable pub send_output : RunOutputChunk → Client → Sent × Client
  unfolding enqueue
  send_output chunk c =
      if ltb max_output_chunk_size (length chunk.payload)
      then (too_large, c)
      else enqueue (run_output chunk) c

  unfoldable pub ended : RunResult → Sent × Client → Sent × Client
  unfolding end
  ended res (queued, c) = (queued, record c { active = end res.ref.run_id c.active })
  ended res (s, c) = (s, c)

  unfoldable pub send_result : RunResult → Client → Sent × Client
  unfolding enqueue ended
  send_result res c = ended res (enqueue (run_result res) c)

  -- The loop of `sendHeartbeat` over the queue.
  unfoldable pub without_heartbeats : List RunnerMessage → ℕ → List RunnerMessage × ℕ
  unfolding is_heartbeat
  without_heartbeats [] n = ([], n)
  without_heartbeats (m ∷ queue) n =
      let gone = without_heartbeats queue (n - size m.seq m.payload) in
      let (kept, bytes) = without_heartbeats queue n in
      if is_heartbeat m then gone else (m ∷ kept, bytes)

  -- `sendHeartbeat`, from the snapshot it has taken.
  unfoldable pub send_heartbeat : Heartbeat → Client → Client
  unfolding append without_heartbeats
  send_heartbeat hb c =
      if not (can_encode (heartbeat hb)) || ltb max_control_message_size (size 0 (heartbeat hb))
      then c
      else let (kept, bytes) = without_heartbeats c.queue c.queue_bytes in
        let now = record c { queue = kept; queue_bytes = bytes } in
        if leb opts.max_queued (length kept) then now else append (heartbeat hb) now

  -- `attach`, from the backend's boot id and the seq it has acknowledged.
  unfoldable pub attach : Text → ℕ → Client → Client
  unfolding trim
  attach boot acked c =
      let same = text_eq boot c.backend_boot in
      let seq = if same then c.last_backend_seq else 0 in
      let now = record c { backend_boot = boot; last_backend_seq = seq } in
      record (trim acked now) { connected = true; ack_dirty = ltb 0 seq }
