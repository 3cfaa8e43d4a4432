-- ===== src/Link/Channel/Sending.antt =====
-- What a call of the runner's client does to its queue, runner/lib/conn/client.go.
use asgard.Prelude.{
  ℕ, suc, ◌-◌, ◌<◌, ◌≡◌, refl, ap, ◌⊎◌, inl, inr, Bool, not, ◌||◌, Text, List, [], ◌∷◌, ◌++◌,
  length, leb, ltb, keep_if, arith, Bool-cases,
}
use asgard.Link.{
  uint64, max_uint64, Payload, heartbeat, run_event, run_output, run_result, RunResult, Heartbeat,
  RunnerMessage,
}
use asgard.Link.Client.{
  Options, Client, Sent, queued, waits, too_large, invalid_message, max_control_message_size,
  max_output_chunk_size, is_heartbeat, append, has_space, enqueue, send_event, send_output, ended,
  send_result, without_heartbeats, send_heartbeat,
}
use asgard.Link.Client.Queue.{IsQueue, enqueue-IsQueue}
use asgard.Link.Client.Steps.{ended-IsQueue, send_heartbeat-IsQueue}
use asgard.Link.Channel.{send}
use asgard.Link.Channel.Order.{lasting}

-- The queue is as it was, or without its heartbeats.
abbrev pub IsBase : Client → List RunnerMessage → Type 0
IsBase c base = (base ≡ c.queue) ⊎ (base ≡ lasting c.queue)

-- The call has queued nothing, or one message with the next seq.
abbrev pub Queues : Payload → Client → Client → Type 0
Queues p c c' =
    (base : List RunnerMessage) × IsBase c base
    × (((c'.queue ≡ base) × (c'.next_seq ≡ c.next_seq))
        ⊎ ((c'.queue ≡ base ++ record { seq = suc c.next_seq; payload = p } ∷ [])
            × (c'.next_seq ≡ suc c.next_seq)))

module _ (size : ℕ → Payload → ℕ) (can_encode : Payload → Bool) (opts : Options)
    (is_allowed : Text → Bool) where
  append-Queues :
      (p : Payload) (base : List RunnerMessage) (b : ℕ) (c : Client)
      → IsBase c base
      → c.next_seq < max_uint64
      → Queues p c (append size can_encode opts p (record c { queue = base; queue_bytes = b }))
  unfolding append uint64
  append-Queues p base b c is room =
      let e : uint64 (suc c.next_seq) ≡ suc c.next_seq = omega arith in
      (base, is, inr (ap (λ (n : ℕ). base ++ record { seq = n; payload = p } ∷ []) e, e))

  unchanged-Queues : (p : Payload) (c : Client) → Queues p c c
  unchanged-Queues p c = (c.queue, inl refl, inl (refl, refl))

  enqueue-Queues :
      (p : Payload) (c : Client)
      → c.next_seq < max_uint64
      → Queues p c (enqueue size can_encode opts p c).1
  unfolding enqueue
  enqueue-Queues p c room = elim (Bool-cases (not (can_encode p))) [
    | inl bad ↦ rw (bad, enqueue) (unchanged-Queues p c)
    | inr good ↦ elim (Bool-cases (ltb max_control_message_size (size 0 p))) [
      | inl big ↦ rw (good, big, enqueue) (unchanged-Queues p c)
      | inr small ↦ elim (Bool-cases (has_space size can_encode opts (size 0 p) c)) [
        | inr full ↦ rw (good, small, full, enqueue) (unchanged-Queues p c)
        | inl space ↦
            rw (good, small, space, enqueue)
              (append-Queues p c.queue c.queue_bytes c (inl refl) room)
      ]
    ]
  ]

  without_heartbeats-lasting :
      (queue : List RunnerMessage) (n : ℕ)
      → (without_heartbeats size can_encode opts queue n).0 ≡ lasting queue
  unfolding without_heartbeats keep_if
  without_heartbeats-lasting [] n = refl
  without_heartbeats-lasting (m ∷ queue) n = elim (Bool-cases (is_heartbeat m)) [
    | inl hb ↦
        rw (hb, without_heartbeats, keep_if)
          (without_heartbeats-lasting queue (n - size m.seq m.payload))
    | inr other ↦
        rw (other, without_heartbeats, keep_if)
          (ap (λ (q : List RunnerMessage). m ∷ q) (without_heartbeats-lasting queue n))
  ]

  send_heartbeat-Queues :
      (hb : Heartbeat) (c : Client)
      → c.next_seq < max_uint64
      → Queues (heartbeat hb) c (send_heartbeat size can_encode opts hb c)
  unfolding send_heartbeat
  send_heartbeat-Queues hb c room =
      let kept = (without_heartbeats size can_encode opts c.queue c.queue_bytes).0 in
      let bytes = (without_heartbeats size can_encode opts c.queue c.queue_bytes).1 in
      let e = without_heartbeats-lasting c.queue c.queue_bytes in
      elim (Bool-cases
        (not (can_encode (heartbeat hb)) || ltb max_control_message_size (size 0 (heartbeat hb)))) [
          | inl bad ↦ rw (bad, send_heartbeat) (unchanged-Queues (heartbeat hb) c)
          | inr good ↦ elim (Bool-cases (leb opts.max_queued (length kept))) [
            | inl full ↦ rw (good, full, send_heartbeat) (kept, inr e, inl (refl, refl))
            | inr space ↦
                rw (good, space, send_heartbeat)
                  (append-Queues (heartbeat hb) kept bytes c (inr e) room)
          ]
        ]

  ended-Queues :
      (res : RunResult) (s : Sent) (c c' : Client) (p : Payload)
      → Queues p c c'
      → Queues p c (ended size can_encode opts res (s, c')).1
  unfolding ended
  ended-Queues res queued c c' p q = q
  ended-Queues res waits c c' p q = q
  ended-Queues res too_large c c' p q = q
  ended-Queues res invalid_message c c' p q = q

  pub send-Queues :
      (p : Payload) (c : Client)
      → c.next_seq < max_uint64
      → Queues p c (send size can_encode opts is_allowed p c)
  unfolding send send_event send_output send_result
  send-Queues (heartbeat hb) c room = send_heartbeat-Queues hb c room
  send-Queues (run_event ev) c room = enqueue-Queues (run_event ev) c room
  send-Queues (run_output chunk) c room =
      elim (Bool-cases (ltb max_output_chunk_size (length chunk.payload))) [
        | inl big ↦ rw (big, send, send_output) (unchanged-Queues (run_output chunk) c)
        | inr small ↦ rw (small, send, send_output) (enqueue-Queues (run_output chunk) c room)
      ]
  send-Queues (run_result res) c room =
      let r = enqueue size can_encode opts (run_result res) c in
      ended-Queues res r.0 c r.1 (run_result res) (enqueue-Queues (run_result res) c room)

  pub send-IsQueue :
      (p : Payload) (c : Client)
      → IsQueue size can_encode opts c
      → c.next_seq < max_uint64
      → IsQueue size can_encode opts (send size can_encode opts is_allowed p c)
  unfolding send send_event send_output send_result
  send-IsQueue (heartbeat hb) c ok room = send_heartbeat-IsQueue size can_encode opts hb c ok room
  send-IsQueue (run_event ev) c ok room =
      enqueue-IsQueue size can_encode opts (run_event ev) c ok room
  send-IsQueue (run_output chunk) c ok room =
      elim (Bool-cases (ltb max_output_chunk_size (length chunk.payload))) [
        | inl big ↦ rw (big, send, send_output) ok
        | inr small ↦
            rw (small, send, send_output)
              (enqueue-IsQueue size can_encode opts (run_output chunk) c ok room)
      ]
  send-IsQueue (run_result res) c ok room =
      let r = enqueue size can_encode opts (run_result res) c in
      ended-IsQueue size can_encode opts res r.0 r.1
        (enqueue-IsQueue size can_encode opts (run_result res) c ok room)
