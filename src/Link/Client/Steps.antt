-- ===== src/Link/Client/Steps.antt =====
-- The runner's queue over the operations of runner/lib/conn/client.go, in any order.
use asgard.Prelude.{
  ℕ, ◌+◌, ◌-◌, ◌<◌, ◌≡◌, refl, ◌∙◌, ap, inl, inr, Bool, not, ◌||◌, List, [], ◌∷◌, Text, length, leb,
  ltb, text_eq, if◌then◌else◌, keep_if, arith, Bool-cases,
}
use asgard.Link.{
  max_uint64, RunEvent, RunOutputChunk, RunResult, Heartbeat, Payload, heartbeat, run_output,
  run_event, run_result, RunnerMessage,
}
use asgard.Link.Client.{
  Options, Client, new_client, Sent, queued, waits, too_large, invalid_message,
  max_control_message_size, max_output_chunk_size, is_heartbeat, append, trim, enqueue, send_event,
  send_output, ended, send_result, without_heartbeats, send_heartbeat, attach, detach,
}
use asgard.Link.Client.Queue.{
  keep_if-Between, length-keep_if, total, IsQueue, append-IsQueue, enqueue-IsQueue, trim-queue,
}

module _ (size : ℕ → Payload → ℕ) (can_encode : Payload → Bool) (opts : Options) where
  -- A queue from which messages have been taken.
  fewer-IsQueue :
      (keep : RunnerMessage → Bool) (c d : Client)
      → IsQueue size can_encode opts c
      → d.queue ≡ keep_if keep c.queue
      → d.queue_bytes ≡ total size can_encode opts d.queue
      → d.next_seq ≡ c.next_seq
      → IsQueue size can_encode opts d
  fewer-IsQueue keep c d ok q b n =
      let l = length-keep_if keep c.queue in
      let m = ap length q in
      record {
        counted = b;
        ordered = rw (q, n) (keep_if-Between keep 0 c.queue c.next_seq ok.ordered);
        bounded = (elim ok.bounded [ inl one ↦ inl (omega arith) | inr few ↦ inr (omega arith) ]);
      }

  pub trim-IsQueue :
      (acked : ℕ) (c : Client)
      → IsQueue size can_encode opts c
      → IsQueue size can_encode opts (trim size can_encode opts acked c)
  trim-IsQueue acked c ok =
      let (q, b, n) = trim-queue size can_encode opts acked c ok in
      fewer-IsQueue (λ m. ltb acked m.seq) c (trim size can_encode opts acked c) ok q b n

  without_heartbeats-kept :
      (queue : List RunnerMessage) (n k : ℕ)
      → n ≡ total size can_encode opts queue + k
      → let kept = keep_if (λ m. not (is_heartbeat m)) queue in
        without_heartbeats size can_encode opts queue n
        ≡ (kept, total size can_encode opts kept + k)
  unfolding without_heartbeats keep_if
  without_heartbeats-kept [] n k e = ap (λ (b : ℕ). ([], b)) e
  without_heartbeats-kept (m ∷ queue) n k e = elim (Bool-cases (is_heartbeat m)) [
    | inl hb ↦
        rw (hb, without_heartbeats, keep_if)
          (without_heartbeats-kept queue (n - size m.seq m.payload) k (omega (arith, e)))
    | inr other ↦
        rw (other, without_heartbeats, keep_if)
          (rw (without_heartbeats-kept queue n (size m.seq m.payload + k) (omega (arith, e)))
            (ap (λ (b : ℕ). (m ∷ keep_if (λ x. not (is_heartbeat x)) queue, b)) (omega arith)))
  ]

  pub send_heartbeat-IsQueue :
      (hb : Heartbeat) (c : Client)
      → IsQueue size can_encode opts c
      → c.next_seq < max_uint64
      → IsQueue size can_encode opts (send_heartbeat size can_encode opts hb c)
  unfolding send_heartbeat
  send_heartbeat-IsQueue hb c ok room =
      let bad =
        not (can_encode (heartbeat hb)) || ltb max_control_message_size (size 0 (heartbeat hb)) in
      elim (Bool-cases bad) [
        | inl b ↦ rw (b, send_heartbeat) ok
        | inr g ↦ rw (g, e, send_heartbeat) kept_IsQueue
      ]
    where
      kept : List RunnerMessage
      kept = keep_if (λ m. not (is_heartbeat m)) c.queue

      e :
          without_heartbeats size can_encode opts c.queue c.queue_bytes
          ≡ (kept, total size can_encode opts kept)
      e =
          without_heartbeats-kept c.queue c.queue_bytes 0 (omega (arith, ok.counted))
          ∙ ap (λ (b : ℕ). (kept, b)) (omega arith)

      now : Client
      now = record c { queue = kept; queue_bytes = total size can_encode opts kept }

      now-IsQueue : IsQueue size can_encode opts now
      now-IsQueue = fewer-IsQueue (λ m. not (is_heartbeat m)) c now ok refl refl refl

      kept_IsQueue : IsQueue size can_encode opts (
          if leb opts.max_queued (length kept)
          then now
          else append size can_encode opts (heartbeat hb) now)
      kept_IsQueue = elim (Bool-cases (leb opts.max_queued (length kept))) [
        | inl full ↦ rw full now-IsQueue
        | inr space ↦ rw space (
            append-IsQueue size can_encode opts (heartbeat hb) now now-IsQueue room
              (inr (ground arith)))
      ]

  pub attach-IsQueue :
      (boot : Text) (acked : ℕ) (c : Client)
      → IsQueue size can_encode opts c
      → IsQueue size can_encode opts (attach size can_encode opts boot acked c)
  unfolding attach
  attach-IsQueue boot acked c ok =
      let seq = if text_eq boot c.backend_boot then c.last_backend_seq else 0 in
      let now : Client = record c { backend_boot = boot; last_backend_seq = seq } in
      let now-ok : IsQueue size can_encode opts now = record {
        counted = ok.counted;
        ordered = ok.ordered;
        bounded = ok.bounded;
      } in
      let t = trim-IsQueue acked now now-ok in
      record { counted = t.counted; ordered = t.ordered; bounded = t.bounded }

  pub ended-IsQueue :
      (res : RunResult) (s : Sent) (c : Client)
      → IsQueue size can_encode opts c
      → IsQueue size can_encode opts (ended size can_encode opts res (s, c)).1
  unfolding ended
  ended-IsQueue res queued c ok = record {
    counted = ok.counted;
    ordered = ok.ordered;
    bounded = ok.bounded;
  }
  ended-IsQueue res waits c ok = ok
  ended-IsQueue res too_large c ok = ok
  ended-IsQueue res invalid_message c ok = ok

  -- The states that a runner's calls and the backend's answers reach, as long as the seqs do not run out.
  pub data Reach : Client → Type 0 where
    start : Reach new_client
    sends_event :
        {c : Client} (ev : RunEvent)
        → Reach c
        → c.next_seq < max_uint64
        → Reach (send_event size can_encode opts ev c).1
    sends_output :
        {c : Client} (chunk : RunOutputChunk)
        → Reach c
        → c.next_seq < max_uint64
        → Reach (send_output size can_encode opts chunk c).1
    sends_result :
        {c : Client} (res : RunResult)
        → Reach c
        → c.next_seq < max_uint64
        → Reach (send_result size can_encode opts res c).1
    sends_heartbeat :
        {c : Client} (hb : Heartbeat)
        → Reach c
        → c.next_seq < max_uint64
        → Reach (send_heartbeat size can_encode opts hb c)
    is_acked : {c : Client} (acked : ℕ) → Reach c → Reach (trim size can_encode opts acked c)
    attaches :
        {c : Client} (boot : Text) (acked : ℕ)
        → Reach c
        → Reach (attach size can_encode opts boot acked c)
    detaches : {c : Client} → Reach c → Reach (detach c)

-- Whatever the runner sends and the backend acknowledges, over any number of connections: the byte count of
-- the queue is that of its messages, their seqs increase from 1 on up to the last one assigned, and the queue
-- has at most one message or at most as many as the limit.
pub reach-IsQueue :
    (size : ℕ → Payload → ℕ) (can_encode : Payload → Bool) (opts : Options) (c : Client)
    → Reach size can_encode opts c
    → IsQueue size can_encode opts c
unfolding new_client send_event send_output send_result detach
reach-IsQueue size can_encode opts c start = record {
  counted = refl;
  ordered = omega arith;
  bounded = inl (omega arith);
}
reach-IsQueue size can_encode opts c (sends_event ev r room) =
    enqueue-IsQueue size can_encode opts (run_event ev) _ (reach-IsQueue size can_encode opts _ r)
      room
reach-IsQueue size can_encode opts c (sends_output {c = b} chunk r room) =
    elim (Bool-cases (ltb max_output_chunk_size (length chunk.payload))) [
      | inl big ↦ rw (big, send_output) (reach-IsQueue size can_encode opts b r)
      | inr small ↦
          rw (small, send_output)
            (enqueue-IsQueue size can_encode opts (run_output chunk) b
              (reach-IsQueue size can_encode opts b r) room)
    ]
reach-IsQueue size can_encode opts c (sends_result {c = b} res r room) =
    let ok =
      enqueue-IsQueue size can_encode opts (run_result res) b
        (reach-IsQueue size can_encode opts b r) room in
    ended-IsQueue size can_encode opts res (enqueue size can_encode opts (run_result res) b).0
      (enqueue size can_encode opts (run_result res) b).1 ok
reach-IsQueue size can_encode opts c (sends_heartbeat hb r room) =
    send_heartbeat-IsQueue size can_encode opts hb _ (reach-IsQueue size can_encode opts _ r) room
reach-IsQueue size can_encode opts c (is_acked acked r) =
    trim-IsQueue size can_encode opts acked _ (reach-IsQueue size can_encode opts _ r)
reach-IsQueue size can_encode opts c (attaches boot acked r) =
    attach-IsQueue size can_encode opts boot acked _ (reach-IsQueue size can_encode opts _ r)
reach-IsQueue size can_encode opts c (detaches {c = b} r) =
    let ok = reach-IsQueue size can_encode opts b r in
    record { counted = ok.counted; ordered = ok.ordered; bounded = ok.bounded }
