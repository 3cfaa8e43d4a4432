-- ===== src/AgentQueue/Fifo.antt =====
-- The order of the queue of simplest/internal/agent/queue.go.
use asgard.Prelude.{
  ◌≡◌, refl, sym, ◌∙◌, ap, Bool, true, false, List, [], ◌∷◌, ◌++◌, append_assoc, append-nil, Text,
  text_eq,
}
use asgard.AgentQueue.{Queue, queue_all, new_queue, push, polled, poll, peeked, peek}

module _ (Message : Type 0) where
  -- A queue after any calls: `pushed` is all that was pushed, in order, and `taken` all that `Poll` returned.
  pub data Reach : List Message → List Message → Queue Message → Type 0 where
    start : (modes : List Text) → Reach [] [] (new_queue Message modes)
    pushes :
        {pushed taken : List Message} {q : Queue Message} (ms : List Message)
        → Reach pushed taken q
        → Reach (pushed ++ ms) taken (push Message ms q)
    polls :
        {pushed taken : List Message} {q : Queue Message}
        → Reach pushed taken q
        → Reach pushed (taken ++ (poll Message q).0) (poll Message q).1

  push-msgs : (ms : List Message) (q : Queue Message) → (push Message ms q).msgs ≡ q.msgs ++ ms
  unfolding push
  push-msgs [] q = sym (append-nil q.msgs)
  push-msgs (m ∷ ms) q = refl

  polled-append :
      (every : Bool) (msgs : List Message)
      → (polled Message every msgs).0 ++ (polled Message every msgs).1 ≡ msgs
  unfolding polled
  polled-append every [] = refl
  polled-append true (m ∷ ms) = append-nil (m ∷ ms)
  polled-append false (m ∷ ms) = refl

  poll-append : (q : Queue Message) → (poll Message q).0 ++ (poll Message q).1.msgs ≡ q.msgs
  unfolding poll
  poll-append q = polled-append (text_eq q.mode queue_all) q.msgs

  polled-peeked :
      (every : Bool) (msgs : List Message)
      → (polled Message every msgs).0 ≡ peeked Message every msgs
  unfolding polled peeked
  polled-peeked every [] = refl
  polled-peeked true (m ∷ ms) = refl
  polled-peeked false (m ∷ ms) = refl

-- First in, first out, in both modes and after any calls: the messages that `Poll` has returned, followed by
-- those that are pending, are the messages that were pushed, in their order; and what `Peek` shows is what the
-- next `Poll` returns.
pub reach_fifo :
    (Message : Type 0) (pushed taken : List Message) (q : Queue Message)
    → Reach Message pushed taken q
    → (taken ++ q.msgs ≡ pushed) × (peek Message q ≡ (poll Message q).0)
unfolding poll peek new_queue
reach_fifo Message pushed taken q r =
    (order pushed taken q r, sym (polled-peeked Message (text_eq q.mode queue_all) q.msgs))
  where
    order :
        (pushed taken : List Message) (q : Queue Message)
        → Reach Message pushed taken q
        → taken ++ q.msgs ≡ pushed
    order pushed taken q (start []) = refl
    order pushed taken q (start (mode ∷ modes)) = refl
    order _ taken _ (pushes {pushed = before} {q = p} ms r) =
        ap (λ (l : List Message). taken ++ l) (push-msgs Message ms p)
        ∙ (sym (append_assoc taken p.msgs ms)
            ∙ ap (λ (l : List Message). l ++ ms) (order before taken p r))
    order pushed _ _ (polls {taken = before} {q = p} r) =
        append_assoc before (poll Message p).0 (poll Message p).1.msgs
        ∙ (ap (λ (l : List Message). before ++ l) (poll-append Message p) ∙ order pushed before p r)
