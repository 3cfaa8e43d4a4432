-- ===== src/AgentQueue/Examples.antt =====
-- A queue of numbers.
use asgard.Prelude.{ℕ, ◌≡◌, refl, [], ◌∷◌, ◌++◌, text_eq}
use asgard.AgentQueue.{Queue, queue_all, new_queue, push, poll, polled, peek}
use asgard.AgentQueue.Fifo.{start, pushes, polls, reach_fifo}

abbrev pushed_three : Queue ℕ
pushed_three = push ℕ (1 ∷ 2 ∷ 3 ∷ []) (new_queue ℕ [])

polls_one : (poll ℕ pushed_three).0 ≡ 1 ∷ []
unfolding push new_queue poll polled text_eq
polls_one = refl

polls_all : (poll ℕ (push ℕ (1 ∷ 2 ∷ []) (new_queue ℕ (queue_all ∷ [])))).0 ≡ 1 ∷ 2 ∷ []
unfolding push new_queue poll polled text_eq
polls_all = refl

reach_fifo_example :
    (([] ++ (poll ℕ pushed_three).0) ++ (poll ℕ pushed_three).1.msgs ≡ [] ++ 1 ∷ 2 ∷ 3 ∷ [])
    × (peek ℕ (poll ℕ pushed_three).1 ≡ (poll ℕ (poll ℕ pushed_three).1).0)
reach_fifo_example =
    reach_fifo ℕ ([] ++ 1 ∷ 2 ∷ 3 ∷ []) ([] ++ (poll ℕ pushed_three).0) (poll ℕ pushed_three).1
      (polls (pushes (1 ∷ 2 ∷ 3 ∷ []) (start [])))
