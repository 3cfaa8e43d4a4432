-- ===== src/Link/Client/Queue.antt =====
-- The queue of runner/lib/conn/client.go: its byte count, the order of its messages, and its length.
use asgard.Prelude.{
  ℕ, suc, ◌+◌, ◌-◌, ◌≤◌, ◌<◌, ◌≡◌, refl, sym, ap, ◌⊎◌, inl, inr, Bool, true, false, not, List, [],
  ◌∷◌, ◌++◌, length, length-append, leb, ltb, ◌==◌, keep_if, arith, Bool-cases,
}
use asgard.Link.{uint64, max_uint64, Payload, RunnerMessage}
use asgard.Link.Client.{
  Options, Client, max_control_message_size, append, trim_from, drops_first, trim, has_space,
  enqueue,
}

-- Seqs that increase, all above `low` and none above `top`.
abbrev pub Between : ℕ → List RunnerMessage → ℕ → Type 0
Between low [] top = low ≤ top
Between low (m ∷ queue) top = (low < m.seq) × Between m.seq queue top

pub Between-low :
    (low : ℕ) (queue : List RunnerMessage) (top : ℕ) → Between low queue top → low ≤ top
Between-low low [] top h = h
Between-low low (m ∷ queue) top (l, h) = let b = Between-low m.seq queue top h in omega arith

pub Between-from :
    (low lower : ℕ) (queue : List RunnerMessage) (top : ℕ)
    → lower ≤ low
    → Between low queue top
    → Between lower queue top
Between-from low lower [] top l h = omega arith
Between-from low lower (m ∷ queue) top l (k, h) = (omega arith, h)

pub keep_if-Between :
    (keep : RunnerMessage → Bool) (low : ℕ) (queue : List RunnerMessage) (top : ℕ)
    → Between low queue top
    → Between low (keep_if keep queue) top
unfolding keep_if
keep_if-Between keep low [] top h = h
keep_if-Between keep low (m ∷ queue) top (l, h) = elim (Bool-cases (keep m)) [
  | inl stays ↦ rw stays (l, keep_if-Between keep m.seq queue top h)
  | inr goes ↦
      rw goes
        (keep_if-Between keep low queue top (Between-from m.seq low queue top (omega arith) h))
]

pub length-keep_if :
    (keep : RunnerMessage → Bool) (queue : List RunnerMessage)
    → length (keep_if keep queue) ≤ length queue
unfolding keep_if
length-keep_if keep [] = omega arith
length-keep_if keep (m ∷ queue) = let n = length-keep_if keep queue in ground arith

pub Between-append :
    (low : ℕ) (queue : List RunnerMessage) (top : ℕ) (m : RunnerMessage)
    → Between low queue top
    → top < m.seq
    → Between low (queue ++ m ∷ []) m.seq
Between-append low [] top m h l = (omega arith, omega arith)
Between-append low (n ∷ queue) top m (k, h) l = (k, Between-append n.seq queue top m h l)

module _ (size : ℕ → Payload → ℕ) (can_encode : Payload → Bool) (opts : Options) where
  abbrev pub total : List RunnerMessage → ℕ
  total [] = 0
  total (m ∷ queue) = size m.seq m.payload + total queue

  total-append :
      (queue : List RunnerMessage) (m : RunnerMessage)
      → total (queue ++ m ∷ []) ≡ total queue + size m.seq m.payload
  total-append [] m = omega arith
  total-append (n ∷ queue) m = omega (arith, total-append queue m)

  -- The byte count is that of the queue's messages; the seqs increase, from 1 on, up to the last one that
  -- was assigned; and the queue is not longer than the limit, or than one message.
  pub record IsQueue (c : Client) : Type 0 where
    pub counted : c.queue_bytes ≡ total c.queue
    pub ordered : Between 0 c.queue c.next_seq
    pub bounded : (length c.queue ≤ 1) ⊎ (length c.queue ≤ opts.max_queued)

  pub append-IsQueue :
      (p : Payload) (c : Client)
      → IsQueue c
      → c.next_seq < max_uint64
      → (length c.queue ≡ 0) ⊎ (length c.queue < opts.max_queued)
      → IsQueue (append size can_encode opts p c)
  unfolding append uint64
  append-IsQueue p c ok room short =
      let m : RunnerMessage = record { seq = uint64 (suc c.next_seq); payload = p } in
      let n = length-append c.queue (m ∷ []) in
      record {
        counted = omega (arith, total-append c.queue m, ok.counted);
        ordered = Between-append 0 c.queue c.next_seq m ok.ordered (omega arith);
        bounded = (elim short [ inl e ↦ inl (omega arith) | inr l ↦ inr (omega arith) ]);
      }

  has_space-short :
      (n : ℕ) (c : Client)
      → has_space size can_encode opts n c ≡ true
      → (length c.queue ≡ 0) ⊎ (length c.queue < opts.max_queued)
  unfolding has_space
  has_space-short n c e = elim (Bool-cases (length c.queue == 0)) [
    | inl z ↦ inl (ground arith)
    | inr more ↦ inr (ground arith)
  ]

  pub enqueue-IsQueue :
      (p : Payload) (c : Client)
      → IsQueue c
      → c.next_seq < max_uint64
      → IsQueue (enqueue size can_encode opts p c).1
  unfolding enqueue has_space
  enqueue-IsQueue p c ok room = elim (Bool-cases (not (can_encode p))) [
    | inl bad ↦ rw (bad, enqueue) ok
    | inr good ↦ elim (Bool-cases (ltb max_control_message_size (size 0 p))) [
      | inl big ↦ rw (good, big, enqueue) ok
      | inr small ↦ elim (Bool-cases (has_space size can_encode opts (size 0 p) c)) [
        | inr full ↦ rw (good, small, full, enqueue) ok
        | inl space ↦
            rw (good, small, space, enqueue)
              (append-IsQueue p c ok room (has_space-short (size 0 p) c space))
      ]
    ]
  ]

  -- What `trim` keeps is what stands above the acknowledged seq, and its byte count.
  above :
      (low acked : ℕ) (queue : List RunnerMessage) (top : ℕ)
      → Between low queue top
      → acked ≤ low
      → keep_if (λ m. ltb acked m.seq) queue ≡ queue
  unfolding keep_if
  above low acked [] top h l = refl
  above low acked (m ∷ queue) top (k, h) l =
      let e : ltb acked m.seq ≡ true = ground arith in
      rw e (ap (λ (q : List RunnerMessage). m ∷ q) (above m.seq acked queue top h (omega arith)))

  trim_from-kept :
      (low acked : ℕ) (queue : List RunnerMessage) (top n : ℕ)
      → Between low queue top
      → n ≡ total queue
      → trim_from size can_encode opts acked queue n
        ≡ (keep_if (λ m. ltb acked m.seq) queue, total (keep_if (λ m. ltb acked m.seq) queue))
  unfolding trim_from keep_if
  trim_from-kept low acked [] top n h e = ap (λ (k : ℕ). ([], k)) e
  trim_from-kept low acked (m ∷ queue) top n (l, h) e = elim (Bool-cases (leb m.seq acked)) [
    | inl gone ↦
        let f : ltb acked m.seq ≡ false = ground arith in
        rw (gone, f, trim_from, keep_if)
          (trim_from-kept m.seq acked queue top (n - size m.seq m.payload) h (omega (arith, e)))
    | inr stays ↦
        let f : ltb acked m.seq ≡ true = ground arith in
        rw (stays, f, trim_from, keep_if)
          (rw (above m.seq acked queue top h (ground arith)) (ap (λ (k : ℕ). (m ∷ queue, k)) e))
  ]

  drops_first-none :
      (low acked : ℕ) (queue : List RunnerMessage) (top : ℕ)
      → Between low queue top
      → drops_first size can_encode opts acked queue ≡ false
      → keep_if (λ m. ltb acked m.seq) queue ≡ queue
  unfolding drops_first keep_if
  drops_first-none low acked [] top h e = refl
  drops_first-none low acked (m ∷ queue) top (k, h) e =
      let f : ltb acked m.seq ≡ true = ground arith in
      rw f (ap (λ (q : List RunnerMessage). m ∷ q) (above m.seq acked queue top h (ground arith)))

  -- On a queue in order, an acknowledgement takes away the messages that it covers and no others, wherever
  -- they stand, and the byte count is that of the rest.
  pub trim-queue :
      (acked : ℕ) (c : Client)
      → IsQueue c
      → let after = trim size can_encode opts acked c in
        (after.queue ≡ keep_if (λ m. ltb acked m.seq) c.queue)
        × (after.queue_bytes ≡ total after.queue)
        × (after.next_seq ≡ c.next_seq)
  unfolding trim
  trim-queue acked c ok =
      let e = trim_from-kept 0 acked c.queue c.next_seq c.queue_bytes ok.ordered ok.counted in
      elim (Bool-cases (drops_first size can_encode opts acked c.queue)) [
        | inl some_go ↦ rw (some_go, e, trim) (refl, refl, refl)
        | inr none_goes ↦
            rw (none_goes, trim)
              (
                sym (drops_first-none 0 acked c.queue c.next_seq ok.ordered none_goes),
                ok.counted,
                refl,
              )
      ]
