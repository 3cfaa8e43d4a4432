-- ===== src/DirLock/Exclusion/Sweeps.antt =====
-- `processWaitersLocked` of backend/lib/dirlock/dirlock.go keeps mutual exclusion.
use asgard.Prelude.Memᴰ
use asgard.Prelude.{
  ◌≡◌, refl, sym, ◌∙◌, inl, inr, List, [], ◌∷◌, ◌++◌, Memᴰ, map, arith, Bool-cases, first,
  Option-cases, exists, All, All-append, All-at, All-of, subst,
}
use asgard.DirLock.State.{Request, Holder, Waiter, Manager, find_holder}
use asgard.DirLock.Dirs.{mem-sort, add_missing, mem-add_missing}
use asgard.DirLock.Holders.{find_holder-some}
use asgard.DirLock.Conflicts.{holder_conflict}
use asgard.DirLock.Apart.{IsFree, IsWalk, holder_conflict-none}
use asgard.DirLock.Sweep.{
  overlapping_holder, Sweep, new_holder, widened, grant, blocked_by, clashes_with_earlier, visit,
  refresh, sweep, start_sweep, process_waiters,
}
use asgard.DirLock.Exclusion.{
  IsExclusive, queue, AgreesWith, HoldersAgree, RequestsAgree, IsSafe, IsFreeHolder,
  put-IsExclusive, put-HoldersAgree,
}

-- The mode of a widened entry, when the old one agrees with the request.
widened-mode : (req : Request) (h : Holder) → h.mode ≡ req.mode → (widened req h).mode ≡ h.mode
unfolding widened
widened-mode req h e = ground arith

widened-IsFree :
    (req : Request) (h : Holder) (hs : List Holder)
    → h.chat_id ≡ req.chat_id
    → AgreesWith h.runner_id h.mode req
    → IsFreeHolder h hs
    → IsFree req.chat_id req.runner_id req.mode req.dirs hs
    → IsFreeHolder (widened req h) hs
unfolding widened
widened-IsFree req h hs same (runner, mode) held asked b i other on d d' j j' o =
    elim (mem-add_missing h.dirs req.dirs (mem-sort (add_missing h.dirs req.dirs) j)) [
      | inl old ↦
          let (x, y) = held b i other on d d' old j' o in
          (λ e. x (sym (widened-mode req h mode) ∙ e), y)
      | inr new ↦
          let (x, y) = asked b i (λ e. other (e ∙ sym same)) (on ∙ runner) d d' new j' o in
          (λ e. x (sym mode ∙ (sym (widened-mode req h mode) ∙ e)), y)
    ]

-- A grant to a request that clashes with no holder.
module _ (req : Request) (hs : List Holder) (qs : List Request) where
  pub grant-IsExclusive :
      Memᴰ req qs
      → HoldersAgree hs qs
      → IsExclusive hs
      → IsFree req.chat_id req.runner_id req.mode req.dirs hs
      → IsExclusive (grant req hs)
  unfolding grant
  grant-IsExclusive asks agree ex free = elim (Option-cases (find_holder req.chat_id hs)) [
    | inl fresh ↦ rw (fresh, grant) (put-IsExclusive (new_holder req) hs ex free)
    | inr (h, e) ↦
        let (held, same) = find_holder-some req.chat_id hs e in
        rw (e, grant)
          (put-IsExclusive (widened req h) hs ex
            (widened-IsFree req h hs same (agree h req held asks same) (ex h held) free))
  ]

  widened-agree :
      (h : Holder)
      → h.chat_id ≡ req.chat_id
      → AgreesWith h.runner_id h.mode req
      → Memᴰ req qs
      → RequestsAgree qs
      → (q : Request) → Memᴰ q qs
      → (widened req h).chat_id ≡ q.chat_id
      → AgreesWith (widened req h).runner_id (widened req h).mode q
  unfolding widened
  widened-agree h same (runner, mode) asks pair q j eq =
      let (r, m) = pair req q asks j (sym same ∙ eq) in
      (runner ∙ r, widened-mode req h mode ∙ (mode ∙ m))

  pub grant-HoldersAgree :
      Memᴰ req qs → RequestsAgree qs → HoldersAgree hs qs → HoldersAgree (grant req hs) qs
  unfolding grant
  grant-HoldersAgree asks pair agree = elim (Option-cases (find_holder req.chat_id hs)) [
    | inl fresh ↦
        rw (fresh, grant)
          (put-HoldersAgree (new_holder req) hs qs agree (λ q j same. pair req q asks j same))
    | inr (h, e) ↦
        let (held, same) = find_holder-some req.chat_id hs e in
        rw (e, grant)
          (put-HoldersAgree (widened req h) hs qs agree
            (widened-agree h same (agree h req held asks same) asks pair))
  ]

-- What the loop keeps, for the requests `qs` that waited when it began.
record SweepIsSafe (qs : List Request) (s : Sweep) : Type 0 where
  exclusion : IsExclusive s.holders
  agree : HoldersAgree s.holders qs
  asked : All (λ (w : Waiter). Memᴰ w.req qs) s.kept

module _ (walk : List Holder → List Holder) (ok : IsWalk walk) (qs : List Request)
    (pair : RequestsAgree qs) where
  kept-asked :
      (ws : List Waiter) (w : Waiter)
      → All (λ (w : Waiter). Memᴰ w.req qs) ws
      → Memᴰ w.req qs
      → All (λ (w : Waiter). Memᴰ w.req qs) (ws ++ w ∷ [])
  kept-asked ws w all asks = All-append (λ (w : Waiter). Memᴰ w.req qs) ws (w ∷ []) all (asks, tt)

  visit-IsSafe :
      (s : Sweep) (w : Waiter) → SweepIsSafe qs s → Memᴰ w.req qs → SweepIsSafe qs (visit walk s w)
  unfolding visit
  visit-IsSafe s w safe asks = elim (Option-cases (holder_conflict walk w.req s.holders)) [
    | inr ((h, d), e) ↦
        rw (e, visit)
          (record {
            exclusion = safe.exclusion;
            agree = safe.agree;
            asked = kept-asked s.kept (blocked_by w h d) safe.asked asks;
          })
    | inl e ↦ elim (Bool-cases (exists (clashes_with_earlier w.req) s.kept)) [
      | inl late ↦
          rw (e, late, visit)
            (record {
              exclusion = safe.exclusion;
              agree = safe.agree;
              asked = kept-asked s.kept w safe.asked asks;
            })
      | inr free ↦
          rw (e, free, visit)
            (record {
              exclusion =
                  grant-IsExclusive w.req s.holders qs asks safe.agree safe.exclusion
                    (holder_conflict-none walk ok w.req s.holders e);
              agree = grant-HoldersAgree w.req s.holders qs asks pair safe.agree;
              asked = safe.asked;
            })
    ]
  ]

  sweep-IsSafe :
      (s : Sweep) (ws : List Waiter)
      → SweepIsSafe qs s
      → All (λ (w : Waiter). Memᴰ w.req qs) ws
      → SweepIsSafe qs (sweep walk s ws)
  unfolding sweep
  sweep-IsSafe s [] safe all = safe
  sweep-IsSafe s (w ∷ ws) safe (asks, all) =
      sweep-IsSafe (visit walk s w) ws (visit-IsSafe s w safe asks) all

refresh-req :
    (walk : List Holder → List Holder) (hs : List Holder) (w : Waiter)
    → (refresh walk hs w).req ≡ w.req
unfolding refresh
refresh-req walk hs w = elim (Option-cases (first (overlapping_holder w.req) (walk hs))) [
  | inl e ↦ rw (e, refresh)
  | inr ((h, d), e) ↦ rw (e, refresh)
]

pub reqs-refresh :
    (walk : List Holder → List Holder) (hs : List Holder) (ws : List Waiter)
    → map (λ (w : Waiter). w.req) (map (refresh walk hs) ws) ≡ map (λ (w : Waiter). w.req) ws
reqs-refresh walk hs [] = refl
reqs-refresh walk hs (w ∷ ws) = cc (refresh-req walk hs w, reqs-refresh walk hs ws)

-- Every request that still waits waited before.
pub process_waiters-IsSafe :
    (walk : List Holder → List Holder)
    → IsWalk walk
    → (m : Manager) → IsSafe m
    → IsSafe (process_waiters walk m).0
unfolding process_waiters
process_waiters-IsSafe walk ok m safe = record {
  exclusion = done.exclusion;
  holders_agree = λ h q i j. done.agree h q i (waited q j);
  requests_agree = λ p q i j. safe.requests_agree p q (waited p i) (waited q j);
}
  where
    all_asked : All (λ (w : Waiter). Memᴰ w.req (queue m)) m.waiters
    all_asked = All-of _ m.waiters (λ w i. Memᴰ.map (λ (w : Waiter). w.req) i)

    done : SweepIsSafe (queue m) (sweep walk (start_sweep m) m.waiters)
    done =
        sweep-IsSafe walk ok (queue m) safe.requests_agree (start_sweep m) m.waiters
          (record { exclusion = safe.exclusion; agree = safe.holders_agree; asked = tt }) all_asked

    waited : (q : Request) → Memᴰ q (queue (process_waiters walk m).0) → Memᴰ q (queue m)
    waited q i =
        let s = sweep walk (start_sweep m) m.waiters in
        let (w, j, e) =
          Memᴰ.of_map (λ (w : Waiter). w.req) s.kept
            (rw (reqs-refresh walk s.holders s.kept) at i) in
        subst (λ (r : Request). Memᴰ r (queue m)) e (All-at _ s.kept done.asked j)
