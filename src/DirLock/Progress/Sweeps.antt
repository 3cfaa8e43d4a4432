-- ===== src/DirLock/Progress/Sweeps.antt =====
-- After `processWaitersLocked` of backend/lib/dirlock/dirlock.go every waiter that is left is blocked.
use asgard.Prelude.Memᴰ
use asgard.Prelude.{
  &&_split, ◌≡◌, refl, ◌≢◌, ◌⊎◌, inl, inr, true, List, [], ◌∷◌, ◌++◌, map, Text, text_eq_sound,
  text_eq_iff, Option, none, some, arith, Bool-cases, Option-cases, if◌then◌else◌, exists,
  exists-mem, first-some, map-append,
}
use asgard.Paths.{paths_overlap}
use asgard.DirLock.State.{
  Mode, exclusive, is_exclusive, Request, Holder, Waiter, Manager, find_holder,
}
use asgard.DirLock.Dirs.{sort-mem, add_missing, add_missing-mem}
use asgard.DirLock.Holders.{find_holder-some}
use asgard.DirLock.Conflicts.{clashes, clash_dir, clash_with_holder, holder_conflict}
use asgard.DirLock.Apart.{IsWalk}
use asgard.DirLock.Sweep.{
  Sweep, new_holder, widened, grant, blocked_by, is_some, clashes_with_earlier, visit, sweep,
  start_sweep, process_waiters,
}
use asgard.DirLock.Exclusion.{queue}
use asgard.DirLock.Exclusion.Sweeps.{reqs-refresh}
use asgard.DirLock.Progress.{
  Clash, BlockedByHolder, BlockedByEarlier, AllBlocked, IsMap, Wider, Grows, put-IsMap, put-Grows,
  put_new-Grows, BlockedFrom-grow, BlockedFrom-snoc,
}

clashes-true :
    (m m' : Mode) (d d' : Text)
    → clashes m m' d d' ≡ true
    → (paths_overlap d d' ≡ true) × ((m ≡ exclusive) ⊎ (m' ≡ exclusive))
unfolding clashes
clashes-true exclusive m' d d' h = ground arith
clashes-true m exclusive d d' h = ground arith
clashes-true m m' d d' h = ground arith

pub clash_dir-some :
    (m : Mode) (ds : List Text) (m' : Mode) (ds' : List Text) {d : Text}
    → clash_dir m ds m' ds' ≡ some d
    → Clash m ds m' ds'
unfolding clash_dir
clash_dir-some m ds m' ds' e =
    let (d1, i, q) =
      first-some (λ d1. if exists (clashes m m' d1) ds' then some d1 else none) ds e in
    let (d2, j, c) = exists-mem (clashes m m' d1) ds' (ground arith) in
    let (o, ex) = clashes-true m m' d1 d2 c in (d1, d2, i, j, o, ex)

clash_with_holder-some :
    (req : Request) (b : Holder) (k : Holder) (d : Text)
    → clash_with_holder req b ≡ some (k, d)
    → (b.chat_id ≢ req.chat_id)
      × (b.runner_id ≡ req.runner_id)
      × (clash_dir req.mode req.dirs b.mode b.dirs ≡ some d)
unfolding clash_with_holder
clash_with_holder-some req b k d e =
    ground (arith, text_eq_iff b.chat_id req.chat_id, text_eq_iff b.runner_id req.runner_id)

module _ (walk : List Holder → List Holder) (ok : IsWalk walk) where
  pub holder_conflict-some :
      (req : Request) (hs : List Holder) (k : Holder) (t : Text)
      → holder_conflict walk req hs ≡ some (k, t)
      → BlockedByHolder hs req
  unfolding holder_conflict
  holder_conflict-some req hs k t e =
      let (b, i, q) = first-some (clash_with_holder req) (walk hs) e in
      let (other, on, c) = clash_with_holder-some req b k t q in
      (b, ok.only hs b i, other, on, clash_dir-some req.mode req.dirs b.mode b.dirs c)

earlier-clash :
    (req : Request) (ws : List Waiter)
    → exists (clashes_with_earlier req) ws ≡ true
    → BlockedByEarlier (map (λ (w : Waiter). w.req) ws) req
unfolding clashes_with_earlier
earlier-clash req ws h =
    let (w, i, t) = exists-mem (clashes_with_earlier req) ws h in
    let (on, c) = &&_split _ _ t in
    let (d, e) = some_of (clash_dir req.mode req.dirs w.req.mode w.req.dirs) c in
    (
      w.req,
      Memᴰ.map (λ (w : Waiter). w.req) i,
      text_eq_sound w.req.runner_id req.runner_id on,
      clash_dir-some req.mode req.dirs w.req.mode w.req.dirs e,
    )
  where
    some_of : (o : Option Text) → is_some o ≡ true → (d : Text) × (o ≡ some d)
    some_of none h = cc
    some_of (some d) h = (d, refl)

widened-Wider : (req : Request) (h : Holder) → Wider h (widened req h)
unfolding widened
widened-Wider req h = (
  refl,
  refl,
  (λ d i. sort-mem (add_missing h.dirs req.dirs) (add_missing-mem h.dirs req.dirs i)),
  stays,
)
  where
    stays : h.mode ≡ exclusive → (if is_exclusive req.mode then exclusive else h.mode) ≡ exclusive
    stays e = ground arith

grant-Grows : (req : Request) (hs : List Holder) → IsMap hs → Grows hs (grant req hs)
unfolding grant
grant-Grows req hs m = elim (Option-cases (find_holder req.chat_id hs)) [
  | inl fresh ↦ rw (fresh, grant) (put_new-Grows (new_holder req) hs fresh)
  | inr (h, e) ↦
      let (held, same) = find_holder-some req.chat_id hs e in
      rw (e, grant) (put-Grows h (widened req h) hs m held (widened-Wider req h))
]

grant-IsMap : (req : Request) (hs : List Holder) → IsMap hs → IsMap (grant req hs)
unfolding grant
grant-IsMap req hs m = elim (Option-cases (find_holder req.chat_id hs)) [
  | inl fresh ↦ rw (fresh, grant) (put-IsMap (new_holder req) hs m)
  | inr (h, e) ↦ rw (e, grant) (put-IsMap (widened req h) hs m)
]

record SweepIsDone (s : Sweep) : Type 0 where
  map_kept : IsMap s.holders
  all_blocked : AllBlocked s.holders (map (λ (w : Waiter). w.req) s.kept)

module _ (walk : List Holder → List Holder) (ok : IsWalk walk) where
  keep-blocked :
      (hs : List Holder) (ws : List Waiter) (w : Waiter)
      → AllBlocked hs (map (λ (w : Waiter). w.req) ws)
      → BlockedByHolder hs w.req ⊎ BlockedByEarlier (map (λ (w : Waiter). w.req) ws) w.req
      → AllBlocked hs (map (λ (w : Waiter). w.req) (ws ++ w ∷ []))
  keep-blocked hs ws w all b =
      rw map-append (BlockedFrom-snoc hs [] (map (λ (w : Waiter). w.req) ws) w.req all b)

  visit-IsDone : (s : Sweep) (w : Waiter) → SweepIsDone s → SweepIsDone (visit walk s w)
  unfolding visit
  visit-IsDone s w done = elim (Option-cases (holder_conflict walk w.req s.holders)) [
    | inr ((h, d), e) ↦
        rw (e, visit)
          (record {
            map_kept = done.map_kept;
            all_blocked =
                keep-blocked s.holders s.kept (blocked_by w h d) done.all_blocked
                  (inl (holder_conflict-some walk ok w.req s.holders h d e));
          })
    | inl e ↦ elim (Bool-cases (exists (clashes_with_earlier w.req) s.kept)) [
      | inl late ↦
          rw (e, late, visit)
            (record {
              map_kept = done.map_kept;
              all_blocked =
                  keep-blocked s.holders s.kept w done.all_blocked
                    (inr (earlier-clash w.req s.kept late));
            })
      | inr free ↦
          rw (e, free, visit)
            (record {
              map_kept = grant-IsMap w.req s.holders done.map_kept;
              all_blocked =
                  BlockedFrom-grow s.holders (grant w.req s.holders) []
                    (map (λ (w : Waiter). w.req) s.kept) (grant-Grows w.req s.holders done.map_kept)
                    done.all_blocked;
            })
    ]
  ]

  sweep-IsDone : (s : Sweep) (ws : List Waiter) → SweepIsDone s → SweepIsDone (sweep walk s ws)
  unfolding sweep
  sweep-IsDone s [] done = done
  sweep-IsDone s (w ∷ ws) done = sweep-IsDone (visit walk s w) ws (visit-IsDone s w done)

-- What the lock manager keeps between two operations.
pub record IsSettled (m : Manager) : Type 0 where
  pub is_map : IsMap m.holders
  pub all_blocked : AllBlocked m.holders (queue m)

-- Whatever the queue was before, no waiter that could go on is left waiting.
pub process_waiters-IsSettled :
    (walk : List Holder → List Holder)
    → IsWalk walk
    → (m : Manager) → IsMap m.holders
    → IsSettled (process_waiters walk m).0
unfolding process_waiters
process_waiters-IsSettled walk ok m is_map =
    let s = sweep walk (start_sweep m) m.waiters in
    let done =
      sweep-IsDone walk ok (start_sweep m) m.waiters
        (record { map_kept = is_map; all_blocked = tt }) in
    record {
      is_map = done.map_kept;
      all_blocked = rw (reqs-refresh walk s.holders s.kept) done.all_blocked;
    }
