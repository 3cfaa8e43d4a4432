-- ===== src/DirLock/Examples.antt =====
-- Runs of the lock manager on small inputs, after backend/lib/dirlock/dirlock_test.go, and instances of the
-- theorems about it.
use asgard.Prelude.{
  ◌↔◌, subst, arith, ◌≢◌, ◌≡◌, refl, sym, ◌∙◌, true, false, List, [], ◌∷◌, Memᴰ, some, Text, bytes,
  text_eq, text_lt, has_prefix, exists, first, keep_if, positive, incr, decr, is_zero, map, Unique,
}
use asgard.Prelude.Memᴰ
use asgard.Paths.{clean, paths_overlap}
use asgard.DirLock.Exemptions.{compute_locked_dirs}
use asgard.DirLock.Exemptions.Origins.{Origin, mem-compute_locked_dirs_iff}
use asgard.DirLock.Notices.{mem-notify_iff}
use asgard.DirLock.Status.{notify, locked, status_for_chat}
use asgard.DirLock.Progress.Sweeps.{IsSettled, process_waiters-IsSettled}
use asgard.DirLock.State.{
  Mode, exclusive, readonly, uncommitted, Request, Holder, Manager, new_manager, find_holder,
  delete_holder, put_holder,
}
use asgard.DirLock.Dirs.{clean_dirs, contains, add_missing}
use asgard.DirLock.Conflicts.{
  clashes, clash_dir, clash_with_holder, clash_with_waiter, is_other, rescan, blocking_holder,
  holder_conflict, find_conflict,
}
use asgard.DirLock.Apart.{IsWalk, Apart}
use asgard.DirLock.Sweep.{
  grant, widened, clashes_with_earlier, visit, refresh, sweep, process_waiters,
}
use asgard.DirLock.Release.{Handle, release, unlock_idle}
use asgard.DirLock.Acquire.{
  queued, refused, normalize, covers, expands, merged_dirs, entered, acquire,
}
use asgard.DirLock.Waits.{on_cancel, force_release, is_open, on_ready}
use asgard.DirLock.Steps.{acquires, releases, gets_ready, Reach, start, next}
use asgard.DirLock.Exclusion.{IsExclusive, queue}
use asgard.DirLock.Exclusion.Acquiring.{IsDisciplined}
use asgard.DirLock.Exclusion.Reachable.{reach-IsExclusive}
use asgard.DirLock.Progress.{AllBlocked}
use asgard.DirLock.Progress.Reachable.{AnyCall, reach-AllBlocked, reach_idle}

-- Go may walk the map in the order of the list.
abbrev in_order : List Holder → List Holder
in_order hs = hs

in_order-IsWalk : IsWalk in_order
in_order-IsWalk = record { covers = λ hs h i. i; only = λ hs h i. i }

abbrev ask : Text → Mode → Text → Request
ask chat mode dir = record {
  chat_id = chat;
  title = bytes "t";
  runner_id = bytes "r1";
  dirs = dir ∷ [];
  mode = mode;
}

abbrev chat_a : Text
chat_a = bytes "a"

abbrev chat_b : Text
chat_b = bytes "b"

abbrev first_call : Manager
first_call = (acquire in_order (ask chat_a exclusive (bytes "/w/p")) new_manager).1

abbrev second_call : Manager
second_call = (acquire in_order (ask chat_b exclusive (bytes "/w/p/sub/")) first_call).1

program : Unit {0}
unfolding text_eq text_lt has_prefix exists first keep_if positive incr decr is_zero clean
    paths_overlap find_holder delete_holder put_holder clean_dirs contains add_missing clashes
    clash_dir clash_with_holder clash_with_waiter is_other rescan blocking_holder holder_conflict
    find_conflict grant widened clashes_with_earlier visit refresh sweep process_waiters release
    unlock_idle normalize covers expands merged_dirs entered acquire on_cancel force_release is_open
    on_ready
program = tt

second_waits : (acquire in_order (ask chat_b exclusive (bytes "/w/p/sub/")) first_call).0 ≡ queued 0
unfolding program
second_waits = refl

abbrev handle_a : Handle
handle_a = record { chat_id = chat_a; id = 0 }

after_release :
    map (λ (h : Holder). h.chat_id) (release in_order handle_a false second_call).0.holders
    ≡ chat_b ∷ []
unfolding program
after_release = refl

kept_uncommitted :
    map (λ (h : Holder). h.reason) (release in_order handle_a true second_call).0.holders
    ≡ uncommitted ∷ []
unfolding program
kept_uncommitted = refl

IsDisciplined-a : IsDisciplined (normalize (ask chat_a exclusive (bytes "/w/p"))) new_manager
IsDisciplined-a = record { pinned = λ h i. elim i [ ]; agreed = λ q i. elim i [ ] }

a_is_not_b :
    {h : Holder} {hs : List Holder}
    → Memᴰ h hs
    → map (λ (k : Holder). k.chat_id) hs ≡ chat_a ∷ []
    → h.chat_id ≢ chat_b
a_is_not_b i e f =
    let j = subst (Memᴰ _) e (Memᴰ.map (λ (k : Holder). k.chat_id) i) in
    let g = sym (Memᴰ.eq_of_singleton j) ∙ f in ground arith

IsDisciplined-b : IsDisciplined (normalize (ask chat_b exclusive (bytes "/w/p/sub/"))) first_call
unfolding program
IsDisciplined-b = record {
  pinned = λ h i same. absurd (a_is_not_b i refl same);
  agreed = λ q i. elim i [ ];
}

reach-IsExclusive_example : IsExclusive second_call.holders
reach-IsExclusive_example = reach-IsExclusive in_order second_call in_order-IsWalk (
    next (next start (acquires (ask chat_a exclusive (bytes "/w/p")) new_manager IsDisciplined-a))
      (acquires (ask chat_b exclusive (bytes "/w/p/sub/")) first_call IsDisciplined-b))

two_calls : Reach in_order AnyCall second_call
two_calls =
    next (next start (acquires (ask chat_a exclusive (bytes "/w/p")) new_manager tt))
      (acquires (ask chat_b exclusive (bytes "/w/p/sub/")) first_call tt)

reach-AllBlocked_example : AllBlocked second_call.holders (queue second_call)
reach-AllBlocked_example = reach-AllBlocked in_order second_call in_order-IsWalk two_calls

abbrev third_state : Manager
third_state = (release in_order handle_a false second_call).0

abbrev fourth_state : Manager
fourth_state = (on_ready chat_b third_state).1

abbrev last_state : Manager
last_state = (release in_order (record { chat_id = chat_b; id = 1 }) false fourth_state).0

all_released : last_state.holders ≡ []
unfolding program
all_released = refl

reach_idle_example : last_state.waiters ≡ []
reach_idle_example =
    reach_idle in_order last_state in_order-IsWalk
      (next
        (next (next two_calls (releases handle_a false second_call))
          (gets_ready chat_b third_state))
        (releases (record { chat_id = chat_b; id = 1 }) false fourth_state))
      all_released

-- A chat that asks for another directory, in another mode, while one of its requests waits: when the waiter
-- is granted, the mode of the one covers the directories of the other, which were not checked for it.
abbrev mixed_modes : Manager
mixed_modes =
    let m1 = (acquire in_order (ask (bytes "c") exclusive (bytes "/y")) new_manager).1 in
    let m2 = (acquire in_order (ask chat_a exclusive (bytes "/y")) m1).1 in
    let m3 = (acquire in_order (ask chat_b readonly (bytes "/x")) m2).1 in
    let m4 = (acquire in_order (ask chat_a readonly (bytes "/x")) m3).1 in
    (release in_order (record { chat_id = bytes "c"; id = 0 }) false m4).0

mixed_modes_overlap :
    map {B = Text × Mode × List Text}
      (λ (h : Holder). (h.chat_id, h.mode, h.dirs))
      mixed_modes.holders
    ≡ (chat_a, exclusive, bytes "/x" ∷ bytes "/y" ∷ []) ∷ (chat_b, readonly, bytes "/x" ∷ []) ∷ []
unfolding program
mixed_modes_overlap = refl

-- A refused upgrade, a lock left by an uncommitted run, and other calls.
abbrev held_readonly : Manager
held_readonly =
    (acquire in_order (ask chat_b readonly (bytes "/x"))
      (acquire in_order (ask chat_a readonly (bytes "/x")) new_manager).1).1

upgrade_refused :
    (acquire in_order (ask chat_a exclusive (bytes "/x")) held_readonly).0
    ≡ refused (bytes "/x") chat_b
unfolding program
upgrade_refused = refl

abbrev kept_state : Manager
kept_state = (release in_order handle_a true second_call).0

kept_status :
    status_for_chat chat_a kept_state ≡ some (locked exclusive uncommitted (bytes "/w/p") true)
unfolding program status_for_chat
kept_status = refl

process_waiters-IsSettled_example :
    IsSettled (process_waiters in_order (record second_call { holders = [] })).0
process_waiters-IsSettled_example =
    process_waiters-IsSettled in_order in_order-IsWalk (record second_call { holders = [] })
      (λ b i. elim i [ ])

mem-compute_locked_dirs_iff_example :
    Memᴰ
      (bytes "/repo")
      (compute_locked_dirs (bytes "/data") chat_a (bytes "/repo/") (
        some (record {
          is_read_only = false;
          mounts = record { path = bytes "/data/tmp/x"; masked = false } ∷ [];
        }))).0
    ↔ Origin
        (bytes "/data")
        chat_a
        (bytes "/repo/")
        (some (record {
          is_read_only = false;
          mounts = record { path = bytes "/data/tmp/x"; masked = false } ∷ [];
        }))
        (bytes "/repo")
mem-compute_locked_dirs_iff_example =
    mem-compute_locked_dirs_iff (bytes "/data") chat_a (bytes "/repo/")
      (some (record {
        is_read_only = false;
        mounts = record { path = bytes "/data/tmp/x"; masked = false } ∷ [];
      }))
      (bytes "/repo")

mem-notify_iff_example :
    Unique (notify (chat_a ∷ [] ∷ chat_b ∷ chat_a ∷ []))
    × ((c : Text)
        → Memᴰ c (notify (chat_a ∷ [] ∷ chat_b ∷ chat_a ∷ []))
          ↔ (Memᴰ c (chat_a ∷ [] ∷ chat_b ∷ chat_a ∷ []) × (c ≢ [])))
mem-notify_iff_example = mem-notify_iff (chat_a ∷ [] ∷ chat_b ∷ chat_a ∷ [])
