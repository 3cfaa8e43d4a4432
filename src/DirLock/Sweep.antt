-- ===== src/DirLock/Sweep.antt =====
-- `processWaitersLocked` of backend/lib/dirlock/dirlock.go: the waiters in the order in which they came.
-- A sweep holds what the loop has reached: the holders, the waiters before the index, the channels
-- closed and the chats to notify.
use asgard.Prelude.{
  ℕ, Bool, true, false, ◌&&◌, List, [], ◌∷◌, ◌++◌, map, Option, none, some, Text, text_eq, pos,
  incr, exists, first, not, ◌||◌, if◌then◌else◌,
}
use asgard.Paths.{paths_overlap}
use asgard.DirLock.State.{
  exclusive, is_exclusive, running, Request, Holder, Waiter, find_holder, put_holder, Manager,
}
use asgard.DirLock.Dirs.{sort, add_missing}
use asgard.DirLock.Conflicts.{clash_dir, holder_conflict}

pub record Sweep : Type 0 where
  pub holders : List Holder
  pub kept : List Waiter
  pub opened : List ℕ
  pub notified : List Text

-- The state before the loop.
abbrev pub start_sweep : Manager → Sweep
start_sweep m = record { holders = m.holders; kept = []; opened = []; notified = [] }

-- The entry of a chat that held nothing.
abbrev pub new_holder : Request → Holder
new_holder req = record {
  chat_id = req.chat_id;
  title = req.title;
  runner_id = req.runner_id;
  dirs = req.dirs;
  mode = req.mode;
  reason = running;
  active_runs = pos 1;
}

-- The entry of a chat that holds something when its waiter is granted.
unfoldable pub widened : Request → Holder → Holder
widened req h = record h {
  dirs = sort (add_missing h.dirs req.dirs);
  mode = if is_exclusive req.mode then exclusive else h.mode;
  active_runs = incr h.active_runs;
  reason = running;
  title = if text_eq req.title [] then h.title else req.title;
}

unfoldable pub grant : Request → List Holder → List Holder
grant req hs = elim (find_holder req.chat_id hs) [
  | some h ↦ put_holder (widened req h) hs
  | none ↦ put_holder (new_holder req) hs
]

abbrev pub blocked_by : Waiter → Holder → Text → Waiter
blocked_by w h d = record w {
  blocked_by_chat_id = h.chat_id;
  blocked_by_title = h.title;
  blocked_by_reason = h.reason;
  blocked_dir = d;
}

unfoldable pub is_some {ℓ} : {A : Type ℓ} → Option A → Bool
is_some none = false
is_some (some a) = true

-- The test against one earlier waiter; a waiter of the same chat counts too.
unfoldable pub clashes_with_earlier : Request → Waiter → Bool
unfolding is_some
clashes_with_earlier req ew =
    text_eq ew.req.runner_id req.runner_id
    && is_some (clash_dir req.mode req.dirs ew.req.mode ew.req.dirs)

-- A round of the second loop: any holder of the runner that has an overlapping directory, whatever the modes.
unfoldable pub overlapping_holder : Request → Holder → Option (Holder × Text)
overlapping_holder req h =
    if text_eq h.chat_id req.chat_id || not (text_eq h.runner_id req.runner_id)
    then none
    else elim (first (λ d1. if exists (paths_overlap d1) h.dirs then some d1 else none) req.dirs) [
      | none ↦ none
      | some d ↦ some (h, d)
    ]

module _ (walk : List Holder → List Holder) where
  -- One round of the loop.
  unfoldable pub visit : Sweep → Waiter → Sweep
  visit s w = elim (holder_conflict walk w.req s.holders) [
    | some (h, d) ↦ record s { kept = s.kept ++ blocked_by w h d ∷ [] }
    | none ↦
        if exists (clashes_with_earlier w.req) s.kept
        then record s { kept = s.kept ++ w ∷ [] }
        else record {
          holders = grant w.req s.holders;
          kept = s.kept;
          opened = s.opened ++ w.ticket ∷ [];
          notified = s.notified ++ w.req.chat_id ∷ [];
        }
  ]

  -- The second loop: the holder that a waiter shows.
  unfoldable pub refresh : List Holder → Waiter → Waiter
  unfolding overlapping_holder
  refresh hs w = elim (first (overlapping_holder w.req) (walk hs)) [
    | some (h, d) ↦ blocked_by w h d
    | none ↦ w
  ]

  unfoldable pub sweep : Sweep → List Waiter → Sweep
  sweep s [] = s
  sweep s (w ∷ ws) = sweep (visit s w) ws

  -- `processWaitersLocked`: the new state, and the chats to notify.
  unfoldable pub process_waiters : Manager → Manager × List Text
  process_waiters m =
      let s = sweep (start_sweep m) m.waiters in
      (
        record m {
          holders = s.holders;
          waiters = map (refresh s.holders) s.kept;
          opened = m.opened ++ s.opened;
        },
        s.notified ++ map (λ w. w.req.chat_id) s.kept,
      )
