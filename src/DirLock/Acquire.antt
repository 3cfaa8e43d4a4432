-- ===== src/DirLock/Acquire.antt =====
-- `Acquire` of backend/lib/dirlock/dirlock.go, up to the point where it returns or waits, and the two ends
-- of the wait.
use asgard.Prelude.{
  length, ◌==◌, ℕ, ◌+◌, Bool, not, ◌&&◌, ◌||◌, List, [], ◌∷◌, ◌++◌, none, some, Text, text_eq,
  has_prefix, incr, exists, if◌then◌else◌,
}
use asgard.Paths.{clean, slash}
use asgard.DirLock.State.{
  Mode, exclusive, unset, is_exclusive, is_readonly, running, blank, Request, Holder, Waiter,
  Manager, find_holder, put_holder,
}
use asgard.DirLock.Dirs.{sort, compact, add_missing, clean_dirs}
use asgard.DirLock.Conflicts.{find_conflict}
use asgard.DirLock.Sweep.{new_holder}
use asgard.DirLock.Release.{Handle, make_release}

pub data Acquired : Type 0 where
  -- There is nothing to lock: the release function does nothing.
  unneeded : Acquired
  granted : Handle → Acquired
  -- The expansion of a held lock is refused: the directory, and the chat that holds it.
  refused : (dir blocker : Text) → Acquired
  -- The call waits on its channel.
  queued : (ticket : ℕ) → Acquired

-- The request as `Acquire` goes on with it.
unfoldable pub normalize : Request → Request
normalize req = record req {
  dirs = clean_dirs req.dirs;
  mode = elim req.mode [ unset ↦ exclusive | m ↦ m ];
}

-- Whether a held directory covers a requested one.
unfoldable pub covers : Text → Text → Bool
covers rd hd =
    let clean_rd = clean rd in
    let clean_hd = clean hd in
    text_eq clean_hd clean_rd
    || text_eq clean_hd (slash ∷ [])
    || has_prefix clean_rd (clean_hd ++ slash ∷ [])

abbrev pub upgrades : Request → Holder → Bool
upgrades req h = is_readonly h.mode && is_exclusive req.mode

-- `needsExpansionOrUpgrade`
unfoldable pub expands : Request → Holder → Bool
expands req h = upgrades req h || exists (λ rd. not (exists (covers rd) h.dirs)) req.dirs

abbrev pub target_mode : Request → Holder → Mode
target_mode req h = if upgrades req h then exclusive else h.mode

unfoldable pub merged_dirs : Request → Holder → List Text
merged_dirs req h = compact (sort (add_missing h.dirs req.dirs))

-- The request that the expansion is checked with.
abbrev pub expansion : Request → Holder → Request
expansion req h = record {
  chat_id = req.chat_id;
  title = [];
  runner_id = req.runner_id;
  dirs = merged_dirs req h;
  mode = target_mode req h;
}

-- The entry after one more run has entered.
unfoldable pub entered : Request → Holder → Holder
entered req h = record h {
  active_runs = incr h.active_runs;
  reason = running;
  title = if text_eq req.title [] then h.title else req.title;
}

-- A holder is entered into the map and the call gets its release function.
unfoldable pub hold : Holder → Manager → Acquired × Manager × List Text
unfolding make_release
hold h m =
    let (f, m') = make_release h.chat_id (record m { holders = put_holder h m.holders }) in
    (granted f, m', h.chat_id ∷ [])

abbrev pub first_dir : List Text → Text
first_dir [] = []
first_dir (d ∷ ds) = d

-- The waiter that a conflict makes.
unfoldable pub new_waiter : Request → Holder → Text → ℕ → Waiter
new_waiter req h d ticket = record {
  ticket = ticket;
  req = req;
  blocked_by_chat_id = h.chat_id;
  blocked_by_title = h.title;
  blocked_by_reason = elim h.reason [ blank ↦ running | r ↦ r ];
  blocked_dir = if text_eq d [] then first_dir req.dirs else d;
}

-- The conflicted call joins the end of the queue.
unfoldable pub enqueue : Request → Holder → Text → Manager → Acquired × Manager × List Text
unfolding new_waiter
enqueue req h d m = (
  queued m.next_ticket,
  record m {
    waiters = m.waiters ++ new_waiter req h d m.next_ticket ∷ [];
    next_ticket = m.next_ticket + 1;
  },
  req.chat_id ∷ [],
)

module _ (walk : List Holder → List Holder) where
  -- Part 1: the chat holds something already.
  unfoldable pub reenter : Request → Holder → Manager → Acquired × Manager × List Text
  unfolding hold
  reenter req h m =
      if expands req h
      then elim (find_conflict walk (expansion req h) m) [
        | some (b, d) ↦ (refused d b.chat_id, m, [])
        | none ↦
            hold (entered req (record h { dirs = merged_dirs req h; mode = target_mode req h })) m
      ]
      else hold (entered req h) m

  -- Part 2: another chat.
  unfoldable pub enter : Request → Manager → Acquired × Manager × List Text
  unfolding hold enqueue
  enter req m = elim (find_conflict walk req m) [
    | none ↦ hold (new_holder req) m
    | some (h, d) ↦ enqueue req h d m
  ]

  unfoldable pub acquire_normal : Request → Manager → Acquired × Manager × List Text
  unfolding reenter enter
  acquire_normal req m =
      if length req.dirs == 0 then (unneeded, m, []) else elim (find_holder req.chat_id m.holders) [
        | some h ↦ reenter req h m
        | none ↦ enter req m
      ]

  -- `Acquire`, up to its `select`.
  unfoldable pub acquire : Request → Manager → Acquired × Manager × List Text
  unfolding acquire_normal normalize
  acquire req m = acquire_normal (normalize req) m
