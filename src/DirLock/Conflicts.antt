-- ===== src/DirLock/Conflicts.antt =====
-- `findConflictLocked` of backend/lib/dirlock/dirlock.go. Go walks a map in an order of its own: `walk`
-- is that order, any function that visits exactly the entries.
use asgard.Prelude.{
  Bool, false, not, ◌&&◌, ◌||◌, List, [], ◌∷◌, Option, none, some, Text, text_eq, exists, first,
  if◌then◌else◌, pos,
}
use asgard.Paths.{paths_overlap}
use asgard.DirLock.State.{
  Mode, is_exclusive, running, Request, Holder, Waiter, Manager, find_holder,
}

unfoldable pub clashes : Mode → Mode → Text → Text → Bool
clashes mode other_mode d1 d2 =
    paths_overlap d1 d2 && (is_exclusive mode || is_exclusive other_mode)

-- The nested loops over two lists of directories: the first directory of the request that overlaps one
-- that the other has, where one of the two is exclusive.
unfoldable pub clash_dir : Mode → List Text → Mode → List Text → Option Text
clash_dir mode dirs other_mode other_dirs =
    first (λ d1. if exists (clashes mode other_mode d1) other_dirs then some d1 else none) dirs

-- One round of the loops over the holders.
unfoldable pub clash_with_holder : Request → Holder → Option (Holder × Text)
clash_with_holder req h =
    if text_eq h.chat_id req.chat_id || not (text_eq h.runner_id req.runner_id)
    then none
    else elim (clash_dir req.mode req.dirs h.mode h.dirs) [ none ↦ none | some d ↦ some (h, d) ]

unfoldable pub clash_with_waiter : Request → Waiter → Option (Waiter × Text)
clash_with_waiter req w =
    if text_eq w.req.chat_id req.chat_id || not (text_eq w.req.runner_id req.runner_id)
    then none
    else elim (clash_dir req.mode req.dirs w.req.mode w.req.dirs) [
      | none ↦ none
      | some d ↦ some (w, d)
    ]

-- `blockingH != nil && blockingH.chatID != req.ChatID`
unfoldable pub is_other : Request → Option Holder → Bool
is_other req none = false
is_other req (some h) = not (text_eq h.chat_id req.chat_id)

-- A holder of the loop that looks for one to name.
unfoldable pub is_nameable : Request → Text → Holder → Bool
is_nameable req d1 h =
    not (text_eq h.chat_id req.chat_id)
    && text_eq h.runner_id req.runner_id
    && exists (paths_overlap d1) h.dirs

-- That loop. It ends as soon as there is a holder, so one that is there at the start is kept unless the
-- first entry replaces it.
unfoldable pub rescan : Request → Text → Option Holder → List Holder → Option Holder
unfolding is_nameable
rescan req d1 found [] = found
rescan req d1 found (h ∷ hs) = elim (if is_nameable req d1 h then some h else found) [
  | none ↦ rescan req d1 none hs
  | some b ↦ some b
]

-- The holder that is made up for a waiter.
abbrev pub stand_in : Waiter → Holder
stand_in w = record {
  chat_id = w.req.chat_id;
  title = w.req.title;
  runner_id = [];
  dirs = [];
  mode = Mode.unset;
  reason = running;
  active_runs = pos 0;
}

module _ (walk : List Holder → List Holder) where
  unfoldable pub blocking_holder : Request → List Holder → Waiter → Text → Holder
  blocking_holder req hs w d1 =
      let named = find_holder w.blocked_by_chat_id hs in
      let found = if is_other req named then named else rescan req d1 named (walk hs) in
      if is_other req found then elim found [ some h ↦ h | none ↦ stand_in w ] else stand_in w

  unfoldable pub holder_conflict : Request → List Holder → Option (Holder × Text)
  holder_conflict req hs = first (clash_with_holder req) (walk hs)

  -- `findConflictLocked`: the holder to name and the directory, if there is a conflict.
  unfoldable pub find_conflict : Request → Manager → Option (Holder × Text)
  find_conflict req m = elim (holder_conflict req m.holders) [
    | some c ↦ some c
    | none ↦ elim (first (clash_with_waiter req) m.waiters) [
      | none ↦ none
      | some (w, d1) ↦ some (blocking_holder req m.holders w d1, d1)
    ]
  ]
