-- ===== src/DirLock/Status.antt =====
-- The reads of backend/lib/dirlock/dirlock.go, `UpdateChatTitle`, and `notify`, the calls of `onChange`.
use asgard.Prelude.{
  Bool, List, [], ◌∷◌, ◌++◌, map, Option, none, some, Text, text_eq, is_zero, exists, first,
  if◌then◌else◌, ◌||◌,
}
use asgard.DirLock.State.{Mode, Reason, Holder, Waiter, Manager, find_holder, put_holder}
use asgard.DirLock.Acquire.{first_dir}

-- `Status`, with the fields that each of its two forms sets.
pub data Status : Type 0 where
  locked : (mode : Mode) (reason : Reason) (dir : Text) (can_unlock : Bool) → Status
  waiting : (dir by_chat_id by_title : Text) (reason : Reason) → Status

abbrev pub holder_status : Holder → Status
holder_status h = locked h.mode h.reason (first_dir h.dirs) (is_zero h.active_runs)

abbrev pub waiter_status : Waiter → Status
waiter_status w =
    waiting (if text_eq w.blocked_dir [] then first_dir w.req.dirs else w.blocked_dir)
      w.blocked_by_chat_id w.blocked_by_title w.blocked_by_reason

-- `StatusForChat`
unfoldable pub status_for_chat : Text → Manager → Option Status
status_for_chat chat m = if text_eq chat [] then none else elim (find_holder chat m.holders) [
  | some h ↦ some (holder_status h)
  | none ↦
      first (λ w. if text_eq w.req.chat_id chat then some (waiter_status w) else none) m.waiters
]

-- `LockedDirsForChat`; Go's nil is `none`.
unfoldable pub locked_dirs_for_chat : Text → Manager → Option (List Text)
locked_dirs_for_chat chat m =
    if text_eq chat []
    then none
    else elim (find_holder chat m.holders) [ none ↦ none | some h ↦ some h.dirs ]

-- One waiter in the loop of `UpdateChatTitle`, and the chats that it adds.
unfoldable pub retitle : Text → Text → Waiter → Waiter
retitle chat title w =
    let named =
      if text_eq w.req.chat_id chat
      then record w { req = record (w.req) { title = title } }
      else w in
    if text_eq w.blocked_by_chat_id chat then record named { blocked_by_title = title } else named

unfoldable pub retitled_chats : Text → Waiter → List Text
retitled_chats chat w =
    (if text_eq w.req.chat_id chat then chat ∷ [] else [])
    ++ (if text_eq w.blocked_by_chat_id chat then w.req.chat_id ∷ [] else [])

unfoldable pub flat_map : (Waiter → List Text) → List Waiter → List Text
flat_map f [] = []
flat_map f (w ∷ ws) = f w ++ flat_map f ws

-- `UpdateChatTitle`
unfoldable pub update_chat_title : Text → Text → Manager → Manager × List Text
unfolding retitled_chats flat_map
update_chat_title chat title m =
    if text_eq title []
    then (m, [])
    else let held : List Holder × List Text = elim (find_holder chat m.holders) [
      | none ↦ (m.holders, [])
      | some h ↦ (put_holder (record h { title = title }) m.holders, chat ∷ [])
    ] in
      (
        record m { holders = held.0; waiters = map (retitle chat title) m.waiters },
        held.1 ++ flat_map (retitled_chats chat) m.waiters,
      )

-- The loop of `notify`, with the chats already seen; the result is the chats that `onChange` is called
-- for, in order.
unfoldable pub notify_from : List Text → List Text → List Text
notify_from seen [] = []
notify_from seen (c ∷ cs) =
    let skipped = notify_from seen cs in
    let told = c ∷ notify_from (c ∷ seen) cs in
    if text_eq c [] || exists (λ s. text_eq s c) seen then skipped else told

unfoldable pub notify : List Text → List Text
unfolding notify_from
notify cs = notify_from [] cs
