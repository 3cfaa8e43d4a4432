-- ===== src/DirLock/Release.antt =====
-- The release functions, `UnlockIdle`, `ForceReleaseChat` and the cancellation of a waiter, of
-- backend/lib/dirlock/dirlock.go. Each returns the new state and the chats that `notify` is given.
use asgard.Prelude.{
  ℕ, ◌+◌, Bool, ◌&&◌, List, [], ◌∷◌, map, none, some, Text, text_eq, decr, positive, exists,
  keep_if, if◌then◌else◌, ◌==◌,
}
use asgard.DirLock.State.{
  is_exclusive, uncommitted, Holder, Waiter, Manager, find_holder, delete_holder, put_holder,
}
use asgard.DirLock.Sweep.{process_waiters}

-- What `makeReleaseFunc` returns: the chat, and which closure it is.
pub record Handle : Type 0 where
  pub chat_id : Text
  pub id : ℕ

unfoldable pub make_release : Text → Manager → Handle × Manager
make_release chat m =
    (record { chat_id = chat; id = m.next_release }, record m { next_release = m.next_release + 1 })

abbrev pub is_blocked_by : Text → Waiter → Bool
is_blocked_by chat w = text_eq w.blocked_by_chat_id chat

-- The loop over the waiters when a lock is kept for uncommitted changes.
unfoldable pub mark_uncommitted : Text → List Waiter → List Waiter
mark_uncommitted chat ws =
    map (λ w. if is_blocked_by chat w then record w { blocked_by_reason = uncommitted } else w) ws

-- What `UnlockIdle` returns: (true, nil), (false, nil), or `ErrLockActiveRun`.
pub data Unlocked : Type 0 where
  unlocked not_held active_run : Unlocked

module _ (walk : List Holder → List Holder) where
  -- `delete(m.holders, chatID)` and `processWaitersLocked`.
  unfoldable pub drop_holder : Text → Manager → Manager × List Text
  drop_holder chat m =
      let (m', woken) =
        process_waiters walk (record m { holders = delete_holder chat m.holders }) in
      (m', chat ∷ woken)

  -- The body of a release function, behind its `sync.Once`.
  unfoldable pub release_once : Text → Bool → Manager → Manager × List Text
  unfolding drop_holder
  release_once chat keep m = elim (find_holder chat m.holders) [
    | none ↦ (m, [])
    | some h ↦
        let h' = record h { active_runs = decr h.active_runs } in
        if positive h'.active_runs
        then (record m { holders = put_holder h' m.holders }, [])
        else if is_exclusive h.mode && keep
        then (
          record m {
            holders = put_holder (record h' { reason = uncommitted }) m.holders;
            waiters = mark_uncommitted chat m.waiters;
          },
          chat ∷ map (λ w. w.req.chat_id) (keep_if (is_blocked_by chat) m.waiters),
        )
        else drop_holder chat m
  ]

  -- A call of a release function.
  unfoldable pub release : Handle → Bool → Manager → Manager × List Text
  unfolding release_once
  release f keep m =
      if exists (λ i. i == f.id) m.spent
      then (m, [])
      else release_once f.chat_id keep (record m { spent = f.id ∷ m.spent })

  -- `UnlockIdle`
  unfoldable pub unlock_idle : Text → Manager → Unlocked × Manager × List Text
  unfolding drop_holder
  unlock_idle chat m = elim (find_holder chat m.holders) [
    | none ↦ (not_held, m, [])
    | some h ↦
        if positive h.active_runs
        then (active_run, m, [])
        else let (m', notified) = drop_holder chat m in (unlocked, m', notified)
  ]
