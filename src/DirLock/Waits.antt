-- ===== src/DirLock/Waits.antt =====
-- What ends a wait in backend/lib/dirlock/dirlock.go: the two cases of the `select` of `Acquire`, and
-- `ForceReleaseChat`.
use asgard.Prelude.{
  ℕ, Bool, false, not, List, [], ◌∷◌, ◌++◌, map, none, some, Text, text_eq, exists, keep_if,
  if◌then◌else◌, ◌==◌,
}
use asgard.DirLock.State.{Holder, Waiter, Manager, find_holder, delete_holder}
use asgard.DirLock.Sweep.{process_waiters}
use asgard.DirLock.Release.{Handle, make_release, release}

pub data Woken : Type 0 where
  -- The call returns a release function, "lock acquisition cancelled", or the context's error.
  acquired : Handle → Woken
  cancelled : Woken
  context_error : Woken

-- Whether the channel of a ticket is closed.
unfoldable pub is_open : ℕ → Manager → Bool
is_open ticket m = exists (λ t. t == ticket) m.opened

-- `case <-w.ready`
unfoldable pub on_ready : Text → Manager → Woken × Manager
unfolding make_release
on_ready chat m = elim (find_holder chat m.holders) [
  | none ↦ (cancelled, m)
  | some h ↦ let (f, m') = make_release chat m in (acquired f, m')
]

-- The loop that takes the waiter out of the queue.
unfoldable pub remove_waiter : ℕ → List Waiter → List Waiter
remove_waiter ticket [] = []
remove_waiter ticket (w ∷ ws) = if w.ticket == ticket then ws else w ∷ remove_waiter ticket ws

-- The waiters of a chat, and the others.
unfoldable pub waiters_of : Text → List Waiter → List Waiter
waiters_of chat ws = keep_if (λ w. text_eq w.req.chat_id chat) ws

unfoldable pub waiters_but : Text → List Waiter → List Waiter
waiters_but chat ws = keep_if (λ w. not (text_eq w.req.chat_id chat)) ws

module _ (walk : List Holder → List Holder) where
  -- `case <-ctx.Done()`
  unfoldable pub on_cancel : ℕ → Text → Manager → Woken × Manager × List Text
  unfolding make_release
  on_cancel ticket chat m =
      if is_open ticket m
      then (let (f, m') = make_release chat m in
          let (m'', notified) = release walk f false m' in (context_error, m'', notified))
      else (let (m', woken) =
            process_waiters walk (record m { waiters = remove_waiter ticket m.waiters }) in
          (context_error, m', woken ++ chat ∷ []))

  -- `ForceReleaseChat`
  unfoldable pub force_release : Text → Manager → Manager × List Text
  unfolding waiters_of waiters_but
  force_release chat m =
      let gone = waiters_of chat m.waiters in
      let held : List Text = elim (find_holder chat m.holders) [ none ↦ [] | some h ↦ chat ∷ [] ] in
      let (m', woken) = process_waiters walk (record m {
        holders = delete_holder chat m.holders;
        waiters = waiters_but chat m.waiters;
        opened = m.opened ++ map (λ w. w.ticket) gone;
      }) in
      (m', (held ++ map (λ w. chat) gone) ++ woken)
