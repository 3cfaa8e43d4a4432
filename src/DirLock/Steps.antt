-- ===== src/DirLock/Steps.antt =====
-- The lock manager of backend/lib/dirlock/dirlock.go as a transition system: each section under `m.mu` is one
-- step, and the calls come in any order. `walk` is the order of `range` over the map of holders.
use asgard.Prelude.{ℕ, Bool, List, Text}
use asgard.DirLock.State.{Request, Holder, Manager, new_manager}
use asgard.DirLock.Acquire.{normalize, acquire}
use asgard.DirLock.Release.{Handle, release, unlock_idle}
use asgard.DirLock.Waits.{on_ready, on_cancel, force_release}
use asgard.DirLock.Status.{update_chat_title}

module _ (walk : List Holder → List Holder) (Allowed : Request → Manager → Type 0) where
  -- The calls of `Acquire` meet `Allowed`; all the others are free.
  pub data Step : Manager → Manager → Type 0 where
    acquires :
        (req : Request) (m : Manager) → Allowed (normalize req) m → Step m (acquire walk req m).1
    gets_ready : (chat : Text) (m : Manager) → Step m (on_ready chat m).1
    cancels : (ticket : ℕ) (chat : Text) (m : Manager) → Step m (on_cancel walk ticket chat m).1
    releases : (f : Handle) (keep : Bool) (m : Manager) → Step m (release walk f keep m).0
    unlocks : (chat : Text) (m : Manager) → Step m (unlock_idle walk chat m).1
    forces : (chat : Text) (m : Manager) → Step m (force_release walk chat m).0
    retitles : (chat title : Text) (m : Manager) → Step m (update_chat_title chat title m).0

  pub data Reach : Manager → Type 0 where
    start : Reach new_manager
    next : {m m' : Manager} → Reach m → Step m m' → Reach m'
