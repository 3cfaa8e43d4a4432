-- ===== src/DirLock/Exclusion/Reachable.antt =====
-- Mutual exclusion in every reachable state of the lock manager of backend/lib/dirlock/dirlock.go.
use asgard.Prelude.{List}
use asgard.DirLock.State.{Holder, Manager, new_manager}
use asgard.DirLock.Apart.{IsWalk}
use asgard.DirLock.Steps.{
  Step, acquires, gets_ready, cancels, releases, unlocks, forces, retitles, Reach, start, next,
}
use asgard.DirLock.Exclusion.{IsExclusive, IsSafe}
use asgard.DirLock.Exclusion.Acquiring.{IsDisciplined, acquire-IsSafe}
use asgard.DirLock.Exclusion.Releasing.{
  release-IsSafe, unlock_idle-IsSafe, on_cancel-IsSafe, force_release-IsSafe, on_ready-IsSafe,
}
use asgard.DirLock.Exclusion.Titles.{update_chat_title-IsSafe}

module _ (walk : List Holder → List Holder) (ok : IsWalk walk) where
  Step-IsSafe : {m m' : Manager} → Step walk IsDisciplined m m' → IsSafe m → IsSafe m'
  Step-IsSafe (acquires req m disc) safe = acquire-IsSafe walk ok req m safe disc
  Step-IsSafe (gets_ready chat m) safe = on_ready-IsSafe chat m safe
  Step-IsSafe (cancels ticket chat m) safe = on_cancel-IsSafe walk ok ticket chat m safe
  Step-IsSafe (releases f keep m) safe = release-IsSafe walk ok f keep m safe
  Step-IsSafe (unlocks chat m) safe = unlock_idle-IsSafe walk ok chat m safe
  Step-IsSafe (forces chat m) safe = force_release-IsSafe walk ok chat m safe
  Step-IsSafe (retitles chat title m) safe = update_chat_title-IsSafe chat title m safe

  new_manager-IsSafe : IsSafe new_manager
  new_manager-IsSafe = record {
    exclusion = λ a i. elim i [ ];
    holders_agree = λ h q i. elim i [ ];
    requests_agree = λ p q i. elim i [ ];
  }

  reach-IsSafe : {m : Manager} → Reach walk IsDisciplined m → IsSafe m
  reach-IsSafe start = new_manager-IsSafe
  reach-IsSafe (next r st) = Step-IsSafe st (reach-IsSafe r)

-- Whatever operations ran in whatever order, two chats of one runner hold overlapping directories only
-- where neither holds them exclusively. Every call of `Acquire` was disciplined: its chat stayed on the
-- runner of its lock and of its waiting requests, and used the mode of its waiting requests.
pub reach-IsExclusive :
    (walk : List Holder → List Holder) (m : Manager)
    → IsWalk walk
    → Reach walk IsDisciplined m
    → IsExclusive m.holders
reach-IsExclusive walk m ok r = (reach-IsSafe walk ok r).exclusion
