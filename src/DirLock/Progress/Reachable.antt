-- ===== src/DirLock/Progress/Reachable.antt =====
-- No wakeup is lost in any reachable state of the lock manager of backend/lib/dirlock/dirlock.go.
use asgard.Prelude.{subst, ◌≡◌, refl, inl, inr, List, [], ◌∷◌, map, Memᴰ}
use asgard.Prelude.Memᴰ
use asgard.DirLock.State.{Request, Holder, Waiter, Manager}
use asgard.DirLock.Apart.{IsWalk}
use asgard.DirLock.Steps.{
  Step, acquires, gets_ready, cancels, releases, unlocks, forces, retitles, Reach, start, next,
}
use asgard.DirLock.Exclusion.{queue}
use asgard.DirLock.Progress.{AllBlocked}
use asgard.DirLock.Progress.Sweeps.{IsSettled}
use asgard.DirLock.Progress.Operations.{acquire-IsSettled}
use asgard.DirLock.Progress.Endings.{
  release-IsSettled, unlock_idle-IsSettled, on_cancel-IsSettled, force_release-IsSettled,
  on_ready-IsSettled,
}
use asgard.DirLock.Progress.Titles.{update_chat_title-IsSettled}

-- No condition on the calls of `Acquire`.
abbrev pub AnyCall : Request → Manager → Type 0
AnyCall req m = Unit

module _ (walk : List Holder → List Holder) (ok : IsWalk walk) where
  Step-IsSettled : {m m' : Manager} → Step walk AnyCall m m' → IsSettled m → IsSettled m'
  Step-IsSettled (acquires req m _) done = acquire-IsSettled walk ok req m done
  Step-IsSettled (gets_ready chat m) done = on_ready-IsSettled chat m done
  Step-IsSettled (cancels ticket chat m) done = on_cancel-IsSettled walk ok ticket chat m done
  Step-IsSettled (releases f keep m) done = release-IsSettled walk ok f keep m done
  Step-IsSettled (unlocks chat m) done = unlock_idle-IsSettled walk ok chat m done
  Step-IsSettled (forces chat m) done = force_release-IsSettled walk ok chat m done
  Step-IsSettled (retitles chat title m) done = update_chat_title-IsSettled chat title m done

  reach-IsSettled : {m : Manager} → Reach walk AnyCall m → IsSettled m
  reach-IsSettled start = record { is_map = λ b i. elim i [ ]; all_blocked = tt }
  reach-IsSettled (next r st) = Step-IsSettled st (reach-IsSettled r)

-- In every reachable state, whatever the calls were, each waiting request clashes with what another chat
-- of its runner holds or with a request of its runner that stands before it in the queue.
pub reach-AllBlocked :
    (walk : List Holder → List Holder) (m : Manager)
    → IsWalk walk
    → Reach walk AnyCall m
    → AllBlocked m.holders (queue m)
reach-AllBlocked walk m ok r = (reach-IsSettled walk ok r).all_blocked

idle :
    (hs : List Holder) (ws : List Waiter)
    → AllBlocked hs (map (λ (w : Waiter). w.req) ws)
    → hs ≡ []
    → ws ≡ []
idle hs [] all none_held = refl
idle hs (w ∷ ws) (inl (b, i, _, _, _), all) none_held =
    absurd (Memᴰ.not-nil (subst (Memᴰ b) none_held i))
idle hs (w ∷ ws) (inr (e, i, _, _), all) none_held = elim i [ ]

-- In every reachable state in which no lock is held, nobody waits.
pub reach_idle :
    (walk : List Holder → List Holder) (m : Manager)
    → IsWalk walk
    → Reach walk AnyCall m
    → m.holders ≡ []
    → m.waiters ≡ []
reach_idle walk m ok r = idle m.holders m.waiters (reach-AllBlocked walk m ok r)
