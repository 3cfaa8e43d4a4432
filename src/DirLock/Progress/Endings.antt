-- ===== src/DirLock/Progress/Endings.antt =====
-- The operations of backend/lib/dirlock/dirlock.go that give up a claim, and `UpdateChatTitle`, leave every waiter
-- blocked.
use asgard.Prelude.{
  ℕ, refl, inl, inr, Bool, false, ◌&&◌, List, ◌∷◌, Text, Bool-cases, Option-cases, exists, positive,
  decr, ◌==◌,
}
use asgard.DirLock.State.{is_exclusive, uncommitted, Holder, Manager, find_holder, delete_holder}
use asgard.DirLock.Holders.{find_holder-some}
use asgard.DirLock.Apart.{IsWalk}
use asgard.DirLock.Release.{Handle, make_release, drop_holder, release_once, release, unlock_idle}
use asgard.DirLock.Waits.{is_open, on_ready, remove_waiter, on_cancel, force_release}
use asgard.DirLock.Exclusion.Releasing.{reqs-mark_uncommitted}
use asgard.DirLock.Progress.{IsMap, delete-IsMap, put-Grows}
use asgard.DirLock.Progress.Sweeps.{IsSettled, process_waiters-IsSettled}
use asgard.DirLock.Progress.Operations.{IsSettled-grow, IsSettled-same}

module _ (walk : List Holder → List Holder) (ok : IsWalk walk) where
  drop_holder-IsSettled :
      (chat : Text) (m : Manager) → IsMap m.holders → IsSettled (drop_holder walk chat m).0
  unfolding drop_holder
  drop_holder-IsSettled chat m is_map =
      process_waiters-IsSettled walk ok (record m { holders = delete_holder chat m.holders })
        (delete-IsMap chat m.holders is_map)

  release_once-IsSettled :
      (chat : Text) (keep : Bool) (m : Manager)
      → IsSettled m
      → IsSettled (release_once walk chat keep m).0
  unfolding release_once
  release_once-IsSettled chat keep m done = elim (Option-cases (find_holder chat m.holders)) [
    | inl absent ↦ rw (absent, release_once) done
    | inr (h, e) ↦
        let (held, same) = find_holder-some chat m.holders e in
        let left : Holder = record h { active_runs = decr h.active_runs } in
        let kept_h : Holder = record left { reason = uncommitted } in
        elim (Bool-cases (positive (decr h.active_runs))) [
          | inl busy ↦
              rw (e, busy, release_once)
                (IsSettled-grow m _ left done refl refl
                  (put-Grows h left m.holders done.is_map held (refl, refl, (λ d i. i), (λ f. f))))
          | inr idle ↦ elim (Bool-cases (is_exclusive h.mode && keep)) [
            | inl kept ↦
                rw (e, idle, kept, release_once)
                  (IsSettled-grow m _ kept_h done refl (reqs-mark_uncommitted chat m.waiters) (
                    put-Grows h kept_h m.holders done.is_map held
                      (refl, refl, (λ d i. i), (λ f. f))))
            | inr dropped ↦
                rw (e, idle, dropped, release_once) (drop_holder-IsSettled chat m done.is_map)
          ]
        ]
  ]

  pub release-IsSettled :
      (f : Handle) (keep : Bool) (m : Manager) → IsSettled m → IsSettled (release walk f keep m).0
  unfolding release
  release-IsSettled f keep m done = elim (Bool-cases (exists (λ i. i == f.id) m.spent)) [
    | inl spent ↦ rw (spent, release) done
    | inr live ↦
        rw (live, release)
          (release_once-IsSettled f.chat_id keep (record m { spent = f.id ∷ m.spent })
            (IsSettled-same m _ done refl refl))
  ]

  pub unlock_idle-IsSettled :
      (chat : Text) (m : Manager) → IsSettled m → IsSettled (unlock_idle walk chat m).1
  unfolding unlock_idle
  unlock_idle-IsSettled chat m done = elim (Option-cases (find_holder chat m.holders)) [
    | inl absent ↦ rw (absent, unlock_idle) done
    | inr (h, e) ↦ elim (Bool-cases (positive h.active_runs)) [
      | inl busy ↦ rw (e, busy, unlock_idle) done
      | inr idle ↦ rw (e, idle, unlock_idle) (drop_holder-IsSettled chat m done.is_map)
    ]
  ]

  pub on_cancel-IsSettled :
      (ticket : ℕ) (chat : Text) (m : Manager)
      → IsSettled m
      → IsSettled (on_cancel walk ticket chat m).1
  unfolding on_cancel
  on_cancel-IsSettled ticket chat m done = elim (Bool-cases (is_open ticket m)) [
    | inl granted ↦
        rw (granted, on_cancel)
          (release-IsSettled (make_release chat m).0 false (make_release chat m).1
            (IsSettled-same m (make_release chat m).1 done refl refl))
    | inr waiting ↦
        let m' : Manager = record m { waiters = remove_waiter ticket m.waiters } in
        rw (waiting, on_cancel) (process_waiters-IsSettled walk ok m' done.is_map)
  ]

  pub force_release-IsSettled :
      (chat : Text) (m : Manager) → IsSettled m → IsSettled (force_release walk chat m).0
  unfolding force_release
  force_release-IsSettled chat m done =
      process_waiters-IsSettled walk ok _ (delete-IsMap chat m.holders done.is_map)

pub on_ready-IsSettled : (chat : Text) (m : Manager) → IsSettled m → IsSettled (on_ready chat m).1
unfolding on_ready
on_ready-IsSettled chat m done = elim (Option-cases (find_holder chat m.holders)) [
  | inl e ↦ rw (e, on_ready) done
  | inr (h, e) ↦ rw (e, on_ready) (IsSettled-same m (make_release chat m).1 done refl refl)
]
