-- ===== src/DirLock/Exclusion/Releasing.antt =====
-- The operations of backend/lib/dirlock/dirlock.go that give up a claim, and `UpdateChatTitle`, keep mutual
-- exclusion.
use asgard.Prelude.Memᴰ
use asgard.Prelude.{
  ℕ, ◌≡◌, refl, inl, inr, Bool, false, ◌&&◌, List, [], ◌∷◌, ◌++◌, Memᴰ, map, Text, Bool-cases,
  Option-cases, exists, subst, decr, positive, mem-keep_if, ◌==◌,
}
use asgard.DirLock.State.{
  is_exclusive, uncommitted, Request, Holder, Waiter, Manager, find_holder, delete_holder,
}
use asgard.DirLock.Holders.{find_holder-some, mem-delete_holder}
use asgard.DirLock.Apart.{IsWalk}
use asgard.DirLock.Release.{
  Handle, make_release, mark_uncommitted, is_blocked_by, drop_holder, release_once, release,
  unlock_idle,
}
use asgard.DirLock.Waits.{
  is_open, on_ready, remove_waiter, waiters_of, waiters_but, on_cancel, force_release,
}
use asgard.DirLock.Exclusion.{IsSafe}
use asgard.DirLock.Exclusion.Sweeps.{process_waiters-IsSafe}
use asgard.DirLock.Exclusion.Acquiring.{IsSafe-shrink, IsSafe-put}

pub reqs-mark_uncommitted :
    (chat : Text) (ws : List Waiter)
    → map (λ (w : Waiter). w.req) (mark_uncommitted chat ws) ≡ map (λ (w : Waiter). w.req) ws
unfolding mark_uncommitted
reqs-mark_uncommitted chat [] = refl
reqs-mark_uncommitted chat (w ∷ ws) = elim (Bool-cases (is_blocked_by chat w)) [
  | inl e ↦ rw (e, reqs-mark_uncommitted chat ws)
  | inr e ↦ rw (e, reqs-mark_uncommitted chat ws)
]

mem-remove_waiter :
    (t : ℕ) (ws : List Waiter) {w : Waiter} → Memᴰ w (remove_waiter t ws) → Memᴰ w ws
unfolding remove_waiter
mem-remove_waiter t [] i = i
mem-remove_waiter t (x ∷ ws) i = elim (Bool-cases (x.ticket == t)) [
  | inl e ↦ Memᴰ.tail (rw (e, remove_waiter) at i)
  | inr e ↦ elim (Memᴰ.cases_cons (rw (e, remove_waiter) at i)) [
    | inl here ↦ Memᴰ.head here
    | inr there ↦ Memᴰ.tail (mem-remove_waiter t ws there)
  ]
]

-- The requests of fewer waiters.
fewer :
    (ws ws' : List Waiter) (q : Request)
    → ((w : Waiter) → Memᴰ w ws' → Memᴰ w ws)
    → Memᴰ q (map (λ (w : Waiter). w.req) ws')
    → Memᴰ q (map (λ (w : Waiter). w.req) ws)
fewer ws ws' q sub i =
    let (w, j, e) = Memᴰ.of_map (λ (w : Waiter). w.req) ws' i in
    subst (λ (r : Request). Memᴰ r (map (λ (w : Waiter). w.req) ws)) e
      (Memᴰ.map (λ (w : Waiter). w.req) (sub w j))

module _ (walk : List Holder → List Holder) (ok : IsWalk walk) where
  drop_holder-IsSafe : (chat : Text) (m : Manager) → IsSafe m → IsSafe (drop_holder walk chat m).0
  unfolding drop_holder
  drop_holder-IsSafe chat m safe =
      process_waiters-IsSafe walk ok (record m { holders = delete_holder chat m.holders })
        (IsSafe-shrink m (record m { holders = delete_holder chat m.holders }) safe
          (λ h i. (mem-delete_holder chat m.holders i).0) (λ q i. i))

  release_once-IsSafe :
      (chat : Text) (keep : Bool) (m : Manager)
      → IsSafe m
      → IsSafe (release_once walk chat keep m).0
  unfolding release_once
  release_once-IsSafe chat keep m safe = elim (Option-cases (find_holder chat m.holders)) [
    | inl absent ↦ rw (absent, release_once) safe
    | inr (h, e) ↦
        let (held, same) = find_holder-some chat m.holders e in
        elim (Bool-cases (positive (decr h.active_runs))) [
          | inl busy ↦
              rw (e, busy, release_once)
                (IsSafe-put m _ (record h { active_runs = decr h.active_runs }) safe refl refl
                  (safe.exclusion h held) (λ q j f. safe.holders_agree h q held j f))
          | inr idle ↦ elim (Bool-cases (is_exclusive h.mode && keep)) [
            | inl kept ↦
                rw (e, idle, kept, release_once)
                  (IsSafe-put m _
                    (record h { active_runs = decr h.active_runs; reason = uncommitted }) safe refl
                    (reqs-mark_uncommitted chat m.waiters) (safe.exclusion h held)
                    (λ q j f. safe.holders_agree h q held j f))
            | inr dropped ↦ rw (e, idle, dropped, release_once) (drop_holder-IsSafe chat m safe)
          ]
        ]
  ]

  pub release-IsSafe :
      (f : Handle) (keep : Bool) (m : Manager) → IsSafe m → IsSafe (release walk f keep m).0
  unfolding release
  release-IsSafe f keep m safe = elim (Bool-cases (exists (λ i. i == f.id) m.spent)) [
    | inl done ↦ rw (done, release) safe
    | inr live ↦
        rw (live, release)
          (release_once-IsSafe f.chat_id keep (record m { spent = f.id ∷ m.spent })
            (IsSafe-shrink m (record m { spent = f.id ∷ m.spent }) safe (λ h i. i) (λ q i. i)))
  ]

  pub unlock_idle-IsSafe :
      (chat : Text) (m : Manager) → IsSafe m → IsSafe (unlock_idle walk chat m).1
  unfolding unlock_idle
  unlock_idle-IsSafe chat m safe = elim (Option-cases (find_holder chat m.holders)) [
    | inl absent ↦ rw (absent, unlock_idle) safe
    | inr (h, e) ↦ elim (Bool-cases (positive h.active_runs)) [
      | inl busy ↦ rw (e, busy, unlock_idle) safe
      | inr idle ↦ rw (e, idle, unlock_idle) (drop_holder-IsSafe chat m safe)
    ]
  ]

  pub on_cancel-IsSafe :
      (ticket : ℕ) (chat : Text) (m : Manager) → IsSafe m → IsSafe (on_cancel walk ticket chat m).1
  unfolding on_cancel
  on_cancel-IsSafe ticket chat m safe = elim (Bool-cases (is_open ticket m)) [
    | inl granted ↦
        rw (granted, on_cancel)
          (release-IsSafe (make_release chat m).0 false (make_release chat m).1
            (IsSafe-shrink m (make_release chat m).1 safe (λ h i. i) (λ q i. i)))
    | inr waiting ↦
        let m' : Manager = record m { waiters = remove_waiter ticket m.waiters } in
        rw (waiting, on_cancel)
          (process_waiters-IsSafe walk ok m' (
            IsSafe-shrink m m' safe (λ h i. i)
              (λ q i.
                fewer m.waiters m'.waiters q (λ w. mem-remove_waiter ticket m.waiters {w = w}) i)))
  ]

  pub force_release-IsSafe :
      (chat : Text) (m : Manager) → IsSafe m → IsSafe (force_release walk chat m).0
  unfolding force_release
  force_release-IsSafe chat m safe = process_waiters-IsSafe walk ok m' (
      IsSafe-shrink m m' safe (λ h i. (mem-delete_holder chat m.holders i).0)
        (λ q i. fewer m.waiters m'.waiters q (λ w j. (mem-keep_if _ m.waiters j).0) i))
    where
      m' : Manager
      m' = record m {
        holders = delete_holder chat m.holders;
        waiters = waiters_but chat m.waiters;
        opened = m.opened ++ map (λ (w : Waiter). w.ticket) (waiters_of chat m.waiters);
      }

pub on_ready-IsSafe : (chat : Text) (m : Manager) → IsSafe m → IsSafe (on_ready chat m).1
unfolding on_ready
on_ready-IsSafe chat m safe = elim (Option-cases (find_holder chat m.holders)) [
  | inl e ↦ rw (e, on_ready) safe
  | inr (h, e) ↦
      rw (e, on_ready) (IsSafe-shrink m (make_release chat m).1 safe (λ h i. i) (λ q i. i))
]
