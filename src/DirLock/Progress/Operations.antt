-- ===== src/DirLock/Progress/Operations.antt =====
-- Each operation of backend/lib/dirlock/dirlock.go leaves every waiter blocked. No discipline of the callers is
-- needed.
use asgard.Prelude.Memᴰ
use asgard.Prelude.{
  ◌≡◌, refl, sym, ◌⊎◌, inl, inr, List, [], Memᴰ, map, Text, text_eq_iff, none, some, arith,
  Bool-cases, Option-cases, subst, first, first-some, map-append, ◌==◌, length,
}
use asgard.DirLock.State.{exclusive, Request, Holder, Waiter, Manager, find_holder, put_holder}
use asgard.DirLock.Dirs.{sort, sort-mem, compact-mem, add_missing, add_missing-mem}
use asgard.DirLock.Holders.{find_holder-some}
use asgard.DirLock.Conflicts.{clash_dir, clash_with_waiter, holder_conflict, find_conflict}
use asgard.DirLock.Apart.{IsWalk}
use asgard.DirLock.Sweep.{new_holder}
use asgard.DirLock.Acquire.{
  normalize, expands, target_mode, merged_dirs, expansion, entered, hold, enqueue, reenter, enter,
  acquire_normal, acquire,
}
use asgard.DirLock.Exclusion.{queue}
use asgard.DirLock.Progress.{
  BlockedByHolder, BlockedByEarlier, IsMap, Wider, Grows, put-IsMap, put-Grows, put_new-Grows,
  BlockedFrom-grow, BlockedFrom-snoc,
}
use asgard.DirLock.Progress.Sweeps.{clash_dir-some, holder_conflict-some, IsSettled}

-- A write to the map that lets no claim go.
pub IsSettled-grow :
    (m m' : Manager) (h : Holder)
    → IsSettled m
    → m'.holders ≡ put_holder h m.holders
    → queue m' ≡ queue m
    → Grows m.holders (put_holder h m.holders)
    → IsSettled m'
IsSettled-grow m m' h done hs qs grows = record {
  is_map = subst IsMap (sym hs) (put-IsMap h m.holders done.is_map);
  all_blocked =
      rw (hs, qs)
        (BlockedFrom-grow m.holders (put_holder h m.holders) [] (queue m) grows done.all_blocked);
}

-- The state that the fields which are not read leave.
pub IsSettled-same :
    (m m' : Manager) → IsSettled m → m'.holders ≡ m.holders → queue m' ≡ queue m → IsSettled m'
IsSettled-same m m' done hs qs = record {
  is_map = subst IsMap (sym hs) done.is_map;
  all_blocked = rw (hs, qs) done.all_blocked;
}

clash_with_waiter-some :
    (req : Request) (w : Waiter) (v : Waiter) (d : Text)
    → clash_with_waiter req w ≡ some (v, d)
    → (w.req.runner_id ≡ req.runner_id)
      × (clash_dir req.mode req.dirs w.req.mode w.req.dirs ≡ some d)
unfolding clash_with_waiter
clash_with_waiter-some req w v d e =
    ground (arith, text_eq_iff w.req.chat_id req.chat_id, text_eq_iff w.req.runner_id req.runner_id)

waiter_conflict-some :
    (req : Request) (ws : List Waiter) (v : Waiter) (d : Text)
    → first (clash_with_waiter req) ws ≡ some (v, d)
    → BlockedByEarlier (map (λ (w : Waiter). w.req) ws) req
waiter_conflict-some req ws v d e =
    let (w, i, q) = first-some (clash_with_waiter req) ws e in
    let (on, c) = clash_with_waiter-some req w v d q in
    (
      w.req,
      Memᴰ.map (λ (w : Waiter). w.req) i,
      on,
      clash_dir-some req.mode req.dirs w.req.mode w.req.dirs c,
    )

entered-Wider : (req : Request) (h : Holder) → Wider h (entered req h)
unfolding entered
entered-Wider req h = (refl, refl, (λ d i. i), (λ e. e))

merged-Wider :
    (req : Request) (h : Holder)
    → Wider h (entered req (record h { dirs = merged_dirs req h; mode = target_mode req h }))
unfolding entered merged_dirs
merged-Wider req h = (
  refl,
  refl,
  (λ d i.
      compact-mem (sort (add_missing h.dirs req.dirs))
        (sort-mem (add_missing h.dirs req.dirs) (add_missing-mem h.dirs req.dirs i))),
  stays,
)
  where
    stays : h.mode ≡ exclusive → target_mode req h ≡ exclusive
    stays e = ground arith

hold-IsSettled :
    (h : Holder) (m : Manager)
    → IsSettled m
    → Grows m.holders (put_holder h m.holders)
    → IsSettled (hold h m).1
unfolding hold
hold-IsSettled h m done grows = IsSettled-grow m (hold h m).1 h done refl refl grows

module _ (walk : List Holder → List Holder) (ok : IsWalk walk) where
  pub find_conflict-some :
      (req : Request) (m : Manager) (b : Holder) (d : Text)
      → find_conflict walk req m ≡ some (b, d)
      → BlockedByHolder m.holders req ⊎ BlockedByEarlier (queue m) req
  unfolding find_conflict
  find_conflict-some req m b d e = elim (Option-cases (holder_conflict walk req m.holders)) [
    | inr ((k, t), f) ↦ inl (holder_conflict-some walk ok req m.holders k t f)
    | inl f ↦ elim (Option-cases (first (clash_with_waiter req) m.waiters)) [
      | inr ((v, t), g) ↦ inr (waiter_conflict-some req m.waiters v t g)
      | inl g ↦ (let e' = rw (f, g, find_conflict) at e in cc)
    ]
  ]

  enqueue-IsSettled :
      (req : Request) (b : Holder) (d : Text) (m : Manager)
      → IsSettled m
      → find_conflict walk req m ≡ some (b, d)
      → IsSettled (enqueue req b d m).1
  unfolding enqueue
  enqueue-IsSettled req b d m done e = record {
    is_map = done.is_map;
    all_blocked = rw map-append (
        BlockedFrom-snoc m.holders [] (queue m) req done.all_blocked
          (find_conflict-some req m b d e));
  }

  enter-IsSettled :
      (req : Request) (m : Manager)
      → IsSettled m
      → find_holder req.chat_id m.holders ≡ none
      → IsSettled (enter walk req m).1
  unfolding enter
  enter-IsSettled req m done absent = elim (Option-cases (find_conflict walk req m)) [
    | inl e ↦
        rw (e, enter)
          (hold-IsSettled (new_holder req) m done (put_new-Grows (new_holder req) m.holders absent))
    | inr ((b, d), e) ↦ rw (e, enter) (enqueue-IsSettled req b d m done e)
  ]

  reenter-IsSettled :
      (req : Request) (h : Holder) (m : Manager)
      → IsSettled m
      → Memᴰ h m.holders
      → IsSettled (reenter walk req h m).1
  unfolding reenter
  reenter-IsSettled req h m done held = elim (Bool-cases (expands req h)) [
    | inr covered ↦
        rw (covered, reenter)
          (hold-IsSettled (entered req h) m done
            (put-Grows h (entered req h) m.holders done.is_map held (entered-Wider req h)))
    | inl wider ↦ elim (Option-cases (find_conflict walk (expansion req h) m)) [
      | inr ((b, d), e) ↦ rw (wider, e, reenter) done
      | inl e ↦
          let h' = entered req (record h { dirs = merged_dirs req h; mode = target_mode req h }) in
          rw (wider, e, reenter)
            (hold-IsSettled h' m done
              (put-Grows h h' m.holders done.is_map held (merged-Wider req h)))
    ]
  ]

  acquire_normal-IsSettled :
      (req : Request) (m : Manager) → IsSettled m → IsSettled (acquire_normal walk req m).1
  unfolding acquire_normal
  acquire_normal-IsSettled req m done = elim (Bool-cases (length req.dirs == 0)) [
    | inl empty ↦ rw (empty, acquire_normal) done
    | inr some_dir ↦ elim (Option-cases (find_holder req.chat_id m.holders)) [
      | inl absent ↦ rw (some_dir, absent, acquire_normal) (enter-IsSettled req m done absent)
      | inr (h, e) ↦
          rw (some_dir, e, acquire_normal)
            (reenter-IsSettled req h m done (find_holder-some req.chat_id m.holders e).0)
    ]
  ]

  pub acquire-IsSettled :
      (req : Request) (m : Manager) → IsSettled m → IsSettled (acquire walk req m).1
  unfolding acquire
  acquire-IsSettled req m = acquire_normal-IsSettled (normalize req) m
