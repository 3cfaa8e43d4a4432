-- ===== src/DirLock/Progress/Titles.antt =====
-- `UpdateChatTitle` of backend/lib/dirlock/dirlock.go leaves who blocks whom as it was.
use asgard.Prelude.Memᴰ
use asgard.Prelude.{
  ◌≡◌, refl, sym, ◌⊎◌, inl, inr, List, [], ◌∷◌, ◌++◌, map, Text, text_eq, arith, Bool-cases,
  Option-cases, subst, map-append,
}
use asgard.DirLock.State.{Request, Holder, Waiter, Manager, find_holder, put_holder}
use asgard.DirLock.Holders.{find_holder-some}
use asgard.DirLock.Status.{retitle, update_chat_title}
use asgard.DirLock.Progress.{Clash, BlockedByHolder, BlockedByEarlier, BlockedFrom, put-Grows}
use asgard.DirLock.Progress.Sweeps.{IsSettled}
use asgard.DirLock.Progress.Operations.{IsSettled-grow}

abbrev reqs : List Waiter → List Request
reqs ws = map (λ (w : Waiter). w.req) ws

retitle-title :
    (chat title : Text) (w : Waiter)
    → (t : Text) × ((retitle chat title w).req ≡ record (w.req) { title = t })
unfolding retitle
retitle-title chat title w = elim (Bool-cases (text_eq w.req.chat_id chat)) [
  | inl own ↦ (title, ground arith)
  | inr other ↦ (w.req.title, ground arith)
]

module _ (chat title : Text) (hs : List Holder) where
  abbrev after : List Waiter → List Waiter
  after ws = map (retitle chat title) ws

  earlier-after :
      (es : List Waiter) (q : Request)
      → BlockedByEarlier (reqs es) q
      → BlockedByEarlier (reqs (after es)) q
  earlier-after es q (e, i, on, clash) =
      let (v, j, same) = Memᴰ.of_map (λ (w : Waiter). w.req) es i in
      let (t, r) = retitle-title chat title v in
      (
        (retitle chat title v).req,
        Memᴰ.map (λ (w : Waiter). w.req) (Memᴰ.map (retitle chat title) j),
        subst (λ (x : Request). x.runner_id ≡ q.runner_id) (sym r) (rw same on),
        subst (λ (x : Request). Clash q.mode q.dirs x.mode x.dirs) (sym r)
            (subst (λ (x : Request). Clash q.mode q.dirs x.mode x.dirs) (sym same) clash),
      )

  one-after :
      (es : List Waiter) (w : Waiter)
      → BlockedByHolder hs w.req ⊎ BlockedByEarlier (reqs es) w.req
      → BlockedByHolder hs (retitle chat title w).req
        ⊎ BlockedByEarlier (reqs (after es)) (retitle chat title w).req
  one-after es w (inl b) =
      let (t, r) = retitle-title chat title w in inl (subst (BlockedByHolder hs) (sym r) b)
  one-after es w (inr b) =
      let (t, r) = retitle-title chat title w in
      inr (subst (BlockedByEarlier (reqs (after es))) (sym r) (earlier-after es w.req b))

  reqs-snoc : (es : List Waiter) (w : Waiter) → reqs (es ++ w ∷ []) ≡ reqs es ++ w.req ∷ []
  reqs-snoc es w = simp map-append

  after-snoc :
      (es : List Waiter) (w : Waiter)
      → reqs (after (es ++ w ∷ [])) ≡ reqs (after es) ++ (retitle chat title w).req ∷ []
  after-snoc es w = simp map-append

  BlockedFrom-after :
      (es ws : List Waiter)
      → BlockedFrom hs (reqs es) (reqs ws)
      → BlockedFrom hs (reqs (after es)) (reqs (after ws))
  BlockedFrom-after es [] all = tt
  BlockedFrom-after es (w ∷ ws) (first, all) = (
    one-after es w first,
    subst (λ (l : List Request). BlockedFrom hs l (reqs (after ws))) (after-snoc es w)
        (BlockedFrom-after (es ++ w ∷ []) ws
          (subst (λ (l : List Request). BlockedFrom hs l (reqs ws)) (sym (reqs-snoc es w)) all)),
  )

pub update_chat_title-IsSettled :
    (chat title : Text) (m : Manager) → IsSettled m → IsSettled (update_chat_title chat title m).0
unfolding update_chat_title
update_chat_title-IsSettled chat title m done = elim (Bool-cases (text_eq title [])) [
  | inl blank ↦ rw (blank, update_chat_title) done
  | inr named ↦ elim (Option-cases (find_holder chat m.holders)) [
    | inl e ↦
        rw (named, e, update_chat_title)
          (record {
            is_map = done.is_map;
            all_blocked = BlockedFrom-after chat title m.holders [] m.waiters done.all_blocked;
          })
    | inr (h, e) ↦
        let (held, same) = find_holder-some chat m.holders e in
        let h' : Holder = record h { title = title } in
        let m' : Manager = record m { holders = put_holder h' m.holders } in
        let done' =
          IsSettled-grow m m' h' done refl refl
            (put-Grows h h' m.holders done.is_map held (refl, refl, (λ d i. i), (λ f. f))) in
        rw (named, e, update_chat_title)
          (record {
            is_map = done'.is_map;
            all_blocked = BlockedFrom-after chat title m'.holders [] m.waiters done'.all_blocked;
          })
  ]
]
