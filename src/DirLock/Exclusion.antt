-- ===== src/DirLock/Exclusion.antt =====
-- Mutual exclusion of directories in backend/lib/dirlock/dirlock.go: the invariant, and how it is kept by a
-- write to the map of holders.
pub mod Sweeps
pub mod Acquiring
pub mod Releasing
pub mod Titles
pub mod Reachable
use asgard.Prelude.{
  ◌≡◌, refl, sym, ◌∙◌, ap, ◌≢◌, inl, inr, List, Memᴰ, map, Text, Option, none, some, subst,
}
use asgard.Paths.Overlap.{paths_overlap_symm}
use asgard.DirLock.State.{
  Mode, exclusive, Request, Holder, Waiter, Manager, delete_holder, put_holder,
}
use asgard.DirLock.Holders.{mem-delete_holder, mem-put_holder}
use asgard.DirLock.Apart.{Apart, IsFree}

-- Two chats of one runner hold overlapping directories only where neither is exclusive.
abbrev pub IsExclusive : List Holder → Type 0
IsExclusive hs = (a : Holder) → Memᴰ a hs → IsFree a.chat_id a.runner_id a.mode a.dirs hs

-- The requests that wait, in order.
abbrev pub queue : Manager → List Request
queue m = map (λ (w : Waiter). w.req) m.waiters

-- A chat's claims agree on the runner and on the mode.
abbrev pub AgreesWith : Text → Mode → Request → Type 0
AgreesWith runner mode q = (runner ≡ q.runner_id) × (mode ≡ q.mode)

abbrev pub HoldersAgree : List Holder → List Request → Type 0
HoldersAgree hs qs =
    (h : Holder) (q : Request)
    → Memᴰ h hs
    → Memᴰ q qs
    → h.chat_id ≡ q.chat_id
    → AgreesWith h.runner_id h.mode q

abbrev pub RequestsAgree : List Request → Type 0
RequestsAgree qs =
    (p q : Request)
    → Memᴰ p qs
    → Memᴰ q qs
    → p.chat_id ≡ q.chat_id
    → AgreesWith p.runner_id p.mode q

pub record IsSafe (m : Manager) : Type 0 where
  pub exclusion : IsExclusive m.holders
  pub holders_agree : HoldersAgree m.holders (queue m)
  pub requests_agree : RequestsAgree (queue m)

pub Apart-symm :
    (m : Mode) (ds : List Text) (m' : Mode) (ds' : List Text)
    → Apart m ds m' ds'
    → Apart m' ds' m ds
Apart-symm m ds m' ds' h d d' i i' o =
    let (x, y) = h d' d i' i (paths_overlap_symm d' d ∙ o) in (y, x)

-- The claim of one entry, made against another list of entries.
abbrev pub IsFreeHolder : Holder → List Holder → Type 0
IsFreeHolder h hs = IsFree h.chat_id h.runner_id h.mode h.dirs hs

pub put-IsExclusive :
    (h : Holder) (hs : List Holder)
    → IsExclusive hs
    → IsFreeHolder h hs
    → IsExclusive (put_holder h hs)
put-IsExclusive h hs ex free a i b j other same = elim (mem-put_holder h hs i) [
  | inl a≡h ↦ elim (mem-put_holder h hs j) [
    | inl b≡h ↦ absurd (other (ap (λ (k : Holder). k.chat_id) (b≡h ∙ sym a≡h)))
    | inr (b_old, b_other) ↦
        subst (λ (k : Holder). Apart k.mode k.dirs b.mode b.dirs) (sym a≡h)
          (free b b_old b_other (same ∙ ap (λ (k : Holder). k.runner_id) a≡h))
  ]
  | inr (a_old, a_other) ↦ elim (mem-put_holder h hs j) [
    | inl b≡h ↦
        subst (λ (k : Holder). Apart a.mode a.dirs k.mode k.dirs) (sym b≡h)
          (Apart-symm h.mode h.dirs a.mode a.dirs
            (free a a_old a_other (sym same ∙ ap (λ (k : Holder). k.runner_id) b≡h)))
    | inr (b_old, b_other) ↦ ex a a_old b b_old other same
  ]
]

pub delete-IsExclusive :
    (c : Text) (hs : List Holder) → IsExclusive hs → IsExclusive (delete_holder c hs)
delete-IsExclusive c hs ex a i b j =
    ex a (mem-delete_holder c hs i).0 b (mem-delete_holder c hs j).0

pub put-HoldersAgree :
    (h : Holder) (hs : List Holder) (qs : List Request)
    → HoldersAgree hs qs
    → ((q : Request) → Memᴰ q qs → h.chat_id ≡ q.chat_id → AgreesWith h.runner_id h.mode q)
    → HoldersAgree (put_holder h hs) qs
put-HoldersAgree h hs qs old new k q i j same = elim (mem-put_holder h hs i) [
  | inl k≡h ↦
      subst (λ (x : Holder). AgreesWith x.runner_id x.mode q) (sym k≡h)
        (new q j (ap (λ (x : Holder). x.chat_id) (sym k≡h) ∙ same))
  | inr (k_old, _) ↦ old k q k_old j same
]

pub delete-HoldersAgree :
    (c : Text) (hs : List Holder) (qs : List Request)
    → HoldersAgree hs qs
    → HoldersAgree (delete_holder c hs) qs
delete-HoldersAgree c hs qs old k q i j = old k q (mem-delete_holder c hs i).0 j
