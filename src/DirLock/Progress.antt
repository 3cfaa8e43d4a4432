-- ===== src/DirLock/Progress.antt =====
-- No wakeup is lost in backend/lib/dirlock/dirlock.go: the invariant that every waiter is blocked, and its laws.
pub mod Sweeps
pub mod Operations
pub mod Endings
pub mod Titles
pub mod Reachable
use asgard.Prelude.Memᴰ
use asgard.Prelude.{
  text_eq_iff, text_eq_complete, keep_if, ◌≡◌, refl, sym, ◌∙◌, ap, ◌≢◌, ◌⊎◌, inl, inr, Bool, true,
  false, not, List, [], ◌∷◌, ◌++◌, Memᴰ, map, Text, text_eq, text_eq_sound, Option, none, some,
  arith, Bool-cases, Option-cases, subst, append_assoc, append-nil, text_eq_refl, if◌then◌else◌,
}
use asgard.Paths.{paths_overlap}
use asgard.DirLock.State.{Mode, exclusive, Request, Holder, find_holder, delete_holder, put_holder}
use asgard.DirLock.Holders.{
  find_holder-none, mem-delete_holder, find_holder-some, put_holder-mem_self, put_holder-mem_other,
  mem-put_holder, ne-text_eq,
}

-- Two claims that may not stand together.
abbrev pub Clash : Mode → List Text → Mode → List Text → Type 0
Clash m ds m' ds' =
    (d : Text) × (d' : Text) × Memᴰ d ds
    × Memᴰ d' ds'
    × (paths_overlap d d' ≡ true)
    × ((m ≡ exclusive) ⊎ (m' ≡ exclusive))

abbrev pub BlockedByHolder : List Holder → Request → Type 0
BlockedByHolder hs q =
    (b : Holder) × Memᴰ b hs
    × (b.chat_id ≢ q.chat_id)
    × (b.runner_id ≡ q.runner_id)
    × Clash q.mode q.dirs b.mode b.dirs

abbrev pub BlockedByEarlier : List Request → Request → Type 0
BlockedByEarlier es q =
    (e : Request) × Memᴰ e es × (e.runner_id ≡ q.runner_id) × Clash q.mode q.dirs e.mode e.dirs

-- Each request is blocked by a holder of another chat or by a request before it; `es` came before.
abbrev pub BlockedFrom : List Holder → List Request → List Request → Type 0
BlockedFrom hs es [] = Unit
BlockedFrom hs es (q ∷ qs) =
    (BlockedByHolder hs q ⊎ BlockedByEarlier es q) × BlockedFrom hs (es ++ q ∷ []) qs

abbrev pub AllBlocked : List Holder → List Request → Type 0
AllBlocked hs qs = BlockedFrom hs [] qs

-- The list stands for a map: a chat has one entry.
abbrev pub IsMap : List Holder → Type 0
IsMap hs = (b : Holder) → Memᴰ b hs → find_holder b.chat_id hs ≡ some b

-- The second entry claims what the first does.
abbrev pub Wider : Holder → Holder → Type 0
Wider b b' =
    (b'.chat_id ≡ b.chat_id)
    × (b'.runner_id ≡ b.runner_id)
    × ((d : Text) → Memᴰ d b.dirs → Memᴰ d b'.dirs)
    × (b.mode ≡ exclusive → b'.mode ≡ exclusive)

abbrev pub Grows : List Holder → List Holder → Type 0
Grows hs hs' = (b : Holder) → Memᴰ b hs → (b' : Holder) × Memᴰ b' hs' × Wider b b'

find_holder-delete :
    (c k : Text) (hs : List Holder) → k ≢ c → find_holder k (delete_holder c hs) ≡ find_holder k hs
unfolding find_holder delete_holder keep_if
find_holder-delete c k [] n = refl
find_holder-delete c k (h ∷ hs) n =
    ground (arith, text_eq_iff h.chat_id c, text_eq_iff h.chat_id k, find_holder-delete c k hs n)

pub delete-IsMap : (c : Text) (hs : List Holder) → IsMap hs → IsMap (delete_holder c hs)
delete-IsMap c hs m b i =
    let (j, n) = mem-delete_holder c hs i in find_holder-delete c b.chat_id hs n ∙ m b j

find_holder-put_self :
    (h : Holder) (hs : List Holder) → find_holder h.chat_id (put_holder h hs) ≡ some h
unfolding find_holder put_holder
find_holder-put_self h hs = rw (text_eq_refl h.chat_id)

find_holder-put_other :
    (h : Holder) (hs : List Holder) (c : Text)
    → c ≢ h.chat_id
    → find_holder c (put_holder h hs) ≡ find_holder c hs
unfolding find_holder put_holder
find_holder-put_other h hs c n =
    ground (arith, text_eq_iff h.chat_id c, find_holder-delete h.chat_id c hs n)

pub put-IsMap : (h : Holder) (hs : List Holder) → IsMap hs → IsMap (put_holder h hs)
put-IsMap h hs m b i = elim (mem-put_holder h hs i) [
  | inl e ↦
      subst (λ (k : Holder). find_holder k.chat_id (put_holder h hs) ≡ some k) (sym e)
        (find_holder-put_self h hs)
  | inr (j, n) ↦ find_holder-put_other h hs b.chat_id n ∙ m b j
]

same_entry :
    (hs : List Holder) {b h : Holder}
    → IsMap hs
    → Memᴰ b hs
    → Memᴰ h hs
    → b.chat_id ≡ h.chat_id
    → b ≡ h
same_entry hs {b} {h} m i j e = cc (m b i, m h j)

-- The entry of a chat is replaced by one that claims as much.
pub put-Grows :
    (h h' : Holder) (hs : List Holder)
    → IsMap hs
    → Memᴰ h hs
    → Wider h h'
    → Grows hs (put_holder h' hs)
put-Grows h h' hs m held wide b i = elim (Bool-cases (text_eq b.chat_id h'.chat_id)) [
  | inl same ↦ (
    h',
    put_holder-mem_self h' hs,
    subst (λ (k : Holder). Wider k h')
        (sym (same_entry hs m i held (text_eq_sound b.chat_id h'.chat_id same ∙ wide.0))) wide,
  )
  | inr other ↦ (
    b,
    put_holder-mem_other h' hs i (λ e. let t = text_eq_complete b.chat_id h'.chat_id e in cc),
    (refl, refl, (λ d j. j), (λ e. e)),
  )
]

-- A chat that had no entry gets one.
pub put_new-Grows :
    (h' : Holder) (hs : List Holder)
    → find_holder h'.chat_id hs ≡ none
    → Grows hs (put_holder h' hs)
put_new-Grows h' hs absent b i = (
  b,
  put_holder-mem_other h' hs i (find_holder-none h'.chat_id hs absent i),
  (refl, refl, (λ d j. j), (λ e. e)),
)

pub blocked-grow :
    (hs hs' : List Holder) (q : Request)
    → Grows hs hs'
    → BlockedByHolder hs q
    → BlockedByHolder hs' q
blocked-grow hs hs' q g (b, i, other, on, clash) =
    let (b', i', wide) = g b i in
    let (chat, runner, dirs, mode) = wide in
    let (d, d', j, j', o, ex) = clash in
    (b', i', (λ e. other (sym chat ∙ e)), runner ∙ on, (d, d', j, dirs d' j', o, widen mode ex))
  where
    widen :
        {m n n' : Mode}
        → (n ≡ exclusive → n' ≡ exclusive)
        → (m ≡ exclusive) ⊎ (n ≡ exclusive)
        → (m ≡ exclusive) ⊎ (n' ≡ exclusive)
    widen f (inl e) = inl e
    widen f (inr e) = inr (f e)

pub BlockedFrom-grow :
    (hs hs' : List Holder) (es qs : List Request)
    → Grows hs hs'
    → BlockedFrom hs es qs
    → BlockedFrom hs' es qs
BlockedFrom-grow hs hs' es [] g all = tt
BlockedFrom-grow hs hs' es (q ∷ qs) g (inl b, all) =
    (inl (blocked-grow hs hs' q g b), BlockedFrom-grow hs hs' (es ++ q ∷ []) qs g all)
BlockedFrom-grow hs hs' es (q ∷ qs) g (inr b, all) =
    (inr b, BlockedFrom-grow hs hs' (es ++ q ∷ []) qs g all)

-- One more at the end.
pub BlockedFrom-snoc :
    (hs : List Holder) (es qs : List Request) (q : Request)
    → BlockedFrom hs es qs
    → BlockedByHolder hs q ⊎ BlockedByEarlier (es ++ qs) q
    → BlockedFrom hs es (qs ++ q ∷ [])
BlockedFrom-snoc hs es [] q all b = (rw (append-nil es) at b, tt)
BlockedFrom-snoc hs es (p ∷ qs) q (first, all) b =
    (first, BlockedFrom-snoc hs (es ++ p ∷ []) qs q all (rw (append_assoc es (p ∷ []) qs) b))
