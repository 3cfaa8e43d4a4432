-- ===== src/DirLock/Apart.antt =====
-- What the searches of backend/lib/dirlock/dirlock.go establish when they find no conflict, and when they
-- find one.
use asgard.Prelude.{
  ◌≡◌, ◌≢◌, inl, inr, true, false, List, Memᴰ, none, some, Text, text_eq_complete, arith,
  Bool-cases, exists, mem-exists, first-none, if◌then◌else◌,
}
use asgard.Paths.{paths_overlap}
use asgard.DirLock.State.{Mode, exclusive, Request, Holder}
use asgard.DirLock.Holders.{ne-text_eq}
use asgard.DirLock.Conflicts.{clashes, clash_dir, clash_with_holder, holder_conflict}

-- Two claims that may stand together: where their directories overlap, neither is exclusive.
abbrev pub Apart : Mode → List Text → Mode → List Text → Type 0
Apart mode dirs mode' dirs' =
    (d d' : Text)
    → Memᴰ d dirs
    → Memᴰ d' dirs'
    → paths_overlap d d' ≡ true
    → (mode ≢ exclusive) × (mode' ≢ exclusive)

-- A claim of a chat that may stand beside what the other chats of the runner hold.
abbrev pub IsFree : Text → Text → Mode → List Text → List Holder → Type 0
IsFree chat runner mode dirs hs =
    (b : Holder)
    → Memᴰ b hs
    → b.chat_id ≢ chat
    → b.runner_id ≡ runner
    → Apart mode dirs b.mode b.dirs

-- What Go promises of `for _, h := range m.holders`.
pub record IsWalk (walk : List Holder → List Holder) : Type 0 where
  pub covers : (hs : List Holder) (h : Holder) → Memᴰ h hs → Memᴰ h (walk hs)
  pub only : (hs : List Holder) (h : Holder) → Memᴰ h (walk hs) → Memᴰ h hs

clashes-false :
    (m m' : Mode) (d d' : Text)
    → clashes m m' d d' ≡ false
    → paths_overlap d d' ≡ true
    → (m ≢ exclusive) × (m' ≢ exclusive)
unfolding clashes
clashes-false exclusive m' d d' h o = ground arith
clashes-false m m' d d' h o = ground arith

pub clash_dir-none :
    (m : Mode) (ds : List Text) (m' : Mode) (ds' : List Text)
    → clash_dir m ds m' ds' ≡ none
    → Apart m ds m' ds'
unfolding clash_dir
clash_dir-none m ds m' ds' e d d' i i' o = clashes-false m m' d d' none_here o
  where
    quiet : (if exists (clashes m m' d) ds' then some d else none) ≡ none
    quiet = first-none (λ d1. if exists (clashes m m' d1) ds' then some d1 else none) ds e i

    none_here : clashes m m' d d' ≡ false
    none_here = elim (Bool-cases (clashes m m' d d')) [
      | inl c ↦ (let q = rw (mem-exists (clashes m m' d) ds' i' c) at quiet in cc)
      | inr c ↦ c
    ]

pub holder_conflict-none :
    (walk : List Holder → List Holder)
    → IsWalk walk
    → (req : Request) (hs : List Holder) → holder_conflict walk req hs ≡ none
    → IsFree req.chat_id req.runner_id req.mode req.dirs hs
unfolding holder_conflict clash_with_holder
holder_conflict-none walk ok req hs e b i other same =
    clash_dir-none req.mode req.dirs b.mode b.dirs
      (ground (arith, ne-text_eq b.chat_id req.chat_id other, text_eq_complete _ _ same, quiet))
  where
    quiet : clash_with_holder req b ≡ none
    quiet = first-none (clash_with_holder req) (walk hs) e (ok.covers hs b i)
