-- ===== src/DirLock/State.antt =====
-- The types of backend/lib/dirlock/dirlock.go and its two maps of state. `holders` lists the entries of
-- the Go map, whose key is always the entry's `chatID`; a release function is a handle whose `sync.Once`
-- is the list `spent`; a waiter's channel `ready` is its ticket, closed when it stands in `opened`.
use asgard.Prelude.{
  ℕ, Bool, true, false, List, [], ◌∷◌, Option, none, some, Text, text_eq, ℤ, if◌then◌else◌, keep_if,
  not,
}

-- `Mode`; `unset` is the empty string.
pub data Mode : Type 0 where
  exclusive readonly unset : Mode

abbrev pub is_exclusive : Mode → Bool
is_exclusive exclusive = true
is_exclusive _ = false

abbrev pub is_readonly : Mode → Bool
is_readonly readonly = true
is_readonly _ = false

-- `Reason`; `blank` is the empty string.
pub data Reason : Type 0 where
  running uncommitted blank : Reason

pub record Request : Type 0 where
  pub chat_id : Text
  pub title : Text
  pub runner_id : Text
  pub dirs : List Text
  pub mode : Mode

pub record Holder : Type 0 where
  pub chat_id : Text
  pub title : Text
  pub runner_id : Text
  pub dirs : List Text
  pub mode : Mode
  pub reason : Reason
  pub active_runs : ℤ

pub record Waiter : Type 0 where
  pub ticket : ℕ
  pub req : Request
  pub blocked_by_chat_id : Text
  pub blocked_by_title : Text
  pub blocked_by_reason : Reason
  pub blocked_dir : Text

pub record Manager : Type 0 where
  pub holders : List Holder
  pub waiters : List Waiter
  pub opened : List ℕ
  pub next_ticket : ℕ
  pub spent : List ℕ
  pub next_release : ℕ

-- `NewManager`.
abbrev pub new_manager : Manager
new_manager = record {
  holders = [];
  waiters = [];
  opened = [];
  next_ticket = 0;
  spent = [];
  next_release = 0;
}

-- `m.holders[chatID]`.
unfoldable pub find_holder : Text → List Holder → Option Holder
find_holder chat [] = none
find_holder chat (h ∷ hs) = if text_eq h.chat_id chat then some h else find_holder chat hs

-- `delete(m.holders, chatID)`.
unfoldable pub delete_holder : Text → List Holder → List Holder
delete_holder chat hs = keep_if (λ h. not (text_eq h.chat_id chat)) hs

-- `m.holders[h.chatID] = h`, and a write through the pointer that the map holds.
unfoldable pub put_holder : Holder → List Holder → List Holder
unfolding delete_holder
put_holder h hs = h ∷ delete_holder h.chat_id hs
