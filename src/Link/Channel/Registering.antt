-- ===== src/Link/Channel/Registering.antt =====
-- What a registration leaves of the seq that the backend has reached, `register` of
-- backend/lib/runnerhub/connection.go.
use asgard.Prelude.{
  ℕ, ◌≡◌, refl, sym, ◌∙◌, ap, inl, inr, ◌⊎◌, Bool, false, ◌||◌, List, [], ◌∷◌, Text, text_eq,
  text_eq_complete, Option-cases, none, Bool-cases,
}
use asgard.Link.Hub.{Node, Connection, Hub, cancel_run, is_bound}
use asgard.Link.Hub.Registry.{
  Register, accepted, node_of, enqueue, queued_cancels, has, resumed, rebound, known_runs,
  drop_lost, cancel_untracked, is_kept, bind, register_node, detach_node,
}
use asgard.Link.Hub.Registry.Known.{register_node-accepted}
use asgard.Link.Hub.Registry.Starts.{node_of-at, node_of-set}

abbrev pub SameReach : Node → Node → Type 0
SameReach n n' =
    (n'.highest_runner_seq ≡ n.highest_runner_seq) × (n'.runner_boot_id ≡ n.runner_boot_id)

cancel_untracked-SameReach :
    (keeps : Text → Bool) (cancelled ids : List Text) (n : Node)
    → SameReach n (cancel_untracked keeps cancelled ids n)
unfolding cancel_untracked enqueue
cancel_untracked-SameReach keeps cancelled [] n = (refl, refl)
cancel_untracked-SameReach keeps cancelled (id ∷ ids) n =
    let a = cancel_untracked-SameReach keeps cancelled ids n in
    let b = cancel_untracked-SameReach keeps (id ∷ cancelled) ids (enqueue (cancel_run id) n) in
    elim (Bool-cases (keeps id || has id cancelled || text_eq id [])) [
      | inl skip ↦ rw (skip, cancel_untracked) a
      | inr go ↦ rw (go, cancel_untracked) b
    ]

rebound-reach :
    (reg : Register) (h : Hub) (c : Connection) (n : Node)
    → (n.runner_boot_id ≡ reg.runner_boot_id) ⊎ (n.highest_runner_seq ≡ 0)
    → ((rebound reg h c n).highest_runner_seq ≡ n.highest_runner_seq)
      × ((rebound reg h c n).runner_boot_id ≡ reg.runner_boot_id)
unfolding rebound resumed
rebound-reach reg h c n same = elim (Bool-cases (text_eq n.runner_boot_id reg.runner_boot_id)) [
  | inl t ↦ elim (Bool-cases (text_eq reg.last_seen_backend_boot_id h.boot_id)) [
    | inl u ↦ rw (t, u, rebound, resumed) (refl, refl)
    | inr u ↦ rw (t, u, rebound, resumed) (refl, refl)
  ]
  | inr f ↦ elim same [
    | inl e ↦ (let t = text_eq_complete n.runner_boot_id reg.runner_boot_id e in cc)
    | inr z ↦ rw (f, rebound, resumed) (sym z, refl)
  ]
]

-- An accepted registration of the process that the entry is of, or of an entry that has reached nothing,
-- leaves the seq that was reached, and the runner is told it.
pub register_node-reach :
    (is_allowed : Text → Bool) (fails : Bool) (c : Connection) (reg : Register) (h : Hub) (n : ℕ)
    → (register_node is_allowed fails c reg h).0 ≡ accepted n
    → let old = node_of c.node_id h in
      let now = node_of c.node_id (register_node is_allowed fails c reg h).1 in
      ((old.runner_boot_id ≡ reg.runner_boot_id) ⊎ (old.highest_runner_seq ≡ 0))
      → (n ≡ old.highest_runner_seq)
        × (now.highest_runner_seq ≡ old.highest_runner_seq)
        × (now.runner_boot_id ≡ reg.runner_boot_id)
unfolding bind
register_node-reach is_allowed fails c reg h n e same =
    let x = register_node-accepted is_allowed fails c reg h n e in
    let old = node_of c.node_id h in
    let r = rebound reg h c old in
    let hub = drop_lost c.node_id (known_runs reg r) h in
    let last = cancel_untracked (is_kept fails hub) (queued_cancels r.queue) reg.active_runs r in
    let (a, b) = rebound-reach reg h c old same in
    let (p, q) =
      cancel_untracked-SameReach (is_kept fails hub) (queued_cancels r.queue) reg.active_runs r in
    let now : node_of c.node_id (register_node is_allowed fails c reg h).1 ≡ last =
      ap (λ (y : _). node_of c.node_id y.1) x ∙ node_of-set c.node_id last hub in
    let told : accepted n ≡ accepted last.highest_runner_seq = sym e ∙ ap (λ (y : _). y.0) x in
    (
      (cc (told)),
      ap (λ (y : Node). y.highest_runner_seq) now ∙ (p ∙ a),
      ap (λ (y : Node). y.runner_boot_id) now ∙ (q ∙ b),
    )

-- The end of a connection leaves both.
pub detach_node-SameReach :
    (c : Connection) (h : Hub)
    → SameReach (node_of c.node_id h) (node_of c.node_id (detach_node c h))
unfolding detach_node
detach_node-SameReach c h = elim (Option-cases (h.nodes c.node_id)) [
  | inl e ↦ rw (e, detach_node) (refl, refl)
  | inr (n, e) ↦ elim (Bool-cases (is_bound c n)) [
    | inr free ↦ rw (e, free, detach_node) (refl, refl)
    | inl b ↦
        let now : Node = record n { conn = none; online = false } in
        let s = node_of-set c.node_id now h in
        rw (e, b, detach_node, node_of-at c.node_id n h e)
          (ap (λ (y : Node). y.highest_runner_seq) s, ap (λ (y : Node). y.runner_boot_id) s)
  ]
]
