-- ===== src/Link/Hub/Registry/Known.antt =====
-- What becomes of the runs of a runner that registers again, `register` of
-- backend/lib/runnerhub/connection.go.
use asgard.Prelude.Memᴰ
use asgard.Prelude.{
  ◌↔◌, ℕ, ◌≡◌, refl, ◌⊎◌, inl, inr, Bool, true, false, not, &&_split, List, Memᴰ, Text, text_eq,
  text_eq_sound, text_eq_complete, none, some, mem-keep_if, keep_if-mem, Bool-cases, arith,
}
use asgard.Link.Runs.{Run, run_lost, finish}
use asgard.Link.Hub.{Connection, Hub, set_node}
use asgard.Link.Hub.Registry.{
  queued_cancels, cancel_untracked, is_kept, Register, accepted, node_of, rebound, known_runs, has,
  is_lost, drop_lost, bind, register_node,
}
use asgard.Link.Hub.Registry.Starts.{
  IsKnown, cancelled-keeps, cancelled-starts, known_runs_sound, known_runs_complete, node_of-set,
}

-- The runs that the registration knows of.
abbrev reported_runs : Register → Connection → Hub → List Text
reported_runs reg c h = known_runs reg (rebound reg h c (node_of c.node_id h))

bind-runs :
    (is_allowed : Text → Bool) (fails : Bool) (c : Connection) (reg : Register) (h : Hub)
    → ((bind is_allowed fails c reg h).1.runs
        ≡ (drop_lost c.node_id (reported_runs reg c h) h).runs)
      × ((bind is_allowed fails c reg h).1.ended
          ≡ (drop_lost c.node_id (reported_runs reg c h) h).ended)
unfolding bind set_node
bind-runs is_allowed fails c reg h = (refl, refl)

pub register_node-accepted :
    (is_allowed : Text → Bool) (fails : Bool) (c : Connection) (reg : Register) (h : Hub) (n : _)
    → (register_node is_allowed fails c reg h).0 ≡ accepted n
    → register_node is_allowed fails c reg h ≡ bind is_allowed fails c reg h
unfolding register_node
register_node-accepted is_allowed fails c reg h n e = ground arith

kept-known :
    (node : Text) (known : List Text) (h : Hub) (r : Run)
    → Memᴰ r (drop_lost node known h).runs
    → Memᴰ r h.runs × (r.node_id ≡ node → has r.run_id known ≡ true)
unfolding drop_lost is_lost
kept-known node known h r i =
    let (j, e) = mem-keep_if (λ x. not (is_lost node known x)) h.runs i in
    (j, (λ own. let t = text_eq_complete r.node_id node own in ground arith))

lost-or-kept :
    (node : Text) (known : List Text) (h : Hub) (r : Run)
    → Memᴰ r h.runs
    → Memᴰ r (drop_lost node known h).runs
      ⊎ ((r.node_id ≡ node)
          × (has r.run_id known ≡ false)
          × Memᴰ (finish none (some run_lost) r) (drop_lost node known h).ended)
unfolding drop_lost is_lost
lost-or-kept node known h r i = elim (Bool-cases (is_lost node known r)) [
  | inr stays ↦ inl (keep_if-mem (λ x. not (is_lost node known x)) h.runs i (rw stays refl))
  | inl lost ↦
      let (a, b) = &&_split (text_eq r.node_id node) (not (has r.run_id known)) lost in
      inr (
        text_eq_sound r.node_id node a,
        ground arith,
        Memᴰ.append_right h.ended (
            Memᴰ.map (finish none (some run_lost))
              (keep_if-mem (is_lost node known) h.runs i lost)),
      )
]

-- The node that a registration leaves has the starts of the node that was bound again.
bind-IsKnown :
    (is_allowed : Text → Bool) (fails : Bool) (c : Connection) (reg : Register) (h : Hub)
    (id : Text)
    → IsKnown reg (node_of c.node_id (bind is_allowed fails c reg h).1) id
      ↔ IsKnown reg (rebound reg h c (node_of c.node_id h)) id
unfolding bind
bind-IsKnown is_allowed fails c reg h id =
    let n = rebound reg h c (node_of c.node_id h) in
    let hub = drop_lost c.node_id (known_runs reg n) h in
    let keeps = is_kept fails hub in
    let last = cancel_untracked keeps (queued_cancels n.queue) reg.active_runs n in
    let e : node_of c.node_id (set_node c.node_id last hub) ≡ last =
      node_of-set c.node_id last hub in
    rw e (
      λ x. elim x [
        | inl a ↦ inl a
        | inr (inl a) ↦ inr (inl a)
        | inr (inr (m, i, p)) ↦
            inr (
              inr
                (m, cancelled-starts keeps (queued_cancels n.queue) reg.active_runs n m id i p, p))
      ],
      λ x. elim x [
        | inl a ↦ inl a
        | inr (inl a) ↦ inr (inl a)
        | inr (inr (m, i, p)) ↦
            inr (inr (m, cancelled-keeps keeps (queued_cancels n.queue) reg.active_runs n m i, p))
      ],
    )

-- When a registration is accepted, every run of that node that is still tracked is one that the runner
-- executes, whose result it still holds, or whose start is in the queue that the node has then; and every run
-- that was tracked is tracked still, or it was a run of that node that is none of these, and its handle has
-- ended as lost.
pub register_node-runs :
    (is_allowed : Text → Bool) (fails : Bool) (c : Connection) (reg : Register) (h : Hub) (n : ℕ)
    → (register_node is_allowed fails c reg h).0 ≡ accepted n
    → let after = (register_node is_allowed fails c reg h).1 in
      ((r : Run)
        → Memᴰ r after.runs
        → r.node_id ≡ c.node_id
        → IsKnown reg (node_of c.node_id after) r.run_id)
      × ((r : Run)
          → Memᴰ r h.runs
          → Memᴰ r after.runs
            ⊎ ((r.node_id ≡ c.node_id)
                × (¬ IsKnown reg (node_of c.node_id after) r.run_id)
                × Memᴰ (finish none (some run_lost) r) after.ended))
register_node-runs is_allowed fails c reg h n e =
    let known = reported_runs reg c h in
    let old = rebound reg h c (node_of c.node_id h) in
    rw (register_node-accepted is_allowed fails c reg h n e) (
      rw ((bind-runs is_allowed fails c reg h).0, (bind-runs is_allowed fails c reg h).1)
        (
          λ r i own.
              (bind-IsKnown is_allowed fails c reg h r.run_id).1
                (known_runs_sound reg old r.run_id ((kept-known c.node_id known h r i).1 own)),
          λ r i. elim (lost-or-kept c.node_id known h r i) [
            | inl stays ↦ inl stays
            | inr (own, unknown, done) ↦ inr (
              own,
              (λ x.
                  let y =
                    known_runs_complete reg old r.run_id
                      ((bind-IsKnown is_allowed fails c reg h r.run_id).0 x) in
                  cc),
              done,
            )
          ],
        ))
