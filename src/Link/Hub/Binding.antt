-- ===== src/Link/Hub/Binding.antt =====
-- What applying a message leaves of the node that sent it, `apply` of backend/lib/runnerhub/connection.go.
use mathlib.Core.Path.{fun_ext}
use asgard.Prelude.{
  ◌≡◌, refl, sym, ◌∙◌, ap, Bool, inl, inr, Text, text_eq, text_eq_refl, text_eq_sound, Option, none,
  some, if◌then◌else◌, arith, Bool-cases,
}
use asgard.Link.{
  RunEvent, RunOutputChunk, RunResult, Heartbeat, Payload, heartbeat, run_event, run_output,
  run_result,
}
use asgard.Link.Runs.{Run, RunError, add_chunk}
use asgard.Link.Hub.{
  Node, Connection, Hub, set_node, find_run, run_for, end_run, fail_run, deliver, result_for,
  apply_result, apply_heartbeat, apply_event, chunk_applied, apply_chunk, apply,
}

pub node-set : (id : Text) (n : Node) (h : Hub) → (set_node id n h).nodes id ≡ some n
unfolding set_node
node-set id n h = rw (text_eq_refl id)

pub set_node_same : (id : Text) (n : Node) (h : Hub) → h.nodes id ≡ some n → set_node id n h ≡ h
unfolding set_node
set_node_same id n h e = ap (λ (f : Text → Option Node). record h { nodes = f }) (fun_ext same)
  where
    same : (other : Text) → (if text_eq other id then some n else h.nodes other) ≡ h.nodes other
    same other = elim (Bool-cases (text_eq other id)) [
      | inl t ↦ rw t (sym e ∙ ap h.nodes (sym (text_eq_sound other id t)))
      | inr f ↦ rw f refl
    ]

-- A node that is there, on the connection, with the boot id and with the seq of another.
abbrev pub Bound : Connection → Node → Hub → Type 0
Bound c old h =
    (n : Node) × (h.nodes c.node_id ≡ some n)
    × (n.conn ≡ old.conn)
    × (n.runner_boot_id ≡ old.runner_boot_id)
    × (n.highest_runner_seq ≡ old.highest_runner_seq)

apply_heartbeat-Bound :
    (c : Connection) (hb : Heartbeat) (n : Node) (h : Hub)
    → Bound c n (apply_heartbeat c hb (some n) h)
unfolding apply_heartbeat set_node
apply_heartbeat-Bound c hb n h =
    let now = record n {
      quotas = hb.detail;
      max_runs = hb.max_runs;
      health_error = hb.health_error;
    } in
    elim (Bool-cases (text_eq n.health_error hb.health_error)) [
      | inl same ↦ (now, rw (same, apply_heartbeat) (node-set c.node_id now h), refl, refl, refl)
      | inr differs ↦
          (now, rw (differs, apply_heartbeat) (node-set c.node_id now h), refl, refl, refl)
    ]

apply_event-nodes :
    (ev : RunEvent) (r : Option Run) (h : Hub) → (apply_event ev r h).nodes ≡ h.nodes
unfolding apply_event
apply_event-nodes ev none h = refl
apply_event-nodes ev (some r) h = refl

chunk_applied-nodes :
    (r : Run) (x : Option RunError) (after : Run) (h : Hub)
    → (chunk_applied r (x, after) h).nodes ≡ h.nodes
unfolding chunk_applied fail_run end_run
chunk_applied-nodes r none after h = refl
chunk_applied-nodes r (some e) after h = refl

apply_chunk-nodes :
    (chunk : RunOutputChunk) (r : Option Run) (h : Hub) → (apply_chunk chunk r h).nodes ≡ h.nodes
unfolding apply_chunk
apply_chunk-nodes chunk none h = refl
apply_chunk-nodes chunk (some r) h =
    chunk_applied-nodes r (add_chunk chunk r).0 (add_chunk chunk r).1 h

result_for-nodes :
    (fails : Bool) (c : Connection) (res : RunResult) (r : Option Run) (h : Hub)
    → (result_for fails c res r h).1.nodes ≡ h.nodes
unfolding result_for deliver end_run
result_for-nodes fails c res none h = ground arith
result_for-nodes fails c res (some r) h = ground arith

-- Applying a message leaves the node on its connection, and the seq that it has reached.
pub apply-Bound :
    (fails : Bool) (c : Connection) (p : Option Payload) (n : Node) (h : Hub)
    → h.nodes c.node_id ≡ some n
    → Bound c n (apply fails c p h).1
unfolding apply apply_result
apply-Bound fails c (some (heartbeat hb)) n h e = rw (e, apply) (apply_heartbeat-Bound c hb n h)
apply-Bound fails c (some (run_event ev)) n h e = (
  n,
  ap (λ (f : Text → Option Node). f c.node_id) (apply_event-nodes ev (run_for c ev.run_id h) h) ∙ e,
  refl,
  refl,
  refl,
)
apply-Bound fails c (some (run_output chunk)) n h e = (
  n,
  ap (λ (f : Text → Option Node). f c.node_id)
        (apply_chunk-nodes chunk (run_for c chunk.run_id h) h)
      ∙ e,
  refl,
  refl,
  refl,
)
apply-Bound fails c (some (run_result res)) n h e = (
  n,
  ap (λ (f : Text → Option Node). f c.node_id)
        (result_for-nodes fails c res (find_run res.ref.run_id h.runs) h)
      ∙ e,
  refl,
  refl,
  refl,
)
apply-Bound fails c none n h e = (n, e, refl, refl, refl)
