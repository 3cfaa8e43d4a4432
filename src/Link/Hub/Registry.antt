-- ===== src/Link/Hub/Registry.antt =====
-- Registration, dispatch and cancellation in backend/lib/runnerhub: `register` of connection.go, `Dispatch`,
-- `Cancel` and `detach` of hub.go, and `enqueueLocked` of node.go. Whether a node is allowed, which the
-- certificates' revocation decides, is the parameter `is_allowed`; that the store fails is `fails`. The size
-- checks of `Dispatch`, which read the encoded message, are the argument `too_large`. Where Go ranges over the
-- map of runs, the runs are visited in the order of the list.
pub mod Starts
pub mod Known
use asgard.Prelude.{
  ℕ, suc, Bool, true, false, not, ◌&&◌, ◌||◌, List, [], ◌∷◌, ◌++◌, map, Text, Option, none, some,
  ◌==◌, text_eq, if◌then◌else◌, keep_if, exists,
}
use asgard.Link.{uint64}
use asgard.Link.Runs.{Run, new_run, run_lost, finish}
use asgard.Link.Hub.{
  BackendPayload, start_run, cancel_run, BackendMessage, Node, Connection, Hub, set_node, is_bound,
  trim_queue, find_run,
}

-- What `Register` carries and the registration reads: the run ids of its lists of runs.
pub record Register : Type 0 where
  pub node_id : Text
  pub runner_boot_id : Text
  pub last_seen_backend_boot_id : Text
  pub last_acked_backend_seq : ℕ
  pub active_runs : List Text
  pub completed_unacked_runs : List Text
  pub version : Text
  pub protocol_version : ℕ
  pub supported_clis : Text

pub data Registered : Type 0 where
  rejected : Registered
  accepted : (last_acked_runner_seq : ℕ) → Registered

-- `ProtocolVersion` of pkg/runnerpb.
abbrev pub current_protocol : ℕ
current_protocol = 1

-- `nodeLocked` for a node that is not there yet.
unfoldable pub new_node : Node
new_node = record {
  conn = none;
  online = false;
  online_gen = 0;
  runner_boot_id = [];
  next_seq = 0;
  queue = [];
  highest_runner_seq = 0;
  quotas = [];
  max_runs = 0;
  health_error = [];
  last_seen = 0;
  version = [];
  protocol_version = 0;
  supported_clis = [];
}

unfoldable pub node_of : Text → Hub → Node
node_of id h = elim (h.nodes id) [ none ↦ new_node | some n ↦ n ]

unfoldable pub enqueue : BackendPayload → Node → Node
unfolding uint64
enqueue p n =
    let seq = uint64 (suc n.next_seq) in
    record n { next_seq = seq; queue = n.queue ++ record { seq = seq; payload = p } ∷ [] }

unfoldable pub queued_start_runs : List BackendMessage → List Text
queued_start_runs [] = []
queued_start_runs (m ∷ queue) =
    let rest = queued_start_runs queue in
    elim m.payload [ start_run id ↦ id ∷ rest | cancel_run id ↦ rest ]

unfoldable pub queued_cancels : List BackendMessage → List Text
queued_cancels [] = []
queued_cancels (m ∷ queue) =
    let rest = queued_cancels queue in
    elim m.payload [ start_run id ↦ rest | cancel_run id ↦ id ∷ rest ]

unfoldable pub has : Text → List Text → Bool
has id ids = exists (λ other. text_eq other id) ids

-- What the registration makes of the node's queue and of its dedup state.
unfoldable pub resumed : Register → Text → Node → Node
unfolding trim_queue
resumed reg boot n =
    if not (text_eq n.runner_boot_id reg.runner_boot_id)
    then record n { queue = []; highest_runner_seq = 0 }
    else if text_eq reg.last_seen_backend_boot_id boot
    then record n { queue = trim_queue reg.last_acked_backend_seq n.queue }
    else n

unfoldable pub rebound : Register → Hub → Connection → Node → Node
unfolding resumed uint64
rebound reg h c n = record (resumed reg h.boot_id n) {
  runner_boot_id = reg.runner_boot_id;
  online = true;
  online_gen = uint64 (suc n.online_gen);
  conn = some c.id;
  last_seen = h.clock;
  version = reg.version;
  protocol_version = reg.protocol_version;
  supported_clis = reg.supported_clis;
}

-- The runs that are executing, await the replay of their result, or are queued for delivery.
unfoldable pub known_runs : Register → Node → List Text
unfolding queued_start_runs
known_runs reg n = reg.active_runs ++ reg.completed_unacked_runs ++ queued_start_runs n.queue

-- A tracked run of the node that nobody knows.
unfoldable pub is_lost : Text → List Text → Run → Bool
unfolding has
is_lost node known r = text_eq r.node_id node && not (has r.run_id known)

unfoldable pub drop_lost : Text → List Text → Hub → Hub
unfolding is_lost
drop_lost node known h = record h {
  runs = keep_if (λ r. not (is_lost node known r)) h.runs;
  ended = h.ended ++ map (finish none (some run_lost)) (keep_if (is_lost node known) h.runs);
}

-- The loop that cancels what the runner executes and the backend does not track.
unfoldable pub cancel_untracked : (Text → Bool) → List Text → List Text → Node → Node
unfolding has enqueue
cancel_untracked keeps cancelled [] n = n
cancel_untracked keeps cancelled (id ∷ ids) n =
    let skipped = cancel_untracked keeps cancelled ids n in
    let sent = cancel_untracked keeps (id ∷ cancelled) ids (enqueue (cancel_run id) n) in
    if keeps id || has id cancelled || text_eq id [] then skipped else sent

unfoldable pub is_kept : Bool → Hub → Text → Bool
unfolding has find_run
is_kept fails h id = elim (find_run id h.runs) [
  | none ↦ fails || has id h.finalized
  | some r ↦ true
]

module _ (is_allowed : Text → Bool) where
  -- The part of `register` behind its checks.
  unfoldable pub bind : Bool → Connection → Register → Hub → Registered × Hub
  unfolding rebound drop_lost known_runs cancel_untracked is_kept set_node node_of queued_cancels
  bind fails c reg h =
      let n = rebound reg h c (node_of c.node_id h) in
      let now = drop_lost c.node_id (known_runs reg n) h in
      let last = cancel_untracked (is_kept fails now) (queued_cancels n.queue) reg.active_runs n in
      (accepted last.highest_runner_seq, set_node c.node_id last now)

  unfoldable pub register_node : Bool → Connection → Register → Hub → Registered × Hub
  unfolding bind
  register_node fails c reg h =
      if not (text_eq reg.node_id c.node_id)
        || not (reg.protocol_version == current_protocol)
        || not (is_allowed c.node_id)
      then (rejected, h)
      else bind fails c reg h

  pub data Dispatched : Type 0 where
    dispatched : Run → Dispatched
    refused : Dispatched

  unfoldable pub dispatch_to : Option Node → Text → Text → Hub → Dispatched × Hub
  unfolding set_node find_run enqueue
  dispatch_to none node run_id h = (refused, h)
  dispatch_to (some n) node run_id h =
      if not n.online || not (is_allowed node)
      then (refused, h)
      else elim (find_run run_id h.runs) [
        | some r ↦ (refused, h)
        | none ↦
            let r = new_run run_id node in
            (
              dispatched r,
              set_node node (enqueue (start_run run_id) n) (record h { runs = h.runs ++ r ∷ [] }),
            )
      ]

  -- `Dispatch`; its errors are all `refused`.
  unfoldable pub dispatch : Bool → Bool → Text → Text → Hub → Dispatched × Hub
  unfolding dispatch_to has
  dispatch fails too_large node run_id h =
      if text_eq run_id [] || too_large || fails || has run_id h.finalized || h.closed
      then (refused, h)
      else dispatch_to (h.nodes node) node run_id h

  unfoldable pub cancel_on : Option Node → Option Run → Text → Text → Hub → Bool × Hub
  unfolding set_node enqueue
  cancel_on (some n) (some r) node run_id h =
      if not (text_eq r.node_id node) || not (is_allowed node)
      then (false, h)
      else (true, set_node node (enqueue (cancel_run run_id) n) h)
  cancel_on _ _ node run_id h = (false, h)

  -- `Cancel`: whether the run is known.
  unfoldable pub cancel : Text → Text → Hub → Bool × Hub
  unfolding cancel_on find_run
  cancel node run_id h = cancel_on (h.nodes node) (find_run run_id h.runs) node run_id h

-- `detach`
unfoldable pub detach_node : Connection → Hub → Hub
unfolding set_node is_bound
detach_node c h = elim (h.nodes c.node_id) [
  | none ↦ h
  | some n ↦
      if is_bound c n then set_node c.node_id (record n { conn = none; online = false }) h else h
]
