-- ===== src/Link/Hub.antt =====
-- The backend's end of the link, backend/lib/runnerhub: its state, and what `apply` of connection.go
-- does with a message of a runner. `runs` are the handles that `Hub.runs` tracks; a handle that leaves the map is kept in
-- `ended`, since its caller still waits on it. The store of finalized runs is that of store.go; that a
-- store on a database may fail is the argument `fails`. `reports` are the calls of `OnNodeHealth`, and `clock`
-- is what `time.Now` returns.
pub mod Binding
pub mod Handling
pub mod Fresh
pub mod Results
pub mod Registry
mod Examples
use asgard.Prelude.{
  ℕ, Bool, true, false, not, ◌&&◌, List, [], ◌∷◌, ◌++◌, Text, Option, none, some, length, leb, ◌==◌,
  text_eq, if◌then◌else◌, keep_if, exists, first,
}
use asgard.Link.{
  RunEvent, RunOutputChunk, RunResult, Heartbeat, Payload, heartbeat, run_event, run_output,
  run_result, RunnerMessage,
}
use asgard.Link.Runs.{
  Run, RunError, output_size_mismatch, add_event, add_chunk, output_size, finish,
}

-- A sequenced downstream message: `StartRun` or `CancelRun`, by its run id.
pub data BackendPayload : Type 0 where
  start_run : Text → BackendPayload
  cancel_run : Text → BackendPayload

pub record BackendMessage : Type 0 where
  pub seq : ℕ
  pub payload : BackendPayload

-- `conn` is the connection that the node is bound to, and `last_seen` the time of the last message. The lists of
-- quotas and of supported CLIs are texts.
pub record Node : Type 0 where
  pub conn : Option ℕ
  pub online : Bool
  pub online_gen : ℕ
  pub runner_boot_id : Text
  pub next_seq : ℕ
  pub queue : List BackendMessage
  pub highest_runner_seq : ℕ
  pub quotas : Text
  pub max_runs : ℕ
  pub health_error : Text
  pub last_seen : ℕ
  pub version : Text
  pub protocol_version : ℕ
  pub supported_clis : Text

pub record Connection : Type 0 where
  pub id : ℕ
  pub node_id : Text
  pub ack_dirty : Bool
  pub ack_seq : ℕ

pub record Hub : Type 0 where
  pub boot_id : Text
  pub closed : Bool
  pub nodes : Text → Option Node
  pub runs : List Run
  pub ended : List Run
  pub finalized : List Text
  pub reports : List (Text × Text)
  pub clock : ℕ

-- What a runner sends; `unknown` is a message with a seq and no payload that `apply` knows.
pub data Upstream : Type 0 where
  ack : ℕ → Upstream
  register : Upstream
  sequenced : RunnerMessage → Upstream
  unknown : ℕ → Upstream

pub data UpstreamError : Type 0 where
  superseded : UpstreamError
  unsequenced : UpstreamError
  not_persisted : UpstreamError
  unexpected : UpstreamError

unfoldable pub set_node : Text → Node → Hub → Hub
set_node id n h = record h { nodes = λ other. if text_eq other id then some n else h.nodes other }

-- `n.conn == c`
unfoldable pub is_bound : Connection → Node → Bool
is_bound c n = elim n.conn [ none ↦ false | some id ↦ id == c.id ]

unfoldable pub trim_queue : ℕ → List BackendMessage → List BackendMessage
trim_queue acked [] = []
trim_queue acked (m ∷ queue) = if leb m.seq acked then trim_queue acked queue else m ∷ queue

unfoldable pub find_run : Text → List Run → Option Run
find_run id runs = first (λ r. if text_eq r.run_id id then some r else none) runs

unfoldable pub untrack : Text → List Run → List Run
untrack id runs = keep_if (λ r. not (text_eq r.run_id id)) runs

-- A write through the handle that the map holds.
unfoldable pub update_run : Run → List Run → List Run
update_run new [] = []
update_run new (r ∷ runs) =
    if text_eq r.run_id new.run_id then new ∷ runs else r ∷ update_run new runs

-- `runFor`
unfoldable pub run_for : Connection → Text → Hub → Option Run
unfolding find_run
run_for c id h = elim (find_run id h.runs) [
  | none ↦ none
  | some r ↦ if text_eq r.node_id c.node_id then some r else none
]

-- A handle leaves the map, and is finished.
unfoldable pub end_run : Option RunResult → Option RunError → Run → Hub → Hub
unfolding untrack
end_run res err r h = record h {
  runs = untrack r.run_id h.runs;
  ended = h.ended ++ finish res err r ∷ [];
}

-- `failRun`
unfoldable pub fail_run : RunError → Run → Hub → Hub
unfolding end_run
fail_run err r h = end_run none (some err) r h

-- `MarkFinalized` of store.go: whether the run was not finalized before.
unfoldable pub mark_finalized : Text → List Text → Bool × List Text
mark_finalized id finalized =
    if exists (λ f. text_eq f id) finalized
    then (false, finalized)
    else (true, finalized ++ id ∷ [])

-- The end of `applyResult`, for a run that is tracked.
unfoldable pub deliver : RunResult → Run → Hub → Hub
unfolding end_run
deliver res r h =
    if output_size r == res.output_size
    then end_run (some res) none r h
    else end_run none (some (output_size_mismatch (output_size r) res.output_size)) r h

-- `applyResult`, from the handle that is tracked for the run.
unfoldable pub result_for :
    Bool → Connection → RunResult → Option Run → Hub → Option UpstreamError × Hub
unfolding mark_finalized deliver
result_for fails c res none h =
    if fails
    then (some not_persisted, h)
    else (none, record h { finalized = (mark_finalized res.ref.run_id h.finalized).1 })
result_for fails c res (some r) h =
    if not (text_eq r.node_id c.node_id)
    then (none, h)
    else if fails
    then (some not_persisted, h)
    else (
      none,
      deliver res r (record h { finalized = (mark_finalized res.ref.run_id h.finalized).1 }),
    )

unfoldable pub apply_result : Bool → Connection → RunResult → Hub → Option UpstreamError × Hub
unfolding result_for find_run
apply_result fails c res h = result_for fails c res (find_run res.ref.run_id h.runs) h

unfoldable pub apply_heartbeat : Connection → Heartbeat → Option Node → Hub → Hub
unfolding set_node
apply_heartbeat c hb none h = h
apply_heartbeat c hb (some n) h =
    let now =
      set_node c.node_id
        (record n { quotas = hb.detail; max_runs = hb.max_runs; health_error = hb.health_error })
        h in
    if text_eq n.health_error hb.health_error
    then now
    else record now { reports = now.reports ++ (c.node_id, hb.health_error) ∷ [] }

unfoldable pub apply_event : RunEvent → Option Run → Hub → Hub
unfolding update_run
apply_event ev none h = h
apply_event ev (some r) h = record h { runs = update_run (add_event ev r) h.runs }

unfoldable pub chunk_applied : Run → Option RunError × Run → Hub → Hub
unfolding update_run fail_run
chunk_applied r (none, after) h = record h { runs = update_run after h.runs }
chunk_applied r (some err, after) h = fail_run err r h

unfoldable pub apply_chunk : RunOutputChunk → Option Run → Hub → Hub
unfolding chunk_applied
apply_chunk chunk none h = h
apply_chunk chunk (some r) h = chunk_applied r (add_chunk chunk r) h

-- `apply`; `none` is its default case.
unfoldable pub apply : Bool → Connection → Option Payload → Hub → Option UpstreamError × Hub
unfolding apply_heartbeat apply_event apply_chunk apply_result run_for
apply fails c (some (heartbeat hb)) h = (none, apply_heartbeat c hb (h.nodes c.node_id) h)
apply fails c (some (run_event ev)) h = (none, apply_event ev (run_for c ev.run_id h) h)
apply fails c (some (run_output chunk)) h = (none, apply_chunk chunk (run_for c chunk.run_id h) h)
apply fails c (some (run_result res)) h = apply_result fails c res h
apply fails c none h = (some unexpected, h)
