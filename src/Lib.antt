-- ===== src/Lib.antt =====
-- Asgard runs LLM agents on runners that a backend directs. These modules model the parts of it that keep
-- state which concurrent calls share, and the validation and the scheduling of workflows, and
-- prove what the callers rely on.
--
-- * `DirLock` is backend/lib/dirlock/dirlock.go, the manager of directory locks between chats. `State` has its
--   records (`Manager`, `lockHolder`, `waiter`, `AcquireRequest`); `Conflicts` has `findConflictLocked`, `Sweep` has
--   `processWaitersLocked`, `Acquire` has `Acquire` up to its `select` and `Waits` the cases of the `select` and
--   `ForceReleaseChat`, `Release` has `makeReleaseFunc` and `UnlockIdle`, `Status` has the reads,
--   `UpdateChatTitle` and `notify`, and `Exemptions` has `IsExemptDir` and `ComputeLockedDirs`. Each section
--   under the manager's mutex is one function on the state, and `Steps` lets them follow each other in any
--   order. `Exclusion` and `Progress` are the invariants, `Contracts` and `Notices` the promises of single calls.
-- * `Paths` is what that file uses of Go's path/filepath, with its test `PathsOverlap`.
-- * `Link` is the control link between a runner and the backend: `Client` is the runner's upstream queue in
--   runner/lib/conn/client.go with the table of runner/lib/runs/table.go, `Client.Downstream` its `readLoop`,
--   `Runs` is the handle of a run in backend/lib/runnerhub/run.go, and `Hub` has the state of
--   backend/lib/runnerhub with `apply` of its connection.go; `Hub.Handling` has `handleUpstream`, and
--   `Hub.Registry` has `register` with `Dispatch`, `Cancel` and `detach` of backend/lib/runnerhub/hub.go. `Channel` puts the client and the hub
--   together: one runner's upstream messages, over connections that end at either side at any time. The sections
--   of `handleUpstream` follow each other there without a registration in between; what the handler of a
--   superseded connection still does, after the mutex was free, is a step of its own, `go_on_late`.
-- * `Workflow` is pkg/workflowspec/definition.go with types.go and expr.go: `Workflow.Cycles` is its
--   `detectCycle`, up to the path that it reports, `Workflow.Loops` its `validateLoops`, and `Workflow.Expr` its
--   `Interpolate`, `ParseExprTarget` and `EvaluateSimpleExpr`.
-- * `Engine` is the scheduler of workflow runs, `Execute` of backend/lib/workflow/engine.go: `Readiness` is
--   `EvaluateNodeReadiness`, `Downstream` has the closures from `enqueue` to `evaluateDownstream`, `Steps` the
--   start, the scheduling loop and the goroutines of the nodes, and `Settling` the sweep and the status.
--   `Breaches` has a workflow whose loop lacks a fallback.
-- * `Peers` is the call-peer chains of backend/lib/api/peer_nesting.go, and `AgentQueue` is the message queue
--   of simplest/internal/agent/queue.go.
-- * `Prelude` has what they share: texts as lists of bytes, signed counters, loops over lists.
--
-- The parts meet where the code makes them meet: the lock manager decides by `Paths.paths_overlap`, the
-- messages that the client queues are those that the handle of a run applies, and `Link.Channel` runs the
-- client's `writeLoop`, `readLoop` and `attach` against the hub's `register`, `handleUpstream` and `detach`. The
-- engine runs definitions that `Workflow.Loops.validate_loops` accepts, by the conditions of `Workflow.Expr`.
--
-- Maps are association lists with one entry per key, or functions. The order in which Go ranges over the map
-- of holders is a parameter `walk`, any function that visits exactly the entries. A `sync.Once` is the list of
-- the release functions that have run, and a channel that is only closed is the list of closed tickets. Fuel
-- stands in a few places: the walks up the parents of a workflow's loop and down to their children have one
-- step more than there are loops; the loop over the queue of `detectCycle` has one step for each node; the
-- recursions of `evaluateDownstream` and of the sweep have one call more than there are nodes, each of which
-- they skip or mark at most once; texts are read with a step for each byte, and decimals have at most 20
-- digits. Every other loop runs over a list. Counters of runs are signed integers without a bound, since a Go
-- `int` counts the runs of one chat; the 64-bit sequence numbers and offsets of the link keep their wrap-around.
-- The recursion of `evaluateDownstream` is bounded in this way only where every loop with a limit has a
-- fallback; elsewhere the model's `stalled` says that the fuel was out.
--
-- Not modelled: of a workflow run its events, its store, its waits for people and what its nodes do; the network,
-- TLS, yamux and gRPC under the link, protobuf's encoding (its size and whether it succeeds are parameters),
-- timers, the database, the HTTP handlers, and the command lines of the agents.
pub mod AgentQueue
pub mod DirLock
pub mod Engine
pub mod Link
pub mod Paths
pub mod Peers
pub mod Prelude
pub mod Workflow
