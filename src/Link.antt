-- ===== src/Link.antt =====
-- The control link between a runner and the backend: runner/lib/conn/client.go, runner/lib/runs/table.go and
-- backend/lib/runnerhub. The messages are those of pkg/runnerpb/runner.proto; of a message only the fields
-- that the link reads have a field here, the others are its `detail`.
pub mod Runs
pub mod Client
pub mod Hub
pub mod Channel
use asgard.Prelude.{ℕ, ◌%◌, Text}

pub record RunEvent : Type 0 where
  pub run_id : Text
  pub event_index : ℕ
  pub detail : Text

pub record RunOutputChunk : Type 0 where
  pub run_id : Text
  pub offset : ℕ
  pub payload : Text

pub record RunRef : Type 0 where
  pub run_id : Text
  pub chat_id : Text
  pub attempt : ℕ
  pub workflow_node_id : Text
  pub run_token : Text

pub record RunResult : Type 0 where
  pub ref : RunRef
  pub output_size : ℕ
  pub detail : Text

pub record Heartbeat : Type 0 where
  pub active_runs : ℕ
  pub max_runs : ℕ
  pub health_error : Text
  pub detail : Text

-- A sequenced upstream message, by its payload.
pub data Payload : Type 0 where
  heartbeat : Heartbeat → Payload
  run_event : RunEvent → Payload
  run_output : RunOutputChunk → Payload
  run_result : RunResult → Payload

pub record RunnerMessage : Type 0 where
  pub seq : ℕ
  pub payload : Payload

-- `x % 2^64`
unfoldable pub uint64 : ℕ → ℕ
uint64 n = n % 18446744073709551616

abbrev pub max_uint64 : ℕ
max_uint64 = 18446744073709551615
