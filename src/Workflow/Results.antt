-- ===== src/Workflow/Results.antt =====
-- The results of nodes, pkg/workflowspec/types.go. Of `NodeResult` there are the fields that conditions and the
-- scheduling read; an `error` is its text.
use asgard.Prelude.{ℕ, ℤ, pos, Text, bytes, List, [], Option, none}

-- `unset` is the empty string, which a runner may leave.
pub data NodeStatus : Type 0 where
  unset : NodeStatus
  pending : NodeStatus
  running : NodeStatus
  succeeded : NodeStatus
  skipped : NodeStatus
  failed : NodeStatus

pub data SkipReason : Type 0 where
  no_reason : SkipReason
  condition_false : SkipReason
  cascaded_failure : SkipReason
  never_activated : SkipReason

pub record NodeResult : Type 0 where
  pub status : NodeStatus
  pub skip_reason : SkipReason
  pub exit_code : ℤ
  pub output : Text
  pub error : Option Text
  pub loop_iterations : Option (List (Text × ℕ))

unfoldable pub status_text : NodeStatus → Text
status_text unset = []
status_text pending = bytes "PENDING"
status_text running = bytes "RUNNING"
status_text succeeded = bytes "SUCCEEDED"
status_text skipped = bytes "SKIPPED"
status_text failed = bytes "FAILED"

unfoldable pub reason_text : SkipReason → Text
reason_text no_reason = []
reason_text condition_false = bytes "CONDITION_FALSE"
reason_text cascaded_failure = bytes "CASCADED_FAILURE"
reason_text never_activated = bytes "NEVER_ACTIVATED"

-- `&NodeResult{Status: status, SkipReason: reason, Error: err}`
abbrev pub settled : NodeStatus → SkipReason → Option Text → NodeResult
settled status reason err = record {
  status = status;
  skip_reason = reason;
  exit_code = pos 0;
  output = [];
  error = err;
  loop_iterations = none;
}
