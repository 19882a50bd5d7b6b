-- ===== src/Runtime/Types.antt =====
-- The data of crates/kelvin-core/src/runtime.rs and of crates/kelvin-core/src/brain.rs. A time of
-- the clock and a duration are numbers.
use kelvinclaw.Prelude.{ℕ, Bool, Option, List}
use kelvinclaw.Prelude.Text.{Text}
use kelvinclaw.Prelude.Error.{Message}

pub record AgentRunRequest : Type 0 where
  pub run_id : Text
  pub session_id : Text
  pub session_key : Text
  pub workspace_dir : Text
  pub prompt : Text
  pub extra_system_prompt : Option Text
  pub timeout_ms : Option ℕ
  pub memory_query : Option Text
  pub max_tool_iterations : Option ℕ

pub record AgentPayload : Type 0 where
  pub text : Message
  pub is_error : Bool

pub record AgentRunMeta : Type 0 where
  pub duration_ms : ℕ
  pub provider : Text
  pub model : Text
  pub stop_reason : Option Text
  pub error : Option Text
  pub tool_iterations : ℕ

pub record AgentRunResult : Type 0 where
  pub payloads : List AgentPayload
  pub meta : AgentRunMeta

pub data WaitStatus : Type 0 where
  ended_ok : WaitStatus
  ended_error : WaitStatus
  timed_out : WaitStatus

pub record AgentWaitResult : Type 0 where
  pub status : WaitStatus
  pub started_at_ms : ℕ
  pub ended_at_ms : Option ℕ
  pub error : Option Message

pub data RunPhase : Type 0 where
  phase_accepted : RunPhase
  phase_running : RunPhase
  phase_completed : RunPhase
  phase_failed : RunPhase

pub record RunState : Type 0 where
  pub run_id : Text
  pub phase : RunPhase
  pub started_at_ms : ℕ
  pub ended_at_ms : Option ℕ
  pub error : Option Message

pub record RunAccepted : Type 0 where
  pub run_id : Text
  pub accepted_at_ms : ℕ

pub data RunOutcome : Type 0 where
  outcome_completed : AgentRunResult → RunOutcome
  outcome_failed : Message → RunOutcome
  outcome_timeout : RunOutcome

pub data RunStatus : Type 0 where
  accepted : RunStatus
  running : RunStatus
  completed : AgentRunResult → RunStatus
  failed : Message → RunStatus

-- Without `notify`: who is woken when is for the steps to choose.
pub record RunRecord : Type 0 where
  pub run_id : Text
  pub started_at_ms : ℕ
  pub ended_at_ms : Option ℕ
  pub status : RunStatus

pub data StoredRunResult : Type 0 where
  stored_completed : AgentRunResult → StoredRunResult
  stored_failed : Message → StoredRunResult
