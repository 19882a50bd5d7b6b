-- ===== src/Scheduler/State.antt =====
-- The data of the scheduler (crates/kelvin-sdk/src/scheduler/mod.rs, SchedulerState of
-- scheduler/persistence.rs) and the checks of a new task.
use Prim.Native.String.{String}
use kelvinclaw.Prelude.{
  ℕ, Bool, true, false, Option, none, some, List, [], ltb, leb, ◌==◌, if◌then◌else◌, length, take,
  ◌||◌,
}
use kelvinclaw.Prelude.Text.{
  Text, lit, text_eq, trim, is_empty, byte_len, has_control, to_ascii_lowercase,
}
use kelvinclaw.Prelude.Error.{
  KelvinResult, ok, Message, invalid_input, literal, with_text, with_number, ◌>>=◌, ◌>>◌, refuse_if,
}
use kelvinclaw.Prelude.Json.{Json}
use kelvinclaw.Scheduler.Cron
use kelvinclaw.Scheduler.Slot.{DateTime, minute_slot, first_slot_at_or_after}

pub record ScheduleReplyTarget : Type 0 where
  pub channel : Text
  pub account_id : Text

pub record ScheduledTask : Type 0 where
  pub id : Text
  pub cron : Text
  pub prompt : Text
  pub session_id : Option Text
  pub workspace_dir : Option Text
  pub timeout_ms : Option ℕ
  pub system_prompt : Option Text
  pub memory_query : Option Text
  pub reply_target : Option ScheduleReplyTarget
  pub created_by_session : Text
  pub created_at_ms : ℕ
  pub approval_reason : Text
  pub next_slot_at_ms : ℕ

pub record NewScheduledTask : Type 0 where
  pub id : Text
  pub cron : Text
  pub prompt : Text
  pub session_id : Option Text
  pub workspace_dir : Option Text
  pub timeout_ms : Option ℕ
  pub system_prompt : Option Text
  pub memory_query : Option Text
  pub reply_target : Option ScheduleReplyTarget
  pub created_by_session : Text
  pub created_at_ms : ℕ
  pub approval_reason : Text

pub data ScheduleSlotPhase : Type 0 where
  claimed submit_failed submitted completed failed timeout : ScheduleSlotPhase

pub record ScheduleReplyDelivery : Type 0 where
  pub delivered : Bool
  pub attempted_at_ms : ℕ
  pub error : Option Text

pub record ScheduleSlotRecord : Type 0 where
  pub schedule_id : Text
  pub slot_at_ms : ℕ
  pub claimed_at_ms : ℕ
  pub phase : ScheduleSlotPhase
  pub run_id : Option Text
  pub finished_at_ms : Option ℕ
  pub error : Option Text
  pub response_preview : Option Text
  pub reply : Option ScheduleReplyDelivery

pub record ScheduleAuditEntry : Type 0 where
  pub ts_ms : ℕ
  pub kind : String
  pub schedule_id : Option Text
  pub slot_at_ms : Option ℕ
  pub run_id : Option Text
  pub actor_session_id : Option Text
  pub message : Message
  pub detail : Json

pub record ClaimedScheduleSlot : Type 0 where
  pub schedule : ScheduledTask
  pub slot_at_ms : ℕ

pub record SchedulerState : Type 0 where
  pub schedules : List ScheduledTask
  pub slots : List ScheduleSlotRecord
  pub audit : List ScheduleAuditEntry

abbrev pub default_state : SchedulerState
default_state = record { schedules = []; slots = []; audit = [] }

abbrev pub max_schedule_id_bytes : ℕ
max_schedule_id_bytes = 128

-- `trim_option`
non_empty : Text → Option Text
non_empty t = if is_empty t then none else some t

pub trim_option : Option Text → Option Text
unfolding non_empty
trim_option none = none
trim_option (some t) = non_empty (trim t)

-- `truncate`: the first `max_len` characters
pub truncate : Text → ℕ → Text
truncate value max_len = if leb (length value) max_len then value else take max_len value

pub validate_identifier : Text → Text → ℕ → KelvinResult (Unit {0})
validate_identifier label value max_len = do
  let trimmed = trim value
  refuse_if (is_empty trimmed)
      (invalid_input (with_text (literal "{label} must not be empty") label))
  refuse_if (ltb max_len (byte_len trimmed)) (
      invalid_input
        (with_number (with_text (literal "{label} exceeds {max_len} bytes") label) max_len))
  refuse_if (has_control trimmed)
      (invalid_input (with_text (literal "{label} must not contain control characters") label))
  ok tt

reply_channel : Text → Bool
reply_channel c = text_eq c (lit "telegram") || text_eq c (lit "slack") || text_eq c (lit "discord")

-- `ScheduleReplyTarget::normalize`
pub normalize : ScheduleReplyTarget → KelvinResult ScheduleReplyTarget
unfolding reply_channel
normalize target = do
  let channel = to_ascii_lowercase (trim target.channel)
  refuse_if (if reply_channel channel then false else true) (
      invalid_input (
        with_text
          (literal "reply_target.channel must be one of telegram, slack, discord (got '{}')")
          target.channel))
  let account_id = trim target.account_id
  refuse_if (is_empty account_id)
      (invalid_input (literal "reply_target.account_id must not be empty"))
  refuse_if (has_control account_id)
      (invalid_input (literal "reply_target.account_id must not contain control characters"))
  ok (record { channel = channel; account_id = account_id })

normalize_option : Option ScheduleReplyTarget → KelvinResult (Option ScheduleReplyTarget)
unfolding normalize
normalize_option none = ok none
normalize_option (some target) = normalize target >>= λ t. ok (some t)

-- `NewScheduledTask::into_task`. `now` is the clock's reading, used where `created_at_ms` is 0.
pub into_task : (ℕ → Option DateTime) → ℕ → NewScheduledTask → KelvinResult ScheduledTask
unfolding normalize_option
into_task calendar now task = do
  validate_identifier (lit "schedule id") task.id max_schedule_id_bytes
  let prompt = trim task.prompt
  refuse_if (is_empty prompt) (invalid_input (literal "schedule prompt must not be empty"))
  let approval_reason = trim task.approval_reason
  refuse_if (is_empty approval_reason)
      (invalid_input (literal "schedule approval reason must not be empty"))
  let created_by_session = trim task.created_by_session
  refuse_if (is_empty created_by_session)
      (invalid_input (literal "schedule created_by_session must not be empty"))
  cron ← Cron.parse task.cron
  let created_at_ms = if task.created_at_ms == 0 then now else task.created_at_ms
  reply_target ← normalize_option task.reply_target
  next_slot_at_ms ← first_slot_at_or_after calendar cron (minute_slot created_at_ms)
  ok (record {
    id = task.id;
    cron = cron.raw;
    prompt = prompt;
    session_id = trim_option task.session_id;
    workspace_dir = trim_option task.workspace_dir;
    timeout_ms = task.timeout_ms;
    system_prompt = trim_option task.system_prompt;
    memory_query = trim_option task.memory_query;
    reply_target = reply_target;
    created_by_session = created_by_session;
    created_at_ms = created_at_ms;
    approval_reason = approval_reason;
    next_slot_at_ms = next_slot_at_ms;
  })
