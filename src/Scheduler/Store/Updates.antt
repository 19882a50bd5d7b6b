-- ===== src/Scheduler/Store/Updates.antt =====
-- The changes of a slot after it was claimed (`mark_slot_submitted`, `mark_slot_submit_failed`,
-- `mark_slot_outcome` and `mark_reply_result` of crates/kelvin-sdk/src/scheduler/store.rs).
use Prim.Native.String.{String}
use mathlib.Core.Option
use kelvinclaw.Prelude.{ℕ, Bool, Option, none, some, if◌then◌else◌}
use kelvinclaw.Prelude.Text.{Text}
use kelvinclaw.Prelude.Json.{object, nil, field, text, option_text}
use kelvinclaw.Prelude.Error.{Message, literal, with_text}
use kelvinclaw.Scheduler.State.{
  ScheduleSlotPhase, claimed, submit_failed, submitted, completed, failed, timeout, truncate,
}
use kelvinclaw.Scheduler.Persistence.{Env}
use kelvinclaw.Scheduler.Store.{Store, update_slot}

abbrev pub slot_error_truncate : ℕ
slot_error_truncate = 512

abbrev pub slot_preview_truncate : ℕ
slot_preview_truncate = 512

unfoldable pub mark_slot_submitted : Env → Text → ℕ → Text → Store (Unit {0})
mark_slot_submitted env schedule_id slot_at_ms run_id =
    update_slot env schedule_id slot_at_ms
      (λ slot. record slot { phase = submitted; run_id = some run_id })
      (λ slot. record {
        ts_ms = env.clock 0;
        kind = "slot_submitted";
        schedule_id = some schedule_id;
        slot_at_ms = some slot_at_ms;
        run_id = some run_id;
        actor_session_id = none;
        message =
            with_text (with_text (literal "submitted run '{}' for schedule '{}'") run_id)
              schedule_id;
        detail = object nil;
      })

unfoldable pub mark_slot_submit_failed : Env → Text → ℕ → Text → Store (Unit {0})
mark_slot_submit_failed env schedule_id slot_at_ms error =
    update_slot env schedule_id slot_at_ms
      (λ slot. record slot {
        phase = submit_failed;
        finished_at_ms = some (env.clock 0);
        error = some (truncate error slot_error_truncate);
      })
      (λ slot. record {
        ts_ms = env.clock 1;
        kind = "slot_submit_failed";
        schedule_id = some schedule_id;
        slot_at_ms = some slot_at_ms;
        run_id = none;
        actor_session_id = none;
        message = with_text (literal "schedule '{}' submit failed") schedule_id;
        detail = object (field "error" (text (truncate error slot_error_truncate)) nil);
      })

-- `format!("slot_{:?}", phase).to_ascii_lowercase()`
pub outcome_kind : ScheduleSlotPhase → String
outcome_kind claimed = "slot_claimed"
outcome_kind submit_failed = "slot_submitfailed"
outcome_kind submitted = "slot_submitted"
outcome_kind completed = "slot_completed"
outcome_kind failed = "slot_failed"
outcome_kind timeout = "slot_timeout"

-- `{:?}` of a phase, in the message of the audit entry
pub finished_with : ScheduleSlotPhase → Message
finished_with claimed = literal "schedule '{}' finished with Claimed"
finished_with submit_failed = literal "schedule '{}' finished with SubmitFailed"
finished_with submitted = literal "schedule '{}' finished with Submitted"
finished_with completed = literal "schedule '{}' finished with Completed"
finished_with failed = literal "schedule '{}' finished with Failed"
finished_with timeout = literal "schedule '{}' finished with Timeout"

unfoldable pub mark_slot_outcome :
    Env → Text → ℕ → ScheduleSlotPhase → Text → Option Text → Option Text → Store (Unit {0})
unfolding outcome_kind finished_with
mark_slot_outcome env schedule_id slot_at_ms phase run_id response_preview error =
    update_slot env schedule_id slot_at_ms
      (λ slot. record slot {
        phase = phase;
        run_id = some run_id;
        finished_at_ms = some (env.clock 0);
        response_preview = Option.map (λ t. truncate t slot_preview_truncate) response_preview;
        error = Option.map (λ t. truncate t slot_error_truncate) error;
      })
      (λ slot. record {
        ts_ms = env.clock 1;
        kind = outcome_kind phase;
        schedule_id = some schedule_id;
        slot_at_ms = some slot_at_ms;
        run_id = some run_id;
        actor_session_id = none;
        message = with_text (finished_with phase) schedule_id;
        detail = object (
            field "response_preview" (option_text slot.response_preview)
              (field "error" (option_text slot.error) nil));
      })

unfoldable pub mark_reply_result : Env → Text → ℕ → Bool → Option Text → Store (Unit {0})
mark_reply_result env schedule_id slot_at_ms delivered error =
    let shown = Option.map (λ t. truncate t slot_error_truncate) error in
    update_slot env schedule_id slot_at_ms
      (λ slot. record slot {
        reply =
            some (record { delivered = delivered; attempted_at_ms = env.clock 0; error = shown });
      })
      (λ slot. record {
        ts_ms = env.clock 1;
        kind = if delivered then "reply_delivered" else "reply_failed";
        schedule_id = some schedule_id;
        slot_at_ms = some slot_at_ms;
        run_id = slot.run_id;
        actor_session_id = none;
        message =
            with_text
              (literal (
                if delivered
                then "delivered reply for schedule '{}'"
                else "reply delivery failed for schedule '{}'"))
              schedule_id;
        detail = object (field "error" (option_text shown) nil);
      })
