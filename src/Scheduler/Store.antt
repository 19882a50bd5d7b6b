-- ===== src/Scheduler/Store.antt =====
-- crates/kelvin-sdk/src/scheduler/store.rs: the operations of `SchedulerStore` on the state file.
-- Each is one call with no other writer in between.
pub mod Reports
pub mod Claim
pub mod Keys
pub mod Safety
pub mod Integrity
pub mod ClaimIntegrity
pub mod History
pub mod Updates
use Prim.Native.String.{String}
use kelvinclaw.Prelude.{
  ℕ, Bool, true, false, ◌&&◌, not, Option, none, some, List, [], ◌∷◌, ◌++◌, ◌==◌, leb,
  if◌then◌else◌, length, any, find, retain, take, max, min,
}
use kelvinclaw.Prelude.Text.{Text, text_eq}
use kelvinclaw.Prelude.Sort.{sort_by}
use kelvinclaw.Prelude.Json.{Json, null, bool, number, text, object, nil, field, option_text}
use kelvinclaw.Prelude.Error.{
  KelvinError, KelvinResult, ok, err, invalid_input, not_found, Message, literal, with_text,
  with_number,
}
use kelvinclaw.Prelude.Exec.{Exec, ◌>>=◌, ◌>>◌, pure, lift}
use kelvinclaw.Scheduler.Slot.{DateTime, minute_slot}
use kelvinclaw.Scheduler.State.{
  ScheduledTask, NewScheduledTask, ScheduleSlotRecord, ScheduleAuditEntry, ScheduleSlotPhase,
  ClaimedScheduleSlot, ScheduleReplyDelivery, SchedulerState, claimed, submit_failed, submitted,
  completed, failed, timeout, truncate, into_task,
}
use kelvinclaw.Scheduler.Persistence.{StateFile, Env, load_state, save_state}

abbrev pub Store : Type 0 → Type 0
Store A = Exec StateFile A

abbrev pub load : Env → Store SchedulerState
load env file = load_state env file

abbrev pub save : Env → SchedulerState → Store (Unit {0})
save env s file = save_state env s file

-- The closure of `add_schedule`.
unfoldable pub add_task : ℕ → ScheduledTask → SchedulerState → KelvinResult SchedulerState
add_task now task s =
    if any (λ item. text_eq item.id task.id) s.schedules
    then err (invalid_input (with_text (literal "schedule id already exists: {}") task.id))
    else ok (record {
      schedules = s.schedules ++ task ∷ [];
      slots = s.slots;
      audit =
          s.audit
          ++ record {
            ts_ms = now;
            kind = "schedule_added";
            schedule_id = some task.id;
            slot_at_ms = none;
            run_id = none;
            actor_session_id = some task.created_by_session;
            message = with_text (literal "schedule '{}' added") task.id;
            detail = object (
                field "cron" (text task.cron) (
                  field "next_slot_at_ms" (number task.next_slot_at_ms) (
                    field "has_reply_target"
                      (bool (elim task.reply_target [ none ↦ false | some _ ↦ true ])) nil)));
          }
            ∷ [];
    })

-- `add_schedule`: the clock is read for `created_at_ms` and for the audit entry.
unfoldable pub add_schedule : (ℕ → Option DateTime) → Env → NewScheduledTask → Store ScheduledTask
add_schedule calendar env new_task = do
  task ← lift (into_task calendar (env.clock 0) new_task)
  before ← load env
  after ← lift (add_task (env.clock 1) task before)
  save env after
  pure task

-- The closure of `remove_schedule`, with `removed`.
unfoldable pub remove_task : ℕ → Text → Text → Text → SchedulerState → SchedulerState × Bool
remove_task now id actor approval_reason s =
    let kept = retain (λ (item : ScheduledTask). not (text_eq item.id id)) s.schedules in
    if length kept == length s.schedules then (record s { schedules = kept }, false) else (
      record {
        schedules = kept;
        slots = s.slots;
        audit =
            s.audit
            ++ record {
              ts_ms = now;
              kind = "schedule_removed";
              schedule_id = some id;
              slot_at_ms = none;
              run_id = none;
              actor_session_id = some actor;
              message = with_text (literal "schedule '{}' removed") id;
              detail = object (field "approval_reason" (text approval_reason) nil);
            }
              ∷ [];
      },
      true,
    )

unfoldable pub save_removed : Env → SchedulerState × Bool → Store Bool
save_removed env (after, true) = do save env after; pure true
save_removed env (after, false) = pure false

unfoldable pub remove_schedule : Env → Text → Text → Text → Store Bool
unfolding save_removed
remove_schedule env id actor approval_reason = do
  before ← load env
  save_removed env (remove_task (env.clock 0) id actor approval_reason before)

unfoldable pub list_schedules : Env → Store (List ScheduledTask)
list_schedules env = do s ← load env; pure s.schedules

unfoldable pub is_slot : Text → ℕ → ScheduleSlotRecord → Bool
is_slot schedule_id slot_at_ms slot =
    text_eq slot.schedule_id schedule_id && (slot.slot_at_ms == slot_at_ms)

of_schedule : Option Text → List ScheduleSlotRecord → List ScheduleSlotRecord
of_schedule none slots = slots
of_schedule (some id) slots =
    retain (λ (slot : ScheduleSlotRecord). text_eq slot.schedule_id id) slots

latest_first : ScheduleSlotRecord → ScheduleSlotRecord → Bool
latest_first a b = leb b.slot_at_ms a.slot_at_ms

unfoldable pub recent_slots : Env → Option Text → ℕ → Store (List ScheduleSlotRecord)
unfolding of_schedule latest_first
recent_slots env schedule_id limit = do
  s ← load env
  pure (take (max limit 1) (sort_by latest_first (of_schedule schedule_id s.slots)))

-- `find`, then `mutate` on the slot and the audit log
unfoldable pub change_first :
    (ScheduleSlotRecord → Bool)
    → (ScheduleSlotRecord → ScheduleSlotRecord)
    → List ScheduleSlotRecord
    → List ScheduleSlotRecord
change_first p f [] = []
change_first p f (slot ∷ slots) =
    let rest = change_first p f slots in if p slot then f slot ∷ slots else slot ∷ rest

-- The closure of `update_slot`.
unfoldable pub mutate_slot :
    Text
    → ℕ
    → (ScheduleSlotRecord → ScheduleSlotRecord)
    → (ScheduleSlotRecord → ScheduleAuditEntry)
    → SchedulerState
    → KelvinResult SchedulerState
mutate_slot schedule_id slot_at_ms change entry s =
    elim (find (is_slot schedule_id slot_at_ms) s.slots) [
      | none ↦ err (
          not_found (
            with_number (with_text (literal "unknown schedule slot: {}@{}") schedule_id)
              slot_at_ms))
      | some slot ↦ ok (record {
        schedules = s.schedules;
        slots = change_first (is_slot schedule_id slot_at_ms) change s.slots;
        audit = s.audit ++ entry (change slot) ∷ [];
      })
    ]

unfoldable pub update_slot :
    Env
    → Text
    → ℕ
    → (ScheduleSlotRecord → ScheduleSlotRecord)
    → (ScheduleSlotRecord → ScheduleAuditEntry)
    → Store (Unit {0})
update_slot env schedule_id slot_at_ms change entry = do
  before ← load env
  after ← lift (mutate_slot schedule_id slot_at_ms change entry before)
  save env after
