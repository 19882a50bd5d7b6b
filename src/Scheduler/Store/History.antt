-- ===== src/Scheduler/Store/History.antt =====
-- The state file under any sequence of the store's operations, failing ones included.
use kelvinclaw.Prelude.{ℕ, Bool, Option, List, [], ◌∷◌, refl}
use kelvinclaw.Prelude.Text.{Text}
use kelvinclaw.Scheduler.Slot.{DateTime}
use kelvinclaw.Scheduler.State.{NewScheduledTask, ScheduleSlotPhase}
use kelvinclaw.Scheduler.Persistence.{StateFile, Env}
use kelvinclaw.Scheduler.Store.{add_schedule, remove_schedule}
use kelvinclaw.Scheduler.Store.Claim.{claim_due_slots}
use kelvinclaw.Scheduler.Store.Updates.{
  mark_slot_submitted, mark_slot_submit_failed, mark_slot_outcome, mark_reply_result,
}
use kelvinclaw.Scheduler.Store.Keys.{FileHasKeys}
use kelvinclaw.Scheduler.Store.Integrity.{add_schedule-keys, remove_schedule-keys, update_slot-keys}
use kelvinclaw.Scheduler.Store.ClaimIntegrity.{claim_due_slots-keys}

-- A call of `SchedulerStore`, with its arguments.
pub data Call : Type 0 where
  add : NewScheduledTask → Call
  remove : Text → Text → Text → Call
  claim : ℕ → ℕ → Call
  submitted : Text → ℕ → Text → Call
  submit_failed : Text → ℕ → Text → Call
  outcome : Text → ℕ → ScheduleSlotPhase → Text → Option Text → Option Text → Call
  reply : Text → ℕ → Bool → Option Text → Call

module _ (calendar : ℕ → Option DateTime) where
  -- The file after a call.
  pub call : Env → Call → StateFile → StateFile
  call env (add task) file = (add_schedule calendar env task file).1
  call env (remove id actor reason) file = (remove_schedule env id actor reason file).1
  call env (claim now_ms max_per_schedule) file =
      (claim_due_slots calendar now_ms env max_per_schedule file).1
  call env (submitted id at run_id) file = (mark_slot_submitted env id at run_id file).1
  call env (submit_failed id at error) file = (mark_slot_submit_failed env id at error file).1
  call env (outcome id at phase run_id preview error) file =
      (mark_slot_outcome env id at phase run_id preview error file).1
  call env (reply id at delivered error) file = (mark_reply_result env id at delivered error file).1

  pub calls : List (Env × Call) → StateFile → StateFile
  calls [] file = file
  calls ((env, c) ∷ cs) file = calls cs (call env c file)

  call-FileHasKeys :
      (env : Env) (c : Call) (file : StateFile) → FileHasKeys file → FileHasKeys (call env c file)
  unfolding call mark_slot_submitted mark_slot_submit_failed mark_slot_outcome mark_reply_result
  call-FileHasKeys env (add task) file h = (add_schedule-keys calendar env task).at file h
  call-FileHasKeys env (remove id actor reason) file h =
      (remove_schedule-keys env id actor reason).at file h
  call-FileHasKeys env (claim now_ms n) file h =
      (claim_due_slots-keys calendar now_ms env n).at file h
  call-FileHasKeys env (submitted id at run_id) file h =
      (update_slot-keys env id at _ _ (record { id = λ s. refl; at = λ s. refl })).at file h
  call-FileHasKeys env (submit_failed id at error) file h =
      (update_slot-keys env id at _ _ (record { id = λ s. refl; at = λ s. refl })).at file h
  call-FileHasKeys env (outcome id at phase run_id preview error) file h =
      (update_slot-keys env id at _ _ (record { id = λ s. refl; at = λ s. refl })).at file h
  call-FileHasKeys env (reply id at delivered error) file h =
      (update_slot-keys env id at _ _ (record { id = λ s. refl; at = λ s. refl })).at file h

  -- Whatever sequence of calls the store has served, from a state file with distinct keys, and
  -- whether the calls succeeded or not, no two schedules in the file share an id and no two slot
  -- records stand for the same slot of the same schedule.
  pub calls-FileHasKeys :
      (cs : List (Env × Call)) (file : StateFile) → FileHasKeys file → FileHasKeys (calls cs file)
  unfolding calls
  calls-FileHasKeys [] file h = h
  calls-FileHasKeys ((env, c) ∷ cs) file h =
      calls-FileHasKeys cs (call env c file) (call-FileHasKeys env c file h)
