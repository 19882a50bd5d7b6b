-- ===== src/Scheduler/Store/Integrity.antt =====
-- Every operation of the store keeps the keys of the state file distinct.
use kelvinclaw.Prelude.{
  ℕ, Bool, true, false, not, ◌≡◌, List, Option, any, if◌then◌else◌, Bool-cases, inl, inr, ◌∙◌,
  length, ◌==◌, retain, find, Option-cases,
}
use kelvinclaw.Prelude.Text.{Text, text_eq}
use kelvinclaw.Prelude.Error.{KelvinResult, ok, err, Returned}
use kelvinclaw.Prelude.Exec.{◌>>=◌, ◌>>◌, pure, lift, and_then}
use kelvinclaw.Prelude.Distinct.{IsDistinct, IsDistinct-append_one, IsDistinct-retain}
use kelvinclaw.Scheduler.Slot.{DateTime}
use kelvinclaw.Scheduler.State.{
  ScheduledTask, NewScheduledTask, ScheduleSlotRecord, ScheduleAuditEntry, SchedulerState,
  into_task,
}
use kelvinclaw.Scheduler.Persistence.{
  StateFile, absent, corrupt, stored, Env, load_state, save_state,
}
use kelvinclaw.Scheduler.Store.{
  Store, load, save, add_task, add_schedule, remove_task, save_removed, remove_schedule, is_slot,
  mutate_slot, update_slot,
}
use kelvinclaw.Scheduler.Store.Keys.{
  same_id, same_id_comm, same_slot, same_slot_comm, HasKeys, FileHasKeys, prepare-HasKeys,
  IsDistinct-change_first,
}

-- An operation keeps the keys distinct, whether it returns or fails.
pub record KeepsKeys {A : Type 0} (m : Store A) : Type 0 where
  pub at : (file : StateFile) → FileHasKeys file → FileHasKeys (m file).1

and_then-keys :
    {A B : Type 0} (P : A → Type 0) (r : KelvinResult A × StateFile) (f : A → Store B)
    → Returned P r.0
    → FileHasKeys r.1
    → ((a : A) → P a → KeepsKeys (f a))
    → FileHasKeys (and_then r f).1
and_then-keys P (ok a, file) f p h k = (k a p).at file h
and_then-keys P (err e, file) f p h k = h

any_value : {A : Type 0} (r : KelvinResult A) → Returned (λ _. Unit {0}) r
any_value (ok a) = tt
any_value (err e) = tt

load_state-keys :
    (env : Env) (file : StateFile)
    → FileHasKeys file
    → Returned HasKeys (load_state env file).0 × FileHasKeys (load_state env file).1
unfolding load_state
load_state-keys env absent h = (record { ids = tt; slots = tt }, tt)
load_state-keys env corrupt h = elim (Option-cases env.read_error) [
  | inl e ↦ rw e (record { ids = tt; slots = tt }, quarantined env.quarantine_fails)
  | inr (x, e) ↦ rw e (tt, tt)
]
  where
    quarantined : (b : Bool) → FileHasKeys (if b then corrupt else absent)
    quarantined true = tt
    quarantined false = tt
load_state-keys env (stored s) h = elim (Option-cases env.read_error) [
  | inl e ↦ rw e (h, h)
  | inr (x, e) ↦ rw e (tt, h)
]

pub load-keys :
    {A : Type 0} (env : Env) (f : SchedulerState → Store A)
    → ((s : SchedulerState) → HasKeys s → KeepsKeys (f s))
    → KeepsKeys (load env >>= f)
load-keys env f k = record {
  at = λ file h.
      let loaded = load_state-keys env file h in
      and_then-keys HasKeys (load_state env file) f loaded.0 loaded.1 k;
}

pub lift-keys :
    {A B : Type 0} (P : A → Type 0) (r : KelvinResult A) (f : A → Store B)
    → Returned P r
    → ((a : A) → P a → KeepsKeys (f a))
    → KeepsKeys (lift r >>= f)
lift-keys P r f p k = record { at = λ file h. and_then-keys P (r, file) f p h k }

pub pure-keys : {A : Type 0} (a : A) → KeepsKeys (pure a)
pure-keys a = record { at = λ file h. h }

save-keys : (env : Env) (s : SchedulerState) → HasKeys s → KeepsKeys (save env s)
unfolding save_state
save-keys env s k = record {
  at = λ file h. elim (Option-cases env.write_error) [
    | inl e ↦ rw e (prepare-HasKeys s k)
    | inr (x, e) ↦ rw e h
  ];
}

pub save-pure-keys :
    {A : Type 0} (env : Env) (s : SchedulerState) (a : A)
    → HasKeys s
    → KeepsKeys (save env s >> pure a)
save-pure-keys env s a k = record {
  at = λ file h.
      and_then-keys (λ _. Unit {0}) (save_state env s file) (λ _. pure a) (any_value _)
        ((save-keys env s k).at file h) (λ _ _. pure-keys a);
}

add_task-keys :
    (now : ℕ) (task : ScheduledTask) (s : SchedulerState)
    → HasKeys s
    → Returned HasKeys (add_task now task s)
unfolding add_task
add_task-keys now task s h = elim (Bool-cases (any (same_id task) s.schedules)) [
  | inl e ↦ rw e tt
  | inr e ↦ rw e (record {
    ids = IsDistinct-append_one same_id same_id_comm s.schedules task h.ids e;
    slots = h.slots;
  })
]

-- `add_schedule` keeps the ids of the schedules and the slots of the records distinct.
pub add_schedule-keys :
    (calendar : ℕ → Option DateTime) (env : Env) (task : NewScheduledTask)
    → KeepsKeys (add_schedule calendar env task)
unfolding add_schedule
add_schedule-keys calendar env task =
    lift-keys (λ _. Unit {0}) (into_task calendar (env.clock 0) task) _ (any_value _)
      λ t _. load-keys env _ λ before h.
        lift-keys HasKeys (add_task (env.clock 1) t before) _
          (add_task-keys (env.clock 1) t before h) λ after k. save-pure-keys env after t k

remove_task-keys :
    (now : ℕ) (id actor reason : Text) (s : SchedulerState)
    → HasKeys s
    → HasKeys (remove_task now id actor reason s).0
unfolding remove_task
remove_task-keys now id actor reason s h = elim (Bool-cases (length kept == length s.schedules)) [
  | inl e ↦ rw e (record { ids = distinct; slots = h.slots })
  | inr e ↦ rw e (record { ids = distinct; slots = h.slots })
]
  where
    kept : List ScheduledTask
    kept = retain (λ (item : ScheduledTask). not (text_eq item.id id)) s.schedules

    distinct : IsDistinct same_id kept
    distinct =
        IsDistinct-retain same_id (λ (item : ScheduledTask). not (text_eq item.id id)) s.schedules
          h.ids

save_removed-keys :
    (env : Env) (r : SchedulerState × Bool) → HasKeys r.0 → KeepsKeys (save_removed env r)
unfolding save_removed
save_removed-keys env (after, true) h = save-pure-keys env after true h
save_removed-keys env (after, false) h = pure-keys false

-- `remove_schedule` keeps the ids of the schedules and the slots of the records distinct.
pub remove_schedule-keys :
    (env : Env) (id actor reason : Text) → KeepsKeys (remove_schedule env id actor reason)
unfolding remove_schedule
remove_schedule-keys env id actor reason = load-keys env _ λ before h.
    save_removed-keys env (remove_task (env.clock 0) id actor reason before)
      (remove_task-keys (env.clock 0) id actor reason before h)

-- A change of a slot record that leaves its schedule and its time.
pub record KeepsSlot (change : ScheduleSlotRecord → ScheduleSlotRecord) : Type 0 where
  pub id : (slot : ScheduleSlotRecord) → (change slot).schedule_id ≡ slot.schedule_id
  pub at : (slot : ScheduleSlotRecord) → (change slot).slot_at_ms ≡ slot.slot_at_ms

same_slot-change :
    (change : ScheduleSlotRecord → ScheduleSlotRecord)
    → KeepsSlot change
    → (key r : ScheduleSlotRecord) → same_slot key (change r) ≡ same_slot key r
unfolding is_slot
same_slot-change change k key r = rw (k.id r, k.at r)

mutate_slot-keys :
    (schedule_id : Text) (slot_at_ms : ℕ) (change : ScheduleSlotRecord → ScheduleSlotRecord)
    (entry : ScheduleSlotRecord → ScheduleAuditEntry) (s : SchedulerState)
    → KeepsSlot change
    → HasKeys s
    → Returned HasKeys (mutate_slot schedule_id slot_at_ms change entry s)
unfolding mutate_slot
mutate_slot-keys schedule_id slot_at_ms change entry s k h =
    elim (Option-cases (find (is_slot schedule_id slot_at_ms) s.slots)) [
      | inl e ↦ rw (e, Returned) tt
      | inr (slot, e) ↦
          rw (e, Returned)
            (record {
              ids = h.ids;
              slots =
                  IsDistinct-change_first _ change (same_slot-change change k)
                    (λ key r.
                      same_slot_comm (change r) key
                      ∙ same_slot-change change k key r
                      ∙ same_slot_comm key r)
                    s.slots h.slots;
            })
    ]

-- `update_slot`, by a change that leaves a record's schedule and time, keeps the keys distinct.
pub update_slot-keys :
    (env : Env) (schedule_id : Text) (slot_at_ms : ℕ)
    (change : ScheduleSlotRecord → ScheduleSlotRecord)
    (entry : ScheduleSlotRecord → ScheduleAuditEntry)
    → KeepsSlot change
    → KeepsKeys (update_slot env schedule_id slot_at_ms change entry)
unfolding update_slot
update_slot-keys env schedule_id slot_at_ms change entry k = load-keys env _ λ before h.
    lift-keys HasKeys (mutate_slot schedule_id slot_at_ms change entry before) _
      (mutate_slot-keys schedule_id slot_at_ms change entry before k h)
      (λ after h'. save-keys env after h')
