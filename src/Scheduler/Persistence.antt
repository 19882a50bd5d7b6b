-- ===== src/Scheduler/Persistence.antt =====
-- The state file of the scheduler (crates/kelvin-sdk/src/scheduler/persistence.rs). A file that
-- was written holds the state itself: serde_json's reading of its own output is taken as exact.
use kelvinclaw.Prelude.{
  ℕ, ◌-◌, Bool, Option, none, some, List, leb, ltb, if◌then◌else◌, length, drop,
}
use kelvinclaw.Prelude.Text.{text_eq, text_leb}
use kelvinclaw.Prelude.Sort.{sort_by}
use kelvinclaw.Prelude.Error.{KelvinError, KelvinResult, ok, err}
use kelvinclaw.Scheduler.State.{
  ScheduledTask, ScheduleSlotRecord, ScheduleAuditEntry, SchedulerState, default_state,
}

pub data StateFile : Type 0 where
  absent : StateFile
  corrupt : StateFile
  stored : SchedulerState → StateFile

-- What the system answers during one call: the readings of `now_ms()` in their order, a failing
-- read, the first step of `write_atomic` that fails, and a failing rename of a corrupt file.
pub record Env : Type 0 where
  pub clock : ℕ → ℕ
  pub read_error : Option KelvinError
  pub write_error : Option KelvinError
  pub quarantine_fails : Bool

abbrev pub max_audit_entries : ℕ
max_audit_entries = 4096

abbrev pub max_slot_entries : ℕ
max_slot_entries = 4096

unfoldable pub load_state : Env → StateFile → KelvinResult SchedulerState × StateFile
load_state env absent = (ok default_state, absent)
load_state env corrupt = elim env.read_error [
  | some e ↦ (err e, corrupt)
  | none ↦ (ok default_state, if env.quarantine_fails then corrupt else absent)
]
load_state env (stored s) = elim env.read_error [
  | some e ↦ (err e, stored s)
  | none ↦ (ok s, stored s)
]

schedule_le : ScheduledTask → ScheduledTask → Bool
schedule_le a b = text_leb a.id b.id

slot_le : ScheduleSlotRecord → ScheduleSlotRecord → Bool
slot_le a b =
    if text_eq a.schedule_id b.schedule_id
    then leb a.slot_at_ms b.slot_at_ms
    else text_leb a.schedule_id b.schedule_id

audit_le : ScheduleAuditEntry → ScheduleAuditEntry → Bool
audit_le a b = leb a.ts_ms b.ts_ms

-- `drain(..keep_from)` where there are more than `max_len`
unfoldable pub keep_last {ℓ} : {A : Type ℓ} → ℕ → List A → List A
keep_last max_len xs = if ltb max_len (length xs) then drop (length xs - max_len) xs else xs

-- What `save_state` makes of the state before it writes it.
unfoldable pub prepare : SchedulerState → SchedulerState
unfolding schedule_le slot_le audit_le
prepare s = record {
  schedules = sort_by schedule_le s.schedules;
  slots = keep_last max_slot_entries (sort_by slot_le s.slots);
  audit = keep_last max_audit_entries (sort_by audit_le s.audit);
}

-- A write that fails leaves the old file: the new one replaces it by a rename.
unfoldable pub save_state : Env → SchedulerState → StateFile → KelvinResult (Unit {0}) × StateFile
save_state env s file = elim env.write_error [
  | some e ↦ (err e, file)
  | none ↦ (ok tt, stored (prepare s))
]
