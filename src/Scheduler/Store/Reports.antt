-- ===== src/Scheduler/Store/Reports.antt =====
-- What the scheduler store reports (`recent_audit` and `status` of
-- crates/kelvin-sdk/src/scheduler/store.rs).
use kelvinclaw.Prelude.{
  ℕ, Bool, false, Option, none, some, List, [], ◌∷◌, leb, length, retain, take, max, min, map,
}
use kelvinclaw.Prelude.Text.{Text, text_eq}
use kelvinclaw.Prelude.Sort.{sort_by}
use kelvinclaw.Prelude.Exec.{◌>>=◌, pure}
use kelvinclaw.Scheduler.Slot.{minute_slot}
use kelvinclaw.Scheduler.State.{ScheduledTask, ScheduleAuditEntry, SchedulerState}
use kelvinclaw.Scheduler.Persistence.{Env}
use kelvinclaw.Scheduler.Store.{Store, load}

-- `entry.schedule_id.as_deref() == Some(schedule_id)`
is_about : Text → ScheduleAuditEntry → Bool
is_about id entry = elim entry.schedule_id [ none ↦ false | some t ↦ text_eq t id ]

audit_of : Option Text → List ScheduleAuditEntry → List ScheduleAuditEntry
unfolding is_about
audit_of none audit = audit
audit_of (some id) audit = retain (is_about id) audit

newest_first : ScheduleAuditEntry → ScheduleAuditEntry → Bool
newest_first a b = leb b.ts_ms a.ts_ms

unfoldable pub recent_audit : Env → Option Text → ℕ → Store (List ScheduleAuditEntry)
unfolding audit_of newest_first
recent_audit env schedule_id limit = do
  s ← load env
  pure (take (max limit 1) (sort_by newest_first (audit_of schedule_id s.audit)))

pub record SchedulerStatus : Type 0 where
  pub schedule_count : ℕ
  pub slot_count : ℕ
  pub audit_count : ℕ
  pub due_now_count : ℕ
  pub next_slot_at_ms : Option ℕ

-- `iter().min()`
least : List ℕ → Option ℕ
least [] = none
least (n ∷ ns) = elim (least ns) [ none ↦ some n | some m ↦ some (min n m) ]

unfoldable pub status_of : ℕ → SchedulerState → SchedulerStatus
unfolding least
status_of now_ms s = record {
  schedule_count = length s.schedules;
  slot_count = length s.slots;
  audit_count = length s.audit;
  due_now_count = length (
      retain (λ (task : ScheduledTask). leb task.next_slot_at_ms (minute_slot now_ms)) s.schedules);
  next_slot_at_ms = least (map (λ (task : ScheduledTask). task.next_slot_at_ms) s.schedules);
}

unfoldable pub status : Env → ℕ → Store SchedulerStatus
unfolding status_of
status env now_ms = do s ← load env; pure (status_of now_ms s)
