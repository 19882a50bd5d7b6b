-- ===== src/Scheduler/Store/Claim.antt =====
-- `claim_due_slots` of crates/kelvin-sdk/src/scheduler/store.rs.
use kelvinclaw.Prelude.{
  ℕ, zero, suc, Bool, Option, none, some, List, [], ◌∷◌, ◌++◌, ltb, if◌then◌else◌, any, max,
}
use kelvinclaw.Prelude.Json.{object, nil}
use kelvinclaw.Prelude.Error.{KelvinResult, ok, literal, with_text, with_number, ◌>>=◌ as bind}
use kelvinclaw.Prelude.Exec.{◌>>=◌, ◌>>◌, pure, lift}
use kelvinclaw.Scheduler.Cron
use kelvinclaw.Scheduler.Cron.{CronSchedule}
use kelvinclaw.Scheduler.Slot.{DateTime, minute_slot, next_slot_after}
use kelvinclaw.Scheduler.State.{
  ScheduledTask, ScheduleSlotRecord, ScheduleAuditEntry, ClaimedScheduleSlot, SchedulerState,
  claimed,
}
use kelvinclaw.Scheduler.Persistence.{Env}
use kelvinclaw.Scheduler.Store.{Store, load, save, is_slot}

-- What the loops of `claim_due_slots` write to.
pub record Claiming : Type 0 where
  pub slots : List ScheduleSlotRecord
  pub audit : List ScheduleAuditEntry
  pub taken : List ClaimedScheduleSlot

unfoldable pub slot_record : ScheduledTask → ℕ → ScheduleSlotRecord
slot_record schedule now_ms = record {
  schedule_id = schedule.id;
  slot_at_ms = schedule.next_slot_at_ms;
  claimed_at_ms = now_ms;
  phase = claimed;
  run_id = none;
  finished_at_ms = none;
  error = none;
  response_preview = none;
  reply = none;
}

slot_audit : ScheduledTask → ℕ → ScheduleAuditEntry
slot_audit schedule now_ms = record {
  ts_ms = now_ms;
  kind = "slot_claimed";
  schedule_id = some schedule.id;
  slot_at_ms = some schedule.next_slot_at_ms;
  run_id = none;
  actor_session_id = none;
  message =
      with_number (with_text (literal "claimed schedule slot '{}' at {}") schedule.id)
        schedule.next_slot_at_ms;
  detail = object nil;
}

-- The three pushes for the slot at which the schedule stands.
unfoldable pub claim_slot : ScheduledTask → ℕ → Claiming → Claiming
unfolding slot_record slot_audit
claim_slot schedule now_ms c = record {
  slots = c.slots ++ slot_record schedule now_ms ∷ [];
  audit = c.audit ++ slot_audit schedule now_ms ∷ [];
  taken = c.taken ++ record { schedule = schedule; slot_at_ms = schedule.next_slot_at_ms } ∷ [];
}

-- `slots.iter().any(…)` for the slot at which the schedule stands
unfoldable pub is_taken : ScheduledTask → Claiming → Bool
is_taken schedule c = any (is_slot schedule.id schedule.next_slot_at_ms) c.slots

module _ (calendar : ℕ → Option DateTime) (now_ms : ℕ) where
  -- The inner loop over one schedule, with the rounds that are left.
  unfoldable pub claim_rounds :
      CronSchedule → ℕ → ScheduledTask → Claiming → KelvinResult (ScheduledTask × Claiming)
  claim_rounds cron zero schedule c = ok (schedule, c)
  claim_rounds cron (suc rounds) schedule c =
      let c' = if is_taken schedule c then c else claim_slot schedule now_ms c in
      let rest =
        bind (next_slot_after calendar cron schedule.next_slot_at_ms)
          (λ next. claim_rounds cron rounds (record schedule { next_slot_at_ms = next }) c') in
      if ltb (minute_slot now_ms) schedule.next_slot_at_ms then ok (schedule, c) else rest

  unfoldable pub claim_all :
      ℕ → List ScheduledTask → Claiming → KelvinResult (List ScheduledTask × Claiming)
  claim_all rounds [] c = ok ([], c)
  claim_all rounds (schedule ∷ schedules) c = bind (Cron.parse schedule.cron) λ cron.
      bind (claim_rounds cron rounds schedule c)
        λ r. bind (claim_all rounds schedules r.1) λ rest. ok (r.0 ∷ rest.0, rest.1)

  -- The closure of `claim_due_slots`, with `claimed`.
  unfoldable pub claim_state :
      ℕ → SchedulerState → KelvinResult (SchedulerState × List ClaimedScheduleSlot)
  claim_state max_per_schedule s =
      bind
        (claim_all (max max_per_schedule 1) s.schedules
          (record { slots = s.slots; audit = s.audit; taken = [] }))
        (λ r. ok (record { schedules = r.0; slots = r.1.slots; audit = r.1.audit }, r.1.taken))

  -- The state is saved only if a slot was claimed.
  unfoldable pub save_claimed :
      Env → SchedulerState × List ClaimedScheduleSlot → Store (List ClaimedScheduleSlot)
  save_claimed env (after, []) = pure []
  save_claimed env (after, slot ∷ slots) = do save env after; pure (slot ∷ slots)

  unfoldable pub claim_due_slots : Env → ℕ → Store (List ClaimedScheduleSlot)
  unfolding save_claimed
  claim_due_slots env max_per_schedule = do
    before ← load env
    after ← lift (claim_state max_per_schedule before)
    save_claimed env after
