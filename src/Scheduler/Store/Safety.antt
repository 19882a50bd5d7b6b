-- ===== src/Scheduler/Store/Safety.antt =====
-- Claiming takes each slot once, and only slots that are due.
use kelvinclaw.Prelude.{
  ℕ, zero, suc, ◌≤◌, false, ◌≡◌, refl, arith, List, [], ◌∷◌, ◌++◌, map, max, if◌then◌else◌, ltb,
  Option, Bool-cases, inl, inr, All,
}
use kelvinclaw.Prelude.Error.{ok, Returned, Returned-bind, Returned-elim}
use mathlib.Core.List.{map-append, append_assoc, append-nil}
use kelvinclaw.Scheduler.Cron
use kelvinclaw.Scheduler.Cron.{CronSchedule}
use kelvinclaw.Scheduler.Slot.{DateTime, minute_slot, next_slot_after}
use kelvinclaw.Scheduler.State.{
  ScheduledTask, ScheduleSlotRecord, ClaimedScheduleSlot, SchedulerState,
}
use kelvinclaw.Prelude.Distinct.{IsDistinct, IsDistinct-append_one, All-append}
use kelvinclaw.Scheduler.Store.Keys.{same_slot, same_slot_comm}
use kelvinclaw.Scheduler.Store.Claim.{
  Claiming, slot_record, claim_slot, is_taken, claim_rounds, claim_all, claim_state,
}

module _ (calendar : ℕ → Option DateTime) (now_ms : ℕ) (P : Claiming → Type 0)
    (step : (schedule : ScheduledTask) (c : Claiming)
      → is_taken schedule c ≡ false
      → schedule.next_slot_at_ms ≤ minute_slot now_ms
      → P c
      → P (claim_slot schedule now_ms c)) where
  keep :
      (schedule : ScheduledTask) (c : Claiming)
      → schedule.next_slot_at_ms ≤ minute_slot now_ms
      → P c
      → P (if is_taken schedule c then c else claim_slot schedule now_ms c)
  keep schedule c due p = elim (Bool-cases (is_taken schedule c)) [
    | inl e ↦ rw e p
    | inr e ↦ rw e (step schedule c e due p)
  ]

  claim_rounds-keeps :
      (cron : CronSchedule) (rounds : ℕ) (schedule : ScheduledTask) (c : Claiming)
      → P c
      → Returned (λ r. P r.1) (claim_rounds calendar now_ms cron rounds schedule c)
  unfolding claim_rounds
  claim_rounds-keeps cron zero schedule c p = p
  claim_rounds-keeps cron (suc rounds) schedule c p =
      elim (Bool-cases (ltb (minute_slot now_ms) schedule.next_slot_at_ms)) [
        | inl early ↦ rw early p
        | inr due ↦ rw due (
            Returned-bind (λ r. P r.1) (next_slot_after calendar cron schedule.next_slot_at_ms) _
              λ next _.
                claim_rounds-keeps cron rounds (record schedule { next_slot_at_ms = next }) _
                  (keep schedule c (ground arith) p))
      ]

  pub claim_all-keeps :
      (rounds : ℕ) (schedules : List ScheduledTask) (c : Claiming)
      → P c
      → Returned (λ r. P r.1) (claim_all calendar now_ms rounds schedules c)
  unfolding claim_all
  claim_all-keeps rounds [] c p = p
  claim_all-keeps rounds (schedule ∷ schedules) c p =
      Returned-bind (λ r. P r.1) (Cron.parse schedule.cron) _
        λ cron _.
          Returned-bind (λ r. P r.1) (claim_rounds calendar now_ms cron rounds schedule c) _
            λ r e.
              Returned-bind (λ r. P r.1) (claim_all calendar now_ms rounds schedules r.1) _
                λ rest e'.
                  Returned-elim (λ r. P r.1) _ rest
                    (claim_all-keeps rounds schedules r.1 (
                      Returned-elim (λ r. P r.1) _ r (claim_rounds-keeps cron rounds schedule c p)
                        e))
                    e'

-- The records that the claims of one call stand for.
abbrev pub records_of : ℕ → List ClaimedScheduleSlot → List ScheduleSlotRecord
records_of now_ms = map (λ t. slot_record t.schedule now_ms)

-- What one call has added to the slots that it started from.
pub record IsExact (now_ms : ℕ) (before : List ScheduleSlotRecord) (c : Claiming) : Type 0 where
  pub added : c.slots ≡ before ++ records_of now_ms c.taken
  pub distinct : IsDistinct same_slot c.slots
  pub due :
      All
        (λ t. (t.slot_at_ms ≡ t.schedule.next_slot_at_ms) × (t.slot_at_ms ≤ minute_slot now_ms))
        c.taken

claim_slot-IsExact :
    (now_ms : ℕ) (before : List ScheduleSlotRecord) (schedule : ScheduledTask) (c : Claiming)
    → is_taken schedule c ≡ false
    → schedule.next_slot_at_ms ≤ minute_slot now_ms
    → IsExact now_ms before c
    → IsExact now_ms before (claim_slot schedule now_ms c)
unfolding claim_slot is_taken slot_record
claim_slot-IsExact now_ms before schedule c free due x = record {
  added = rw (x.added, map-append, append_assoc);
  distinct = IsDistinct-append_one same_slot same_slot_comm c.slots _ x.distinct free;
  due = All-append _ c.taken _ x.due ((refl, due), tt);
}

pub claim_all-IsExact :
    (calendar : ℕ → Option DateTime) (now_ms rounds : ℕ) (s : SchedulerState)
    → IsDistinct same_slot s.slots
    → Returned
        (λ r. IsExact now_ms s.slots r.1)
        (claim_all calendar now_ms rounds s.schedules
          (record { slots = s.slots; audit = s.audit; taken = [] }))
claim_all-IsExact calendar now_ms rounds s d =
    claim_all-keeps calendar now_ms (IsExact now_ms s.slots) (claim_slot-IsExact now_ms s.slots)
      rounds s.schedules _ (record { added = rw append-nil; distinct = d; due = tt })

-- On the claiming that `claim_due_slots` does in memory, before the state is sorted, pruned and
-- saved: from slot records of which no two stand for the same slot of the same schedule, and where
-- the claiming succeeds, the slot records in memory are those from before followed by one for each
-- claim, no two of all these stand for the same slot of the same schedule, and each claimed slot is
-- the one at which its schedule stood and is not later than the current minute.
pub claim_state-IsExact :
    (calendar : ℕ → Option DateTime) (now_ms max_per_schedule : ℕ) (s after : SchedulerState)
    (taken : List ClaimedScheduleSlot)
    → IsDistinct same_slot s.slots
    → claim_state calendar now_ms max_per_schedule s ≡ ok (after, taken)
    → (after.slots ≡ s.slots ++ records_of now_ms taken)
      × IsDistinct same_slot after.slots
      × All
          (λ t. (t.slot_at_ms ≡ t.schedule.next_slot_at_ms) × (t.slot_at_ms ≤ minute_slot now_ms))
          taken
unfolding claim_state
claim_state-IsExact calendar now_ms max_per_schedule s after taken d h =
    Returned-elim
      (λ (r : SchedulerState × List ClaimedScheduleSlot).
        (r.0.slots ≡ s.slots ++ records_of now_ms r.1)
        × IsDistinct same_slot r.0.slots
        × All
            (λ t. (t.slot_at_ms ≡ t.schedule.next_slot_at_ms) × (t.slot_at_ms ≤ minute_slot now_ms))
            r.1)
      _ (after, taken)
      (Returned-bind _ (claim_all calendar now_ms (max max_per_schedule 1) s.schedules _) _ λ r e.
        let x =
          Returned-elim (λ (r : List ScheduledTask × Claiming). IsExact now_ms s.slots r.1) _ r
            (claim_all-IsExact calendar now_ms (max max_per_schedule 1) s d) e in
        (x.added, x.distinct, x.due))
      h
