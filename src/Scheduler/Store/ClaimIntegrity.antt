-- ===== src/Scheduler/Store/ClaimIntegrity.antt =====
-- `claim_due_slots` keeps the keys of the state file distinct.
use kelvinclaw.Prelude.{
  ℕ, zero, suc, ◌≡◌, refl, List, [], ◌∷◌, Option, any, ltb, Bool-cases, inl, inr, max, ◌∙◌,
}
use kelvinclaw.Prelude.Error.{Returned, Returned-bind, Returned-elim}
use kelvinclaw.Prelude.Distinct.{IsDistinct}
use kelvinclaw.Scheduler.Cron
use kelvinclaw.Scheduler.Cron.{CronSchedule}
use kelvinclaw.Scheduler.Slot.{DateTime, minute_slot, next_slot_after}
use kelvinclaw.Scheduler.State.{ScheduledTask, ClaimedScheduleSlot, SchedulerState}
use kelvinclaw.Scheduler.Persistence.{Env}
use kelvinclaw.Scheduler.Store.Keys.{same_id, HasKeys}
use kelvinclaw.Scheduler.Store.Claim.{
  Claiming, claim_rounds, claim_all, claim_state, save_claimed, claim_due_slots,
}
use kelvinclaw.Scheduler.Store.Safety.{IsExact, claim_all-IsExact}
use kelvinclaw.Scheduler.Store.Integrity.{
  KeepsKeys, load-keys, lift-keys, pure-keys, save-pure-keys,
}

-- The schedules keep their ids.
record SameIds (before after : List ScheduledTask) : Type 0 where
  any_id : (key : ScheduledTask) → any (same_id key) after ≡ any (same_id key) before
  distinct : IsDistinct same_id before → IsDistinct same_id after

module _ (calendar : ℕ → Option DateTime) (now_ms : ℕ) where
  claim_rounds-id :
      (cron : CronSchedule) (rounds : ℕ) (schedule : ScheduledTask) (c : Claiming)
      → Returned (λ r. r.0.id ≡ schedule.id) (claim_rounds calendar now_ms cron rounds schedule c)
  unfolding claim_rounds
  claim_rounds-id cron zero schedule c = refl
  claim_rounds-id cron (suc rounds) schedule c =
      elim (Bool-cases (ltb (minute_slot now_ms) schedule.next_slot_at_ms)) [
        | inl e ↦ rw e refl
        | inr e ↦ rw e (
            Returned-bind _ (next_slot_after calendar cron schedule.next_slot_at_ms) _
              λ next _. claim_rounds-id cron rounds (record schedule { next_slot_at_ms = next }) _)
      ]

  cons-SameIds :
      (a b : ScheduledTask) (as' bs : List ScheduledTask)
      → b.id ≡ a.id
      → SameIds as' bs
      → SameIds (a ∷ as') (b ∷ bs)
  unfolding any
  cons-SameIds a b as' bs e h = record {
    any_id = λ key. rw (e, h.any_id key);
    distinct = λ d. (rw e (h.any_id a ∙ d.0), h.distinct d.1);
  }

  claim_all-SameIds :
      (rounds : ℕ) (schedules : List ScheduledTask) (c : Claiming)
      → Returned (λ r. SameIds schedules r.0) (claim_all calendar now_ms rounds schedules c)
  unfolding claim_all
  claim_all-SameIds rounds [] c = record { any_id = λ key. refl; distinct = λ d. d }
  claim_all-SameIds rounds (schedule ∷ schedules) c =
      Returned-bind _ (Cron.parse schedule.cron) _ λ cron _.
        Returned-bind _ (claim_rounds calendar now_ms cron rounds schedule c) _ λ r e.
          Returned-bind _ (claim_all calendar now_ms rounds schedules r.1) _ λ rest e'.
            cons-SameIds schedule r.0 schedules rest.0
              (Returned-elim (λ (r : ScheduledTask × Claiming). r.0.id ≡ schedule.id) _ r
                (claim_rounds-id cron rounds schedule c) e)
              (Returned-elim (λ (r : List ScheduledTask × Claiming). SameIds schedules r.0) _ rest
                (claim_all-SameIds rounds schedules r.1) e')

  claim_state-keys :
      (max_per_schedule : ℕ) (s : SchedulerState)
      → HasKeys s
      → Returned (λ r. HasKeys r.0) (claim_state calendar now_ms max_per_schedule s)
  unfolding claim_state
  claim_state-keys max_per_schedule s h =
      Returned-bind _ (claim_all calendar now_ms (max max_per_schedule 1) s.schedules _) _ λ r e.
        record {
          ids =
              (Returned-elim (λ (r : List ScheduledTask × Claiming). SameIds s.schedules r.0) _ r
                  (claim_all-SameIds (max max_per_schedule 1) s.schedules _) e).distinct
                h.ids;
          slots =
              (Returned-elim (λ (r : List ScheduledTask × Claiming). IsExact now_ms s.slots r.1) _ r
                (claim_all-IsExact calendar now_ms (max max_per_schedule 1) s h.slots) e).distinct;
        }

  save_claimed-keys :
      (env : Env) (r : SchedulerState × List ClaimedScheduleSlot)
      → HasKeys r.0
      → KeepsKeys (save_claimed calendar now_ms env r)
  unfolding save_claimed
  save_claimed-keys env (after, []) h = pure-keys []
  save_claimed-keys env (after, slot ∷ slots) h = save-pure-keys env after (slot ∷ slots) h

  -- `claim_due_slots` keeps the ids of the schedules and the slots of the records distinct, whether
  -- it returns or fails.
  pub claim_due_slots-keys :
      (env : Env) (max_per_schedule : ℕ)
      → KeepsKeys (claim_due_slots calendar now_ms env max_per_schedule)
  unfolding claim_due_slots
  claim_due_slots-keys env max_per_schedule = load-keys env _ λ before h.
      lift-keys (λ (r : SchedulerState × List ClaimedScheduleSlot). HasKeys r.0)
        (claim_state calendar now_ms max_per_schedule before) _
        (claim_state-keys max_per_schedule before h) (save_claimed-keys env)
