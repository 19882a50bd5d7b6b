-- ===== src/Scheduler/Store/Keys.antt =====
-- The keys of the scheduler's state: schedule ids, and slots named by a schedule and a time.
use mathlib.Core.Path.{fun_ext}
use kelvinclaw.Prelude.{
  ℕ, Bool, ◌≡◌, refl, arith, List, [], ◌∷◌, any, length, ltb, Bool-cases, inl, inr, ◌-◌,
}
use kelvinclaw.Prelude.Text.{text_eq, text_eq_iff}
use kelvinclaw.Prelude.Distinct.{IsDistinct, IsDistinct-drop, IsDistinct-sort_by}
use kelvinclaw.Scheduler.State.{ScheduledTask, ScheduleSlotRecord, SchedulerState}
use kelvinclaw.Scheduler.Persistence.{StateFile, absent, corrupt, stored, keep_last, prepare}
use kelvinclaw.Scheduler.Store.{is_slot, change_first}

abbrev pub same_slot : ScheduleSlotRecord → ScheduleSlotRecord → Bool
same_slot a = is_slot a.schedule_id a.slot_at_ms

abbrev pub same_id : ScheduledTask → ScheduledTask → Bool
same_id a b = text_eq b.id a.id

pub same_slot_comm : (a b : ScheduleSlotRecord) → same_slot a b ≡ same_slot b a
unfolding is_slot
same_slot_comm a b =
    ground (arith, text_eq_iff a.schedule_id b.schedule_id, text_eq_iff b.schedule_id a.schedule_id)

pub same_id_comm : (a b : ScheduledTask) → same_id a b ≡ same_id b a
same_id_comm a b = ground (arith, text_eq_iff a.id b.id, text_eq_iff b.id a.id)

-- No two schedules share an id, and no two records stand for one slot of one schedule.
pub record HasKeys (s : SchedulerState) : Type 0 where
  pub ids : IsDistinct same_id s.schedules
  pub slots : IsDistinct same_slot s.slots

abbrev pub FileHasKeys : StateFile → Type 0
FileHasKeys absent = Unit {0}
FileHasKeys corrupt = Unit {0}
FileHasKeys (stored s) = HasKeys s

IsDistinct-keep_last :
    (n : ℕ) (slots : List ScheduleSlotRecord)
    → IsDistinct same_slot slots
    → IsDistinct same_slot (keep_last n slots)
unfolding keep_last
IsDistinct-keep_last n slots d = elim (Bool-cases (ltb n (length slots))) [
  | inl e ↦ rw e (IsDistinct-drop same_slot (length slots - n) slots d)
  | inr e ↦ rw e d
]

-- Sorting and pruning keep the keys distinct.
pub prepare-HasKeys : (s : SchedulerState) → HasKeys s → HasKeys (prepare s)
unfolding prepare
prepare-HasKeys s h = record {
  ids = IsDistinct-sort_by same_id same_id_comm _ s.schedules h.ids;
  slots = IsDistinct-keep_last _ _ (IsDistinct-sort_by same_slot same_slot_comm _ s.slots h.slots);
}

any-change_first :
    (key : ScheduleSlotRecord) (p : ScheduleSlotRecord → Bool)
    (f : ScheduleSlotRecord → ScheduleSlotRecord)
    → ((s : ScheduleSlotRecord) → same_slot key (f s) ≡ same_slot key s)
    → (slots : List ScheduleSlotRecord)
    → any (same_slot key) (change_first p f slots) ≡ any (same_slot key) slots
unfolding change_first any
any-change_first key p f keep [] = refl
any-change_first key p f keep (s ∷ slots) =
    ground (arith, keep s, any-change_first key p f keep slots)

-- A change that keeps the keys of the records keeps them distinct.
pub IsDistinct-change_first :
    (p : ScheduleSlotRecord → Bool) (f : ScheduleSlotRecord → ScheduleSlotRecord)
    → ((key s : ScheduleSlotRecord) → same_slot key (f s) ≡ same_slot key s)
    → ((key s : ScheduleSlotRecord) → same_slot (f s) key ≡ same_slot s key)
    → (slots : List ScheduleSlotRecord) → IsDistinct same_slot slots
    → IsDistinct same_slot (change_first p f slots)
unfolding change_first
IsDistinct-change_first p f keep keep' [] d = tt
IsDistinct-change_first p f keep keep' (s ∷ slots) d = elim (Bool-cases (p s)) [
  | inl e ↦ rw e (rw (fun_ext (λ k. keep' k s)) d.0, d.1)
  | inr e ↦ rw e (
    rw (any-change_first s p f (keep s) slots) d.0,
    IsDistinct-change_first p f keep keep' slots d.1,
  )
]
