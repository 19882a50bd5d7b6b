-- ===== src/Examples/Scheduling.antt =====
-- The scheduler (crates/kelvin-sdk/src/scheduler) on concrete schedules.
use kelvinclaw.Prelude.{
  ℕ, zero, suc, ◌+◌, ◌*◌, ◌/◌, ◌%◌, ◌≤◌, ◌<◌, Bool, true, false, ◌≡◌, ◌≢◌, refl, arith, Option,
  none, some, List, [], ◌∷◌, ◌++◌, replicate, length, set, get_or, any, All, u128_max,
}
use kelvinclaw.Prelude.Text.{lit, text_eq, trim, is_empty}
use kelvinclaw.Prelude.Parse.{split, split_once, split_whitespace, parse_usize}
use kelvinclaw.Prelude.Error.{KelvinResult, ok, err, invalid_input, literal, with_text}
use kelvinclaw.Prelude.Distinct.{IsDistinct}
use kelvinclaw.Scheduler.Cron as Cron
use kelvinclaw.Scheduler.Cron.{
  CronSchedule, Span, parse_step, parse_item, parse_field, parse_parts, parse_items, parse_range,
  mark, mark_span,
}
use kelvinclaw.Scheduler.Cron.Field.{spans, covers, parse_field-marks_items}
use kelvinclaw.Scheduler.Slot.{
  DateTime, minute_ms, matches, scan, first_slot_at_or_after, next_slot_after, minute_slot,
  max_cron_scan_minutes,
}
use kelvinclaw.Scheduler.Slot.Search.{
  IsFirstSlot, first_slot_at_or_after-IsFirstSlot, next_slot_after-later,
  first_slot_at_or_after_finds,
}
use kelvinclaw.Scheduler.State.{ScheduledTask, SchedulerState, ClaimedScheduleSlot, completed}
use kelvinclaw.Scheduler.Persistence.{stored, Env}
use kelvinclaw.Scheduler.Store.Claim.{claim_state, claim_all, claim_rounds, claim_slot, is_taken}
use kelvinclaw.Scheduler.Store.{is_slot}
use kelvinclaw.Scheduler.Store.Keys.{same_slot, FileHasKeys}
use kelvinclaw.Scheduler.Store.Safety.{claim_state-IsExact, records_of}
use kelvinclaw.Scheduler.Store.History.{Call, claim, submitted, outcome, calls, calls-FileHasKeys}

-- A calendar of one day that goes round: the minutes and the hours are those of the time.
abbrev day_calendar : ℕ → Option DateTime
day_calendar ms = some (record {
  minute = ms / 60000 % 60;
  hour = ms / 3600000 % 24;
  day = 1;
  month = 1;
  num_days_from_sunday = 4;
})

-- "*/2 * * * *"
abbrev even_minutes : CronSchedule
even_minutes = record {
  raw = lit "*/2 * * * *";
  minutes = true ∷ false ∷ true ∷ false ∷ true ∷ false ∷ [];
  hours = true ∷ true ∷ [];
  month_days = false ∷ true ∷ [];
  months = false ∷ true ∷ [];
  week_days = true ∷ true ∷ true ∷ true ∷ true ∷ true ∷ true ∷ [];
  month_days_wild = true;
  week_days_wild = true;
}

first_slot_at_or_after-IsFirstSlot_example :
    IsFirstSlot day_calendar even_minutes max_cron_scan_minutes 60000 120000
unfolding first_slot_at_or_after scan matches kelvinclaw.Prelude.sat_add
first_slot_at_or_after-IsFirstSlot_example =
    first_slot_at_or_after-IsFirstSlot day_calendar even_minutes 60000 120000 (omega arith) refl

next_slot_after-later_example :
    (120000 < 240000) × (matches day_calendar even_minutes 240000 ≡ ok true)
unfolding next_slot_after first_slot_at_or_after scan matches kelvinclaw.Prelude.sat_add
next_slot_after-later_example =
    next_slot_after-later day_calendar even_minutes 120000 240000 (omega arith) refl

odd_minute : (j : ℕ) → j < 1 → matches day_calendar even_minutes (60000 + j * minute_ms) ≡ ok false
unfolding matches
odd_minute zero h = refl
odd_minute (suc j) h = ground arith

first_slot_at_or_after_finds_example :
    first_slot_at_or_after day_calendar even_minutes 60000 ≡ ok (60000 + 1 * minute_ms)
unfolding matches
first_slot_at_or_after_finds_example =
    first_slot_at_or_after_finds day_calendar even_minutes 60000 1 (omega arith) (omega arith)
      odd_minute refl

-- "1,3-5" as an hour of six
parse_field-marks_items_example :
    (read : List Span) × (spans (split b',' (lit "1,3-5")) 0 5 false ≡ ok read)
    × (length (false ∷ true ∷ false ∷ true ∷ true ∷ true ∷ []) ≡ 6)
    × ((v : ℕ)
        → get_or (false ∷ true ∷ false ∷ true ∷ true ∷ true ∷ []) v false
          ≡ any (λ span. covers span v) read)
unfolding parse_field is_empty trim parse_items split parse_item parse_step split_once parse_range
    text_eq Cron.parse_value parse_usize mark_span
parse_field-marks_items_example =
    parse_field-marks_items (lit "1,3-5") 0 5 false (false ∷ true ∷ false ∷ true ∷ true ∷ true ∷ [])
      (omega arith) (omega arith) refl

-- A range of week days up to Sunday, written 7.
friday_to_sunday :
    parse_item (lit "5-7") 0 7 true
    ≡ err (invalid_input (with_text (literal "invalid cron range '{}'") (lit "5-7")))
unfolding parse_item parse_range Cron.parse_value parse_step split_once parse_usize trim text_eq
friday_to_sunday = refl

abbrev nightly : ScheduledTask
nightly = record {
  id = lit "nightly";
  cron = lit "* * * * *";
  prompt = lit "report";
  session_id = none;
  workspace_dir = none;
  timeout_ms = none;
  system_prompt = none;
  memory_query = none;
  reply_target = none;
  created_by_session = lit "main";
  created_at_ms = 1;
  approval_reason = lit "asked for";
  next_slot_at_ms = 60000;
}

abbrev one_schedule : SchedulerState
one_schedule = record { schedules = nightly ∷ []; slots = []; audit = [] }

abbrev taken_slots :
    KelvinResult (SchedulerState × List ClaimedScheduleSlot) → List ClaimedScheduleSlot
taken_slots (ok r) = r.1
taken_slots (err e) = []

abbrev state_after : KelvinResult (SchedulerState × List ClaimedScheduleSlot) → SchedulerState
state_after (ok r) = r.0
state_after (err e) = one_schedule

abbrev claimed_now : KelvinResult (SchedulerState × List ClaimedScheduleSlot)
claimed_now = claim_state day_calendar 130000 5 one_schedule

two_slots_claimed : length (taken_slots claimed_now) ≡ 2
unfolding claim_state claim_all claim_rounds claim_slot is_taken is_slot Cron.parse parse_parts
    parse_field parse_items parse_item parse_step parse_range mark_span mark next_slot_after
    first_slot_at_or_after scan matches minute_slot split split_once split_whitespace parse_usize
    trim text_eq is_empty kelvinclaw.Prelude.sat_add any
two_slots_claimed = refl

claim_state-IsExact_example :
    ((state_after claimed_now).slots ≡ [] ++ records_of 130000 (taken_slots claimed_now))
    × IsDistinct same_slot (state_after claimed_now).slots
    × All
        (λ t. (t.slot_at_ms ≡ t.schedule.next_slot_at_ms) × (t.slot_at_ms ≤ minute_slot 130000))
        (taken_slots claimed_now)
unfolding claim_state claim_all claim_rounds claim_slot is_taken is_slot Cron.parse parse_parts
    parse_field parse_items parse_item parse_step parse_range mark_span mark next_slot_after
    first_slot_at_or_after scan matches minute_slot split split_once split_whitespace parse_usize
    trim text_eq is_empty kelvinclaw.Prelude.sat_add any
claim_state-IsExact_example =
    claim_state-IsExact day_calendar 130000 5 one_schedule (state_after claimed_now)
      (taken_slots claimed_now) tt refl

abbrev working_env : Env
working_env = record {
  clock = λ n. 1000 + n;
  read_error = none;
  write_error = none;
  quarantine_fails = false;
}

abbrev some_calls : List (Env × Call)
some_calls =
    (working_env, claim 130000 5)
    ∷ (working_env, submitted (lit "nightly") 60000 (lit "run-1"))
    ∷ (working_env, outcome (lit "nightly") 60000 completed (lit "run-1") none none)
    ∷ (working_env, claim 130000 5)
    ∷ []

calls-FileHasKeys_example : FileHasKeys (calls day_calendar some_calls (stored one_schedule))
unfolding any
calls-FileHasKeys_example =
    calls-FileHasKeys day_calendar some_calls (stored one_schedule)
      (record { ids = (refl, tt); slots = tt })
