-- ===== src/Scheduler/Slot.antt =====
-- The slots of a cron schedule (`matches`, `first_slot_at_or_after` and `next_slot_after` of
-- crates/kelvin-sdk/src/scheduler/cron.rs, `minute_slot` of scheduler/mod.rs). The calendar is
-- chrono's, a parameter: the UTC fields of a time in milliseconds, or none out of its range.
pub mod Search
use kelvinclaw.Prelude.{
  ℕ, zero, suc, ◌+◌, ◌*◌, ◌/◌, min, Bool, true, false, ◌&&◌, ◌||◌, not, Option, none, some,
  if◌then◌else◌, get_or, sat_add,
}
use kelvinclaw.Prelude.Error.{
  KelvinResult, ok, err, invalid_input, literal, with_text, ◌>>=◌, ok_or,
}
use kelvinclaw.Scheduler.Cron.{CronSchedule}

pub record DateTime : Type 0 where
  pub minute : ℕ
  pub hour : ℕ
  pub day : ℕ
  pub month : ℕ
  pub num_days_from_sunday : ℕ

abbrev pub minute_ms : ℕ
minute_ms = 60000

abbrev pub i64_max : ℕ
i64_max = 9223372036854775807

abbrev pub max_cron_scan_minutes : ℕ
max_cron_scan_minutes = 1051200

unfoldable pub minute_slot : ℕ → ℕ
minute_slot ts_ms = ts_ms / minute_ms * minute_ms

-- the `match` on the two wild flags
pub day_matches : Bool → Bool → Bool → Bool → Bool
day_matches true true month_day week_day = true
day_matches true false month_day week_day = week_day
day_matches false true month_day week_day = month_day
day_matches false false month_day week_day = month_day || week_day

module _ (calendar : ℕ → Option DateTime) where
  -- An index that is out of range, where the source panics, reads as false.
  matches_at : CronSchedule → DateTime → Bool
  unfolding day_matches
  matches_at cron t =
      if not (get_or cron.minutes t.minute false)
        || not (get_or cron.hours t.hour false)
        || not (get_or cron.months t.month false)
      then false
      else day_matches cron.month_days_wild cron.week_days_wild (get_or cron.month_days t.day false)
          (get_or cron.week_days t.num_days_from_sunday false)

  unfoldable pub matches : CronSchedule → ℕ → KelvinResult Bool
  unfolding matches_at
  matches cron slot_ms = do
    date_time ←
        ok_or (calendar (min slot_ms i64_max))
          (invalid_input (literal "invalid scheduler timestamp"))
    ok (matches_at cron date_time)

  -- The loop of `first_slot_at_or_after`, with the rounds that are left.
  unfoldable pub scan : CronSchedule → ℕ → ℕ → KelvinResult ℕ
  scan cron zero candidate = err (
      invalid_input
        (with_text (literal "cron '{}' produced no matching slot within scan window") cron.raw))
  scan cron (suc rounds) candidate =
      let rest = scan cron rounds (sat_add candidate minute_ms) in
      matches cron candidate >>= λ found. if found then ok candidate else rest

  unfoldable pub first_slot_at_or_after : CronSchedule → ℕ → KelvinResult ℕ
  first_slot_at_or_after cron start_ms = scan cron max_cron_scan_minutes start_ms

  unfoldable pub next_slot_after : CronSchedule → ℕ → KelvinResult ℕ
  unfolding first_slot_at_or_after
  next_slot_after cron slot_ms = first_slot_at_or_after cron (sat_add slot_ms minute_ms)
