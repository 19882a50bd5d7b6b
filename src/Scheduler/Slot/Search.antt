-- ===== src/Scheduler/Slot/Search.antt =====
-- The search for a slot returns the first matching minute at or after its start.
use mathlib.Core.Path.{subst}
use kelvinclaw.Prelude.{
  ℕ, zero, suc, ◌+◌, ◌*◌, ◌≤◌, ◌<◌, Bool, true, false, Option, ◌≡◌, refl, arith, sat_add, u128_max,
}
use kelvinclaw.Prelude.Error.{KelvinResult, ok, err}
use kelvinclaw.Scheduler.Cron.{CronSchedule}
use kelvinclaw.Scheduler.Slot.{
  DateTime, minute_ms, max_cron_scan_minutes, matches, scan, first_slot_at_or_after,
  next_slot_after,
}

-- What a slot search may return: the first match among `start`, `start` + 1 minute, and so on.
pub record IsFirstSlot (calendar : ℕ → Option DateTime) (cron : CronSchedule)
    (rounds start slot : ℕ) : Type 0 where
  pub index : ℕ
  pub within : index < rounds
  pub at : slot ≡ start + index * minute_ms
  pub found : matches calendar cron slot ≡ ok true
  pub first : (j : ℕ) → j < index → matches calendar cron (start + j * minute_ms) ≡ ok false

sat_add_exact : (c n : ℕ) → c + n ≤ u128_max → sat_add c n ≡ c + n
unfolding sat_add
sat_add_exact c n h = omega arith

module _ (calendar : ℕ → Option DateTime) (cron : CronSchedule) where
  shift_first :
      (start index : ℕ)
      → matches calendar cron start ≡ ok false
      → ((j : ℕ) → j < index → matches calendar cron (start + minute_ms + j * minute_ms) ≡ ok false)
      → (j : ℕ) → j < suc index
      → matches calendar cron (start + j * minute_ms) ≡ ok false
  shift_first start index miss later zero h =
      let e : start + 0 * minute_ms ≡ start = omega arith in rw e miss
  shift_first start index miss later (suc j) h =
      let e : start + suc j * minute_ms ≡ start + minute_ms + j * minute_ms = omega arith in
      rw e (later j (omega arith))

  shift :
      (start rounds slot : ℕ)
      → matches calendar cron start ≡ ok false
      → IsFirstSlot calendar cron rounds (start + minute_ms) slot
      → IsFirstSlot calendar cron (suc rounds) start slot
  shift start rounds slot miss later = record {
    index = suc later.index;
    within = omega (arith, later.within);
    at = omega (arith, later.at);
    found = later.found;
    first = shift_first start later.index miss later.first;
  }

  immediate :
      (start rounds : ℕ)
      → matches calendar cron start ≡ ok true
      → IsFirstSlot calendar cron (suc rounds) start start
  immediate start rounds hit = record {
    index = 0;
    within = omega arith;
    at = omega arith;
    found = hit;
    first = λ j h. absurd (omega arith);
  }

  scan-IsFirstSlot :
      (rounds start slot : ℕ)
      → start + rounds * minute_ms ≤ u128_max
      → scan calendar cron rounds start ≡ ok slot
      → IsFirstSlot calendar cron rounds start slot
  unfolding scan
  scan-IsFirstSlot zero start slot fits h = cc
  scan-IsFirstSlot (suc rounds) start slot fits h =
      go (scan-IsFirstSlot rounds (start + minute_ms) slot) (matches calendar cron start) refl
    where
      exact : sat_add start minute_ms ≡ start + minute_ms
      exact = sat_add_exact start minute_ms (omega arith)

      go :
          (start + minute_ms + rounds * minute_ms ≤ u128_max
            → scan calendar cron rounds (start + minute_ms) ≡ ok slot
            → IsFirstSlot calendar cron rounds (start + minute_ms) slot)
          → (r : KelvinResult Bool) → matches calendar cron start ≡ r
          → IsFirstSlot calendar cron (suc rounds) start slot
      go ih (ok true) e =
          let p : start ≡ slot = cc (rw e at h) in
          subst (IsFirstSlot calendar cron (suc rounds) start) p (immediate start rounds e)
      go ih (ok false) e = shift start rounds slot e (ih (omega arith) (rw (e, exact) at h))
      go ih (err x) e = cc (rw e at h)

  -- Where the scan window ends within the bound of u128, a slot that `first_slot_at_or_after`
  -- returns is the first matching minute among its start and the whole minutes after it.
  pub first_slot_at_or_after-IsFirstSlot :
      (start slot : ℕ)
      → start + max_cron_scan_minutes * minute_ms ≤ u128_max
      → first_slot_at_or_after calendar cron start ≡ ok slot
      → IsFirstSlot calendar cron max_cron_scan_minutes start slot
  unfolding first_slot_at_or_after
  first_slot_at_or_after-IsFirstSlot start slot fits h =
      scan-IsFirstSlot max_cron_scan_minutes start slot fits h

  -- Where the scan window ends within the bound of u128, the next slot is later than the slot
  -- before it, and it matches the schedule.
  pub next_slot_after-later :
      (start slot : ℕ)
      → start + minute_ms + max_cron_scan_minutes * minute_ms ≤ u128_max
      → next_slot_after calendar cron start ≡ ok slot
      → (start < slot) × (matches calendar cron slot ≡ ok true)
  unfolding next_slot_after
  next_slot_after-later start slot fits h =
      let exact : sat_add start minute_ms ≡ start + minute_ms =
        sat_add_exact start minute_ms (omega arith) in
      let found =
        first_slot_at_or_after-IsFirstSlot (start + minute_ms) slot fits (rw exact at h) in
      (omega (arith, found.at), found.found)

  shift_before :
      (start index : ℕ)
      → ((j : ℕ) → j < suc index → matches calendar cron (start + j * minute_ms) ≡ ok false)
      → (j : ℕ) → j < index
      → matches calendar cron (start + minute_ms + j * minute_ms) ≡ ok false
  shift_before start index before j h =
      let e : start + minute_ms + j * minute_ms ≡ start + suc j * minute_ms = omega arith in
      rw e (before (suc j) (omega arith))

  scan_finds :
      (rounds start index : ℕ)
      → start + rounds * minute_ms ≤ u128_max
      → index < rounds
      → ((j : ℕ) → j < index → matches calendar cron (start + j * minute_ms) ≡ ok false)
      → matches calendar cron (start + index * minute_ms) ≡ ok true
      → scan calendar cron rounds start ≡ ok (start + index * minute_ms)
  unfolding scan
  scan_finds zero start index fits h before hit = elim h [ ]
  scan_finds (suc rounds) start zero fits h before hit =
      let e : start + 0 * minute_ms ≡ start = omega arith in
      let hit' : matches calendar cron start ≡ ok true = rw e at hit in rw (e, hit')
  scan_finds (suc rounds) start (suc index) fits h before hit =
      let e : start + 0 * minute_ms ≡ start = omega arith in
      let e' : start + suc index * minute_ms ≡ start + minute_ms + index * minute_ms =
        omega arith in
      let first : matches calendar cron (start + 0 * minute_ms) ≡ ok false =
        before 0 (omega arith) in
      let miss : matches calendar cron start ≡ ok false = rw e at first in
      let exact : sat_add start minute_ms ≡ start + minute_ms =
        sat_add_exact start minute_ms (omega arith) in
      rw (miss, exact, e')
        (scan_finds rounds (start + minute_ms) index (omega arith) (omega arith)
          (shift_before start index before) (rw e' at hit))

  -- If a minute within the scan window matches and the minutes before it do not, and the window
  -- ends within the bound of u128, then `first_slot_at_or_after` returns that minute.
  pub first_slot_at_or_after_finds :
      (start index : ℕ)
      → start + max_cron_scan_minutes * minute_ms ≤ u128_max
      → index < max_cron_scan_minutes
      → ((j : ℕ) → j < index → matches calendar cron (start + j * minute_ms) ≡ ok false)
      → matches calendar cron (start + index * minute_ms) ≡ ok true
      → first_slot_at_or_after calendar cron start ≡ ok (start + index * minute_ms)
  unfolding first_slot_at_or_after
  first_slot_at_or_after_finds start index fits h before hit =
      scan_finds max_cron_scan_minutes start index fits h before hit
