-- ===== src/Scheduler/Cron.antt =====
-- crates/kelvin-sdk/src/scheduler/cron.rs: cron expressions and the search for the next slot.
pub mod Field
use kelvinclaw.Prelude.{
  ℕ, zero, suc, ◌+◌, ◌-◌, ◌*◌, ◌%◌, min, Bool, true, false, ◌&&◌, ◌||◌, not, Option, none, some,
  List, [], ◌∷◌, ltb, leb, ◌==◌, if◌then◌else◌, get_or, set, replicate, length, sat_add,
}
use kelvinclaw.Prelude.Text.{Text, lit, text_eq, trim, is_empty}
use kelvinclaw.Prelude.Parse.{split, split_once, split_whitespace, parse_usize, usize_max}
use kelvinclaw.Prelude.Error.{
  KelvinResult, ok, err, invalid_input, literal, with_text, with_number, ◌>>=◌, ◌>>◌, refuse_if,
  ok_or,
}

pub record CronSchedule : Type 0 where
  pub raw : Text
  pub minutes : List Bool
  pub hours : List Bool
  pub month_days : List Bool
  pub months : List Bool
  pub week_days : List Bool
  pub month_days_wild : Bool
  pub week_days_wild : Bool

unfoldable pub parse_value : Text → ℕ → ℕ → Bool → KelvinResult ℕ
parse_value raw lo hi sunday_alias = do
  parsed ←
      ok_or (parse_usize raw) (invalid_input (with_text (literal "invalid cron value '{}'") raw))
  let value = if sunday_alias && (parsed == 7) then 0 else parsed
  refuse_if (ltb value lo || ltb hi value) (
      invalid_input (
        with_number
          (with_number (with_text (literal "cron value '{}' must be between {} and {}") raw) lo)
          hi))
  ok value

-- One item of a field: the values from `start` to `end`, every `step`.
pub record Span : Type 0 where
  pub start : ℕ
  pub end : ℕ
  pub step : ℕ

-- The part in front of `/`, and the step.
unfoldable pub parse_step : Text → KelvinResult (Text × ℕ)
parse_step item = elim (split_once b'/' item) [
  | none ↦ ok (trim item, 1)
  | some (range, step) ↦ do
    parsed ←
        ok_or (parse_usize (trim step))
          (invalid_input (with_text (literal "invalid cron step '{}'") (trim step)))
    refuse_if (parsed == 0) (invalid_input (literal "cron step must be >= 1"))
    ok (trim range, parsed)
]

unfoldable pub parse_range : Text → ℕ → ℕ → Bool → KelvinResult (ℕ × ℕ)
parse_range range lo hi sunday_alias =
    if text_eq range (lit "*") then ok (lo, hi) else elim (split_once b'-' range) [
      | some (start, end) ↦ do
        s ← parse_value (trim start) lo hi sunday_alias
        e ← parse_value (trim end) lo hi sunday_alias
        ok (s, e)
      | none ↦ do value ← parse_value range lo hi sunday_alias; ok (value, value)
    ]

-- The body of the loop over the items, up to the marking.
unfoldable pub parse_item : Text → ℕ → ℕ → Bool → KelvinResult Span
parse_item item lo hi sunday_alias = do
  (range, step) ← parse_step item
  (start, end) ← parse_range range lo hi sunday_alias
  refuse_if (ltb end start) (invalid_input (with_text (literal "invalid cron range '{}'") range))
  ok (record { start = start; end = end; step = step })

-- `while value <= end { field[value] = true; value = value.saturating_add(step); … }`
unfoldable pub mark : ℕ → ℕ → ℕ → ℕ → List Bool → List Bool
mark zero value end step field = field
mark (suc fuel) value end step field =
    let next = min (value + step) usize_max in
    let rest = mark fuel next end step (set field value true) in
    let last = set field value true in
    if leb value end then (if next == 0 then last else rest) else field

-- `end + 1` rounds are enough, since the step is positive.
unfoldable pub mark_span : Span → List Bool → List Bool
unfolding mark
mark_span span field = mark (span.end + 1) span.start span.end span.step field

unfoldable pub parse_items : List Text → ℕ → ℕ → Bool → List Bool → KelvinResult (List Bool)
parse_items [] lo hi sunday_alias field = ok field
parse_items (item ∷ items) lo hi sunday_alias field = parse_item item lo hi sunday_alias >>= λ span.
    parse_items items lo hi sunday_alias (mark_span span field)

unfoldable pub parse_field : Text → ℕ → ℕ → Bool → KelvinResult (List Bool)
parse_field raw lo hi sunday_alias = do
  refuse_if (is_empty (trim raw)) (invalid_input (literal "cron contains empty field"))
  parse_items (split b',' raw) lo hi sunday_alias (replicate (hi + 1) false)

unfoldable pub parse_parts : Text → List Text → KelvinResult CronSchedule
parse_parts trimmed (m ∷ h ∷ d ∷ mo ∷ w ∷ []) = do
  minutes ← parse_field m 0 59 false
  hours ← parse_field h 0 23 false
  month_days ← parse_field d 1 31 false
  months ← parse_field mo 1 12 false
  week_days ← parse_field w 0 7 true
  ok (record {
    raw = trimmed;
    minutes = minutes;
    hours = hours;
    month_days = month_days;
    months = months;
    week_days = week_days;
    month_days_wild = text_eq (trim d) (lit "*");
    week_days_wild = text_eq (trim w) (lit "*");
  })
parse_parts trimmed _ = err (invalid_input (literal "cron must have exactly 5 fields"))

unfoldable pub parse : Text → KelvinResult CronSchedule
unfolding parse_parts
parse raw = let trimmed = trim raw in parse_parts trimmed (split_whitespace trimmed)
