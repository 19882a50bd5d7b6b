-- ===== src/Scheduler/Cron/Field.antt =====
-- What a parsed cron field holds: exactly the values of its items.
use native.Mathlib.Nat.{mod-eq_of_lt, mod-eq-sub-mod}
use native.Mathlib.Decide.{dec_lt, dec_le}
use kelvinclaw.Prelude.{
  ℕ, zero, suc, ◌+◌, ◌-◌, ◌%◌, ◌≤◌, ◌<◌, min, Bool, true, false, ◌&&◌, ◌||◌, ◌≡◌, refl, arith, List,
  [], ◌∷◌, leb, ◌==◌, get_or, set, replicate, length, length-set, length-replicate, any, Bool-cases,
  inl, inr, leb→le, sym, ◌∙◌,
}
use kelvinclaw.Prelude.Text.{Text, trim, is_empty}
use kelvinclaw.Prelude.Parse.{split, usize_max}
use kelvinclaw.Prelude.Error.{KelvinResult, ok, err, ◌>>=◌}
use kelvinclaw.Scheduler.Cron.{
  Span, mark, mark_span, parse_step, parse_range, parse_value, parse_item, parse_items, parse_field,
}

-- `v` is one of `start`, `start + step`, … up to `end`.
abbrev pub covers : Span → ℕ → Bool
covers span v = leb span.start v && leb v span.end && ((v - span.start) % span.step == 0)

-- The items of a field, read one by one.
pub spans : List Text → ℕ → ℕ → Bool → KelvinResult (List Span)
spans [] lo hi sunday_alias = ok []
spans (item ∷ items) lo hi sunday_alias = parse_item item lo hi sunday_alias >>= λ span.
    spans items lo hi sunday_alias >>= λ rest. ok (span ∷ rest)

get_or-set :
    (field : List Bool) (i v : ℕ)
    → i < length field
    → get_or (set field i true) v false ≡ (get_or field v false || (i == v))
get_or-set [] i v h = elim h [ ]
get_or-set (b ∷ bs) zero zero h = ground arith
get_or-set (b ∷ bs) zero (suc v) h = ground arith
get_or-set (b ∷ bs) (suc i) zero h = ground arith
get_or-set (b ∷ bs) (suc i) (suc v) h = ground (arith, get_or-set bs i v)

in_steps : ℕ → ℕ → ℕ → ℕ → Bool
in_steps start end step v = leb start v && leb v end && ((v - start) % step == 0)

-- One round of the loop covers `start`, and the rest is covered from `start + step` on.
in_steps-suc :
    (start end step v : ℕ)
    → 0 < step
    → start ≤ end
    → in_steps start end step v ≡ ((start == v) || in_steps (start + step) end step v)
unfolding in_steps
in_steps-suc start end step v p h = elim (dec_lt (v - start) step) [
  | yes q ↦ (let e : (v - start) % step ≡ v - start = mod-eq_of_lt q in ground arith)
  | no q ↦
      (let e : (v - start) % step ≡ (v - start - step) % step = mod-eq-sub-mod (omega arith) in
        let e' : v - start - step ≡ v - (start + step) = omega arith in ground (arith, rw e' at e))
]

in_steps-above : (start end step v : ℕ) → end < start → in_steps start end step v ≡ false
unfolding in_steps
in_steps-above start end step v h = ground arith

-- The saturating addition of the loop does not change what it covers.
in_steps-next :
    (value end step v : ℕ)
    → end < usize_max
    → in_steps (min (value + step) usize_max) end step v ≡ in_steps (value + step) end step v
in_steps-next value end step v u = elim (dec_le (value + step) usize_max) [
  | yes q ↦ (let e : min (value + step) usize_max ≡ value + step = omega arith in rw e)
  | no q ↦
      (in_steps-above (min (value + step) usize_max) end step v (omega arith)
        ∙ sym (in_steps-above (value + step) end step v (omega arith)))
]

next_positive : (value step : ℕ) → 0 < step → (min (value + step) usize_max == 0) ≡ false
next_positive value step p = ground arith

-- The loop marks the values that the span covers, and keeps the others as they were.
mark_lem :
    (fuel value end step : ℕ) (field : List Bool) (v : ℕ)
    → 0 < step
    → end < usize_max
    → end < length field
    → end + 1 ≤ value + fuel
    → get_or (mark fuel value end step field) v false
      ≡ (get_or field v false || in_steps value end step v)
unfolding mark
mark_lem zero value end step field v p u b f = ground (arith, in_steps-above value end step v)
mark_lem (suc fuel) value end step field v p u b f = elim (Bool-cases (leb value end)) [
  | inl more ↦
      rw (more, next_positive value step p)
        (ground (
          arith,
          mark_lem fuel (min (value + step) usize_max) end step (set field value true) v p u
              (rw (length-set field value true) b) (omega arith),
          get_or-set field value v (omega (arith, leb→le value end more)),
          in_steps-suc value end step v p (leb→le value end more),
          in_steps-next value end step v u,
        ))
  | inr done ↦ rw done (ground (arith, in_steps-above value end step v))
]

-- What the marking relies on: the values lie in the field's range, and the step is positive.
pub record IsInRange (lo hi : ℕ) (span : Span) : Type 0 where
  pub above : lo ≤ span.start
  pub ordered : span.start ≤ span.end
  pub below : span.end ≤ hi
  pub stepping : 0 < span.step

parse_value-range :
    (raw : Text) (lo hi : ℕ) (sunday_alias : Bool) (v : ℕ)
    → parse_value raw lo hi sunday_alias ≡ ok v
    → (lo ≤ v) × (v ≤ hi)
unfolding parse_value
parse_value-range raw lo hi sunday_alias v h = ground arith

parse_step-positive : (item : Text) (p : Text × ℕ) → parse_step item ≡ ok p → 0 < p.1
unfolding parse_step
parse_step-positive item p h = ground arith

parse_range-range :
    (range : Text) (lo hi : ℕ) (sunday_alias : Bool) (p : ℕ × ℕ)
    → lo ≤ hi
    → parse_range range lo hi sunday_alias ≡ ok p
    → (lo ≤ p.0) × (p.1 ≤ hi)
unfolding parse_range
parse_range-range range lo hi sunday_alias p o h = grind (arith, parse_value-range)

pub parse_item-IsInRange :
    (item : Text) (lo hi : ℕ) (sunday_alias : Bool) (span : Span)
    → lo ≤ hi
    → parse_item item lo hi sunday_alias ≡ ok span
    → IsInRange lo hi span
unfolding parse_item
parse_item-IsInRange item lo hi sunday_alias span o h =
    grind (arith, parse_step-positive, parse_range-range)

mark_span-get :
    (lo hi : ℕ) (span : Span) (field : List Bool) (v : ℕ)
    → hi < usize_max
    → hi < length field
    → IsInRange lo hi span
    → get_or (mark_span span field) v false ≡ (get_or field v false || covers span v)
unfolding mark_span in_steps
mark_span-get lo hi span field v u b r =
    mark_lem (span.end + 1) span.start span.end span.step field v r.stepping
      (omega (arith, r.below)) (omega (arith, r.below)) (omega arith)

-- The items of a list, read by `parse_items` from any field, mark what they cover.
pub record Reads (items : List Text) (lo hi : ℕ) (sunday_alias : Bool) (field out : List Bool)
    : Type 0 where
  pub read : List Span
  pub spelled : spans items lo hi sunday_alias ≡ ok read
  pub sized : length out ≡ length field
  pub marked :
      (v : ℕ) → get_or out v false ≡ (get_or field v false || any (λ span. covers span v) read)

length-mark :
    (fuel value end step : ℕ) (field : List Bool)
    → length (mark fuel value end step field) ≡ length field
unfolding mark
length-mark zero value end step field = refl
length-mark (suc fuel) value end step field = ground (
  arith,
  length-mark fuel (min (value + step) usize_max) end step (set field value true),
  length-set field value true,
)

length-mark_span : (span : Span) (field : List Bool) → length (mark_span span field) ≡ length field
unfolding mark_span
length-mark_span span field = length-mark (span.end + 1) span.start span.end span.step field

module _ (lo hi : ℕ) (sunday_alias : Bool) (o : lo ≤ hi) (u : hi < usize_max) where
  parse_items-Reads :
      (items : List Text) (field out : List Bool)
      → hi < length field
      → parse_items items lo hi sunday_alias field ≡ ok out
      → Reads items lo hi sunday_alias field out
  unfolding parse_items spans any
  parse_items-Reads [] field out b h =
      let e : field ≡ out = cc in
      record { read = []; spelled = refl; sized = rw e; marked = λ v. ground arith }
  parse_items-Reads (item ∷ items) field out b h =
      go (parse_items-Reads items) (parse_item item lo hi sunday_alias) refl
    where
      go :
          ((f g : List Bool)
            → hi < length f
            → parse_items items lo hi sunday_alias f ≡ ok g
            → Reads items lo hi sunday_alias f g)
          → (r : KelvinResult Span) → parse_item item lo hi sunday_alias ≡ r
          → Reads (item ∷ items) lo hi sunday_alias field out
      go ih (err x) e = cc (rw e at h)
      go ih (ok span) e =
          let sized = length-mark_span span field in
          let later = ih (mark_span span field) out (omega (arith, sized)) (rw e at h) in
          record {
            read = span ∷ later.read;
            spelled = rw (e, later.spelled);
            sized = later.sized ∙ sized;
            marked = λ v. ground (
              arith,
              later.marked v,
              mark_span-get lo hi span field v u b
                  (parse_item-IsInRange item lo hi sunday_alias span o e),
            );
          }

get_or-replicate-false : (n v : ℕ) → get_or (replicate n false) v false ≡ false
get_or-replicate-false zero v = refl
get_or-replicate-false (suc n) zero = refl
get_or-replicate-false (suc n) (suc v) = get_or-replicate-false n v

-- A field for the values from `lo` to `hi`, with `lo` at most `hi` and `hi` below the bound of
-- usize, that `parse_field` accepts has one flag for each value up to `hi`; the flag of a value
-- is set exactly if one of the comma-separated items, read as a start, an end and a step, covers
-- it.
pub parse_field-marks_items :
    (raw : Text) (lo hi : ℕ) (sunday_alias : Bool) (out : List Bool)
    → lo ≤ hi
    → hi < usize_max
    → parse_field raw lo hi sunday_alias ≡ ok out
    → (read : List Span) × (spans (split b',' raw) lo hi sunday_alias ≡ ok read)
      × (length out ≡ hi + 1)
      × ((v : ℕ) → get_or out v false ≡ any (λ span. covers span v) read)
unfolding parse_field
parse_field-marks_items raw lo hi sunday_alias out o u h = go (is_empty (trim raw)) refl
  where
    fresh : length (replicate (hi + 1) false) ≡ hi + 1
    fresh = length-replicate (hi + 1) false

    go :
        (b : Bool)
        → is_empty (trim raw) ≡ b
        → (read : List Span) × (spans (split b',' raw) lo hi sunday_alias ≡ ok read)
          × (length out ≡ hi + 1)
          × ((v : ℕ) → get_or out v false ≡ any (λ span. covers span v) read)
    go true e = cc (rw e at h)
    go false e =
        let reads =
          parse_items-Reads lo hi sunday_alias o u (split b',' raw) (replicate (hi + 1) false) out
            (omega (arith, fresh)) (rw e at h) in
        (
          reads.read,
          reads.spelled,
          reads.sized ∙ fresh,
          λ v. ground (arith, reads.marked v, get_or-replicate-false (hi + 1) v),
        )
