-- ===== src/Runtime/Liveness.antt =====
-- That a run which has not ended never leaves the runtime at rest.
use kelvinclaw.Prelude.{
  ℕ, ◌≡◌, inl, inr, refl, sym, ap, ◌∙◌, arith, Bool, true, false, Option, none, some, get_elem?,
}
use kelvinclaw.Prelude.Text.{Text, text_eq_iff}
use kelvinclaw.Prelude.Map.{lookup}
use kelvinclaw.Prelude.Error.{KelvinResult}
use kelvinclaw.Runtime.Types.{AgentRunRequest, AgentRunResult, RunRecord, RunStatus}
use kelvinclaw.Runtime.Lanes.{is_locked, lock_session, lock_global}
use kelvinclaw.Runtime.Tasks.{
  Pc, spawned, marked, queued, in_lane, in_brain, leaving, returned, done, Task, CoreRuntime,
  System, init, turn, moved, Turn, turned, Reach,
}
use kelvinclaw.Runtime.Counting.{count, count-search, count-le}
use kelvinclaw.Runtime.Marks.{is_final, is_registered, fits, agrees}
use kelvinclaw.Runtime.Invariant.{Inv, AgreesIn, init-Inv, Reach-Inv, in_session, in_global, has_id}

-- The places at which a task waits for no lock.
abbrev is_ready : Task → Bool
is_ready task = elim task.pc [ queued ↦ false | in_lane ↦ false | done ↦ false | _ ↦ true ]

abbrev is_past_queue : Task → Bool
is_past_queue task = elim task.pc [ queued ↦ false | done ↦ false | _ ↦ true ]

abbrev is_unfinished : Task → Bool
is_unfinished task = elim task.pc [ done ↦ false | _ ↦ true ]

abbrev is_some : Option (CoreRuntime × Pc) → Bool
is_some none = false
is_some (some r) = true

is_some-elim :
    (o : Option (CoreRuntime × Pc)) → is_some o ≡ true → (r : CoreRuntime × Pc) × (o ≡ some r)
is_some-elim none h = cc
is_some-elim (some r) h = (r, refl)

module _ (now : ℕ) (answer : KelvinResult AgentRunResult) (req : AgentRunRequest)
    (rt : CoreRuntime) where
  ready-turns :
      (pc : Pc)
      → is_ready (record { req = req; pc = pc }) ≡ true
      → is_some (turn now answer req pc rt) ≡ true
  unfolding turn
  ready-turns spawned h = ground arith
  ready-turns marked h = refl
  ready-turns queued h = cc
  ready-turns in_lane h = cc
  ready-turns in_brain h = refl
  ready-turns (leaving r) h = refl
  ready-turns (returned r) h = refl
  ready-turns done h = cc

  in_lane-turns :
      (rt.scheduler.use_global_lane ≡ true → rt.scheduler.global_lane ≡ false)
      → is_some (turn now answer req in_lane rt) ≡ true
  unfolding turn lock_global
  in_lane-turns h = ground arith

  queued-turns :
      is_locked req.session_key rt.scheduler ≡ false
      → is_some (turn now answer req queued rt) ≡ true
  unfolding turn lock_session
  queued-turns h = ground arith

  -- A task that is past the queue but waits, waits for the global lane.
  past_queue-turns :
      (pc : Pc)
      → is_past_queue (record { req = req; pc = pc }) ≡ true
      → (rt.scheduler.use_global_lane ≡ true → rt.scheduler.global_lane ≡ false)
      → is_some (turn now answer req pc rt) ≡ true
  past_queue-turns in_lane h g = in_lane-turns g
  past_queue-turns queued h g = cc
  past_queue-turns done h g = cc
  past_queue-turns spawned h g = ready-turns spawned refl
  past_queue-turns marked h g = ready-turns marked refl
  past_queue-turns in_brain h g = ready-turns in_brain refl
  past_queue-turns (leaving r) h g = ready-turns (leaving r) refl
  past_queue-turns (returned r) h g = ready-turns (returned r) refl

  unfinished-turns :
      (pc : Pc)
      → is_unfinished (record { req = req; pc = pc }) ≡ true
      → (rt.scheduler.use_global_lane ≡ true → rt.scheduler.global_lane ≡ false)
      → is_locked req.session_key rt.scheduler ≡ false
      → is_some (turn now answer req pc rt) ≡ true
  unfinished-turns queued h g l = queued-turns l
  unfinished-turns done h g l = cc
  unfinished-turns in_lane h g l = in_lane-turns g
  unfinished-turns spawned h g l = ready-turns spawned refl
  unfinished-turns marked h g l = ready-turns marked refl
  unfinished-turns in_brain h g l = ready-turns in_brain refl
  unfinished-turns (leaving r) h g l = ready-turns (leaving r) refl
  unfinished-turns (returned r) h g l = ready-turns (returned r) refl

turn_of :
    (now : ℕ) (answer : KelvinResult AgentRunResult) (s : System) (i : ℕ) (task : Task)
    → get_elem? s.tasks i ≡ some task
    → is_some (turn now answer task.req task.pc s.runtime) ≡ true
    → (t : System) × Turn s t
turn_of now answer s i task at_i h =
    let (r, e) = is_some-elim (turn now answer task.req task.pc s.runtime) h in
    (moved s.tasks i task.req r, turned i now answer task r at_i e refl)

-- Where no task is in the brain the global lane is free, and where none is past the queue every
-- session lane is.
global-free :
    (s : System)
    → Inv s
    → count is_ready s.tasks ≡ 0
    → s.runtime.scheduler.use_global_lane ≡ true
    → s.runtime.scheduler.global_lane ≡ false
global-free s inv none_ready g = ground (
  arith,
  inv.global,
  count-le (in_global s.runtime.scheduler.use_global_lane) is_ready s.tasks in_global-is_ready,
)
  where
    in_global-is_ready :
        (x : Task) → in_global s.runtime.scheduler.use_global_lane x ≡ true → is_ready x ≡ true
    in_global-is_ready x h = ground arith

session-free :
    (s : System) (key : Text)
    → Inv s
    → count is_past_queue s.tasks ≡ 0
    → is_locked key s.runtime.scheduler ≡ false
session-free s key inv none_past = ground (
  arith,
  inv.sessions key,
  count-le (in_session key) is_past_queue s.tasks in_session-is_past_queue,
)
  where
    in_session-is_past_queue : (x : Task) → in_session key x ≡ true → is_past_queue x ≡ true
    in_session-is_past_queue x h = ground arith

unfinished_moves :
    (now : ℕ) (answer : KelvinResult AgentRunResult) (s : System) (i : ℕ) (task : Task)
    → Inv s
    → get_elem? s.tasks i ≡ some task
    → is_unfinished task ≡ true
    → (t : System) × Turn s t
unfinished_moves now answer s i task inv at_i h = elim (count-search is_ready s.tasks) [
  | inl (j, x, at_j, q) ↦
      turn_of now answer s j x at_j (ready-turns now answer x.req s.runtime x.pc q)
  | inr none_ready ↦
      let g = global-free s inv none_ready in
      elim (count-search is_past_queue s.tasks) [
        | inl (j, x, at_j, q) ↦
            turn_of now answer s j x at_j (past_queue-turns now answer x.req s.runtime x.pc q g)
        | inr none_past ↦ turn_of now answer s i task at_i (
            unfinished-turns now answer task.req s.runtime task.pc h g
              (session-free s task.req.session_key inv none_past))
      ]
]

fits-open :
    (pc : Pc) (st : RunStatus) (req : AgentRunRequest)
    → fits pc st ≡ true
    → is_final st ≡ false
    → is_unfinished (record { req = req; pc = pc }) ≡ true
fits-open done st req f h = ground arith
fits-open spawned st req f h = refl
fits-open marked st req f h = refl
fits-open queued st req f h = refl
fits-open in_lane st req f h = refl
fits-open in_brain st req f h = refl
fits-open (leaving r) st req f h = refl
fits-open (returned r) st req f h = refl

open-unfinished :
    (s : System) (id : Text) (r : RunRecord) (task : Task)
    → AgreesIn s.runtime.registry task
    → lookup id s.runtime.registry ≡ some r
    → is_final r.status ≡ false
    → task.req.run_id ≡ id
    → is_unfinished task ≡ true
open-unfinished s id r task a e f q =
    fits-open task.pc r.status task.req
      (sym (ap (agrees task.pc) (ap (λ k. lookup k s.runtime.registry) q ∙ e)) ∙ a) f

task_missing :
    (id : Text) (s : System)
    → Inv s
    → (r : RunRecord) → lookup id s.runtime.registry ≡ some r
    → ¬ (count (has_id id) s.tasks ≡ 0)
unfolding is_registered
task_missing id s inv r e none_of = ground (arith, inv.ids id)

-- While a registered run has not ended, some task can take a turn, at any time and with whatever
-- the brain answers: the lanes never lock each other out.
pub open_run-turns :
    (use_global_lane : Bool) (s : System) (id : Text) (r : RunRecord) (now : ℕ)
    (answer : KelvinResult AgentRunResult)
    → Reach (init use_global_lane) s
    → lookup id s.runtime.registry ≡ some r
    → is_final r.status ≡ false
    → (t : System) × Turn s t
open_run-turns use_global_lane s id r now answer from e f =
    elim (count-search (has_id id) s.tasks) [
      | inl (i, task, at_i, q) ↦ unfinished_moves now answer s i task inv at_i (
          open-unfinished s id r task (inv.agreement i task at_i) e f
            ((text_eq_iff task.req.run_id id).0 q))
      | inr none_of ↦ absurd (task_missing id s inv r e none_of)
    ]
  where
    inv : Inv s
    inv = Reach-Inv (init-Inv use_global_lane) from
