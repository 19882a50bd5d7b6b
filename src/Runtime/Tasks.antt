-- ===== src/Runtime/Tasks.antt =====
-- `CoreRuntime` of crates/kelvin-core/src/runtime.rs, with the tasks that `submit` spawns as
-- state machines, and the steps that the tasks and the clients take in any order.
use kelvinclaw.Prelude.{ℕ, Bool, Option, none, some, List, [], ◌∷◌, ◌++◌, ◌≡◌, get_elem?, set}
use kelvinclaw.Prelude.Text.{Text}
use kelvinclaw.Prelude.Error.{KelvinResult, ok, err, to_message, ◌>>=◌}
use kelvinclaw.Prelude.Exec.{Exec}
use kelvinclaw.Runtime.Types.{
  AgentRunRequest, AgentRunResult, WaitStatus, ended_ok, ended_error, timed_out, RunAccepted,
  RunOutcome, outcome_completed, outcome_failed, outcome_timeout, StoredRunResult, stored_completed,
  stored_failed,
}
use kelvinclaw.Runtime.Registry.{
  RunRegistry, register, mark_running, mark_completed, mark_failed, wait, result,
}
use kelvinclaw.Runtime.Lanes.{
  LaneScheduler, new, get_session_lane, lock_session, unlock_session, lock_global, unlock_global,
}

-- Where a spawned task stands: before `mark_running`, before `get_session_lane`, at the lock of
-- the session lane, at the test of `use_global_lane`, in `brain.run`, at the end of the session
-- guard, before the result is marked, and at its end.
pub data Pc : Type 0 where
  spawned : Pc
  marked : Pc
  queued : Pc
  in_lane : Pc
  in_brain : Pc
  leaving : KelvinResult AgentRunResult → Pc
  returned : KelvinResult AgentRunResult → Pc
  done : Pc

pub record Task : Type 0 where
  pub req : AgentRunRequest
  pub pc : Pc

-- The brain is a parameter of the runtime: its result is for the step to choose.
pub record CoreRuntime : Type 0 where
  pub scheduler : LaneScheduler
  pub registry : RunRegistry

pub record System : Type 0 where
  pub runtime : CoreRuntime
  pub tasks : List Task

-- A runtime without runs, as `CoreRuntime::new` and `with_components` make it.
abbrev pub init : Bool → System
init use_global_lane = record {
  runtime = record { scheduler = new use_global_lane; registry = [] };
  tasks = [];
}

-- `submit`: the run is registered and its task spawned.
unfoldable pub submit : ℕ → AgentRunRequest → Exec System RunAccepted
submit now req s = elim (register now req.run_id s.runtime.registry) [
  | err e ↦ (err e, s)
  | ok runs ↦ (
    ok (record { run_id = req.run_id; accepted_at_ms = now }),
    record {
      runtime = record (s.runtime) { registry = runs };
      tasks = s.tasks ++ record { req = req; pc = spawned } ∷ [];
    },
  )
]

-- `let _ = …`: an error is dropped.
abbrev pub ignored : RunRegistry → KelvinResult RunRegistry → RunRegistry
ignored runs (ok after) = after
ignored runs (err e) = runs

unfoldable pub mark_result :
    ℕ → Text → KelvinResult AgentRunResult → RunRegistry → KelvinResult RunRegistry
mark_result now run_id (ok run_result) runs = mark_completed now run_id run_result runs
mark_result now run_id (err e) runs = mark_failed now run_id (to_message e) runs

abbrev pub with_scheduler : CoreRuntime → LaneScheduler → CoreRuntime
with_scheduler rt s = record rt { scheduler = s }

abbrev pub with_registry : CoreRuntime → RunRegistry → CoreRuntime
with_registry rt runs = record rt { registry = runs }

-- One step of a spawned task, at the time `now` and with what the brain answers; `none` where it
-- has to wait for a lock.
unfoldable pub turn :
    ℕ → KelvinResult AgentRunResult → AgentRunRequest → Pc → CoreRuntime → Option (CoreRuntime × Pc)
turn now answer req spawned rt = elim (mark_running req.run_id rt.registry) [
  | ok runs ↦ some (with_registry rt runs, marked)
  | err e ↦ some (rt, done)
]
turn now answer req marked rt =
    some (with_scheduler rt (get_session_lane req.session_key rt.scheduler), queued)
turn now answer req queued rt = elim (lock_session req.session_key rt.scheduler) [
  | some s ↦ some (with_scheduler rt s, in_lane)
  | none ↦ none
]
turn now answer req in_lane rt = elim (lock_global rt.scheduler) [
  | some s ↦ some (with_scheduler rt s, in_brain)
  | none ↦ none
]
turn now answer req in_brain rt =
    some (with_scheduler rt (unlock_global rt.scheduler), leaving answer)
turn now answer req (leaving r) rt =
    some (with_scheduler rt (unlock_session req.session_key rt.scheduler), returned r)
turn now answer req (returned r) rt =
    some (with_registry rt (ignored rt.registry (mark_result now req.run_id r rt.registry)), done)
turn now answer req done rt = none

-- The task at `i` moves on.
abbrev pub moved : List Task → ℕ → AgentRunRequest → CoreRuntime × Pc → System
moved tasks i req (rt, pc) = record {
  runtime = rt;
  tasks = set tasks i (record { req = req; pc = pc });
}

-- The task at `i` takes a step.
pub data Turn (s t : System) : Type 0 where
  turned :
      (i now : ℕ) (answer : KelvinResult AgentRunResult) (task : Task) (r : CoreRuntime × Pc)
      → get_elem? s.tasks i ≡ some task
      → turn now answer task.req task.pc s.runtime ≡ some r
      → t ≡ moved s.tasks i task.req r
      → Turn s t

pub data Step (s t : System) : Type 0 where
  submitted : (now : ℕ) (req : AgentRunRequest) → t ≡ (submit now req s).1 → Step s t
  stepped : Turn s t → Step s t

pub data Reach (s : System) : System → Type 0 where
  here : Reach s s
  later : {t u : System} → Reach s t → Step t u → Reach s u

abbrev outcome_of : Option StoredRunResult → RunOutcome
outcome_of (some (stored_completed run)) = outcome_completed run
outcome_of (some (stored_failed error)) = outcome_failed error
outcome_of none = outcome_timeout

-- The `match` on the answer of `wait`, with the registry at the call of `result`.
abbrev outcome_after : Text → RunRegistry → WaitStatus → KelvinResult RunOutcome
outcome_after run_id runs timed_out = ok outcome_timeout
outcome_after run_id runs ended_ok = result run_id runs >>= λ stored. ok (outcome_of stored)
outcome_after run_id runs ended_error = result run_id runs >>= λ stored. ok (outcome_of stored)

-- `wait_for_outcome`: the registries that `wait` reads, and the one that `result` reads after it.
unfoldable pub wait_for_outcome :
    Text → RunRegistry → List RunRegistry → RunRegistry → KelvinResult RunOutcome
wait_for_outcome run_id runs wakes last =
    wait run_id runs wakes >>= λ answer. outcome_after run_id last answer.status
