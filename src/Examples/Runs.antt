-- ===== src/Examples/Runs.antt =====
-- Runs of crates/kelvin-core/src/runtime.rs at concrete requests.
use kelvinclaw.Prelude.{
  ℕ, ◌≡◌, refl, Bool, true, false, Option, none, some, List, [], ◌∷◌, get_elem?,
}
use kelvinclaw.Prelude.Text.{Text, lit, text_eq}
use kelvinclaw.Prelude.Map.{lookup, insert}
use kelvinclaw.Runtime.Registry.{register, get_record, mark_running, mark_failed}
use kelvinclaw.Runtime.Lanes.{
  get_session_lane, lock_session, is_locked, lock_global, unlock_global, unlock_session,
}
use kelvinclaw.Prelude.Error.{KelvinResult, ok, err, timeout, literal, with_message, to_message}
use kelvinclaw.Runtime.Types.{
  AgentRunRequest, AgentRunResult, RunRecord, RunOutcome, failed, accepted,
}
use kelvinclaw.Runtime.Marks.{is_registered}
use kelvinclaw.Runtime.Safety.{lane-excludes, global_lane-excludes, submit-once}
use kelvinclaw.Runtime.Outcomes.{outcome-stays}
use kelvinclaw.Runtime.Waiting.{asked, woken, waited, Tells, wait_for_outcome-Tells}
use kelvinclaw.Runtime.Liveness.{open_run-turns}
use kelvinclaw.Runtime.Tasks.{
  Pc, queued, in_brain, Task, CoreRuntime, System, init, submit, turn, moved, Turn, turned,
  submitted, stepped, Reach, here, later, mark_result,
}

abbrev request : Text → Text → AgentRunRequest
request run_id session_key = record {
  run_id = run_id;
  session_id = session_key;
  session_key = session_key;
  workspace_dir = lit "/w";
  prompt = lit "hello";
  extra_system_prompt = none;
  timeout_ms = none;
  memory_query = none;
  max_tool_iterations = none;
}

abbrev no_answer : KelvinResult AgentRunResult
no_answer = err (timeout (literal "slow"))

-- A system that was reached, and the tasks at these places, one after the other, taking a turn.
abbrev Reached : System → Type 0
Reached s = (t : System) × Reach s t

unfoldable tick : (s t : System) → Reach s t → ℕ → Reached s
tick s t r i = go (get_elem? t.tasks i) refl
  where
    go2 :
        (task : Task)
        → get_elem? t.tasks i ≡ some task
        → (o : Option (CoreRuntime × Pc)) → turn 7 no_answer task.req task.pc t.runtime ≡ o
        → Reached s
    go2 task e none f = (t, r)
    go2 task e (some u) f =
        (moved t.tasks i task.req u, later r (stepped (turned i 7 no_answer task u e f refl)))

    go : (o : Option Task) → get_elem? t.tasks i ≡ o → Reached s
    go none e = (t, r)
    go (some task) e = go2 task e (turn 7 no_answer task.req task.pc t.runtime) refl

unfoldable play : List ℕ → (s t : System) → Reach s t → Reached s
play [] s t r = (t, r)
play (i ∷ is) s t r = let u = tick s t r i in play is s u.0 u.1

abbrev requested : (b : Bool) → System
requested b =
    (submit 5 (request (lit "b") (lit "s")) (submit 4 (request (lit "a") (lit "s")) (init b)).1).1

requested-Reach : (b : Bool) → Reach (init b) (requested b)
requested-Reach b =
    later (later here (submitted 4 (request (lit "a") (lit "s")) refl))
      (submitted 5 (request (lit "b") (lit "s")) refl)

abbrev played : (b : Bool) → List ℕ → Reached (init b)
played b is = play is (init b) (requested b) (requested-Reach b)

-- The first task is in its lane and the second stands at the lock.
second_run_queues :
    (played true (0 ∷ 1 ∷ 0 ∷ 1 ∷ 0 ∷ 1 ∷ 0 ∷ [])).0.tasks
    ≡ record { req = request (lit "a") (lit "s"); pc = in_brain }
      ∷ record { req = request (lit "b") (lit "s"); pc = queued }
      ∷ []
unfolding tick play submit turn register lookup insert text_eq get_record mark_running
    get_session_lane lock_session is_locked lock_global unlock_global unlock_session mark_failed
    mark_result
second_run_queues = refl

abbrev midway : Reached (init true)
midway = played true (0 ∷ 1 ∷ 0 ∷ 1 ∷ 0 ∷ 1 ∷ 0 ∷ [])

abbrev first_task : Task
first_task = record { req = request (lit "a") (lit "s"); pc = in_brain }

lane-excludes_example : ◌≡◌ {A = ℕ} 0 0
unfolding tick play submit turn register lookup insert text_eq get_record mark_running
    get_session_lane lock_session is_locked lock_global unlock_global unlock_session mark_failed
    mark_result is_registered to_message
lane-excludes_example =
    lane-excludes true midway.0 midway.1 0 0 first_task first_task refl refl refl refl refl

global_lane-excludes_example : ◌≡◌ {A = ℕ} 0 0
unfolding tick play submit turn register lookup insert text_eq get_record mark_running
    get_session_lane lock_session is_locked lock_global unlock_global unlock_session mark_failed
    mark_result is_registered to_message
global_lane-excludes_example =
    global_lane-excludes true midway.0 midway.1 0 0 first_task first_task refl refl refl refl refl

submit-once_example : ◌≡◌ {A = ℕ} 0 0
unfolding tick play submit turn register lookup insert text_eq get_record mark_running
    get_session_lane lock_session is_locked lock_global unlock_global unlock_session mark_failed
    mark_result is_registered to_message
submit-once_example = submit-once true midway.0 midway.1 0 0 first_task first_task refl refl refl

-- Both runs after the first has ended, with the error that the brain gave.
abbrev first_ended : Reached (init false)
first_ended = played false (0 ∷ 0 ∷ 0 ∷ 0 ∷ 0 ∷ 0 ∷ 0 ∷ [])

abbrev both_ended : Reached first_ended.0
both_ended = play (1 ∷ 1 ∷ 1 ∷ 1 ∷ 1 ∷ 1 ∷ 1 ∷ []) first_ended.0 first_ended.0 here

abbrev failed_record : RunRecord
failed_record = record {
  run_id = lit "a";
  started_at_ms = 4;
  ended_at_ms = some 7;
  status = failed (with_message (literal "timeout: {0}") (literal "slow"));
}

outcome-stays_example : lookup (lit "a") both_ended.0.runtime.registry ≡ some failed_record
unfolding tick play submit turn register lookup insert text_eq get_record mark_running
    get_session_lane lock_session is_locked lock_global unlock_global unlock_session mark_failed
    mark_result is_registered to_message
outcome-stays_example =
    outcome-stays false first_ended.0 both_ended.0 (lit "a") failed_record first_ended.1
      both_ended.1 refl refl

-- A client reads the run before it has ended and after it.
abbrev before : System
before = requested false

abbrev after : Reached before
after = play (0 ∷ 0 ∷ 0 ∷ 0 ∷ 0 ∷ 0 ∷ 0 ∷ []) before before here

wait_for_outcome-Tells_example :
    (o : RunOutcome) × (waited (lit "a") before (after.0 ∷ []) after.0 ≡ ok o)
    × Tells (lit "a") before (after.0 ∷ []) after.0 o
unfolding tick play submit turn register lookup insert text_eq get_record mark_running
    get_session_lane lock_session is_locked lock_global unlock_global unlock_session mark_failed
    mark_result is_registered to_message
wait_for_outcome-Tells_example =
    wait_for_outcome-Tells false (lit "a") before (after.0 ∷ []) after.0 (requested-Reach false)
      (woken after.1 (asked here)) refl

open_run-turns_example : (t : System) × Turn before t
unfolding tick play submit turn register lookup insert text_eq get_record mark_running
    get_session_lane lock_session is_locked lock_global unlock_global unlock_session mark_failed
    mark_result is_registered to_message
open_run-turns_example =
    open_run-turns false before (lit "a")
      (record { run_id = lit "a"; started_at_ms = 4; ended_at_ms = none; status = accepted }) 9
      no_answer (requested-Reach false) refl refl
