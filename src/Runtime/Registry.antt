-- ===== src/Runtime/Registry.antt =====
-- `RunRegistry` of crates/kelvin-core/src/runtime.rs. The two levels of locks are one map: an
-- operation is one step, but `wait`, which reads the map anew at each wake.
use kelvinclaw.Prelude.{ℕ, Option, none, some, List, [], ◌∷◌}
use kelvinclaw.Prelude.Text.{Text}
use kelvinclaw.Prelude.Map.{lookup, insert}
use kelvinclaw.Prelude.Error.{
  Message, KelvinResult, ok, err, invalid_input, not_found, literal, with_text, ok_or, ◌>>=◌,
}
use kelvinclaw.Runtime.Types.{
  AgentRunResult, AgentWaitResult, ended_ok, ended_error, timed_out, RunPhase, phase_accepted,
  phase_running, phase_completed, phase_failed, RunState, RunStatus, accepted, running, completed,
  failed, RunRecord, StoredRunResult, stored_completed, stored_failed,
}

abbrev pub RunRegistry : Type 0
RunRegistry = List (Text × RunRecord)

abbrev pub accepted_record : ℕ → Text → RunRecord
accepted_record now run_id = record {
  run_id = run_id;
  started_at_ms = now;
  ended_at_ms = none;
  status = accepted;
}

unfoldable pub register : ℕ → Text → RunRegistry → KelvinResult RunRegistry
register now run_id runs = elim (lookup run_id runs) [
  | some r ↦ err (invalid_input (with_text (literal "run id already exists: {run_id}") run_id))
  | none ↦ ok (insert run_id (accepted_record now run_id) runs)
]

unfoldable pub get_record : Text → RunRegistry → KelvinResult RunRecord
get_record run_id runs =
    ok_or (lookup run_id runs) (not_found (with_text (literal "unknown run id: {run_id}") run_id))

abbrev pub phase_of : RunStatus → RunPhase × Option Message
phase_of accepted = (phase_accepted, none)
phase_of running = (phase_running, none)
phase_of (completed result) = (phase_completed, none)
phase_of (failed error) = (phase_failed, some error)

unfoldable pub state : Text → RunRegistry → KelvinResult RunState
state run_id runs = get_record run_id runs >>= λ guard. ok (record {
  run_id = guard.run_id;
  phase = (phase_of guard.status).0;
  started_at_ms = guard.started_at_ms;
  ended_at_ms = guard.ended_at_ms;
  error = (phase_of guard.status).1;
})

unfoldable pub mark_running : Text → RunRegistry → KelvinResult RunRegistry
mark_running run_id runs =
    get_record run_id runs >>= λ guard. ok (insert run_id (record guard { status = running }) runs)

-- What `mark_completed` and `mark_failed` do to the record.
abbrev pub ended : ℕ → RunStatus → RunRecord → RunRecord
ended now status guard = record guard { ended_at_ms = some now; status = status }

unfoldable pub mark_completed : ℕ → Text → AgentRunResult → RunRegistry → KelvinResult RunRegistry
mark_completed now run_id result runs =
    get_record run_id runs >>= λ guard. ok (insert run_id (ended now (completed result) guard) runs)

unfoldable pub mark_failed : ℕ → Text → Message → RunRegistry → KelvinResult RunRegistry
mark_failed now run_id error runs =
    get_record run_id runs >>= λ guard. ok (insert run_id (ended now (failed error) guard) runs)

-- One turn of the loop of `wait`: the answer, where the run has ended.
abbrev pub wait_answer : RunRecord → RunStatus → Option AgentWaitResult
wait_answer guard (completed result) = some (record {
  status = ended_ok;
  started_at_ms = guard.started_at_ms;
  ended_at_ms = guard.ended_at_ms;
  error = none;
})
wait_answer guard (failed error) = some (record {
  status = ended_error;
  started_at_ms = guard.started_at_ms;
  ended_at_ms = guard.ended_at_ms;
  error = some error;
})
wait_answer guard accepted = none
wait_answer guard running = none

abbrev pub wait_timeout : RunRecord → AgentWaitResult
wait_timeout guard = record {
  status = timed_out;
  started_at_ms = guard.started_at_ms;
  ended_at_ms = none;
  error = none;
}

-- `wait`: the registry at the first read, and at each read that a notification led to; after the
-- last of them the time runs out.
unfoldable pub wait : Text → RunRegistry → List RunRegistry → KelvinResult AgentWaitResult
wait run_id runs [] = get_record run_id runs >>= λ guard. elim (wait_answer guard guard.status) [
  | some answer ↦ ok answer
  | none ↦ ok (wait_timeout guard)
]
wait run_id runs (next ∷ wakes) =
    let rest = wait run_id next wakes in
    get_record run_id runs >>= λ guard. elim (wait_answer guard guard.status) [
      | some answer ↦ ok answer
      | none ↦ rest
    ]

abbrev pub stored_result : RunStatus → Option StoredRunResult
stored_result (completed result) = some (stored_completed result)
stored_result (failed error) = some (stored_failed error)
stored_result accepted = none
stored_result running = none

unfoldable pub result : Text → RunRegistry → KelvinResult (Option StoredRunResult)
result run_id runs = get_record run_id runs >>= λ guard. ok (stored_result guard.status)
