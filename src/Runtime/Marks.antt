-- ===== src/Runtime/Marks.antt =====
-- What one turn of a task changes of the registry.
use kelvinclaw.Prelude.{
  ℕ, ◌≡◌, refl, sym, ap, ◌∙◌, inl, inr, arith, Bool-cases, Bool, true, false, Option, none, some,
}
use kelvinclaw.Prelude.Text.{Text, text_eq, text_eq_iff, text_eq_refl}
use kelvinclaw.Prelude.Map.{lookup, insert, lookup-insert}
use kelvinclaw.Prelude.Error.{KelvinResult, ok, err, to_message}
use kelvinclaw.Runtime.Types.{
  AgentRunRequest, AgentRunResult, RunStatus, accepted, running, completed, failed, RunRecord,
}
use kelvinclaw.Runtime.Registry.{
  RunRegistry, get_record, mark_running, mark_completed, mark_failed, ended,
}
use kelvinclaw.Runtime.Tasks.{
  Pc, spawned, marked, queued, in_lane, in_brain, leaving, returned, done, CoreRuntime, turn,
  mark_result, with_registry, with_scheduler, ignored,
}
use kelvinclaw.Runtime.Lanes.{lock_session, lock_global, LaneScheduler}

abbrev pub is_final : RunStatus → Bool
is_final (completed r) = true
is_final (failed e) = true
is_final _ = false

-- The status that a run has while its task stands at a place.
abbrev pub fits : Pc → RunStatus → Bool
fits spawned accepted = true
fits spawned _ = false
fits done st = is_final st
fits _ running = true
fits _ _ = false

abbrev pub agrees : Pc → Option RunRecord → Bool
agrees pc none = false
agrees pc (some r) = fits pc r.status

abbrev pub found : Option RunRecord → Bool
found none = false
found (some r) = true

-- `contains_key`
unfoldable pub is_registered : Text → RunRegistry → Bool
is_registered k runs = found (lookup k runs)

-- The registry after a step of the task of a run, which then stands at `pc`: only the run's own
-- record is written, and it fits the place.
abbrev pub Marks : Text → Pc → RunRegistry → RunRegistry → Type 0
Marks id pc runs after =
    ((k : Text) → text_eq id k ≡ false → lookup k after ≡ lookup k runs)
    × (agrees pc (lookup id after) ≡ true)

abbrev pub MarksAfter : Text → CoreRuntime → Option (CoreRuntime × Pc) → Type 0
MarksAfter id rt none = Unit
MarksAfter id rt (some (after, pc)) = Marks id pc rt.registry after.registry

abbrev pub ending : KelvinResult AgentRunResult → RunStatus
ending (ok v) = completed v
ending (err e) = failed (to_message e)

ending-final : (r : KelvinResult AgentRunResult) → is_final (ending r) ≡ true
ending-final (ok v) = refl
ending-final (err e) = refl

insert-Marks :
    (id : Text) (pc : Pc) (r : RunRecord) (runs : RunRegistry)
    → fits pc r.status ≡ true
    → Marks id pc runs (insert id r runs)
insert-Marks id pc r runs h = (
  λ k e. rw (lookup-insert id k r runs) (rw e refl),
  rw (lookup-insert id id r runs) (rw (text_eq_refl id) h),
)

pub agrees-some :
    (pc : Pc) (o : Option RunRecord)
    → agrees pc o ≡ true
    → (r : RunRecord) × (o ≡ some r) × (fits pc r.status ≡ true)
agrees-some pc none h = cc
agrees-some pc (some r) h = (r, refl, h)

mark_running-found :
    (id : Text) (runs : RunRegistry) (r : RunRecord)
    → lookup id runs ≡ some r
    → mark_running id runs ≡ ok (insert id (record r { status = running }) runs)
unfolding mark_running get_record
mark_running-found id runs r e = rw e refl

mark_running-Marks :
    (id : Text) (rt : CoreRuntime)
    → agrees spawned (lookup id rt.registry) ≡ true
    → MarksAfter id rt (elim (mark_running id rt.registry) as (λ _. Option (CoreRuntime × Pc)) [
      | ok runs ↦ some (with_registry rt runs, marked)
      | err e ↦ some (rt, done)
    ])
mark_running-Marks id rt h =
    let (r, e, f) = agrees-some spawned (lookup id rt.registry) h in
    rw (mark_running-found id rt.registry r e)
      (insert-Marks id marked (record r { status = running }) rt.registry refl)

-- Where the run is registered, marking its result ends it with that result.
pub mark_result-found :
    (now : ℕ) (id : Text) (r : KelvinResult AgentRunResult) (runs : RunRegistry) (guard : RunRecord)
    → lookup id runs ≡ some guard
    → mark_result now id r runs ≡ ok (insert id (ended now (ending r) guard) runs)
unfolding mark_result mark_completed mark_failed get_record
mark_result-found now id (ok v) runs guard h = rw h refl
mark_result-found now id (err e) runs guard h = rw h refl

mark_result-Marks :
    (now : ℕ) (id : Text) (r : KelvinResult AgentRunResult) (runs : RunRegistry)
    → agrees (returned r) (lookup id runs) ≡ true
    → Marks id done runs (ignored runs (mark_result now id r runs))
mark_result-Marks now id r runs h =
    let (guard, e, f) = agrees-some (returned r) (lookup id runs) h in
    rw (mark_result-found now id r runs guard e)
      (insert-Marks id done (ended now (ending r) guard) runs (ending-final r))

-- A step that leaves the registry as it is, between two places that one status fits.
kept-Marks :
    (id : Text) (pc pc' : Pc) (runs : RunRegistry)
    → ((st : RunStatus) → fits pc st ≡ true → fits pc' st ≡ true)
    → agrees pc (lookup id runs) ≡ true
    → Marks id pc' runs runs
kept-Marks id pc pc' runs f h =
    let (r, e, g) = agrees-some pc (lookup id runs) h in (λ k d. refl, rw e (f r.status g))

pub turn-Marks :
    (now : ℕ) (answer : KelvinResult AgentRunResult) (req : AgentRunRequest) (pc : Pc)
    (rt : CoreRuntime)
    → agrees pc (lookup req.run_id rt.registry) ≡ true
    → MarksAfter req.run_id rt (turn now answer req pc rt)
unfolding turn
turn-Marks now answer req spawned rt h = mark_running-Marks req.run_id rt h
turn-Marks now answer req marked rt h =
    kept-Marks req.run_id marked queued rt.registry (λ st q. ground arith) h
turn-Marks now answer req queued rt h = go (lock_session req.session_key rt.scheduler)
  where
    go :
        (o : Option LaneScheduler)
        → MarksAfter req.run_id rt (elim o as (λ _. Option (CoreRuntime × Pc)) [
          | some s ↦ some (with_scheduler rt s, in_lane)
          | none ↦ none
        ])
    go none = tt
    go (some s) = kept-Marks req.run_id queued in_lane rt.registry (λ st q. ground arith) h
turn-Marks now answer req in_lane rt h = go (lock_global rt.scheduler)
  where
    go :
        (o : Option LaneScheduler)
        → MarksAfter req.run_id rt (elim o as (λ _. Option (CoreRuntime × Pc)) [
          | some s ↦ some (with_scheduler rt s, in_brain)
          | none ↦ none
        ])
    go none = tt
    go (some s) = kept-Marks req.run_id in_lane in_brain rt.registry (λ st q. ground arith) h
turn-Marks now answer req in_brain rt h =
    kept-Marks req.run_id in_brain (leaving answer) rt.registry (λ st q. ground arith) h
turn-Marks now answer req (leaving r) rt h =
    kept-Marks req.run_id (leaving r) (returned r) rt.registry (λ st q. ground arith) h
turn-Marks now answer req (returned r) rt h = mark_result-Marks now req.run_id r rt.registry h
turn-Marks now answer req done rt h = tt

agrees-found : (pc : Pc) (o : Option RunRecord) → agrees pc o ≡ true → found o ≡ true
agrees-found pc none h = cc
agrees-found pc (some r) h = refl

-- A step of a task registers no run and removes none.
pub Marks-is_registered :
    (id : Text) (pc pc' : Pc) (runs after : RunRegistry)
    → agrees pc (lookup id runs) ≡ true
    → Marks id pc' runs after
    → (k : Text) → is_registered k after ≡ is_registered k runs
unfolding is_registered
Marks-is_registered id pc pc' runs after h m k = elim (Bool-cases (text_eq id k)) [
  | inl e ↦
      rw (sym ((text_eq_iff id k).0 e))
        (agrees-found pc' (lookup id after) m.1 ∙ sym (agrees-found pc (lookup id runs) h))
  | inr e ↦ ap found (m.0 k e)
]
