-- ===== src/Runtime/Waiting.antt =====
-- `wait` and `wait_for_outcome` of crates/kelvin-core/src/runtime.rs, while the tasks go on.
use kelvinclaw.Prelude.{
  Option-cases, ℕ, ◌≡◌, ◌⊎◌, inl, inr, refl, sym, ap, subst, ◌∙◌, arith, Bool, Bool-cases, true,
  false, some, List, [], ◌∷◌, map, All,
}
use kelvinclaw.Prelude.Text.{Text}
use kelvinclaw.Prelude.Map.{lookup}
use kelvinclaw.Prelude.Error.{KelvinResult, ok}
use kelvinclaw.Runtime.Types.{
  AgentRunRequest, RunStatus, accepted, running, completed, failed, RunRecord, RunOutcome,
  outcome_completed, outcome_failed, outcome_timeout,
}
use kelvinclaw.Runtime.Registry.{RunRegistry, accepted_record, get_record, wait, result}
use kelvinclaw.Runtime.Tasks.{
  System, init, turned, Step, submitted, stepped, Reach, here, later, wait_for_outcome,
}
use kelvinclaw.Runtime.Marks.{is_final, is_registered, found, Marks-is_registered}
use kelvinclaw.Runtime.Invariant.{
  Inv, init-Inv, Reach-Inv, Turn-Marks, submit-cases, with_task, registered-insert,
}
use kelvinclaw.Runtime.Outcomes.{Ended, Reach-Ended}

-- A run stays registered.
with_task-registered :
    (now : ℕ) (req : AgentRunRequest) (id : Text) (s : System)
    → is_registered id s.runtime.registry ≡ true
    → is_registered id (with_task now req s).runtime.registry ≡ true
with_task-registered now req id s h =
    ground
      (arith, registered-insert req.run_id id (accepted_record now req.run_id) s.runtime.registry)

Step-registered :
    {s t : System} (id : Text)
    → Inv s
    → Step s t
    → is_registered id s.runtime.registry ≡ true
    → is_registered id t.runtime.registry ≡ true
Step-registered {s} id inv (submitted now req f) h =
    subst (λ u. is_registered id u.runtime.registry ≡ true) (sym f)
      (elim (submit-cases now req s) [
        | inl e ↦ subst (λ u. is_registered id u.runtime.registry ≡ true) (sym e) h
        | inr e ↦
            subst (λ u. is_registered id u.runtime.registry ≡ true) (sym e.1)
              (with_task-registered now req id s h)
      ])
Step-registered {s} id inv (stepped (turned i now answer task u at_i e f)) h =
    subst (λ u. is_registered id u.runtime.registry ≡ true) (sym f)
      (Marks-is_registered task.req.run_id task.pc u.1 s.runtime.registry u.0.registry
          (inv.agreement i task at_i) (Turn-Marks s i now answer task u inv at_i e) id
        ∙ h)

pub Reach-registered :
    {s t : System} (id : Text)
    → Inv s
    → Reach s t
    → is_registered id s.runtime.registry ≡ true
    → is_registered id t.runtime.registry ≡ true
Reach-registered id inv here h = h
Reach-registered id inv (later r st) h =
    Step-registered id (Reach-Inv inv r) st (Reach-registered id inv r h)

registered-some :
    (id : Text) (runs : RunRegistry)
    → is_registered id runs ≡ true
    → (r : RunRecord) × (lookup id runs ≡ some r)
unfolding is_registered
registered-some id runs h = elim (Option-cases (lookup id runs)) [
  | inr e ↦ e
  | inl e ↦ absurd (not_found (sym h ∙ ap found e))
]
  where
    not_found : ¬ (true ≡ false)
    not_found q = cc

-- The systems whose registries a client reads, one after the other.
pub data Later : System → List System → System → Type 0 where
  asked : {s t : System} → Reach s t → Later s [] t
  woken : {s u t : System} {us : List System} → Reach s u → Later u us t → Later s (u ∷ us) t

abbrev pub registries : List System → List RunRegistry
registries us = map (λ u. u.runtime.registry) us

-- The outcome that a status stands for.
abbrev pub told : RunStatus → RunOutcome
told (completed run) = outcome_completed run
told (failed error) = outcome_failed error
told accepted = outcome_timeout
told running = outcome_timeout

abbrev pub IsOpen : Text → System → Type 0
IsOpen id s =
    (r : RunRecord) × (lookup id s.runtime.registry ≡ some r) × (is_final r.status ≡ false)

-- What a client is told: that the time ran out, where no state it read had the end of the run, or
-- the outcome with which the run has ended.
abbrev pub Tells : Text → System → List System → System → RunOutcome → Type 0
Tells id s us t o =
    ((o ≡ outcome_timeout) × IsOpen id s × All (IsOpen id) us)
    ⊎ ((r : RunRecord) × Ended id r t × (o ≡ told r.status))

wait_for_outcome-ended :
    (id : Text) (runs : RunRegistry) (wakes : List RunRegistry) (last : RunRegistry)
    (guard : RunRecord)
    → lookup id runs ≡ some guard
    → lookup id last ≡ some guard
    → is_final guard.status ≡ true
    → wait_for_outcome id runs wakes last ≡ ok (told guard.status)
unfolding wait_for_outcome wait get_record result
wait_for_outcome-ended id runs [] last guard e f h = ground arith
wait_for_outcome-ended id runs (next ∷ wakes) last guard e f h = ground arith

wait_for_outcome-expires :
    (id : Text) (runs last : RunRegistry) (guard : RunRecord)
    → lookup id runs ≡ some guard
    → is_final guard.status ≡ false
    → wait_for_outcome id runs [] last ≡ ok outcome_timeout
unfolding wait_for_outcome wait get_record
wait_for_outcome-expires id runs last guard e h = ground arith

wait_for_outcome-wakes :
    (id : Text) (runs next : RunRegistry) (wakes : List RunRegistry) (last : RunRegistry)
    (guard : RunRecord)
    → lookup id runs ≡ some guard
    → is_final guard.status ≡ false
    → wait_for_outcome id runs (next ∷ wakes) last ≡ wait_for_outcome id next wakes last
unfolding wait_for_outcome wait get_record
wait_for_outcome-wakes id runs next wakes last guard e h = ground arith

-- The call of `wait_for_outcome` with the registries of these states.
abbrev pub waited : Text → System → List System → System → KelvinResult RunOutcome
waited id s us t = wait_for_outcome id s.runtime.registry (registries us) t.runtime.registry

Reach-trans : {s t u : System} → Reach s t → Reach t u → Reach s u
Reach-trans r here = r
Reach-trans r (later q st) = later (Reach-trans r q) st

Later-Reach : {s u t : System} {us : List System} → Reach s u → Later u us t → Reach s t
Later-Reach r (asked on) = Reach-trans r on
Later-Reach r (woken on rest) = Later-Reach (Reach-trans r on) rest

-- One more read that did not have the end of the run.
with_open :
    (s u : System) (us : List System) (t : System) (id : Text) (o : RunOutcome)
    → IsOpen id s
    → Tells id u us t o
    → Tells id s (u ∷ us) t o
with_open s u us t id o is_open (inl w) = inl (w.0, is_open, (w.1, w.2))
with_open s u us t id o is_open (inr e) = inr e

waited-Tells :
    {s t : System} {us : List System} (id : Text)
    → Inv s
    → Later s us t
    → is_registered id s.runtime.registry ≡ true
    → (o : RunOutcome) × (waited id s us t ≡ ok o) × Tells id s us t o
waited-Tells {s} {t} id inv (asked on) h =
    let (r, e) = registered-some id s.runtime.registry h in
    elim (Bool-cases (is_final r.status)) [
      | inl f ↦
          let kept = Reach-Ended id r inv on (e, f) in
          (
            told r.status,
            wait_for_outcome-ended id s.runtime.registry [] t.runtime.registry r e kept.0 f,
            inr (r, kept, refl),
          )
      | inr f ↦ (
        outcome_timeout,
        wait_for_outcome-expires id s.runtime.registry t.runtime.registry r e f,
        inl (refl, (r, e, f), tt),
      )
    ]
waited-Tells {s} {t} id inv (woken {u = u} {us = us} on rest) h =
    let (r, e) = registered-some id s.runtime.registry h in
    let ih = waited-Tells id (Reach-Inv inv on) rest (Reach-registered id inv on h) in
    elim (Bool-cases (is_final r.status)) [
      | inl f ↦
          let kept = Reach-Ended id r inv (Later-Reach on rest) (e, f) in
          (
            told r.status,
            wait_for_outcome-ended id s.runtime.registry (registries (u ∷ us)) t.runtime.registry r
                e kept.0 f,
            inr (r, kept, refl),
          )
      | inr f ↦ (
        ih.0,
        wait_for_outcome-wakes id s.runtime.registry u.runtime.registry (registries us)
              t.runtime.registry r e f
            ∙ ih.1,
        with_open s u us t id ih.0 (r, e, f) ih.2,
      )
    ]

-- A client that waits for a registered run always gets an answer: that the time ran out, only if
-- the run had not ended in any state that it read, or else the outcome with which the run has
-- ended, whatever the tasks and other clients do between its reads.
pub wait_for_outcome-Tells :
    (use_global_lane : Bool) (id : Text) (s : System) (us : List System) (t : System)
    → Reach (init use_global_lane) s
    → Later s us t
    → is_registered id s.runtime.registry ≡ true
    → (o : RunOutcome) × (waited id s us t ≡ ok o) × Tells id s us t o
wait_for_outcome-Tells use_global_lane id s us t from on h =
    waited-Tells id (Reach-Inv (init-Inv use_global_lane) from) on h
