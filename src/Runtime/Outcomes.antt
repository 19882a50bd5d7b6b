-- ===== src/Runtime/Outcomes.antt =====
-- That a run has one outcome, and what those that wait for it are told.
use mathlib.Core.Option.{some-injective, none-ne-some}
use kelvinclaw.Prelude.{
  ℕ, ◌≡◌, inl, inr, refl, sym, ap, subst, ◌∙◌, arith, Bool, Bool-cases, true, none, some,
  if◌then◌else◌,
}
use kelvinclaw.Prelude.Text.{Text, text_eq, text_eq_iff}
use kelvinclaw.Prelude.Map.{lookup, lookup-insert}
use kelvinclaw.Prelude.Error.{KelvinResult}
use kelvinclaw.Runtime.Types.{AgentRunRequest, AgentRunResult, RunStatus, RunRecord}
use kelvinclaw.Runtime.Registry.{accepted_record}
use kelvinclaw.Runtime.Tasks.{
  Pc, spawned, marked, queued, in_lane, in_brain, leaving, returned, done, Task, CoreRuntime,
  System, init, submit, turn, Turn, turned, Step, submitted, stepped, Reach, here, later,
}
use kelvinclaw.Runtime.Marks.{is_final, fits, agrees-some}
use kelvinclaw.Runtime.Invariant.{
  Inv, AgreesIn, init-Inv, Reach-Inv, Turn-Marks, submit-cases, with_task,
}

-- The run has this record, and it has ended.
abbrev pub Ended : Text → RunRecord → System → Type 0
Ended id r s = (lookup id s.runtime.registry ≡ some r) × (is_final r.status ≡ true)

fits-done : (pc : Pc) (st : RunStatus) → fits pc st ≡ true → is_final st ≡ true → pc ≡ done
fits-done done st f h = refl
fits-done spawned st f h = ground arith
fits-done marked st f h = ground arith
fits-done queued st f h = ground arith
fits-done in_lane st f h = ground arith
fits-done in_brain st f h = ground arith
fits-done (leaving r) st f h = ground arith
fits-done (returned r) st f h = ground arith

with_task-Ended :
    (now : ℕ) (req : AgentRunRequest) (id : Text) (r : RunRecord) (s : System)
    → lookup req.run_id s.runtime.registry ≡ none
    → Ended id r s
    → Ended id r (with_task now req s)
with_task-Ended now req id r s e h =
    (rw (lookup-insert req.run_id id (accepted_record now req.run_id) s.runtime.registry) kept, h.1)
  where
    none_some : ¬ (none ≡ some r)
    none_some q = cc

    kept :
        (if text_eq req.run_id id
          then some (accepted_record now req.run_id)
          else lookup id s.runtime.registry)
        ≡ some r
    kept = elim (Bool-cases (text_eq req.run_id id)) [
      | inl q ↦ absurd (
          none_some
            (sym e ∙ ap (λ k. lookup k s.runtime.registry) ((text_eq_iff req.run_id id).0 q) ∙ h.0))
      | inr q ↦ rw q h.0
    ]

submit-Ended :
    (now : ℕ) (req : AgentRunRequest) (id : Text) (r : RunRecord) (s : System)
    → Ended id r s
    → Ended id r (submit now req s).1
submit-Ended now req id r s h = elim (submit-cases now req s) [
  | inl e ↦ subst (Ended id r) (sym e) h
  | inr e ↦ subst (Ended id r) (sym e.1) (with_task-Ended now req id r s e.0 h)
]

-- The task of a run that has ended takes no more turns.
outcome_at_rest :
    (id : Text) (r : RunRecord) (s : System) (task : Task)
    → AgreesIn s.runtime.registry task
    → Ended id r s
    → task.req.run_id ≡ id
    → task.pc ≡ done
outcome_at_rest id r s task a h e =
    let (q, at_q, f) = agrees-some task.pc (lookup task.req.run_id s.runtime.registry) a in
    fits-done task.pc q.status f
      (final_of q (sym at_q ∙ ap (λ k. lookup k s.runtime.registry) e ∙ h.0))
  where
    final_of : (q : RunRecord) → some q ≡ some r → is_final q.status ≡ true
    final_of q p = rw (some-injective q r p) h.1

done_turns_not :
    (now : ℕ) (answer : KelvinResult AgentRunResult) (req : AgentRunRequest) (pc : Pc)
    (rt : CoreRuntime) (u : CoreRuntime × Pc)
    → turn now answer req pc rt ≡ some u
    → ¬ (pc ≡ done)
unfolding turn
done_turns_not now answer req pc rt u e p =
    let q = sym (ap (λ x. turn now answer req x rt) p) ∙ e in absurd (none-ne-some u q)

Turn-Ended :
    {s t : System} (id : Text) (r : RunRecord) → Inv s → Turn s t → Ended id r s → Ended id r t
unfolding turn
Turn-Ended {s} id r inv (turned i now answer task u at_i e f) h =
    subst (Ended id r) (sym f) (elim (Bool-cases (text_eq task.req.run_id id)) [
      | inl q ↦ absurd (
          done_turns_not now answer task.req task.pc s.runtime u e (
            outcome_at_rest id r s task (inv.agreement i task at_i) h
              ((text_eq_iff task.req.run_id id).0 q)))
      | inr q ↦ ((Turn-Marks s i now answer task u inv at_i e).0 id q ∙ h.0, h.1)
    ])

Step-Ended :
    {s t : System} (id : Text) (r : RunRecord) → Inv s → Step s t → Ended id r s → Ended id r t
Step-Ended {s} id r inv (submitted now req f) h =
    subst (Ended id r) (sym f) (submit-Ended now req id r s h)
Step-Ended id r inv (stepped st) h = Turn-Ended id r inv st h

pub Reach-Ended :
    {s t : System} (id : Text) (r : RunRecord) → Inv s → Reach s t → Ended id r s → Ended id r t
Reach-Ended id r inv here h = h
Reach-Ended id r inv (later q st) h =
    Step-Ended id r (Reach-Inv inv q) st (Reach-Ended id r inv q h)

-- Once a run has ended, its record with the outcome stays as it is in every later state.
pub outcome-stays :
    (use_global_lane : Bool) (s t : System) (id : Text) (r : RunRecord)
    → Reach (init use_global_lane) s
    → Reach s t
    → lookup id s.runtime.registry ≡ some r
    → is_final r.status ≡ true
    → lookup id t.runtime.registry ≡ some r
outcome-stays use_global_lane s t id r from on e h =
    (Reach-Ended id r (Reach-Inv (init-Inv use_global_lane) from) on (e, h)).0
