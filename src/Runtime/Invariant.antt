-- ===== src/Runtime/Invariant.antt =====
-- What holds of the lanes, the registry and the tasks in every state that the steps reach.
mod Defs
mod Submitted
pub use Defs.{Inv, AgreesIn, init-Inv, in_session, in_global, has_id}
pub use Submitted.{same_run, submit-cases, with_task, registered-insert}
use Submitted.{submit-Inv}
use native.Mathlib.Decide.{ℕ_discrete}
use kelvinclaw.Prelude.{
  ℕ, zero, suc, ◌≤◌, ◌≡◌, ◌⊎◌, inl, inr, refl, sym, ap, subst, Bool-cases, ◌∙◌, arith, Bool, true,
  false, ◌&&◌, Option, none, some, List, [], ◌∷◌, ◌++◌, if◌then◌else◌, get_elem?,
}
use kelvinclaw.Prelude.Text.{Text, text_eq, text_eq_iff, text_eq_refl}
use kelvinclaw.Prelude.Map.{lookup, insert, lookup-insert}
use kelvinclaw.Prelude.Error.{KelvinResult}
use kelvinclaw.Runtime.Types.{AgentRunRequest, AgentRunResult, RunRecord}
use kelvinclaw.Runtime.Registry.{RunRegistry, register, accepted_record}
use kelvinclaw.Runtime.Lanes.{is_locked}
use kelvinclaw.Runtime.Tasks.{
  Pc, spawned, Task, CoreRuntime, System, init, submit, turn, moved, Turn, turned, Step, submitted,
  with_registry, stepped, Reach, here, later,
}
use kelvinclaw.Runtime.Counting.{
  bit, count, count-set, count-push, count-positive, count_unique, get_elem?-set,
  get_elem?-set_same,
}
use kelvinclaw.Runtime.Effects.{holds_session, holds_global, Lanes, Holds, LanesAfter, turn-Lanes}
use kelvinclaw.Runtime.Marks.{
  agrees, is_registered, Marks, MarksAfter, Marks-is_registered, turn-Marks, found, agrees-some,
}

module _ (s : System) (inv : Inv s) (i : ℕ) (task : Task) (r : CoreRuntime × Pc)
    (at_i : get_elem? s.tasks i ≡ some task) where
  moved-ids :
      Marks task.req.run_id r.1 s.runtime.registry r.0.registry
      → (id : Text)
      → count (has_id id) (moved s.tasks i task.req r).tasks ≡ bit (is_registered id r.0.registry)
  moved-ids m id = ground (
    arith,
    count-set (has_id id) s.tasks i task (record { req = task.req; pc = r.1 }) at_i,
    inv.ids id,
    Marks-is_registered task.req.run_id task.pc r.1 s.runtime.registry r.0.registry
        (inv.agreement i task at_i) m id,
  )

  moved-Inv :
      Lanes task.req.session_key task.pc r.1 s.runtime.scheduler r.0.scheduler
      → Marks task.req.run_id r.1 s.runtime.registry r.0.registry
      → Inv (moved s.tasks i task.req r)
  moved-Inv l m = record {
    sessions = λ key. ground (
      arith,
      count-set (in_session key) s.tasks i task (record { req = task.req; pc = r.1 }) at_i,
      inv.sessions key,
      l.1 key,
    );
    global = rw l.0 (
        ground (
          arith,
          count-set (in_global s.runtime.scheduler.use_global_lane) s.tasks i task
              (record { req = task.req; pc = r.1 }) at_i,
          inv.global,
          l.2,
        ));
    ids = moved-ids m;
    agreement = λ j t h. elim (ℕ_discrete i j) [
      | yes e ↦
          subst (AgreesIn r.0.registry)
            (sym (
              get_elem?-set_same s.tasks i (record { req = task.req; pc = r.1 }) t
                (subst (λ n. get_elem? (moved s.tasks i task.req r).tasks n ≡ some t) (sym e) h)))
            m.1
      | no n ↦
          let old = get_elem?-set s.tasks i j (record { req = task.req; pc = r.1 }) t h n in
          elim (Bool-cases (text_eq task.req.run_id t.req.run_id)) [
            | inl q ↦ absurd (n (same_run s inv i j task t at_i old q))
            | inr q ↦ rw (m.0 t.req.run_id q) (inv.agreement j t old)
          ]
    ];
  }

-- The lanes that a task holds are locked.
pub Inv-Holds :
    (s : System)
    → Inv s
    → (i : ℕ) (task : Task) → get_elem? s.tasks i ≡ some task
    → Holds task.req.session_key task.pc s.runtime.scheduler
Inv-Holds s inv i task h = (
  λ q. ground (
    arith,
    text_eq_refl task.req.session_key,
    count-positive (in_session task.req.session_key) s.tasks i task h,
    inv.sessions task.req.session_key,
  ),
  λ q. ground (
    arith,
    count-positive (in_global s.runtime.scheduler.use_global_lane) s.tasks i task h,
    inv.global,
  ),
)

module _ (s : System) (i now : ℕ) (answer : KelvinResult AgentRunResult) (task : Task)
    (r : CoreRuntime × Pc) (inv : Inv s) (at_i : get_elem? s.tasks i ≡ some task)
    (e : turn now answer task.req task.pc s.runtime ≡ some r) where
  Turn-Lanes : Lanes task.req.session_key task.pc r.1 s.runtime.scheduler r.0.scheduler
  Turn-Lanes =
      subst (LanesAfter task.req.session_key task.pc s.runtime) e
        (turn-Lanes now answer task.req task.pc s.runtime (Inv-Holds s inv i task at_i))

  pub Turn-Marks : Marks task.req.run_id r.1 s.runtime.registry r.0.registry
  Turn-Marks =
      subst (MarksAfter task.req.run_id s.runtime) e
        (turn-Marks now answer task.req task.pc s.runtime (inv.agreement i task at_i))

pub Turn-Inv : {s t : System} → Turn s t → Inv s → Inv t
Turn-Inv {s} (turned i now answer task r at_i e f) inv = subst Inv (sym f) (
    moved-Inv s inv i task r at_i (Turn-Lanes s i now answer task r inv at_i e)
      (Turn-Marks s i now answer task r inv at_i e))

pub Step-Inv : {s t : System} → Step s t → Inv s → Inv t
Step-Inv {s} (submitted now req f) inv = subst Inv (sym f) (submit-Inv now req s inv)
Step-Inv (stepped st) inv = Turn-Inv st inv

-- Every state that the steps reach from a state with the invariant has it.
pub Reach-Inv : {s t : System} → Inv s → Reach s t → Inv t
Reach-Inv inv here = inv
Reach-Inv inv (later r st) = Step-Inv st (Reach-Inv inv r)
