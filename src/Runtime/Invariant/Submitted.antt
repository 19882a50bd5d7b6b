-- ===== src/Runtime/Invariant/Submitted.antt =====
-- The invariant of crates/kelvin-core/src/runtime.rs after a submission.
use kelvinclaw.Prelude.{
  ℕ, zero, suc, ◌≤◌, ◌≡◌, ◌⊎◌, inl, inr, refl, sym, ap, subst, Bool-cases, Option-cases, ◌∙◌, arith,
  Bool, true, false, none, some, List, [], ◌∷◌, ◌++◌, if◌then◌else◌, get_elem?,
}
use kelvinclaw.Prelude.Text.{Text, text_eq, text_eq_iff, text_eq_refl}
use kelvinclaw.Prelude.Map.{lookup, insert, lookup-insert}
use kelvinclaw.Runtime.Types.{AgentRunRequest, RunRecord}
use kelvinclaw.Runtime.Registry.{RunRegistry, register, accepted_record}
use kelvinclaw.Runtime.Tasks.{spawned, Task, System, submit, with_registry}
use kelvinclaw.Runtime.Counting.{bit, count, count-push, count_unique}
use kelvinclaw.Runtime.Marks.{agrees, is_registered, found, agrees-some}
use kelvinclaw.Runtime.Invariant.Defs.{Inv, AgreesIn, in_session, in_global, has_id}

-- A new task holds no lane.
push-sessions :
    (key : Text) (req : AgentRunRequest) (tasks : List Task)
    → count (in_session key) (tasks ++ record { req = req; pc = spawned } ∷ [])
      ≡ count (in_session key) tasks
push-sessions key req tasks =
    ground (arith, count-push (in_session key) tasks (record { req = req; pc = spawned }))

push-global :
    (b : Bool) (req : AgentRunRequest) (tasks : List Task)
    → count (in_global b) (tasks ++ record { req = req; pc = spawned } ∷ [])
      ≡ count (in_global b) tasks
push-global b req tasks =
    ground (arith, count-push (in_global b) tasks (record { req = req; pc = spawned }))

-- Any two tasks of one run are the same.
pub same_run :
    (s : System)
    → Inv s
    → (i j : ℕ) (a b : Task) → get_elem? s.tasks i ≡ some a
    → get_elem? s.tasks j ≡ some b
    → text_eq a.req.run_id b.req.run_id ≡ true
    → i ≡ j
same_run s inv i j a b h k e =
    count_unique (has_id b.req.run_id) s.tasks i j a b few h k e (text_eq_refl b.req.run_id)
  where
    at_most : (c : Bool) → bit c ≤ 1
    at_most true = omega arith
    at_most false = omega arith

    few : count (has_id b.req.run_id) s.tasks ≤ 1
    few = rw (inv.ids b.req.run_id) (at_most (is_registered b.req.run_id s.runtime.registry))

pub registered-insert :
    (id k : Text) (r : RunRecord) (runs : RunRegistry)
    → is_registered k (insert id r runs) ≡ (if text_eq id k then true else is_registered k runs)
unfolding is_registered
registered-insert id k r runs = rw (lookup-insert id k r runs) (ground arith)

-- The place and the status of a task that was there before, and of the new one.
push-agreement :
    (now : ℕ) (req : AgentRunRequest) (runs : RunRegistry) (task : Task)
    → lookup req.run_id runs ≡ none
    → agrees task.pc (lookup task.req.run_id runs) ≡ true
    → agrees task.pc
        (lookup task.req.run_id (insert req.run_id (accepted_record now req.run_id) runs))
      ≡ true
push-agreement now req runs task e h =
    rw (lookup-insert req.run_id task.req.run_id (accepted_record now req.run_id) runs)
      (elim (Bool-cases (text_eq req.run_id task.req.run_id)) [
        | inl q ↦
            let gone = agrees-some task.pc (lookup task.req.run_id runs) h in
            absurd (
              none_some (
                sym e
                ∙ ap (λ k. lookup k runs) ((text_eq_iff req.run_id task.req.run_id).0 q)
                ∙ gone.1))
        | inr q ↦ rw q h
      ])
  where
    none_some : {r : RunRecord} → ¬ (none ≡ some r)
    none_some q = cc

get_elem?-push :
    (xs : List Task) (i : ℕ) (x y : Task)
    → get_elem? (xs ++ y ∷ []) i ≡ some x
    → (get_elem? xs i ≡ some x) ⊎ (x ≡ y)
get_elem?-push [] zero x y h = inr cc
get_elem?-push [] (suc i) x y h = cc
get_elem?-push (z ∷ xs) zero x y h = inl h
get_elem?-push (z ∷ xs) (suc i) x y h = get_elem?-push xs i x y h

-- The state after a run was registered and its task spawned.
abbrev pub with_task : ℕ → AgentRunRequest → System → System
with_task now req s = record {
  runtime =
      with_registry s.runtime
        (insert req.run_id (accepted_record now req.run_id) s.runtime.registry);
  tasks = s.tasks ++ record { req = req; pc = spawned } ∷ [];
}

-- `submit` refuses a run id that is registered.
pub submit-cases :
    (now : ℕ) (req : AgentRunRequest) (s : System)
    → ((submit now req s).1 ≡ s)
      ⊎ ((lookup req.run_id s.runtime.registry ≡ none)
          × ((submit now req s).1 ≡ with_task now req s))
unfolding submit register
submit-cases now req s = elim (Option-cases (lookup req.run_id s.runtime.registry)) [
  | inr e ↦ inl (rw (e.1, submit, register) refl)
  | inl e ↦ inr (e, rw (e, submit, register) refl)
]

with_task-Inv :
    (now : ℕ) (req : AgentRunRequest) (s : System)
    → Inv s
    → lookup req.run_id s.runtime.registry ≡ none
    → Inv (with_task now req s)
unfolding is_registered
with_task-Inv now req s inv e = record {
  sessions = λ key. push-sessions key req s.tasks ∙ inv.sessions key;
  global = push-global s.runtime.scheduler.use_global_lane req s.tasks ∙ inv.global;
  ids = λ id. ground (
    arith,
    count-push (has_id id) s.tasks (record { req = req; pc = spawned }),
    inv.ids id,
    registered-insert req.run_id id (accepted_record now req.run_id) s.runtime.registry,
    fresh id,
  );
  agreement = λ i task h.
      elim (get_elem?-push s.tasks i task (record { req = req; pc = spawned }) h) [
        | inl old ↦ push-agreement now req s.runtime.registry task e (inv.agreement i task old)
        | inr new ↦
            subst (AgreesIn (insert req.run_id (accepted_record now req.run_id) s.runtime.registry))
              (sym new)
              (rw
                (lookup-insert req.run_id req.run_id (accepted_record now req.run_id)
                  s.runtime.registry)
                (rw (text_eq_refl req.run_id) refl))
      ];
}
  where
    fresh : (id : Text) → text_eq req.run_id id ≡ true → is_registered id s.runtime.registry ≡ false
    fresh id q = rw (sym ((text_eq_iff req.run_id id).0 q)) (ap found e)

pub submit-Inv : (now : ℕ) (req : AgentRunRequest) (s : System) → Inv s → Inv (submit now req s).1
submit-Inv now req s inv = elim (submit-cases now req s) [
  | inl e ↦ subst Inv (sym e) inv
  | inr e ↦ subst Inv (sym e.1) (with_task-Inv now req s inv e.0)
]
