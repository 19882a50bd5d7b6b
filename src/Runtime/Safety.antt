-- ===== src/Runtime/Safety.antt =====
-- Which tasks of the runtime are never at work together.
use kelvinclaw.Prelude.{ℕ, ◌≤◌, ◌≡◌, arith, Bool, true, false, some, get_elem?}
use kelvinclaw.Prelude.Text.{text_eq_refl}
use kelvinclaw.Runtime.Lanes.{is_locked}
use kelvinclaw.Runtime.Tasks.{in_brain, Task, System, init, Reach}
use kelvinclaw.Runtime.Counting.{bit, count_unique}
use kelvinclaw.Runtime.Effects.{holds_session}
use kelvinclaw.Runtime.Invariant.{init-Inv, Reach-Inv, in_session, in_global, same_run}

bit-le : (b : Bool) → bit b ≤ 1
bit-le true = omega arith
bit-le false = omega arith

module _ (use_global_lane : Bool) (s : System) (reach : Reach (init use_global_lane) s) (i j : ℕ)
    (a b : Task) (at_i : get_elem? s.tasks i ≡ some a) (at_j : get_elem? s.tasks j ≡ some b) where
  -- Two tasks of one session are never both between taking the session lane and leaving it, in
  -- whatever order the tasks and the clients take their steps.
  pub lane-excludes :
      a.req.session_key ≡ b.req.session_key
      → holds_session a.pc ≡ true
      → holds_session b.pc ≡ true
      → i ≡ j
  lane-excludes e ha hb =
      let inv = Reach-Inv (init-Inv use_global_lane) reach in
      count_unique (in_session b.req.session_key) s.tasks i j a b
        (rw (inv.sessions b.req.session_key)
          (bit-le (is_locked b.req.session_key s.runtime.scheduler)))
        at_i at_j (ground (arith, text_eq_refl b.req.session_key))
        (ground (arith, text_eq_refl b.req.session_key))

  -- With a global lane, no two tasks are in the brain together, whatever their sessions are.
  pub global_lane-excludes :
      s.runtime.scheduler.use_global_lane ≡ true → a.pc ≡ in_brain → b.pc ≡ in_brain → i ≡ j
  global_lane-excludes g ha hb =
      let inv = Reach-Inv (init-Inv use_global_lane) reach in
      count_unique (in_global s.runtime.scheduler.use_global_lane) s.tasks i j a b
        (rw inv.global (bit-le s.runtime.scheduler.global_lane)) at_i at_j (rw (ha) g) (rw (hb) g)

  -- A run id is never run twice: two tasks with the same run id are the same task.
  pub submit-once : a.req.run_id ≡ b.req.run_id → i ≡ j
  submit-once e =
      same_run s (Reach-Inv (init-Inv use_global_lane) reach) i j a b at_i at_j
        (rw e (text_eq_refl b.req.run_id))
