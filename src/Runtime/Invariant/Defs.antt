-- ===== src/Runtime/Invariant/Defs.antt =====
-- The invariant of crates/kelvin-core/src/runtime.rs.
use kelvinclaw.Prelude.{ℕ, ◌≡◌, refl, Bool, true, ◌&&◌, some, get_elem?}
use kelvinclaw.Prelude.Text.{Text, text_eq}
use kelvinclaw.Prelude.Map.{lookup}
use kelvinclaw.Runtime.Registry.{RunRegistry}
use kelvinclaw.Runtime.Lanes.{is_locked}
use kelvinclaw.Runtime.Tasks.{Task, System, init}
use kelvinclaw.Runtime.Counting.{bit, count}
use kelvinclaw.Runtime.Effects.{holds_session, holds_global}
use kelvinclaw.Runtime.Marks.{agrees, is_registered}

abbrev pub in_session : Text → Task → Bool
in_session key task = text_eq task.req.session_key key && holds_session task.pc

abbrev pub in_global : Bool → Task → Bool
in_global use_global_lane task = holds_global use_global_lane task.pc

abbrev pub has_id : Text → Task → Bool
has_id id task = text_eq task.req.run_id id

abbrev pub AgreesIn : RunRegistry → Task → Type 0
AgreesIn runs task = agrees task.pc (lookup task.req.run_id runs) ≡ true

-- Each lock that is held has one holder, each registered run has one task, and the status of each
-- run fits the place of its task.
pub record Inv (s : System) : Type 0 where
  pub sessions :
      (key : Text) → count (in_session key) s.tasks ≡ bit (is_locked key s.runtime.scheduler)
  pub global :
      count (in_global s.runtime.scheduler.use_global_lane) s.tasks
      ≡ bit s.runtime.scheduler.global_lane
  pub ids : (id : Text) → count (has_id id) s.tasks ≡ bit (is_registered id s.runtime.registry)
  pub agreement :
      (i : ℕ) (task : Task) → get_elem? s.tasks i ≡ some task → AgreesIn s.runtime.registry task

pub init-Inv : (use_global_lane : Bool) → Inv (init use_global_lane)
unfolding count is_locked is_registered lookup
init-Inv use_global_lane = record {
  sessions = λ key. refl;
  global = refl;
  ids = λ id. refl;
  agreement = λ i task e. cc;
}
