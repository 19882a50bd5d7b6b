-- ===== src/Runtime/Lanes.antt =====
-- `LaneScheduler` of crates/kelvin-core/src/runtime.rs. A mutex is whether it is held; which of
-- the tasks that wait gets it is for the steps to choose.
use kelvinclaw.Prelude.{Bool, true, false, Option, none, some, List, [], if◌then◌else◌}
use kelvinclaw.Prelude.Text.{Text}
use kelvinclaw.Prelude.Map.{lookup, insert}

pub record LaneScheduler : Type 0 where
  pub use_global_lane : Bool
  pub global_lane : Bool
  pub session_lanes : List (Text × Bool)

abbrev pub new : Bool → LaneScheduler
new use_global_lane = record {
  use_global_lane = use_global_lane;
  global_lane = false;
  session_lanes = [];
}

unfoldable pub get_session_lane : Text → LaneScheduler → LaneScheduler
get_session_lane lane_key s = elim (lookup lane_key s.session_lanes) [
  | some held ↦ s
  | none ↦ record s { session_lanes = insert lane_key false s.session_lanes }
]

-- `some true` is a lane that is held.
abbrev pub held : Option Bool → Bool
held none = false
held (some b) = b

unfoldable pub is_locked : Text → LaneScheduler → Bool
is_locked lane_key s = held (lookup lane_key s.session_lanes)

abbrev pub set_lane : Text → Bool → LaneScheduler → LaneScheduler
set_lane lane_key b s = record s { session_lanes = insert lane_key b s.session_lanes }

-- `session_lane.lock()`, where it does not have to wait
unfoldable pub lock_session : Text → LaneScheduler → Option LaneScheduler
lock_session lane_key s = if is_locked lane_key s then none else some (set_lane lane_key true s)

unfoldable pub unlock_session : Text → LaneScheduler → LaneScheduler
unlock_session lane_key s = set_lane lane_key false s

-- The test of `use_global_lane` and `global_lane.lock()`, where it does not have to wait
unfoldable pub lock_global : LaneScheduler → Option LaneScheduler
lock_global s =
    if s.use_global_lane
    then (if s.global_lane then none else some (record s { global_lane = true }))
    else some s

-- The end of the block of the global guard, which only the branch with a global lane has.
unfoldable pub unlock_global : LaneScheduler → LaneScheduler
unlock_global s = if s.use_global_lane then record s { global_lane = false } else s
