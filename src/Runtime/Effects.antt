-- ===== src/Runtime/Effects.antt =====
-- What one turn of a task changes of the lanes and of the registry.
use kelvinclaw.Prelude.{
  ℕ, ◌+◌, ◌≡◌, refl, ap, arith, Bool, true, false, ◌&&◌, Option, none, some, if◌then◌else◌,
}
use kelvinclaw.Prelude.Text.{Text, text_eq, text_eq_iff}
use kelvinclaw.Prelude.Map.{lookup, insert, lookup-insert}
use kelvinclaw.Prelude.Error.{KelvinResult, ok, err}
use kelvinclaw.Runtime.Types.{AgentRunRequest, AgentRunResult}
use kelvinclaw.Runtime.Registry.{RunRegistry, mark_running}
use kelvinclaw.Runtime.Lanes.{
  LaneScheduler, get_session_lane, held, is_locked, set_lane, lock_session, unlock_session,
  lock_global, unlock_global,
}
use kelvinclaw.Runtime.Tasks.{
  Pc, spawned, marked, queued, in_lane, in_brain, leaving, returned, done, CoreRuntime, turn,
  with_registry, with_scheduler,
}
use kelvinclaw.Runtime.Counting.{bit}

abbrev pub holds_session : Pc → Bool
holds_session in_lane = true
holds_session in_brain = true
holds_session (leaving r) = true
holds_session _ = false

abbrev pub holds_global : Bool → Pc → Bool
holds_global use_global_lane in_brain = use_global_lane
holds_global use_global_lane _ = false

-- The lanes after a step in which a task with this session key goes from one place to another.
abbrev pub Lanes : Text → Pc → Pc → LaneScheduler → LaneScheduler → Type 0
Lanes key pc pc' s t =
    (t.use_global_lane ≡ s.use_global_lane)
    × ((k : Text)
        → bit (is_locked k t) + bit (text_eq key k && holds_session pc)
          ≡ bit (is_locked k s) + bit (text_eq key k && holds_session pc'))
    × (bit t.global_lane + bit (holds_global s.use_global_lane pc)
        ≡ bit s.global_lane + bit (holds_global s.use_global_lane pc'))

get_session_lane-is_locked :
    (key k : Text) (s : LaneScheduler) → is_locked k (get_session_lane key s) ≡ is_locked k s
unfolding get_session_lane is_locked
get_session_lane-is_locked key k s = go (lookup key s.session_lanes) refl
  where
    go :
        (o : Option Bool)
        → lookup key s.session_lanes ≡ o
        → held (
            lookup k
              (elim o as (λ _. LaneScheduler) [
                | some held ↦ s
                | none ↦ record s { session_lanes = insert key false s.session_lanes }
              ]).session_lanes)
          ≡ held (lookup k s.session_lanes)
    go (some b) e = refl
    go none e = rw (lookup-insert key k false s.session_lanes) (ground (arith, text_eq_iff key k))

get_session_lane-keeps :
    (key : Text) (s : LaneScheduler)
    → ((get_session_lane key s).use_global_lane ≡ s.use_global_lane)
      × ((get_session_lane key s).global_lane ≡ s.global_lane)
unfolding get_session_lane
get_session_lane-keeps key s = ground arith

is_locked-insert :
    (key k : Text) (b : Bool) (s : LaneScheduler)
    → is_locked k (record s { session_lanes = insert key b s.session_lanes })
      ≡ (if text_eq key k then b else is_locked k s)
unfolding is_locked
is_locked-insert key k b s = rw (lookup-insert key k b s.session_lanes) (ground arith)

-- What the place of a task says of the lanes: those that it holds are locked.
abbrev pub Holds : Text → Pc → LaneScheduler → Type 0
Holds key pc s =
    (holds_session pc ≡ true → is_locked key s ≡ true)
    × (holds_global s.use_global_lane pc ≡ true → s.global_lane ≡ true)

-- The same as `Lanes`, for the result of a turn.
abbrev pub LanesAfter : Text → Pc → CoreRuntime → Option (CoreRuntime × Pc) → Type 0
LanesAfter key pc rt none = Unit
LanesAfter key pc rt (some (after, pc')) = Lanes key pc pc' rt.scheduler after.scheduler

lock_session-Lanes :
    (key : Text) (rt : CoreRuntime)
    → LanesAfter key queued rt (elim (lock_session key rt.scheduler) [
      | some s ↦ some (with_scheduler rt s, in_lane)
      | none ↦ none
    ])
unfolding lock_session
lock_session-Lanes key rt = go (is_locked key rt.scheduler) refl
  where
    go :
        (b : Bool)
        → is_locked key rt.scheduler ≡ b
        → LanesAfter key queued rt
            (elim (if b then none else some (set_lane key true rt.scheduler))
              as (λ _. Option (CoreRuntime × Pc)) [
                | some s ↦ some (with_scheduler rt s, in_lane)
                | none ↦ none
              ])
    go true e = tt
    go false e = (
      refl,
      λ k. rw (is_locked-insert key k true rt.scheduler) (ground (arith, text_eq_iff key k)),
      ground arith,
    )

lock_global-Lanes :
    (key : Text) (rt : CoreRuntime)
    → LanesAfter key in_lane rt (elim (lock_global rt.scheduler) [
      | some s ↦ some (with_scheduler rt s, in_brain)
      | none ↦ none
    ])
unfolding lock_global is_locked
lock_global-Lanes key rt = go rt.scheduler.use_global_lane rt.scheduler.global_lane refl refl
  where
    go :
        (b c : Bool)
        → rt.scheduler.use_global_lane ≡ b
        → rt.scheduler.global_lane ≡ c
        → LanesAfter key in_lane rt
            (elim (if b
                then (if c then none else some (record (rt.scheduler) { global_lane = true }))
                else some rt.scheduler)
              as (λ _. Option (CoreRuntime × Pc)) [
                | some s ↦ some (with_scheduler rt s, in_brain)
                | none ↦ none
              ])
    go true true e f = tt
    go true false e f = (refl, λ k. refl, ground arith)
    go false c e f = (refl, λ k. refl, ground arith)

get_session_lane-Lanes :
    (key : Text) (s : LaneScheduler) → Lanes key marked queued s (get_session_lane key s)
get_session_lane-Lanes key s = (
  (get_session_lane-keeps key s).0,
  λ k. ap (λ b. bit b + bit (text_eq key k && false)) (get_session_lane-is_locked key k s),
  ap (λ b. bit b + 0) (get_session_lane-keeps key s).1,
)

unlock_global-Lanes :
    (key : Text) (answer : KelvinResult AgentRunResult) (s : LaneScheduler)
    → (s.use_global_lane ≡ true → s.global_lane ≡ true)
    → Lanes key in_brain (leaving answer) s (unlock_global s)
unfolding unlock_global is_locked
unlock_global-Lanes key answer s h = go s.use_global_lane refl
  where
    go :
        (b : Bool)
        → s.use_global_lane ≡ b
        → Lanes key in_brain (leaving answer) s (if b then record s { global_lane = false } else s)
    go true e = (refl, λ k. refl, ground arith)
    go false e = (refl, λ k. refl, ground arith)

unlock_session-Lanes :
    (key : Text) (r : KelvinResult AgentRunResult) (s : LaneScheduler)
    → is_locked key s ≡ true
    → Lanes key (leaving r) (returned r) s (unlock_session key s)
unfolding unlock_session
unlock_session-Lanes key r s h =
    (refl, λ k. rw (is_locked-insert key k false s) (ground (arith, text_eq_iff key k)), refl)

pub turn-Lanes :
    (now : ℕ) (answer : KelvinResult AgentRunResult) (req : AgentRunRequest) (pc : Pc)
    (rt : CoreRuntime)
    → Holds req.session_key pc rt.scheduler
    → LanesAfter req.session_key pc rt (turn now answer req pc rt)
unfolding turn
turn-Lanes now answer req spawned rt h = go (mark_running req.run_id rt.registry)
  where
    go :
        (m : KelvinResult RunRegistry)
        → LanesAfter req.session_key spawned rt (elim m as (λ _. Option (CoreRuntime × Pc)) [
          | ok runs ↦ some (with_registry rt runs, marked)
          | err e ↦ some (rt, done)
        ])
    go (ok runs) = (refl, λ k. refl, refl)
    go (err e) = (refl, λ k. refl, refl)
turn-Lanes now answer req marked rt h = get_session_lane-Lanes req.session_key rt.scheduler
turn-Lanes now answer req queued rt h = lock_session-Lanes req.session_key rt
turn-Lanes now answer req in_lane rt h = lock_global-Lanes req.session_key rt
turn-Lanes now answer req in_brain rt h =
    unlock_global-Lanes req.session_key answer rt.scheduler h.1
turn-Lanes now answer req (leaving r) rt h =
    unlock_session-Lanes req.session_key r rt.scheduler (h.0 refl)
turn-Lanes now answer req (returned r) rt h = (refl, λ k. refl, refl)
turn-Lanes now answer req done rt h = tt
