-- ===== src/Channel/World.antt =====
-- The effects of a channel. What the system and the runtime answer is a script, by the number of
-- the question; a `World` is the adapter, its state file and how many questions were asked.
pub mod Counts
use kelvinclaw.Prelude.{ℕ, ◌+◌, Bool, true, false, Option, none, some, List, [], ◌∷◌, if◌then◌else◌}
use kelvinclaw.Prelude.Text.{Text}
use kelvinclaw.Prelude.Error.{KelvinError, KelvinResult, ok, err, Message}
use kelvinclaw.Prelude.Exec.{Exec}
use kelvinclaw.Channel.Types.{
  TextChannelAdapter, PersistedChannelState, QueuedSlashCommand, ChannelMetrics,
}

-- `KelvinSdkRunRequest`, where `memory_query` and `run_id` are none
pub record RunRequest : Type 0 where
  pub prompt : Text
  pub session_id : Text
  pub workspace_dir : Option Text
  pub timeout_ms : Option ℕ
  pub system_prompt : Message

pub data RunOutcome : Type 0 where
  completed : List Text → RunOutcome
  failed : Text → RunOutcome
  timeout : RunOutcome

pub record Script : Type 0 where
  -- `now_ms()`
  pub clock : ℕ → ℕ
  -- the error of a save of the state file, if it fails
  pub save_error : ℕ → Option KelvinError
  -- the error of one outbound request, if it fails
  pub send_error : ℕ → Option KelvinError
  -- `runtime.submit`, which returns the run's id, and `runtime.wait_for_outcome`
  pub submit : ℕ → RunRequest → KelvinResult Text
  pub outcome : ℕ → Text → ℕ → KelvinResult RunOutcome
  -- `command_exec_payload`, with its result printed
  pub command : ℕ → QueuedSlashCommand → KelvinResult Message

-- A message that was handed to the transport, delivered or not.
pub record Sent : Type 0 where
  pub account_id : Text
  pub body : Message

pub record World : Type 0 where
  pub adapter : TextChannelAdapter
  pub disk : Option PersistedChannelState
  pub ticks : ℕ
  pub saves : ℕ
  pub sends : ℕ
  pub runs : ℕ
  pub sent : List Sent

abbrev pub Channel : Type 0 → Type 0
Channel A = Exec World A

-- A change of the adapter and nothing else.
abbrev pub set_adapter : TextChannelAdapter → World → World
set_adapter a w = record w { adapter = a }

abbrev pub with_metrics :
    (ChannelMetrics → ChannelMetrics) → TextChannelAdapter → TextChannelAdapter
with_metrics f a = record a { metrics = f a.metrics }

unfoldable pub update : (TextChannelAdapter → TextChannelAdapter) → Channel (Unit {0})
update f w = (ok tt, record w { adapter = f w.adapter })

unfoldable pub count : (ChannelMetrics → ChannelMetrics) → Channel (Unit {0})
unfolding update
count f = update (with_metrics f)

-- `snapshot_state`
unfoldable pub snapshot_state : TextChannelAdapter → PersistedChannelState
snapshot_state a = record {
  paired_accounts = a.paired_accounts;
  pending_pair_codes = a.pending_pair_codes;
  seen_delivery_order = a.seen_delivery_order;
  rate_windows = a.rate_windows;
  cooldown_until_ms = a.cooldown_until_ms;
  inbox = a.inbox;
  metrics = a.metrics;
}

module _ (script : Script) where
  unfoldable pub now_ms : Channel ℕ
  now_ms w = (ok (script.clock w.ticks), record w { ticks = w.ticks + 1 })

  saved : Option KelvinError → Channel (Unit {0})
  unfolding snapshot_state
  saved (some e) w = (err e, record w { saves = w.saves + 1 })
  saved none w = (ok tt, record w { saves = w.saves + 1; disk = some (snapshot_state w.adapter) })

  -- `persist_state`: a save that fails leaves the old file.
  unfoldable pub persist_state : Channel (Unit {0})
  unfolding saved
  persist_state w =
      if w.adapter.has_persistence then saved (script.save_error w.saves) w else (ok tt, w)
