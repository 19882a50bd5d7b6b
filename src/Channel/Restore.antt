-- ===== src/Channel/Restore.antt =====
-- A channel after a restart and its webhook metrics (`load_persisted_state`,
-- `apply_persisted_state`, `record_webhook_verified` and `record_webhook_denied` of
-- apps/kelvin-gateway/src/channels.rs).
pub mod Resumes
use kelvinclaw.Prelude.{
  ℕ, Bool, true, false, Option, none, some, List, [], ◌∷◌, leb, ltb, if◌then◌else◌, length, take,
  sat_inc,
}
use kelvinclaw.Prelude.Text.{Text}
use kelvinclaw.Prelude.Map.{add}
use kelvinclaw.Prelude.Error.{KelvinError, KelvinResult, ok, err}
use kelvinclaw.Prelude.Exec.{◌>>=◌, ◌>>◌, pure}
use kelvinclaw.Channel.Types.{TextChannelAdapter, PersistedChannelState, ChannelMetrics}
use kelvinclaw.Channel.World.{Channel, Script, World, now_ms, update, count, persist_state}
use kelvinclaw.Channel.Policy.{expire}

-- `while order.len() > max { order.pop_front() }`
unfoldable pub trim_front : ℕ → List Text → List Text
trim_front max_len [] = []
trim_front max_len (t ∷ order) =
    let rest = trim_front max_len order in
    if leb (length (t ∷ order)) max_len then t ∷ order else rest

-- `order.iter().cloned().collect()` into a set
unfoldable pub ids_of : List Text → List Text
ids_of [] = []
ids_of (t ∷ order) = add t (ids_of order)

put_window : Text → List ℕ → List (Text × List ℕ) → List (Text × List ℕ)
put_window sender_id [] windows = windows
put_window sender_id (ts ∷ window) windows = (sender_id, ts ∷ window) ∷ windows

-- The windows without what has expired, and only those that are not empty.
unfoldable pub live_windows : ℕ → List (Text × List ℕ) → List (Text × List ℕ)
unfolding put_window
live_windows now [] = []
live_windows now ((sender_id, window) ∷ windows) =
    put_window sender_id (expire now window) (live_windows now windows)

unfoldable pub live_cooldowns : ℕ → List (Text × ℕ) → List (Text × ℕ)
live_cooldowns now [] = []
live_cooldowns now ((sender_id, until) ∷ cooldowns) =
    let rest = live_cooldowns now cooldowns in
    if ltb now until then (sender_id, until) ∷ rest else rest

unfoldable pub restored : ℕ → PersistedChannelState → TextChannelAdapter → TextChannelAdapter
unfolding trim_front ids_of live_windows live_cooldowns
restored now state a =
    let order = trim_front a.config.policy.max_seen_delivery_ids state.seen_delivery_order in
    record a {
      paired_accounts = state.paired_accounts;
      pending_pair_codes = state.pending_pair_codes;
      seen_delivery_order = order;
      seen_delivery_ids = ids_of order;
      rate_windows = live_windows now state.rate_windows;
      cooldown_until_ms = live_cooldowns now state.cooldown_until_ms;
      inbox = take a.config.policy.max_queue_depth state.inbox;
      metrics = state.metrics;
    }

verified_metric : ℕ → ℕ → Bool → ChannelMetrics → ChannelMetrics
verified_metric now status_code retry_hint m = record m {
  webhook_total = sat_inc m.webhook_total;
  webhook_accepted_total = sat_inc m.webhook_accepted_total;
  verification_ok_total = sat_inc m.verification_ok_total;
  webhook_retry_total = if retry_hint then sat_inc m.webhook_retry_total else m.webhook_retry_total;
  last_webhook_request_at_ms = some now;
  last_webhook_accept_at_ms = some now;
  last_webhook_status_code = some status_code;
  last_verification_ok_at_ms = some now;
  last_verification_error = none;
}

refused_metric : ℕ → ℕ → Bool → Text → ChannelMetrics → ChannelMetrics
refused_metric now status_code retry_hint reason m = record m {
  webhook_total = sat_inc m.webhook_total;
  webhook_denied_total = sat_inc m.webhook_denied_total;
  verification_failed_total = sat_inc m.verification_failed_total;
  webhook_retry_total = if retry_hint then sat_inc m.webhook_retry_total else m.webhook_retry_total;
  last_webhook_request_at_ms = some now;
  last_webhook_status_code = some status_code;
  last_verification_failed_at_ms = some now;
  last_verification_error = some reason;
}

module _ (script : Script) where
  unfoldable pub apply_persisted_state : PersistedChannelState → Channel (Unit {0})
  unfolding restored
  apply_persisted_state state = do now ← now_ms script; update (restored now state)

  apply_loaded : KelvinResult (Option PersistedChannelState) → Channel (Unit {0})
  unfolding apply_persisted_state
  apply_loaded (err e) w = (err e, w)
  apply_loaded (ok none) w = (ok tt, w)
  apply_loaded (ok (some state)) w = apply_persisted_state state w

  -- `load_persisted_state`, with the error of the read of the file, if it fails
  unfoldable pub load_persisted_state : Option KelvinError → Channel (Unit {0})
  unfolding apply_loaded
  load_persisted_state read_error w =
      let loaded = elim read_error as (λ _. KelvinResult (Option PersistedChannelState)) [
        | none ↦ ok w.disk
        | some e ↦ elim w.disk [ none ↦ ok none | some _ ↦ err e ]
      ] in
      if w.adapter.has_persistence then apply_loaded loaded w else (ok tt, w)

  unfoldable pub record_webhook_verified : ℕ → Bool → Channel (Unit {0})
  unfolding verified_metric
  record_webhook_verified status_code retry_hint = do
    now ← now_ms script
    count (verified_metric now status_code retry_hint)
    persist_state script

  unfoldable pub record_webhook_denied : ℕ → Bool → Text → Channel (Unit {0})
  unfolding refused_metric
  record_webhook_denied status_code retry_hint reason = do
    now ← now_ms script
    count (refused_metric now status_code retry_hint reason)
    persist_state script
