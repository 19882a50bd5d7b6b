-- ===== src/Channel/Outbound/Counts.antt =====
-- Outbound messages change nothing of a channel but its metrics.
use kelvinclaw.Prelude.{ℕ, zero, suc, refl, Option, none, some}
use kelvinclaw.Prelude.Text.{Text}
use kelvinclaw.Prelude.Error.{KelvinError, ok, Message}
use kelvinclaw.Prelude.Exec.{◌>>=◌}
use kelvinclaw.Channel.World.{Channel, Script, count}
use kelvinclaw.Channel.World.Counts.{
  OnlyCounts, Counted-option, OnlyCounts-bind, count-OnlyCounts, masked,
}
use kelvinclaw.Channel.Outbound.{
  attempts, give_up, retry_if, send_outbound_once, send_message_with_retry, send_ignoring_errors,
  attempt_metric, retry_metric,
}

module _ (script : Script) where
  send_outbound_once-OnlyCounts :
      (account_id : Text) (body : Message) → OnlyCounts (send_outbound_once script account_id body)
  unfolding send_outbound_once masked
  send_outbound_once-OnlyCounts account_id body w m = refl

  retry_if-OnlyCounts :
      (failed : Option KelvinError) (again : Channel (Option KelvinError))
      → OnlyCounts again
      → OnlyCounts (retry_if script failed again)
  unfolding retry_if
  retry_if-OnlyCounts none again h w m = refl
  retry_if-OnlyCounts (some e) again h w m =
      OnlyCounts-bind (count retry_metric) (λ _. again) (count-OnlyCounts retry_metric) (λ _. h) w m

  attempts-OnlyCounts :
      (n : ℕ) (account_id : Text) (body : Message) → OnlyCounts (attempts script n account_id body)
  unfolding attempts
  attempts-OnlyCounts zero account_id body =
      OnlyCounts-bind (count attempt_metric) _ (count-OnlyCounts attempt_metric)
        (λ _. send_outbound_once-OnlyCounts account_id body)
  attempts-OnlyCounts (suc n) account_id body =
      OnlyCounts-bind (count attempt_metric) _ (count-OnlyCounts attempt_metric) λ _.
        OnlyCounts-bind (send_outbound_once script account_id body)
          (λ failed. retry_if script failed (attempts script n account_id body))
          (send_outbound_once-OnlyCounts account_id body)
          (λ failed.
            retry_if-OnlyCounts failed (attempts script n account_id body)
              (attempts-OnlyCounts n account_id body))

  give_up-OnlyCounts : (e : Option KelvinError) → OnlyCounts (give_up script e)
  unfolding give_up masked count
  give_up-OnlyCounts none w m = refl
  give_up-OnlyCounts (some e) w m = refl

  pub send_message_with_retry-OnlyCounts :
      (account_id : Text) (body : Message)
      → OnlyCounts (send_message_with_retry script account_id body)
  unfolding send_message_with_retry
  send_message_with_retry-OnlyCounts account_id body w =
      let n = w.adapter.config.transport.outbound_max_retries in
      let call = attempts script n account_id body in
      Counted-option w.adapter.config.transport.bot_token (ok tt, w)
        (λ _. (call >>= give_up script) w) w (λ m. refl)
        (λ _.
          OnlyCounts-bind call (give_up script) (attempts-OnlyCounts n account_id body)
            give_up-OnlyCounts w)

  pub send_ignoring_errors-OnlyCounts :
      (account_id : Text) (body : Message)
      → OnlyCounts (send_ignoring_errors script account_id body)
  unfolding send_ignoring_errors
  send_ignoring_errors-OnlyCounts account_id body w =
      send_message_with_retry-OnlyCounts account_id body w
