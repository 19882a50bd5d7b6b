-- ===== src/Channel/Outbound.antt =====
-- Outbound messages (`send_message_with_retry` and `deliver_outbound_message` of
-- apps/kelvin-gateway/src/channels.rs). One request is a question to the script; the waits
-- between the attempts change nothing.
pub mod Counts
pub mod Retries
use kelvinclaw.Prelude.{
  ℕ, zero, suc, ◌+◌, Bool, true, false, Option, none, some, List, [], ◌∷◌, ◌++◌, if◌then◌else◌,
  sat_inc, ltb,
}
use kelvinclaw.Prelude.Text.{Text}
use kelvinclaw.Prelude.Error.{
  KelvinError, KelvinResult, ok, err, backend, Message, literal, with_text, with_message,
  to_message,
}
use kelvinclaw.Prelude.Exec.{◌>>=◌, ◌>>◌, pure, fail}
use kelvinclaw.Channel.Types.{TextChannelAdapter, ChannelMetrics, kind_name}
use kelvinclaw.Channel.World.{Channel, Script, World, Sent, update, count, persist_state}

attempt_metric : ChannelMetrics → ChannelMetrics
attempt_metric m = record m { outbound_attempt_total = sat_inc m.outbound_attempt_total }

retry_metric : ChannelMetrics → ChannelMetrics
retry_metric m = record m { outbound_retry_total = sat_inc m.outbound_retry_total }

failure_metric : Message → ChannelMetrics → ChannelMetrics
failure_metric last m = record m {
  outbound_failure_total = sat_inc m.outbound_failure_total;
  last_error = some last;
}

module _ (script : Script) where
  -- One request: its error, if it fails.
  send_outbound_once : Text → Message → Channel (Option KelvinError)
  send_outbound_once account_id body w = (
    ok (script.send_error w.sends),
    record w {
      sends = w.sends + 1;
      sent = w.sent ++ record { account_id = account_id; body = body } ∷ [];
    },
  )

  -- After a request that failed: the count of a retry, and the next one.
  retry_if : Option KelvinError → Channel (Option KelvinError) → Channel (Option KelvinError)
  unfolding retry_metric
  retry_if none again = pure none
  retry_if (some e) again = count retry_metric >> again

  -- The loop `for attempt in 0..=outbound_max_retries`, with the retries that are left.
  unfoldable pub attempts : ℕ → Text → Message → Channel (Option KelvinError)
  unfolding send_outbound_once attempt_metric retry_if
  attempts zero account_id body = do count attempt_metric; send_outbound_once account_id body
  attempts (suc retries) account_id body = do
    count attempt_metric
    failed ← send_outbound_once account_id body
    retry_if failed (attempts retries account_id body)

  give_up : Option KelvinError → Channel (Unit {0})
  unfolding failure_metric to_message
  give_up none = pure tt
  give_up (some e) = do
    count (failure_metric (to_message e))
    λ w. (
      err (
          backend (
            with_message
              (with_text (literal "{} outbound delivery failed after retries: {}")
                (kind_name w.adapter.config.kind))
              (to_message e))),
      w,
    )

  -- Without a bot token nothing is sent.
  unfoldable pub send_message_with_retry : Text → Message → Channel (Unit {0})
  unfolding attempts give_up
  send_message_with_retry account_id body w = elim w.adapter.config.transport.bot_token [
    | none ↦ (ok tt, w)
    | some token ↦
        (attempts w.adapter.config.transport.outbound_max_retries account_id body >>= give_up) w
  ]

  unfoldable pub deliver_outbound_message : Text → Message → Channel (Unit {0})
  deliver_outbound_message account_id body = do
    send_message_with_retry account_id body
    persist_state script

  -- `let _ = self.send_message_with_retry(…)`
  unfoldable pub send_ignoring_errors : Text → Message → Channel (Unit {0})
  unfolding send_message_with_retry
  send_ignoring_errors account_id body w = (ok tt, (send_message_with_retry account_id body w).1)
