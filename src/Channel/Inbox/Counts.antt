-- ===== src/Channel/Inbox/Counts.antt =====
-- The execution of an entry of the inbox changes nothing of a channel but its metrics.
use kelvinclaw.Prelude.{ℕ, Bool, true, false, refl, ◌∙◌, Option, none, some}
use kelvinclaw.Prelude.Text.{Text, text_eq}
use kelvinclaw.Prelude.Error.{KelvinResult, ok, err, Message, to_message}
use kelvinclaw.Prelude.Exec.{◌>>◌, pure}
use kelvinclaw.Prelude.Json.{Json}
use kelvinclaw.Channel.Types.{QueuedEnvelope, QueuedSlashCommand}
use kelvinclaw.Channel.World.{
  Channel, Script, World, RunOutcome, RunRequest, completed, failed, timeout, persist_state, count,
}
use kelvinclaw.Channel.World.Counts.{
  Counted, OnlyCounts, OnlyCounts-bind, count-OnlyCounts, persist_state-OnlyCounts, masked,
}
use kelvinclaw.Channel.Outbound.{send_message_with_retry, send_ignoring_errors}
use kelvinclaw.Channel.Outbound.Counts.{
  send_message_with_retry-OnlyCounts, send_ignoring_errors-OnlyCounts,
}
use kelvinclaw.Channel.Inbox.{
  run_command, run_agent, await, reply_command, conclude, execute_entry, settle, turn, command_exec,
  submit, wait_for_outcome, completed_metric, failed_metric, timeout_metric, error_metric,
  request_of, wait_ms, plain, response_or_default, join_lines,
}

pub pure-OnlyCounts : {A : Type 0} (a : A) → OnlyCounts (pure a)
pure-OnlyCounts a w m = refl

module _ (script : Script) where
  -- A save, and then a value.
  persist_then : (j : Json) → OnlyCounts (persist_state script >> pure j)
  persist_then j =
      OnlyCounts-bind (persist_state script) (λ _. pure j) (persist_state-OnlyCounts script)
        (λ _. pure-OnlyCounts j)

  -- A message whose errors are ignored, and then a save and a value.
  reply_then :
      (account_id : Text) (body : Message) (j : Json)
      → OnlyCounts (send_ignoring_errors script account_id body >> (persist_state script >> pure j))
  reply_then account_id body j =
      OnlyCounts-bind (send_ignoring_errors script account_id body) _
        (send_ignoring_errors-OnlyCounts script account_id body) (λ _. persist_then j)

  pub command_exec-OnlyCounts :
      (slash : QueuedSlashCommand) → OnlyCounts (command_exec script slash)
  unfolding command_exec masked
  command_exec-OnlyCounts slash w m = refl

  submit-OnlyCounts : (request : RunRequest) → OnlyCounts (submit script request)
  unfolding submit masked
  submit-OnlyCounts request w m = refl

  wait-OnlyCounts : (run_id : Text) (t : ℕ) → OnlyCounts (wait_for_outcome script run_id t)
  unfolding wait_for_outcome masked
  wait-OnlyCounts run_id t w m = refl

  conclude-OnlyCounts :
      (entry : QueuedEnvelope) (run_id : Text) (outcome : RunOutcome)
      → OnlyCounts (conclude script entry run_id outcome)
  unfolding conclude
  conclude-OnlyCounts entry run_id (completed payloads) =
      OnlyCounts-bind
        (send_message_with_retry script entry.envelope.account_id
          (plain (response_or_default (join_lines payloads))))
        _ (send_message_with_retry-OnlyCounts script entry.envelope.account_id _)
        (λ _.
          OnlyCounts-bind (count completed_metric) _ (count-OnlyCounts completed_metric)
            (λ _. persist_then _))
  conclude-OnlyCounts entry run_id (failed error) =
      OnlyCounts-bind (count (failed_metric (plain error))) _
        (count-OnlyCounts (failed_metric (plain error)))
        (λ _. reply_then entry.envelope.account_id _ _)
  conclude-OnlyCounts entry run_id timeout =
      OnlyCounts-bind (count timeout_metric) _ (count-OnlyCounts timeout_metric)
        (λ _. reply_then entry.envelope.account_id _ _)

  await-OnlyCounts :
      (entry : QueuedEnvelope) (run_id : Text) → OnlyCounts (await script entry run_id)
  unfolding await
  await-OnlyCounts entry run_id =
      OnlyCounts-bind (wait_for_outcome script run_id (wait_ms entry.envelope.timeout_ms))
        (conclude script entry run_id) (wait-OnlyCounts run_id (wait_ms entry.envelope.timeout_ms))
        (conclude-OnlyCounts entry run_id)

  run_agent-OnlyCounts : (entry : QueuedEnvelope) → OnlyCounts (run_agent script entry)
  unfolding run_agent
  run_agent-OnlyCounts entry w =
      OnlyCounts-bind (submit script (request_of w.adapter.config.kind entry)) (await script entry)
        (submit-OnlyCounts (request_of w.adapter.config.kind entry)) (await-OnlyCounts entry) w

  reply_command-OnlyCounts :
      (entry : QueuedEnvelope) (slash : QueuedSlashCommand) (reply : Message)
      → OnlyCounts (reply_command script entry slash reply)
  unfolding reply_command
  reply_command-OnlyCounts entry slash reply = reply_then entry.envelope.account_id reply _

  run_command-OnlyCounts :
      (entry : QueuedEnvelope) (slash : QueuedSlashCommand)
      → OnlyCounts (run_command script entry slash)
  unfolding run_command
  run_command-OnlyCounts entry slash =
      OnlyCounts-bind (command_exec script slash) (reply_command script entry slash)
        (command_exec-OnlyCounts slash) (reply_command-OnlyCounts entry slash)

  -- Whatever becomes of an entry, its execution changes nothing of the adapter but the metrics.
  pub execute_entry-OnlyCounts : (entry : QueuedEnvelope) → OnlyCounts (execute_entry script entry)
  unfolding execute_entry
  execute_entry-OnlyCounts entry w = go entry.slash_command
    where
      go :
          (s : Option QueuedSlashCommand)
          → Counted w
              ((elim s as (λ _. Channel Json) [
                | some slash ↦ run_command script entry slash
                | none ↦ run_agent script entry
              ])
                w).1
      go none = run_agent-OnlyCounts entry w
      go (some slash) = run_command-OnlyCounts entry slash w

  settle-Counted :
      (is_target : Bool) (response : Option Json) (w : World) (r : KelvinResult Json × World)
      → Counted w r.1
      → Counted w (settle script is_target response r).1
  unfolding settle
  settle-Counted true response w (ok payload, v) h m = h m
  settle-Counted true response w (err e, v) h m = h m
  settle-Counted false response w (ok payload, v) h m = h m
  settle-Counted false response w (err e, v) h m =
      count-OnlyCounts (error_metric (to_message e)) v m ∙ h m

  pub turn-OnlyCounts :
      (target : Text) (response : Option Json) (entry : QueuedEnvelope)
      → OnlyCounts (turn script target response entry)
  unfolding turn
  turn-OnlyCounts target response entry =
      OnlyCounts-bind (persist_state script) _ (persist_state-OnlyCounts script) (λ _ w.
        settle-Counted (text_eq entry.envelope.delivery_id target) response w
          (execute_entry script entry w) (execute_entry-OnlyCounts entry w))
