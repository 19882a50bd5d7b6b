-- ===== src/Channel/Inbox.antt =====
-- The inbox of a channel (`process_inbox` and `execute_entry` of
-- apps/kelvin-gateway/src/channels.rs).
pub mod Counts
pub mod Drains
pub mod Handled
use kelvinclaw.Prelude.{
  ℕ, zero, suc, ◌+◌, Bool, true, false, Option, none, some, List, [], ◌∷◌, ◌++◌, if◌then◌else◌,
  sat_inc, sat_add_u64, length, String,
}
use kelvinclaw.Prelude.Text.{Text, lit, text_eq, trim, is_empty}
use kelvinclaw.Prelude.Error.{
  KelvinError, KelvinResult, ok, err, Message, literal, with_text, with_message, to_message,
}
use kelvinclaw.Prelude.Json.{
  Json, Fields, number, name, text, message, object, nil, field, option_text,
}
use kelvinclaw.Prelude.Exec.{◌>>=◌, ◌>>◌, pure}
use kelvinclaw.Channel.Types.{
  TextChannelAdapter, ChannelMetrics, ChannelKind, kind_name, QueuedEnvelope, QueuedSlashCommand,
  RouteDecision, ChannelEnvelope,
}
use kelvinclaw.Channel.World.{
  Channel, Script, World, RunRequest, RunOutcome, completed, failed, timeout, update, count,
  persist_state,
}
use kelvinclaw.Channel.Outbound.{send_message_with_retry, send_ignoring_errors}

unfoldable pub route_json : RouteDecision → Json
route_json route = object (
    field "matched_rule_id" (option_text route.matched_rule_id) (
      field "session_id" (text route.session_id) (
        field "workspace_dir" (option_text route.workspace_dir) (
          field "system_prompt" (option_text route.system_prompt)
            (field "sender_tier" (text route.sender_tier) nil)))))

completed_metric : ChannelMetrics → ChannelMetrics
completed_metric m = record m { completed_total = sat_inc m.completed_total; last_error = none }

failed_metric : Message → ChannelMetrics → ChannelMetrics
failed_metric error m = record m { failed_total = sat_inc m.failed_total; last_error = some error }

timeout_metric : ChannelMetrics → ChannelMetrics
timeout_metric m = record m {
  timeout_total = sat_inc m.timeout_total;
  last_error = some (literal "run timed out");
}

error_metric : Message → ChannelMetrics → ChannelMetrics
error_metric error m = record m { last_error = some error }

-- `payloads.join("\n")`
unfoldable pub join_lines : List Text → Text
join_lines [] = []
join_lines (t ∷ []) = t
join_lines (t ∷ u ∷ ts) = t ++ 10 ∷ join_lines (u ∷ ts)

response_or_default : Text → Text
response_or_default t = if is_empty (trim t) then lit "No response generated." else t

-- `text` as the body of a message
plain : Text → Message
plain t = with_text (literal "{}") t

-- the reply of a slash command
unfoldable pub command_reply : Text → KelvinResult Message → Message
unfolding to_message
command_reply command_name (ok reply) = reply
command_reply command_name (err e) =
    with_message (with_text (literal "/{} failed: {}") command_name) (to_message e)

system_prompt_of : ChannelKind → QueuedEnvelope → Message
system_prompt_of kind entry =
    let context =
      with_text
        (with_text (with_text (literal "[Channel: {} | Sender: {} | Tier: {}]") (kind_name kind))
          entry.envelope.sender_id)
        entry.route.sender_tier in
    elim entry.route.system_prompt [
      | none ↦ context
      | some existing ↦ with_text (with_message (literal "{}\n{}") context) existing
    ]

unfoldable pub request_of : ChannelKind → QueuedEnvelope → RunRequest
unfolding system_prompt_of
request_of kind entry = record {
  prompt = entry.envelope.text;
  session_id = entry.route.session_id;
  workspace_dir = entry.route.workspace_dir;
  timeout_ms = entry.envelope.timeout_ms;
  system_prompt = system_prompt_of kind entry;
}

-- `timeout_ms.unwrap_or(30_000).saturating_add(3_000)`
unfoldable pub wait_ms : Option ℕ → ℕ
wait_ms none = 33000
wait_ms (some t) = sat_add_u64 t 3000

module _ (script : Script) where
  submit : RunRequest → Channel Text
  submit request w = (script.submit w.runs request, record w { runs = w.runs + 1 })

  wait_for_outcome : Text → ℕ → Channel RunOutcome
  wait_for_outcome run_id timeout_ms w =
      (script.outcome w.runs run_id timeout_ms, record w { runs = w.runs + 1 })

  unfoldable pub command_exec : QueuedSlashCommand → Channel Message
  command_exec slash w = (
    ok (command_reply slash.command_name (script.command w.runs slash)),
    record w { runs = w.runs + 1 },
  )

  reply_command : QueuedEnvelope → QueuedSlashCommand → Message → Channel Json
  reply_command entry slash reply = do
    send_ignoring_errors script entry.envelope.account_id reply
    persist_state script
    pure (
        object (
          field "status" (name "command_completed") (
            field "command" (text slash.command_name)
              (field "delivery_id" (text entry.envelope.delivery_id) nil))))

  run_command : QueuedEnvelope → QueuedSlashCommand → Channel Json
  unfolding command_exec reply_command
  run_command entry slash = command_exec slash >>= reply_command entry slash

  finished : QueuedEnvelope → Text → String → Fields → Json
  finished entry run_id status more = object (
      field "status" (name status)
        (field "run_id" (text run_id) (field "delivery_id" (text entry.envelope.delivery_id) more)))

  conclude : QueuedEnvelope → Text → RunOutcome → Channel Json
  unfolding completed_metric failed_metric timeout_metric response_or_default plain finished
  conclude entry run_id (completed payloads) = do
    let reply = response_or_default (join_lines payloads)
    send_message_with_retry script entry.envelope.account_id (plain reply)
    count completed_metric
    persist_state script
    pure (
        finished entry run_id "completed"
          (field "response_text" (text reply) (field "route" (route_json entry.route) nil)))
  conclude entry run_id (failed error) = do
    count (failed_metric (plain error))
    send_ignoring_errors script entry.envelope.account_id
        (with_text (literal "Kelvin run failed: {}") error)
    persist_state script
    pure (
        finished entry run_id "failed"
          (field "error" (text error) (field "route" (route_json entry.route) nil)))
  conclude entry run_id timeout = do
    count timeout_metric
    send_ignoring_errors script entry.envelope.account_id (literal "Kelvin run timed out.")
    persist_state script
    pure (finished entry run_id "timeout" (field "route" (route_json entry.route) nil))

  await : QueuedEnvelope → Text → Channel Json
  unfolding wait_for_outcome conclude
  await entry run_id =
      wait_for_outcome run_id (wait_ms entry.envelope.timeout_ms) >>= conclude entry run_id

  run_agent : QueuedEnvelope → Channel Json
  unfolding submit await
  run_agent entry w = (submit (request_of w.adapter.config.kind entry) >>= await entry) w

  unfoldable pub execute_entry : QueuedEnvelope → Channel Json
  unfolding run_command run_agent
  execute_entry entry = elim entry.slash_command [
    | some slash ↦ run_command entry slash
    | none ↦ run_agent entry
  ]

  -- What the loop does with the result of an entry: the target's result is kept, its error ends
  -- the loop; another entry's error is noted.
  settle : Bool → Option Json → KelvinResult Json × World → KelvinResult (Option Json) × World
  unfolding error_metric
  settle true response (ok payload, w) = (ok (some payload), w)
  settle true response (err e, w) = (err e, w)
  settle false response (ok payload, w) = (ok response, w)
  settle false response (err e, w) = (ok response, (count (error_metric (to_message e)) w).1)

  -- One turn of the loop, for an entry that was taken out of the inbox.
  unfoldable pub turn : Text → Option Json → QueuedEnvelope → Channel (Option Json)
  unfolding settle
  turn target response entry = do
    persist_state script
    λ w. settle (text_eq entry.envelope.delivery_id target) response (execute_entry entry w)

  -- `while let Some(entry) = self.inbox.pop_front()`, for at most so many turns
  unfoldable pub drain : ℕ → Text → Option Json → Channel (Option Json)
  unfolding turn
  drain zero target response w = (ok response, w)
  drain (suc turns) target response w =
      let next = λ (entry : QueuedEnvelope). λ (rest : List QueuedEnvelope).
        (turn target response entry >>= λ r. drain turns target r)
          (record w { adapter = record (w.adapter) { inbox = rest } }) in
      elim w.adapter.inbox [ [] ↦ (ok response, w) | entry ∷ rest ↦ next entry rest ]

  pub respond : Text → Option Json → Channel Json
  respond target (some payload) w = (ok payload, w)
  respond target none w = (
    ok (
        object (
          field "status" (name "queued") (
            field "delivery_id" (text target)
              (field "queue_depth" (number (length w.adapter.inbox)) nil)))),
    w,
  )

  -- The inbox's own length is enough turns, since no entry adds to it (`process_inbox-Handled`).
  unfoldable pub process_inbox : Text → Channel Json
  unfolding drain respond
  process_inbox target w = (drain (length w.adapter.inbox) target none >>= λ r. respond target r) w
