-- ===== src/Channel/Ingest.antt =====
-- The handling of one message (`ingest` of apps/kelvin-gateway/src/channels.rs).
pub mod Queue
use kelvinclaw.Prelude.{
  ℕ, ◌+◌, Bool, true, false, not, Option, none, some, List, [], ◌∷◌, ◌++◌, leb, ltb, length, String,
  if◌then◌else◌, sat_inc,
}
use kelvinclaw.Prelude.Text.{Text, lit, trim, is_empty, byte_len}
use kelvinclaw.Prelude.Error.{
  KelvinError, KelvinResult, ok, err, invalid_input, not_found, backend, Message, literal,
  with_text, with_number, refuse_if,
}
use kelvinclaw.Channel.Envelope.{normalize_envelope}
use kelvinclaw.Prelude.Json.{Json, name, text, object, nil, field}
use kelvinclaw.Prelude.Exec.{◌>>=◌, ◌>>◌, pure, fail, lift, fail_if}
use kelvinclaw.Channel.Types.{
  SenderTrustTier, TextChannelAdapter, ChannelEnvelope, ChannelMetrics, ChannelPolicy, kind_name,
  as_command_surface, SlashCommandMeta, WasmPolicyDecision, PolicyPlugin, RouteDecision,
  QueuedEnvelope, QueuedSlashCommand,
}
use kelvinclaw.Channel.World.{Channel, Script, World, now_ms, update, count, persist_state}
use kelvinclaw.Channel.Routing.{RouteRule, RouteInput, decide, apply_wasm_overrides}
use kelvinclaw.Channel.Delivery.{is_duplicate_delivery, track_delivery_id}
use kelvinclaw.Channel.Policy.{verify_ingress_auth, enforce_policy}
use kelvinclaw.Channel.Pairing.{enforce_pairing_policy}
use kelvinclaw.Channel.Outbound.{send_ignoring_errors}
use kelvinclaw.Channel.Slash.{command_of, tier_too_low}
use kelvinclaw.Channel.Inbox.{command_exec, process_inbox}

clear_token : ChannelEnvelope → ChannelEnvelope
clear_token e = record e { auth_token = none }

ingest_metric : ChannelMetrics → ChannelMetrics
ingest_metric m = record m { ingest_total = sat_inc m.ingest_total }

deduped_metric : ChannelMetrics → ChannelMetrics
deduped_metric m = record m { deduped_total = sat_inc m.deduped_total }

pairing_metric : ChannelMetrics → ChannelMetrics
pairing_metric m = record m { pairing_required_total = sat_inc m.pairing_required_total }

denied_metric : ChannelMetrics → ChannelMetrics
denied_metric m = record m { policy_denied_total = sat_inc m.policy_denied_total }

queued_metric : ChannelMetrics → ChannelMetrics
queued_metric m = record m { queued_total = sat_inc m.queued_total }

rejected_metric : ChannelMetrics → ChannelMetrics
rejected_metric m = record m {
  queue_rejected_total = sat_inc m.queue_rejected_total;
  last_error = some (literal "channel queue is full");
}

override_envelope : ℕ → Option Text → ChannelEnvelope → KelvinResult ChannelEnvelope
override_envelope max_len none e = ok e
override_envelope max_len (some t) e =
    if is_empty (trim t)
    then err (invalid_input (literal "wasm channel policy override_text must not be empty"))
    else if ltb max_len (byte_len (trim t))
    then err (invalid_input (literal "wasm channel policy override_text exceeds max text bytes"))
    else ok (record e { text = trim t })

or_tier : Option SenderTrustTier → SenderTrustTier → SenderTrustTier
or_tier none tier = tier
or_tier (some t) tier = t

denial_reason : Option Text → Text
denial_reason none = lit "blocked by wasm policy"
denial_reason (some r) = r

-- What the policies made of a message.
pub record Judged : Type 0 where
  pub envelope : ChannelEnvelope
  pub trust_tier : SenderTrustTier
  pub decision : Option WasmPolicyDecision

override_route : Option WasmPolicyDecision → RouteDecision → RouteDecision
override_route none route = route
override_route (some d) route = apply_wasm_overrides d route

route_of : List RouteRule → TextChannelAdapter → Judged → RouteDecision
route_of routing a j = decide routing (record {
  channel = kind_name a.config.kind;
  account_id = j.envelope.account_id;
  requested_session_id = j.envelope.session_id;
  requested_workspace_dir = j.envelope.workspace_dir;
  sender_tier = j.trust_tier;
})

reply_json : String → Text → Text → Json
reply_json status command delivery_id = object (
    field "status" (name status)
      (field "command" (text command) (field "delivery_id" (text delivery_id) nil)))

-- `if args.is_empty() { Null } else { String(args) }`
args_value : Text → Option Text
args_value args = if is_empty args then none else some args

push_back : QueuedEnvelope → TextChannelAdapter → TextChannelAdapter
push_back entry a = record a { inbox = a.inbox ++ entry ∷ [] }

module _ (script : Script) (routing : List RouteRule) (commands : List SlashCommandMeta) where
  reject_full : Channel Json
  unfolding rejected_metric
  reject_full = do
    count rejected_metric
    persist_state script
    λ w. (
      err (
          backend
            (with_text (literal "{} channel queue is full") (kind_name w.adapter.config.kind))),
      w,
    )

  accept : QueuedEnvelope → Channel Json
  unfolding queued_metric push_back
  accept entry = do
    count queued_metric
    update (push_back entry)
    persist_state script
    process_inbox script entry.envelope.delivery_id

  -- Queues a message, if there is room, and works through the inbox.
  unfoldable pub enqueue : QueuedEnvelope → Channel Json
  unfolding reject_full accept
  enqueue entry w =
      if leb w.adapter.config.policy.max_queue_depth (length w.adapter.inbox)
      then reject_full w
      else accept entry w

  bypass : Judged → QueuedSlashCommand → Channel Json
  unfolding reply_json
  bypass j slash = do
    reply ← command_exec script slash
    send_ignoring_errors script j.envelope.account_id reply
    pure (reply_json "command_dispatched" slash.command_name j.envelope.delivery_id)

  -- A message that names a command of this surface.
  ingest_command : Judged → SlashCommandMeta → QueuedSlashCommand → Channel Json
  unfolding route_of reply_json bypass enqueue
  ingest_command j m slash w =
      let denied = (do
        track_delivery_id script j.envelope.delivery_id
        send_ignoring_errors script j.envelope.account_id
            (with_text (literal "/{} requires elevated access") slash.command_name)
        pure (reply_json "command_denied" slash.command_name j.envelope.delivery_id)) in
      let queued = (λ (v : World).
        enqueue
          (record {
            envelope = j.envelope;
            route = route_of routing v.adapter j;
            slash_command = some slash;
          })
          v) in
      if tier_too_low m j.trust_tier
      then denied w
      else (track_delivery_id script j.envelope.delivery_id
            >> (if m.bypass_queue then bypass j slash else queued))
          w

  ingest_message : Judged → Channel Json
  unfolding route_of override_route enqueue
  ingest_message j = do
    track_delivery_id script j.envelope.delivery_id
    λ w.
        enqueue
          (record {
            envelope = j.envelope;
            route = override_route j.decision (route_of routing w.adapter j);
            slash_command = none;
          })
          w

  -- What comes after the policies: the command that the text names, or the message.
  unfoldable pub dispatch : Judged → Channel Json
  unfolding ingest_command ingest_message args_value
  dispatch j w =
      elim (command_of commands (as_command_surface w.adapter.config.kind) j.envelope.text) [
        | none ↦ ingest_message j w
        | some (m, command, args) ↦
            ingest_command j m
              (record {
                command_name = command;
                args = args_value args;
                session_id = j.envelope.session_id;
              })
              w
      ]

  apply_decision : ChannelEnvelope → SenderTrustTier → WasmPolicyDecision → Channel Judged
  unfolding denied_metric denial_reason override_envelope or_tier
  apply_decision e tier d w =
      let refused = (do
        count denied_metric
        fail (
            not_found (
              with_text
                (with_text (literal "{} channel message denied: {}")
                  (kind_name w.adapter.config.kind))
                (denial_reason d.reason)))) in
      let allowed = (do
        body ← lift (override_envelope w.adapter.config.policy.max_text_bytes d.override_text e)
        pure (record {
          envelope = body;
          trust_tier = or_tier d.trust_tier tier;
          decision = some d;
        })) in
      if d.allow then allowed w else refused w

  ask_plugin : ChannelEnvelope → SenderTrustTier → Option PolicyPlugin → Channel Judged
  unfolding apply_decision
  ask_plugin e tier none = pure (record { envelope = e; trust_tier = tier; decision = none })
  ask_plugin e tier (some plugin) = do
    now ← now_ms script
    d ← lift (plugin e tier now)
    apply_decision e tier d

  -- The policies of a channel, its own and the plugin's.
  unfoldable pub judge : ChannelEnvelope → Channel Judged
  unfolding ask_plugin
  judge e = do
    tier ← enforce_policy script e
    λ w. ask_plugin e tier w.adapter.config.wasm_policy_plugin w

  require_pairing : ChannelEnvelope → Text → Channel Json
  unfolding pairing_metric
  require_pairing e code = do
    count pairing_metric
    send_ignoring_errors script e.account_id (
        with_text
          (literal
            "KelvinClaw pairing required. Approve code: {code} using channel.telegram.pair.approve.")
          code)
    pure (
        object (
          field "status" (name "pairing_required")
            (field "account_id" (text e.account_id) (field "pairing_code" (text code) nil))))

  -- A message that is no duplicate.
  unfoldable pub ingest_new : ChannelEnvelope → Channel Json
  unfolding require_pairing judge dispatch
  ingest_new e = do
    code ← enforce_pairing_policy script e.account_id
    elim code [ some c ↦ require_pairing e c | none ↦ (judge e >>= λ j. dispatch j) ]

  unfoldable pub dedupe : ChannelEnvelope → Channel Json
  unfolding deduped_metric ingest_new
  dedupe e w =
      let seen = (do
        count deduped_metric
        pure (
            object
              (field "status" (name "deduped") (field "delivery_id" (text e.delivery_id) nil)))) in
      if is_duplicate_delivery w.adapter e.delivery_id then seen w else ingest_new e w

  unfoldable pub ingest : ChannelEnvelope → Channel Json
  unfolding ingest_metric clear_token dedupe
  ingest envelope = do
    count ingest_metric
    λ w.
        (do
          e ← lift (normalize_envelope w.adapter.config.policy envelope)
          lift (verify_ingress_auth w.adapter e)
          dedupe (clear_token e))
          w
