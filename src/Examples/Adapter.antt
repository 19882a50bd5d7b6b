-- ===== src/Examples/Adapter.antt =====
-- A channel of apps/kelvin-gateway/src/channels.rs, a message for it and a script.
use kelvinclaw.Prelude.{zero, suc, ◌+◌, true, false, none, some, [], ◌∷◌}
use kelvinclaw.Prelude.Text.{lit}
use kelvinclaw.Prelude.Error.{ok, timeout, literal}
use kelvinclaw.Channel.Types.{
  telegram, ChannelPolicy, ChannelEnvelope, ChannelMetrics, TextChannelAdapter, QueuedEnvelope,
}
use kelvinclaw.Channel.World.{Script, World, completed}

abbrev pub a_policy : ChannelPolicy
a_policy = record {
  ingress_token = none;
  allow_accounts = [];
  allow_senders = [];
  owner_senders = [];
  trusted_senders = lit "ann" ∷ [];
  probation_senders = [];
  blocked_senders = lit "eve" ∷ [];
  quota_owner_per_minute = 240;
  quota_standard_per_minute = 30;
  quota_trusted_per_minute = 2;
  quota_probation_per_minute = 10;
  cooldown_probation_ms = 0;
  max_seen_delivery_ids = 2;
  max_queue_depth = 1;
  max_text_bytes = 100;
}

abbrev pub no_metrics : ChannelMetrics
no_metrics = record {
  ingest_total = 0;
  webhook_total = 0;
  webhook_accepted_total = 0;
  webhook_denied_total = 0;
  webhook_retry_total = 0;
  verification_ok_total = 0;
  verification_failed_total = 0;
  deduped_total = 0;
  queued_total = 0;
  queue_rejected_total = 0;
  pairing_required_total = 0;
  pairing_approved_total = 0;
  policy_denied_total = 0;
  rate_limited_total = 0;
  completed_total = 0;
  failed_total = 0;
  timeout_total = 0;
  outbound_attempt_total = 0;
  outbound_retry_total = 0;
  outbound_failure_total = 0;
  last_error = none;
  last_delivery_at_ms = none;
  last_webhook_request_at_ms = none;
  last_webhook_accept_at_ms = none;
  last_webhook_status_code = none;
  last_verification_ok_at_ms = none;
  last_verification_failed_at_ms = none;
  last_verification_error = none;
}

abbrev pub an_envelope : ChannelEnvelope
an_envelope = record {
  delivery_id = lit "d1";
  sender_id = lit "ann";
  account_id = lit "chat";
  text = lit "hello";
  timeout_ms = none;
  auth_token = none;
  session_id = none;
  workspace_dir = none;
}

abbrev pub an_entry : QueuedEnvelope
an_entry = record {
  envelope = an_envelope;
  route = record {
    matched_rule_id = none;
    session_id = lit "telegram:chat";
    workspace_dir = none;
    system_prompt = none;
    sender_tier = lit "trusted";
  };
  slash_command = none;
}

abbrev pub an_adapter : TextChannelAdapter
an_adapter = record {
  config = record {
    kind = telegram;
    pairing_enabled = false;
    policy = a_policy;
    transport = record { bot_token = some (lit "token"); outbound_max_retries = 2 };
    wasm_policy_plugin = none;
  };
  paired_accounts = [];
  pending_pair_codes = [];
  seen_delivery_ids = lit "d1" ∷ [];
  seen_delivery_order = lit "d1" ∷ [];
  rate_windows = [];
  cooldown_until_ms = [];
  inbox = [];
  has_persistence = true;
  metrics = no_metrics;
}

abbrev pub a_world : World
a_world = record {
  adapter = an_adapter;
  disk = none;
  ticks = 0;
  saves = 0;
  sends = 0;
  runs = 0;
  sent = [];
}

-- a state with one entry in the inbox, which is full
abbrev pub full_world : World
full_world = record a_world { adapter = record an_adapter { inbox = an_entry ∷ [] } }

-- The first request fails and the others do not, and every run says the same.
abbrev pub a_script : Script
a_script = record {
  clock = λ n. 1000 + n;
  save_error = λ _. none;
  send_error = λ n. elim n [ zero ↦ some (timeout (literal "slow")) | suc _ ↦ none ];
  submit = λ _ _. ok (lit "run-1");
  outcome = λ _ _ _. ok (completed (lit "done" ∷ []));
  command = λ _ _. ok (literal "{}");
}
