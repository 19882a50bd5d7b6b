-- ===== src/Channel/Types.antt =====
-- The data of a channel: SenderTrustTier, CommandSurface and SlashCommandMeta of
-- crates/kelvin-core/src/sdk.rs, and the structs of apps/kelvin-gateway/src/channels.rs.
use kelvinclaw.Prelude.{ℕ, Bool, Option, none, some, List, ltb, ◌==◌, if◌then◌else◌}
use kelvinclaw.Prelude.Text.{Text, lit, text_eq, trim, to_ascii_lowercase}
use kelvinclaw.Prelude.Error.{KelvinResult, Message}

pub data SenderTrustTier : Type 0 where
  blocked probation standard trusted owner : SenderTrustTier

-- The order that `derive(Ord)` gives.
unfoldable pub rank : SenderTrustTier → ℕ
rank blocked = 0
rank probation = 1
rank standard = 2
rank trusted = 3
rank owner = 4

unfoldable pub tier_lt : SenderTrustTier → SenderTrustTier → Bool
unfolding rank
tier_lt a b = ltb (rank a) (rank b)

unfoldable pub tier_eq : SenderTrustTier → SenderTrustTier → Bool
unfolding rank
tier_eq a b = rank a == rank b

unfoldable pub tier_name : SenderTrustTier → Text
tier_name owner = lit "owner"
tier_name trusted = lit "trusted"
tier_name standard = lit "standard"
tier_name probation = lit "probation"
tier_name blocked = lit "blocked"

unfoldable pub parse_tier : Text → Option SenderTrustTier
parse_tier input =
    let name = to_ascii_lowercase (trim input) in
    if text_eq name (lit "owner")
    then some owner
    else if text_eq name (lit "trusted")
    then some trusted
    else if text_eq name (lit "standard")
    then some standard
    else if text_eq name (lit "probation")
    then some probation
    else if text_eq name (lit "blocked")
    then some blocked
    else none

pub data ChannelKind : Type 0 where
  telegram slack discord whatsapp : ChannelKind

unfoldable pub kind_name : ChannelKind → Text
kind_name telegram = lit "telegram"
kind_name slack = lit "slack"
kind_name discord = lit "discord"
kind_name whatsapp = lit "whatsapp"

pub data CommandSurface : Type 0 where
  tui telegram_surface slack_surface discord_surface whatsapp_surface : CommandSurface

unfoldable pub surface_index : CommandSurface → ℕ
surface_index tui = 0
surface_index telegram_surface = 1
surface_index slack_surface = 2
surface_index discord_surface = 3
surface_index whatsapp_surface = 4

unfoldable pub as_command_surface : ChannelKind → CommandSurface
as_command_surface telegram = telegram_surface
as_command_surface slack = slack_surface
as_command_surface discord = discord_surface
as_command_surface whatsapp = whatsapp_surface

pub record SlashCommandMeta : Type 0 where
  pub name : Text
  pub surfaces : List CommandSurface
  pub min_tier : Option SenderTrustTier
  pub bypass_queue : Bool

pub record ChannelPolicy : Type 0 where
  pub ingress_token : Option Text
  pub allow_accounts : List Text
  pub allow_senders : List Text
  pub owner_senders : List Text
  pub trusted_senders : List Text
  pub probation_senders : List Text
  pub blocked_senders : List Text
  pub quota_owner_per_minute : ℕ
  pub quota_standard_per_minute : ℕ
  pub quota_trusted_per_minute : ℕ
  pub quota_probation_per_minute : ℕ
  pub cooldown_probation_ms : ℕ
  pub max_seen_delivery_ids : ℕ
  pub max_queue_depth : ℕ
  pub max_text_bytes : ℕ

pub record ChannelEnvelope : Type 0 where
  pub delivery_id : Text
  pub sender_id : Text
  pub account_id : Text
  pub text : Text
  pub timeout_ms : Option ℕ
  pub auth_token : Option Text
  pub session_id : Option Text
  pub workspace_dir : Option Text

pub record WasmPolicyDecision : Type 0 where
  pub allow : Bool
  pub reason : Option Text
  pub trust_tier : Option SenderTrustTier
  pub override_text : Option Text
  pub route_session_id : Option Text
  pub route_workspace_dir : Option Text
  pub route_system_prompt : Option Text

-- A loaded policy module, as its answer to an envelope, a tier and the time.
abbrev pub PolicyPlugin : Type 0
PolicyPlugin = ChannelEnvelope → SenderTrustTier → ℕ → KelvinResult WasmPolicyDecision

pub record ChannelTransportConfig : Type 0 where
  pub bot_token : Option Text
  pub outbound_max_retries : ℕ

pub record TextChannelConfig : Type 0 where
  pub kind : ChannelKind
  pub pairing_enabled : Bool
  pub policy : ChannelPolicy
  pub transport : ChannelTransportConfig
  pub wasm_policy_plugin : Option PolicyPlugin

pub record RouteDecision : Type 0 where
  pub matched_rule_id : Option Text
  pub session_id : Text
  pub workspace_dir : Option Text
  pub system_prompt : Option Text
  pub sender_tier : Text

pub record QueuedSlashCommand : Type 0 where
  pub command_name : Text
  pub args : Option Text
  pub session_id : Option Text

pub record QueuedEnvelope : Type 0 where
  pub envelope : ChannelEnvelope
  pub route : RouteDecision
  pub slash_command : Option QueuedSlashCommand

pub record ChannelMetrics : Type 0 where
  pub ingest_total : ℕ
  pub webhook_total : ℕ
  pub webhook_accepted_total : ℕ
  pub webhook_denied_total : ℕ
  pub webhook_retry_total : ℕ
  pub verification_ok_total : ℕ
  pub verification_failed_total : ℕ
  pub deduped_total : ℕ
  pub queued_total : ℕ
  pub queue_rejected_total : ℕ
  pub pairing_required_total : ℕ
  pub pairing_approved_total : ℕ
  pub policy_denied_total : ℕ
  pub rate_limited_total : ℕ
  pub completed_total : ℕ
  pub failed_total : ℕ
  pub timeout_total : ℕ
  pub outbound_attempt_total : ℕ
  pub outbound_retry_total : ℕ
  pub outbound_failure_total : ℕ
  pub last_error : Option Message
  pub last_delivery_at_ms : Option ℕ
  pub last_webhook_request_at_ms : Option ℕ
  pub last_webhook_accept_at_ms : Option ℕ
  pub last_webhook_status_code : Option ℕ
  pub last_verification_ok_at_ms : Option ℕ
  pub last_verification_failed_at_ms : Option ℕ
  pub last_verification_error : Option Text

pub record PersistedChannelState : Type 0 where
  pub paired_accounts : List Text
  pub pending_pair_codes : List (Text × Text)
  pub seen_delivery_order : List Text
  pub rate_windows : List (Text × List ℕ)
  pub cooldown_until_ms : List (Text × ℕ)
  pub inbox : List QueuedEnvelope
  pub metrics : ChannelMetrics

-- `state_persistence` is here whether there is one; the HTTP client is in the effects.
pub record TextChannelAdapter : Type 0 where
  pub config : TextChannelConfig
  pub paired_accounts : List Text
  pub pending_pair_codes : List (Text × Text)
  pub seen_delivery_ids : List Text
  pub seen_delivery_order : List Text
  pub rate_windows : List (Text × List ℕ)
  pub cooldown_until_ms : List (Text × ℕ)
  pub inbox : List QueuedEnvelope
  pub has_persistence : Bool
  pub metrics : ChannelMetrics
