-- ===== src/Channel/Routing.antt =====
-- The routing table (`ChannelRoutingTable`, `RouteRule`, `RouteDecision` of
-- apps/kelvin-gateway/src/channels.rs). A priority, an i64 in the source, is given by its place
-- in the order: the number that is 2^63 more.
pub mod Priority
use kelvinclaw.Prelude.{
  ℕ, Bool, true, false, ◌&&◌, ◌||◌, not, Option, none, some, List, [], ◌∷◌, ◌++◌, leb, ltb, ◌==◌,
  if◌then◌else◌,
}
use kelvinclaw.Prelude.Text.{Text, lit, text_eq, text_leb, trim, is_empty, to_ascii_lowercase}
use kelvinclaw.Prelude.Map.{contains, add}
use kelvinclaw.Prelude.Sort.{sort_by}
use kelvinclaw.Prelude.Error.{
  KelvinResult, ok, err, invalid_input, literal, with_text, ◌>>=◌, ◌>>◌, refuse_if,
}
use kelvinclaw.Channel.Types.{
  SenderTrustTier, tier_eq, tier_name, RouteDecision, WasmPolicyDecision,
}

pub record RouteRule : Type 0 where
  pub id : Text
  pub priority : ℕ
  pub channel : Option Text
  pub account_id : Option Text
  pub sender_tier : Option SenderTrustTier
  pub session_id : Option Text
  pub workspace_dir : Option Text
  pub route_session_id : Option Text
  pub route_workspace_dir : Option Text
  pub route_system_prompt : Option Text

pub record RouteInput : Type 0 where
  pub channel : Text
  pub account_id : Text
  pub requested_session_id : Option Text
  pub requested_workspace_dir : Option Text
  pub sender_tier : SenderTrustTier

-- `requested == Some(wanted)`
is_some_text : Option Text → Text → Bool
is_some_text none wanted = false
is_some_text (some t) wanted = text_eq t wanted

channel_ok : Option Text → RouteInput → Bool
channel_ok none input = true
channel_ok (some channel) input =
    let normalized = to_ascii_lowercase (trim channel) in
    text_eq normalized (lit "*") || text_eq normalized (to_ascii_lowercase input.channel)

account_ok : Option Text → RouteInput → Bool
account_ok none input = true
account_ok (some account_id) input = text_eq (trim account_id) input.account_id

tier_ok : Option SenderTrustTier → RouteInput → Bool
tier_ok none input = true
tier_ok (some tier) input = tier_eq tier input.sender_tier

requested_ok : Option Text → Option Text → Bool
unfolding is_some_text
requested_ok none requested = true
requested_ok (some wanted) requested = is_some_text requested (trim wanted)

unfoldable pub matches : RouteRule → RouteInput → Bool
unfolding channel_ok account_ok tier_ok requested_ok
matches rule input =
    channel_ok rule.channel input
    && account_ok rule.account_id input
    && tier_ok rule.sender_tier input
    && requested_ok rule.session_id input.requested_session_id
    && requested_ok rule.workspace_dir input.requested_workspace_dir

unfoldable pub default_session_id : Text → Text → Text
default_session_id channel account_id = trim channel ++ (b':' ∷ trim account_id)

or_else : Option Text → Option Text → Option Text
or_else none b = b
or_else (some a) b = some a

unwrap_or : Option Text → Text → Text
unwrap_or none b = b
unwrap_or (some a) b = a

-- the decision of a rule that matches
unfoldable pub decision_of : RouteRule → RouteInput → RouteDecision
unfolding or_else unwrap_or
decision_of rule input = record {
  matched_rule_id = some rule.id;
  session_id = unwrap_or rule.route_session_id (default_session_id input.channel input.account_id);
  workspace_dir = or_else rule.route_workspace_dir input.requested_workspace_dir;
  system_prompt = rule.route_system_prompt;
  sender_tier = tier_name input.sender_tier;
}

-- the decision where no rule matches
unfoldable pub default_decision : RouteInput → RouteDecision
unfolding unwrap_or
default_decision input = record {
  matched_rule_id = none;
  session_id =
      unwrap_or input.requested_session_id (default_session_id input.channel input.account_id);
  workspace_dir = input.requested_workspace_dir;
  system_prompt = none;
  sender_tier = tier_name input.sender_tier;
}

unfoldable pub decide : List RouteRule → RouteInput → RouteDecision
decide [] input = default_decision input
decide (rule ∷ rules) input =
    if matches rule input then decision_of rule input else decide rules input

-- `then_with` on priority, high to low, and id
unfoldable pub rule_le : RouteRule → RouteRule → Bool
rule_le left right =
    if left.priority == right.priority
    then text_leb left.id right.id
    else ltb right.priority left.priority

pub check_ids : List RouteRule → List Text → KelvinResult (Unit {0})
check_ids [] seen = ok tt
check_ids (rule ∷ rules) seen = do
  refuse_if (is_empty (trim rule.id))
      (invalid_input (literal "channel routing rule id must not be empty"))
  refuse_if (contains seen rule.id)
      (invalid_input (with_text (literal "duplicate channel routing rule id '{}'") rule.id))
  check_ids rules (add rule.id seen)

-- `from_env`, from the rules that the JSON holds
unfoldable pub routing_table : List RouteRule → KelvinResult (List RouteRule)
unfolding check_ids
routing_table parsed = do check_ids parsed []; ok (sort_by rule_le parsed)

-- one field of `apply_wasm_overrides`
override_text : Option Text → Option Text
override_text none = none
override_text (some t) = if is_empty (trim t) then none else some (trim t)

unfoldable pub apply_wasm_overrides : WasmPolicyDecision → RouteDecision → RouteDecision
unfolding override_text unwrap_or or_else
apply_wasm_overrides decision route = record route {
  session_id = unwrap_or (override_text decision.route_session_id) route.session_id;
  workspace_dir = or_else (override_text decision.route_workspace_dir) route.workspace_dir;
  system_prompt = or_else (override_text decision.route_system_prompt) route.system_prompt;
}
