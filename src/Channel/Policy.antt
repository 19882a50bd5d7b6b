-- ===== src/Channel/Policy.antt =====
-- The policy of a channel (`verify_ingress_auth`, `tier_from_policy`, `enforce_policy` and
-- `enforce_rate_limit` of apps/kelvin-gateway/src/channels.rs).
pub mod RateWindow
pub mod Admission
use Prim.Native.String.{String}
use kelvinclaw.Prelude.{
  ℕ, ◌+◌, ◌-◌, Bool, true, false, ◌&&◌, ◌||◌, not, Option, none, some, List, [], ◌∷◌, ◌++◌, leb,
  ltb, if◌then◌else◌, length, sat_inc, sat_add,
}
use kelvinclaw.Prelude.Text.{Text, text_eq}
use kelvinclaw.Prelude.Map.{lookup, insert, contains}
use kelvinclaw.Prelude.Error.{
  KelvinError, KelvinResult, ok, err, not_found, timeout, Message, literal, with_text,
}
use kelvinclaw.Prelude.Exec.{◌>>=◌, ◌>>◌, pure, fail, lift, fail_if}
use kelvinclaw.Channel.Types.{
  SenderTrustTier, blocked, probation, standard, trusted, owner, tier_eq, kind_name, ChannelPolicy,
  ChannelEnvelope, ChannelMetrics, TextChannelAdapter,
}
use kelvinclaw.Channel.World.{Channel, Script, World, now_ms, update, count, persist_state}

unfoldable pub tier_from_policy : ChannelPolicy → Text → SenderTrustTier
tier_from_policy policy sender_id =
    if contains policy.blocked_senders sender_id
    then blocked
    else if contains policy.owner_senders sender_id
    then owner
    else if contains policy.trusted_senders sender_id
    then trusted
    else if contains policy.probation_senders sender_id
    then probation
    else standard

unfoldable pub quota_of : ChannelPolicy → SenderTrustTier → ℕ
quota_of policy owner = policy.quota_owner_per_minute
quota_of policy trusted = policy.quota_trusted_per_minute
quota_of policy standard = policy.quota_standard_per_minute
quota_of policy probation = policy.quota_probation_per_minute
quota_of policy blocked = 0

check_token : Text → Option Text → ChannelEnvelope → KelvinResult (Unit {0})
check_token kind none envelope = ok tt
check_token kind (some required) envelope = elim envelope.auth_token [
  | none ↦ err (not_found (with_text (literal "{} ingress auth token missing") kind))
  | some provided ↦
      if text_eq provided required
      then ok tt
      else err (not_found (with_text (literal "{} ingress auth token mismatch") kind))
]

unfoldable pub verify_ingress_auth : TextChannelAdapter → ChannelEnvelope → KelvinResult (Unit {0})
unfolding check_token
verify_ingress_auth a envelope =
    check_token (kind_name a.config.kind) a.config.policy.ingress_token envelope

abbrev pub window_ms : ℕ
window_ms = 60000

-- `while now - front > 60_000 { window.pop_front() }`
unfoldable pub expire : ℕ → List ℕ → List ℕ
expire now [] = []
expire now (ts ∷ window) =
    let rest = expire now window in if ltb window_ms (now - ts) then rest else ts ∷ window

unfoldable pub window_of : Text → List (Text × List ℕ) → List ℕ
window_of sender_id windows = elim (lookup sender_id windows) [ none ↦ [] | some w ↦ w ]

-- A sender's window, and whether one more message is within the quota.
unfoldable pub admit : ℕ → ℕ → List ℕ → List ℕ × Bool
admit quota now window =
    let w = expire now window in if leb quota (length w) then (w, false) else (w ++ now ∷ [], true)

set_window : Text → List ℕ → TextChannelAdapter → TextChannelAdapter
set_window sender_id w a = record a { rate_windows = insert sender_id w a.rate_windows }

unfoldable pub limit_sender : Text → ℕ → ℕ → TextChannelAdapter → TextChannelAdapter × Bool
unfolding admit window_of set_window
limit_sender sender_id quota now a =
    let r = admit quota now (window_of sender_id a.rate_windows) in
    (set_window sender_id r.0 a, r.1)

abbrev denied_metric : ChannelMetrics → ChannelMetrics
denied_metric m = record m { policy_denied_total = sat_inc m.policy_denied_total }

abbrev limited_metric : ChannelMetrics → ChannelMetrics
limited_metric m = record m { rate_limited_total = sat_inc m.rate_limited_total }

-- A refusal that is counted.
abbrev pub deny_if : Bool → (ChannelMetrics → ChannelMetrics) → KelvinError → Channel (Unit {0})
deny_if false f e w = (ok tt, w)
deny_if true f e w = (count f >> fail e) w

abbrev pub about : String → TextChannelAdapter → Text → Message
about s a t = with_text (with_text (literal s) (kind_name a.config.kind)) t

-- An account that is not allowlisted, of a sender that is not an owner.
unfoldable pub account_refused : ChannelPolicy → SenderTrustTier → Text → Bool
account_refused policy tier account_id =
    let listed = contains policy.allow_accounts account_id in
    not_empty policy.allow_accounts && not listed && not (tier_eq tier owner)
  where
    not_empty : List Text → Bool
    not_empty [] = false
    not_empty (_ ∷ _) = true

unfoldable pub sender_refused : ChannelPolicy → SenderTrustTier → Text → Bool
sender_refused policy tier sender_id =
    let listed = contains policy.allow_senders sender_id in
    not_empty policy.allow_senders && not listed && tier_eq tier standard
  where
    not_empty : List Text → Bool
    not_empty [] = false
    not_empty (_ ∷ _) = true

unfoldable pub in_cooldown : Text → ℕ → TextChannelAdapter → Bool
in_cooldown sender_id now a = elim (lookup sender_id a.cooldown_until_ms) [
  | none ↦ false
  | some until ↦ ltb now until
]

unfoldable pub start_cooldown : Text → ℕ → TextChannelAdapter → TextChannelAdapter
start_cooldown sender_id now a = record a {
  cooldown_until_ms =
      insert sender_id (sat_add now a.config.policy.cooldown_probation_ms) a.cooldown_until_ms;
}

-- The three checks of the tier and of the lists, which `enforce_policy` makes first.
unfoldable pub refuse_unlisted : ChannelEnvelope → SenderTrustTier → Channel (Unit {0})
unfolding account_refused sender_refused
refuse_unlisted envelope tier w =
    let a = w.adapter in
    let policy = a.config.policy in
    (do
      deny_if (tier_eq tier blocked) denied_metric
          (not_found (about "{} sender '{}' is blocked" a envelope.sender_id))
      deny_if (account_refused policy tier envelope.account_id) denied_metric
          (not_found (about "{} account '{}' is not allowlisted" a envelope.account_id))
      deny_if (sender_refused policy tier envelope.sender_id) denied_metric
          (not_found (about "{} sender '{}' is not allowlisted" a envelope.sender_id)))
      w

module _ (script : Script) where
  unfoldable pub enforce_rate_limit : Text → SenderTrustTier → Channel (Unit {0})
  unfolding limit_sender quota_of
  enforce_rate_limit sender_id tier = do
    now ← now_ms script
    λ w.
        let r = limit_sender sender_id (quota_of w.adapter.config.policy tier) now w.adapter in
        deny_if (not r.1) limited_metric
          (timeout (about "{} sender '{}' exceeded per-minute quota" w.adapter sender_id))
          (record w { adapter = r.0 })

  -- the cooldown of a sender on probation
  unfoldable pub enforce_cooldown : Text → SenderTrustTier → Channel (Unit {0})
  unfolding in_cooldown start_cooldown
  enforce_cooldown sender_id tier w =
      let applies = tier_eq tier probation && ltb 0 w.adapter.config.policy.cooldown_probation_ms in
      let run = (do
        now ← now_ms script
        fail_if (in_cooldown sender_id now w.adapter)
            (timeout (about "{} sender '{}' is in cooldown" w.adapter sender_id))
        update (start_cooldown sender_id now)) in
      if applies then run w else (ok tt, w)

  unfoldable pub enforce_policy : ChannelEnvelope → Channel SenderTrustTier
  unfolding tier_from_policy refuse_unlisted
  enforce_policy envelope w =
      let tier = tier_from_policy w.adapter.config.policy envelope.sender_id in
      (do
        refuse_unlisted envelope tier
        enforce_rate_limit envelope.sender_id tier
        enforce_cooldown envelope.sender_id tier
        persist_state script
        pure tier)
        w
