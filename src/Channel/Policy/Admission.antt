-- ===== src/Channel/Policy/Admission.antt =====
-- Who passes the policy of a channel.
use kelvinclaw.Prelude.{
  true, false, ◌≡◌, ◌↔◌, ◌⊎◌, inl, inr, refl, arith, sym, Bool-cases, List, [], ◌∷◌,
}
use kelvinclaw.Prelude.Text.{Text, text_eq_iff}
use kelvinclaw.Prelude.Map.{contains}
use kelvinclaw.Prelude.Error.{KelvinResult, ok, err}
use kelvinclaw.Prelude.Exec.{and_then}
use kelvinclaw.Channel.Types.{
  SenderTrustTier, ChannelPolicy, blocked, owner, standard, ChannelEnvelope, tier_eq,
}
use kelvinclaw.Channel.World.{Channel, Script, World, persist_state}
use kelvinclaw.Channel.Policy.{
  tier_from_policy, account_refused, sender_refused, enforce_policy, enforce_rate_limit,
  enforce_cooldown, refuse_unlisted,
}

and_then-passes :
    {A B : Type 0} (r : KelvinResult A × World) (rest : A → Channel B) (b : B)
    → (and_then r rest).0 ≡ ok b
    → (a : A) × (r.0 ≡ ok a) × ((rest a r.1).0 ≡ ok b)
and_then-passes (ok a, w) rest b h = (a, refl, h)
and_then-passes (err e, w) rest b h = cc

-- What the three checks let through.
refuse_unlisted-passes :
    (envelope : ChannelEnvelope) (tier : SenderTrustTier) (w : World) (u : Unit {0})
    → (refuse_unlisted envelope tier w).0 ≡ ok u
    → (tier_eq tier blocked ≡ false)
      × (account_refused w.adapter.config.policy tier envelope.account_id ≡ false)
      × (sender_refused w.adapter.config.policy tier envelope.sender_id ≡ false)
unfolding refuse_unlisted
refuse_unlisted-passes envelope tier w u h = ground arith

-- A text of a list.
abbrev pub In : Text → List Text → Type 0
In t [] = ⊥
In t (x ∷ xs) = (x ≡ t) ⊎ In t xs

contains-In : (ts : List Text) (t : Text) → (contains ts t ≡ true) ↔ In t ts
unfolding contains
contains-In [] t = (λ h. cc, λ h. absurd h)
contains-In (x ∷ xs) t = ground (arith, contains-In xs t, text_eq_iff x t, text_eq_iff t x)

contains-not_In : (ts : List Text) (t : Text) → contains ts t ≡ false → ¬ In t ts
contains-not_In ts t h m = ground (arith, h, (contains-In ts t).1 m)

-- No list of accounts, an account on it, or an owner.
abbrev pub AccountAdmitted : ChannelPolicy → ChannelEnvelope → Type 0
AccountAdmitted policy envelope =
    (policy.allow_accounts ≡ [])
    ⊎ (In envelope.account_id policy.allow_accounts ⊎ In envelope.sender_id policy.owner_senders)

-- No list of senders, a sender on it, or a sender on one of the lists of the other tiers.
abbrev pub SenderAdmitted : ChannelPolicy → ChannelEnvelope → Type 0
SenderAdmitted policy envelope =
    (policy.allow_senders ≡ [])
    ⊎ (In envelope.sender_id policy.allow_senders
        ⊎ (In envelope.sender_id policy.owner_senders
            ⊎ (In envelope.sender_id policy.trusted_senders
                ⊎ In envelope.sender_id policy.probation_senders)))

true_not_false : ¬ (true ≡ false)
true_not_false h = cc

not_blocked :
    (policy : ChannelPolicy) (sender : Text)
    → tier_eq (tier_from_policy policy sender) blocked ≡ false
    → contains policy.blocked_senders sender ≡ false
unfolding tier_from_policy tier_eq
not_blocked policy sender h = ground (arith, h)

owner_listed :
    (policy : ChannelPolicy) (sender : Text)
    → tier_eq (tier_from_policy policy sender) owner ≡ true
    → contains policy.owner_senders sender ≡ true
unfolding tier_from_policy tier_eq
owner_listed policy sender h = ground (arith, h)

-- A sender who is neither blocked nor of the standard tier is on a list.
tier_listed :
    (policy : ChannelPolicy) (sender : Text)
    → tier_eq (tier_from_policy policy sender) blocked ≡ false
    → tier_eq (tier_from_policy policy sender) standard ≡ false
    → (contains policy.owner_senders sender ≡ true)
      ⊎ ((contains policy.trusted_senders sender ≡ true)
          ⊎ (contains policy.probation_senders sender ≡ true))
unfolding tier_from_policy tier_eq
tier_listed policy sender h k = ground (arith, h, k)

admits_account :
    (policy : ChannelPolicy) (tier : SenderTrustTier) (account : Text)
    → account_refused policy tier account ≡ false
    → (policy.allow_accounts ≡ [])
      ⊎ ((contains policy.allow_accounts account ≡ true) ⊎ (tier_eq tier owner ≡ true))
unfolding account_refused
admits_account policy tier account h = elim (Bool-cases (contains policy.allow_accounts account)) [
  | inl listed ↦ inr (inl listed)
  | inr unlisted ↦ elim (Bool-cases (tier_eq tier owner)) [
    | inl top ↦ inr (inr top)
    | inr other ↦ go policy.allow_accounts refl unlisted other
  ]
]
  where
    go :
        (ts : List Text)
        → policy.allow_accounts ≡ ts
        → contains policy.allow_accounts account ≡ false
        → tier_eq tier owner ≡ false
        → (policy.allow_accounts ≡ [])
          ⊎ ((contains policy.allow_accounts account ≡ true) ⊎ (tier_eq tier owner ≡ true))
    go [] e unlisted other = inl e
    go (t ∷ ts) e unlisted other = absurd (true_not_false (rw (unlisted, other, e) at h))

admits_sender :
    (policy : ChannelPolicy) (tier : SenderTrustTier) (sender : Text)
    → sender_refused policy tier sender ≡ false
    → (policy.allow_senders ≡ [])
      ⊎ ((contains policy.allow_senders sender ≡ true) ⊎ (tier_eq tier standard ≡ false))
unfolding sender_refused
admits_sender policy tier sender h = elim (Bool-cases (contains policy.allow_senders sender)) [
  | inl listed ↦ inr (inl listed)
  | inr unlisted ↦ elim (Bool-cases (tier_eq tier standard)) [
    | inr other ↦ inr (inr other)
    | inl plain ↦ go policy.allow_senders refl unlisted plain
  ]
]
  where
    go :
        (ts : List Text)
        → policy.allow_senders ≡ ts
        → contains policy.allow_senders sender ≡ false
        → tier_eq tier standard ≡ true
        → (policy.allow_senders ≡ [])
          ⊎ ((contains policy.allow_senders sender ≡ true) ⊎ (tier_eq tier standard ≡ false))
    go [] e unlisted plain = inl e
    go (t ∷ ts) e unlisted plain = absurd (true_not_false (rw (unlisted, plain, e) at h))

module _ (script : Script) (envelope : ChannelEnvelope) (w : World) where
  -- A message that passes the policy has the tier of its sender, and its sender is not on the list
  -- of those blocked; no accounts are listed, or its account is, or its sender is on the list of
  -- owners; and no senders are listed, or its sender is, or its sender is on the list of owners, of
  -- trusted senders or of those on probation.
  pub enforce_policy-admits :
      (tier : SenderTrustTier)
      → (enforce_policy script envelope w).0 ≡ ok tier
      → (tier ≡ tier_from_policy w.adapter.config.policy envelope.sender_id)
        × (¬ In envelope.sender_id w.adapter.config.policy.blocked_senders)
        × AccountAdmitted w.adapter.config.policy envelope
        × SenderAdmitted w.adapter.config.policy envelope
  unfolding enforce_policy
  enforce_policy-admits tier h =
      let policy = w.adapter.config.policy in
      let sender = envelope.sender_id in
      let t = tier_from_policy policy sender in
      let p₁ = and_then-passes (refuse_unlisted envelope t w) _ tier h in
      let p₂ = and_then-passes (enforce_rate_limit script sender t _) _ tier p₁.2 in
      let p₃ = and_then-passes (enforce_cooldown script sender t _) _ tier p₂.2 in
      let p₄ = and_then-passes (persist_state script _) _ tier p₃.2 in
      let same : t ≡ tier = cc (p₄.2) in
      let checks = refuse_unlisted-passes envelope t w p₁.0 p₁.1 in
      (
        sym same,
        contains-not_In policy.blocked_senders sender (not_blocked policy sender checks.0),
        account (admits_account policy t envelope.account_id checks.1),
        listed_sender checks.0 (admits_sender policy t sender checks.2),
      )
    where
      is_in : (ts : List Text) (x : Text) → contains ts x ≡ true → In x ts
      is_in ts x = (contains-In ts x).0

      account :
          (w.adapter.config.policy.allow_accounts ≡ [])
            ⊎ ((contains w.adapter.config.policy.allow_accounts envelope.account_id ≡ true)
                ⊎ (tier_eq (tier_from_policy w.adapter.config.policy envelope.sender_id) owner
                    ≡ true))
          → AccountAdmitted w.adapter.config.policy envelope
      account (inl e) = inl e
      account (inr (inl e)) = inr (inl (is_in _ _ e))
      account (inr (inr e)) =
          inr (inr (is_in _ _ (owner_listed w.adapter.config.policy envelope.sender_id e)))

      listed_sender :
          tier_eq (tier_from_policy w.adapter.config.policy envelope.sender_id) blocked ≡ false
          → (w.adapter.config.policy.allow_senders ≡ [])
            ⊎ ((contains w.adapter.config.policy.allow_senders envelope.sender_id ≡ true)
                ⊎ (tier_eq (tier_from_policy w.adapter.config.policy envelope.sender_id) standard
                    ≡ false))
          → SenderAdmitted w.adapter.config.policy envelope
      listed_sender b (inl e) = inl e
      listed_sender b (inr (inl e)) = inr (inl (is_in _ _ e))
      listed_sender b (inr (inr e)) =
          elim (tier_listed w.adapter.config.policy envelope.sender_id b e) [
            | inl q ↦ inr (inr (inl (is_in _ _ q)))
            | inr (inl q) ↦ inr (inr (inr (inl (is_in _ _ q))))
            | inr (inr q) ↦ inr (inr (inr (inr (is_in _ _ q))))
          ]
