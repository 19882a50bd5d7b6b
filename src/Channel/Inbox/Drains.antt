-- ===== src/Channel/Inbox/Drains.antt =====
-- The inbox after it was processed.
use kelvinclaw.Prelude.{
  ℕ, zero, suc, ◌≡◌, refl, ap, ◌∙◌, arith, Option, none, some, List, [], ◌∷◌, length, ◌≤◌,
}
use kelvinclaw.Prelude.Text.{Text}
use kelvinclaw.Prelude.Error.{KelvinResult, ok, err}
use kelvinclaw.Prelude.Exec.{◌>>=◌, and_then}
use kelvinclaw.Prelude.Json.{Json}
use kelvinclaw.Channel.Types.{QueuedEnvelope, TextChannelAdapter}
use kelvinclaw.Channel.World.{Script, World}
use kelvinclaw.Channel.World.Counts.{Counted, masked}
use kelvinclaw.Channel.Inbox.{turn, drain, process_inbox, respond}
use kelvinclaw.Channel.Inbox.Counts.{turn-OnlyCounts}

-- What an operation on the inbox leaves: the configuration, the seen deliveries and no more
-- entries than there were.
abbrev pub Fewer : World → World → Type 0
Fewer w v =
    (v.adapter.config ≡ w.adapter.config)
    × (v.adapter.seen_delivery_ids ≡ w.adapter.seen_delivery_ids)
    × (length v.adapter.inbox ≤ length w.adapter.inbox)

pub Counted-inbox : (w v : World) → Counted w v → v.adapter.inbox ≡ w.adapter.inbox
unfolding masked
Counted-inbox w v h = ap (λ (a : TextChannelAdapter). a.inbox) (h w.adapter.metrics)

pub Counted-config : (w v : World) → Counted w v → v.adapter.config ≡ w.adapter.config
unfolding masked
Counted-config w v h = ap (λ (a : TextChannelAdapter). a.config) (h w.adapter.metrics)

pub Counted-seen :
    (w v : World) → Counted w v → v.adapter.seen_delivery_ids ≡ w.adapter.seen_delivery_ids
unfolding masked
Counted-seen w v h = ap (λ (a : TextChannelAdapter). a.seen_delivery_ids) (h w.adapter.metrics)

pub Fewer-trans : (u v w : World) → Fewer u v → Fewer v w → Fewer u w
Fewer-trans u v w (c, s, l) (d, t, k) = (d ∙ c, t ∙ s, omega arith)

pub Fewer-Counted : (w v : World) → Counted w v → Fewer w v
Fewer-Counted w v h =
    let e = Counted-inbox w v h in (Counted-config w v h, Counted-seen w v h, rw e (omega arith))

-- A state with other entries in its inbox.
abbrev pub with_inbox : List QueuedEnvelope → World → World
with_inbox rest w = record w { adapter = record (w.adapter) { inbox = rest } }

-- What a loop of so many turns does to the inbox: it is left empty, unless an error ended it.
abbrev Drains : ℕ → World → KelvinResult (Option Json) × World → Type 0
Drains n w r =
    Fewer w r.1
    × (length w.adapter.inbox ≤ n → (o : Option Json) → r.0 ≡ ok o → r.1.adapter.inbox ≡ [])

popped :
    (w : World) (entry : QueuedEnvelope) (rest : List QueuedEnvelope) (v : World)
    → w.adapter.inbox ≡ entry ∷ rest
    → Counted (with_inbox rest w) v
    → Fewer w v × (length w.adapter.inbox ≡ suc (length v.adapter.inbox))
popped w entry rest v e h =
    let f = Fewer-Counted (with_inbox rest w) v h in
    let l = Counted-inbox (with_inbox rest w) v h in
    let size : length w.adapter.inbox ≡ suc (length rest) = ap length e in
    let left : length v.adapter.inbox ≡ length rest = ap length l in
    ((f.0, f.1, omega arith), omega arith)

module _ (script : Script) (target : Text) where
  -- One turn and the rest of the loop, from the two.
  next-Drains :
      (n : ℕ) (w : World) (response : Option Json) (entry : QueuedEnvelope)
      (rest : List QueuedEnvelope)
      → w.adapter.inbox ≡ entry ∷ rest
      → ((o : Option Json) (v : World) → Drains n v (drain script n target o v))
      → Drains
          (suc n)
          w
          ((turn script target response entry >>= λ o. drain script n target o) (with_inbox rest w))
  next-Drains n w response entry rest e ih =
      go (turn script target response entry (with_inbox rest w))
        (turn-OnlyCounts script target response entry (with_inbox rest w))
    where
      go :
          (r : KelvinResult (Option Json) × World)
          → Counted (with_inbox rest w) r.1
          → Drains (suc n) w (and_then r (λ o. drain script n target o))
      go (ok o, v) h =
          let p = popped w entry rest v e h in
          (
            Fewer-trans w v (drain script n target o v).1 p.0 (ih o v).0,
            λ l. (ih o v).1 (omega arith),
          )
      go (err x, v) h = ((popped w entry rest v e h).0, λ _ o q. cc)

  drain-Drains :
      (n : ℕ) (response : Option Json) (w : World) → Drains n w (drain script n target response w)
  unfolding drain
  drain-Drains zero response w = ((refl, refl, omega arith), λ l o q. empty_of w.adapter.inbox l)
    where
      empty_of : (xs : List QueuedEnvelope) → length xs ≤ 0 → xs ≡ []
      empty_of [] l = refl
      empty_of (x ∷ xs) l = ground arith
  drain-Drains (suc n) response w = go w.adapter.inbox refl (λ o v. drain-Drains n o v)
    where
      go :
          (xs : List QueuedEnvelope)
          → w.adapter.inbox ≡ xs
          → ((o : Option Json) (v : World) → Drains n v (drain script n target o v))
          → Drains (suc n) w (elim xs as (λ _. KelvinResult (Option Json) × World) [
            | [] ↦ (ok response, w)
            | entry ∷ rest ↦
                (turn script target response entry >>= λ o. drain script n target o)
                  (with_inbox rest w)
          ])
      go [] e ih = ((refl, refl, omega arith), λ l o q. e)
      go (entry ∷ rest) e ih = next-Drains n w response entry rest e ih

  pub respond-keeps : (o : Option Json) (w : World) → (respond script target o w).1 ≡ w
  unfolding respond
  respond-keeps none w = refl
  respond-keeps (some j) w = refl

  -- Processing keeps the configuration and the seen deliveries and adds nothing to the inbox.
  pub process_inbox-Fewer : (w : World) → Fewer w (process_inbox script target w).1
  unfolding process_inbox
  process_inbox-Fewer w =
      go (drain script (length w.adapter.inbox) target none w)
        (drain-Drains (length w.adapter.inbox) none w).0
    where
      go :
          (r : KelvinResult (Option Json) × World)
          → Fewer w r.1
          → Fewer w (and_then r (λ o. respond script target o)).1
      go (ok o, v) h = rw (respond-keeps o v) h
      go (err x, v) h = h

  -- Where `process_inbox` returns a response, the inbox is empty after it, so its own length is
  -- turns enough.
  pub process_inbox-drains :
      (w : World) (response : Json)
      → (process_inbox script target w).0 ≡ ok response
      → (process_inbox script target w).1.adapter.inbox ≡ []
  unfolding process_inbox
  process_inbox-drains w response =
      go (drain script (length w.adapter.inbox) target none w)
        ((drain-Drains (length w.adapter.inbox) none w).1 (omega arith))
    where
      go :
          (r : KelvinResult (Option Json) × World)
          → ((o : Option Json) → r.0 ≡ ok o → r.1.adapter.inbox ≡ [])
          → (and_then r (λ o. respond script target o)).0 ≡ ok response
          → (and_then r (λ o. respond script target o)).1.adapter.inbox ≡ []
      go (ok o, v) h q = ap (λ (u : World). u.adapter.inbox) (respond-keeps o v) ∙ h o refl
      go (err x, v) h q = cc
