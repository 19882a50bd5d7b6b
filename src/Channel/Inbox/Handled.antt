-- ===== src/Channel/Inbox/Handled.antt =====
-- What happens to the entries of the inbox while it is processed.
use kelvinclaw.Prelude.{
  ℕ, zero, suc, ◌≡◌, refl, sym, ap, ◌∙◌, arith, Bool, true, false, Option, none, List, [], ◌∷◌,
  length, ◌≤◌, subst,
}
use kelvinclaw.Prelude.Text.{Text, text_eq}
use kelvinclaw.Prelude.Error.{KelvinResult, ok, err, to_message}
use kelvinclaw.Prelude.Exec.{and_then}
use kelvinclaw.Prelude.Json.{Json}
use kelvinclaw.Channel.Types.{QueuedEnvelope, ChannelMetrics}
use kelvinclaw.Channel.World.{Script, World, Channel, count, persist_state}
use kelvinclaw.Channel.World.Counts.{Counted}
use kelvinclaw.Channel.Inbox.{
  turn, settle, error_metric, execute_entry, drain, process_inbox, respond,
}
use kelvinclaw.Channel.Inbox.Counts.{turn-OnlyCounts}
use kelvinclaw.Channel.Inbox.Drains.{with_inbox, Counted-inbox, respond-keeps, process_inbox-drains}

-- What a chain that returned has passed, with the state between.
and_then-ok :
    {A B : Type 0} (r : KelvinResult A × World) (f : A → Channel B) (b : B) (x : World)
    → and_then r f ≡ (ok b, x)
    → (a : A) × (v : World) × (r ≡ (ok a, v)) × (f a v ≡ (ok b, x))
and_then-ok (ok a, v) f b x h = (a, v, refl, h)
and_then-ok (err e, v) f b x h = cc

module _ (script : Script) (target : Text) where
  -- One entry was executed, after a save, and led from a state to another, which differs from the
  -- one that the execution left in the metrics at most. The target's execution did not fail.
  abbrev pub Executed : QueuedEnvelope → World → World → Type 0
  Executed entry w u =
      (v : World) × ((persist_state script w) ≡ (ok tt, v))
      × ((f : ChannelMetrics → ChannelMetrics) × (u ≡ (count f (execute_entry script entry v).1).1))
      × (text_eq entry.envelope.delivery_id target ≡ true
          → (j : Json) × ((execute_entry script entry v).0 ≡ ok j))

  -- The entries were taken out and executed, each once, in their order.
  abbrev pub Handled : List QueuedEnvelope → World → World → Type 0
  Handled [] w x = w ≡ x
  Handled (entry ∷ rest) w x = (u : World) × Executed entry (with_inbox rest w) u × Handled rest u x

  -- What `settle` leaves of an execution.
  abbrev Settled : Bool → KelvinResult Json × World → World → Type 0
  Settled b r u =
      ((f : ChannelMetrics → ChannelMetrics) × (u ≡ (count f r.1).1))
      × (b ≡ true → (j : Json) × (r.0 ≡ ok j))

  settle-Settled :
      (b : Bool) (response o : Option Json) (r : KelvinResult Json × World) (u : World)
      → settle script b response r ≡ (ok o, u)
      → Settled b r u
  unfolding settle count
  settle-Settled true response o (ok payload, v) u h =
      ((λ m. m, sym (ap (λ p. p.1) h)), λ e. (payload, refl))
  settle-Settled true response o (err e, v) u h = cc
  settle-Settled false response o (ok payload, v) u h = ((λ m. m, sym (ap (λ p. p.1) h)), λ e. cc)
  settle-Settled false response o (err e, v) u h =
      ((error_metric (to_message e), sym (ap (λ p. p.1) h)), λ e. cc)

  turn-Executed :
      (response o : Option Json) (entry : QueuedEnvelope) (w u : World)
      → turn script target response entry w ≡ (ok o, u)
      → Executed entry w u
  unfolding turn
  turn-Executed response o entry w u h =
      let (t, v, saved, settled) =
        and_then-ok (persist_state script w)
          (λ _ v.
            settle script (text_eq entry.envelope.delivery_id target) response
              (execute_entry script entry v))
          o u h in
      let s = settle-Settled _ response o (execute_entry script entry v) u settled in
      (v, saved, s.0, s.1)

  drain-Handled :
      (n : ℕ) (xs : List QueuedEnvelope) (response o : Option Json) (w x : World)
      → w.adapter.inbox ≡ xs
      → length xs ≤ n
      → drain script n target response w ≡ (ok o, x)
      → Handled xs w x
  unfolding drain
  drain-Handled zero [] response o w x e l h = ap (λ p. p.1) h
  drain-Handled zero (entry ∷ rest) response o w x e l h = absurd (omega (arith, l))
  drain-Handled (suc n) [] response o w x e l h =
      ap (λ inbox. with_inbox inbox w) e ∙ ap (λ p. p.1) (rw e at h)
  drain-Handled (suc n) (entry ∷ rest) response o w x e l h =
      let (p, u, turned, left) =
        and_then-ok (turn script target response entry (with_inbox rest w))
          (λ p. drain script n target p) o x (rw e at h) in
      let inbox : u.adapter.inbox ≡ rest = Counted-inbox (with_inbox rest w) u (
        subst (λ r. Counted (with_inbox rest w) r.1) turned
          (turn-OnlyCounts script target response entry (with_inbox rest w))) in
      (
        u,
        turn-Executed response p entry (with_inbox rest w) u turned,
        drain-Handled n rest p o u x inbox (omega (arith, l)) left,
      )

  -- Where `process_inbox` returns a response, every entry of the inbox was taken out and executed,
  -- each once and in their order, with a save before each; but for the taking out and the saves only
  -- metrics change between two executions; the execution of the delivery that was asked for did not
  -- fail; and the inbox is empty.
  pub process_inbox-Handled :
      (w : World) (response : Json)
      → (process_inbox script target w).0 ≡ ok response
      → Handled w.adapter.inbox w (process_inbox script target w).1
        × ((process_inbox script target w).1.adapter.inbox ≡ [])
  unfolding process_inbox
  process_inbox-Handled w response h = (
    go (drain script (length w.adapter.inbox) target none w) refl h,
    process_inbox-drains script target w response h,
  )
    where
      go :
          (r : KelvinResult (Option Json) × World)
          → drain script (length w.adapter.inbox) target none w ≡ r
          → (and_then r (λ o. respond script target o)).0 ≡ ok response
          → Handled w.adapter.inbox w (and_then r (λ o. respond script target o)).1
      go (ok o, v) e q =
          rw (respond-keeps script target o v)
            (drain-Handled (length w.adapter.inbox) w.adapter.inbox none o w v refl (omega arith) e)
      go (err x, v) e q = cc
