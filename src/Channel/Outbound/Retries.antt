-- ===== src/Channel/Outbound/Retries.antt =====
-- How often a message is sent.
use kelvinclaw.Prelude.{
  ℕ, zero, suc, ◌+◌, ◌≤◌, ◌<◌, ◌≡◌, ◌≢◌, ◌⊎◌, inl, inr, refl, arith, Option, none, some, ap, sym,
  ◌∙◌,
}
use kelvinclaw.Prelude.Text.{Text}
use kelvinclaw.Prelude.Error.{KelvinError, KelvinResult, ok, Message}
use kelvinclaw.Channel.World.{Script, World, count}
use kelvinclaw.Channel.Outbound.{
  attempts, retry_if, send_outbound_once, attempt_metric, retry_metric,
}

-- What a run of requests did, from the first to the last, which is the `last`-th of at most
-- `retries` more: all before the last failed, and the last one succeeded or was the last allowed.
pub record Tried (script : Script) (retries : ℕ) (w : World)
    (r : KelvinResult (Option KelvinError) × World) : Type 0 where
  pub last : ℕ
  pub in_bound : last ≤ retries
  pub requests : r.1.sends ≡ w.sends + suc last
  pub outcome : r.0 ≡ ok (script.send_error (w.sends + last))
  pub failed_before : (j : ℕ) → j < last → script.send_error (w.sends + j) ≢ none
  pub stopped : (script.send_error (w.sends + last) ≡ none) ⊎ (last ≡ retries)

-- One more request in front, that failed.
Tried-suc :
    (script : Script) (n : ℕ) (w v : World) (e : KelvinError)
    (r : KelvinResult (Option KelvinError) × World)
    → script.send_error w.sends ≡ some e
    → v.sends ≡ w.sends + 1
    → Tried script n v r
    → Tried script (suc n) w r
Tried-suc script n w v e r q l t =
    let shift : (j : ℕ) → v.sends + j ≡ w.sends + suc j = λ j. omega arith in
    record {
      last = suc t.last;
      in_bound = omega (arith, t.in_bound);
      requests = omega (arith, t.requests);
      outcome = t.outcome ∙ ap (λ k. ok (script.send_error k)) (shift t.last);
      failed_before = λ j h. earlier j h shift;
      stopped = later shift t.stopped;
    }
  where
    earlier :
        (j : ℕ)
        → j < suc t.last
        → ((j : ℕ) → v.sends + j ≡ w.sends + suc j)
        → script.send_error (w.sends + j) ≢ none
    earlier zero h shift = λ p.
        let here : script.send_error (w.sends + 0) ≡ script.send_error w.sends =
          ap script.send_error (omega arith) in
        cc (here, p, q)
    earlier (suc j) h shift =
        λ p. t.failed_before j (omega arith) (ap script.send_error (shift j) ∙ p)

    later :
        ((j : ℕ) → v.sends + j ≡ w.sends + suc j)
        → (script.send_error (v.sends + t.last) ≡ none) ⊎ (t.last ≡ n)
        → (script.send_error (w.sends + suc t.last) ≡ none) ⊎ (suc t.last ≡ suc n)
    later shift (inl p) = inl (sym (ap script.send_error (shift t.last)) ∙ p)
    later shift (inr p) = inr (omega arith)

-- The first request, where it is the last.
Tried-one :
    (script : Script) (n : ℕ) (w : World) (r : KelvinResult (Option KelvinError) × World)
    → r.1.sends ≡ w.sends + 1
    → r.0 ≡ ok (script.send_error w.sends)
    → (script.send_error w.sends ≡ none) ⊎ (0 ≡ n)
    → Tried script n w r
Tried-one script n w r l o s =
    let here : script.send_error (w.sends + 0) ≡ script.send_error w.sends =
      ap script.send_error (omega arith) in
    record {
      last = 0;
      in_bound = omega arith;
      requests = l;
      outcome = cc (here, o);
      failed_before = λ j h. omega arith;
      stopped = elim s [ inl p ↦ inl (here ∙ p) | inr p ↦ inr p ];
    }

module _ (script : Script) (account_id : Text) (body : Message) where
  -- A message is sent until it is delivered, at most `retries` times more than once; the requests
  -- before the last one failed, and the result is the error of the last one, or none.
  pub attempts-Tried :
      (retries : ℕ) (w : World) → Tried script retries w (attempts script retries account_id body w)
  unfolding attempts count
  attempts-Tried zero w =
      Tried-one script 0 w (attempts script 0 account_id body w) refl refl (inr refl)
  attempts-Tried (suc n) w = go (script.send_error w.sends) refl (λ v. attempts-Tried n v)
    where
      requested : World
      requested = (send_outbound_once script account_id body (count attempt_metric w).1).1

      go :
          (e : Option KelvinError)
          → script.send_error w.sends ≡ e
          → ((v : World) → Tried script n v (attempts script n account_id body v))
          → Tried script (suc n) w (retry_if script e (attempts script n account_id body) requested)
      go none q ih =
          Tried-one script (suc n) w
            (retry_if script none (attempts script n account_id body) requested) refl
            (ap ok (sym q)) (inl q)
      go (some e) q ih =
          Tried-suc script n w (count retry_metric requested).1 e
            (retry_if script (some e) (attempts script n account_id body) requested) q refl
            (ih (count retry_metric requested).1)
