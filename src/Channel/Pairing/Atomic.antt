-- ===== src/Channel/Pairing/Atomic.antt =====
-- What `approve_pairing` does, on every branch.
use kelvinclaw.Prelude.{
  Bool, true, false, ◌≡◌, refl, ap, ◌∙◌, arith, Option, none, some, List, if◌then◌else◌,
}
use kelvinclaw.Prelude.Text.{Text, text_eq_iff, text_eq_refl, trim, is_empty}
use kelvinclaw.Prelude.Map.{
  lookup, insert, remove, contains, add, delete, contains-add, contains-delete, lookup-insert,
  lookup-remove,
}
use kelvinclaw.Prelude.Error.{KelvinError, KelvinResult, ok, err, invalid_input, literal}
use kelvinclaw.Prelude.Exec.{◌>>◌, and_then, fail_if}
use kelvinclaw.Prelude.Json.{Json}
use kelvinclaw.Channel.Types.{TextChannelAdapter}
use kelvinclaw.Channel.World.{Channel, Script, World, update, persist_state}
use kelvinclaw.Channel.World.Counts.{Counted, persist_state-OnlyCounts, masked}
use kelvinclaw.Channel.Pairing.{
  pair_account, unpair_account, or_undo, approve_code, approve_pairing,
}

-- The same accounts are paired and the same codes are pending.
abbrev pub Unchanged : World → World → Type 0
Unchanged w v =
    ((t : Text) → contains v.adapter.paired_accounts t ≡ contains w.adapter.paired_accounts t)
    × ((j : Text) → lookup j v.adapter.pending_pair_codes ≡ lookup j w.adapter.pending_pair_codes)

-- The account of the code is paired, and the code is gone.
abbrev pub Approved : Text → World → World → Type 0
Approved code w v =
    (account : Text) × (lookup code w.adapter.pending_pair_codes ≡ some account)
    × (contains v.adapter.paired_accounts account ≡ true)
    × (lookup code v.adapter.pending_pair_codes ≡ none)

abbrev pub Outcome : Text → World → KelvinResult Json × World → Type 0
Outcome code w (ok j, v) = Approved code w v
Outcome code w (err e, v) = Unchanged w v

Counted-paired : (w v : World) → Counted w v → v.adapter.paired_accounts ≡ w.adapter.paired_accounts
unfolding masked
Counted-paired w v h = ap (λ (a : TextChannelAdapter). a.paired_accounts) (h w.adapter.metrics)

Counted-codes :
    (w v : World) → Counted w v → v.adapter.pending_pair_codes ≡ w.adapter.pending_pair_codes
unfolding masked
Counted-codes w v h = ap (λ (a : TextChannelAdapter). a.pending_pair_codes) (h w.adapter.metrics)

delete-add :
    (account t : Text) (paired : List Text)
    → contains paired account ≡ false
    → contains (delete account (add account paired)) t ≡ contains paired t
delete-add account t paired h = ground (
  arith,
  contains-delete account t (add account paired),
  contains-add account t paired,
  text_eq_iff account t,
)

insert-remove :
    (code account j : Text) (codes : List (Text × Text))
    → lookup code codes ≡ some account
    → lookup j (insert code account (remove code codes)) ≡ lookup j codes
insert-remove code account j codes h = ground (
  arith,
  lookup-insert code j account (remove code codes),
  lookup-remove code j codes,
  text_eq_iff code j,
)

module _ (script : Script) (code : Text) (w : World) where
  approve_code-Outcome :
      (account : Text)
      → lookup code w.adapter.pending_pair_codes ≡ some account
      → contains w.adapter.paired_accounts account ≡ false
      → Outcome code w (approve_code script code (some account) w)
  unfolding approve_code update pair_account or_undo unpair_account
  approve_code-Outcome account h fresh =
      go _ (persist_state script paired) (persist_state-OnlyCounts script paired)
    where
      paired : World
      paired = record w { adapter = pair_account code account w.adapter }

      go :
          (j : Json) (r : KelvinResult (Unit {0}) × World)
          → Counted paired r.1
          → Outcome code w (or_undo (unpair_account code account) j r)
      go j (ok u, v) k =
          let p = Counted-paired paired v k in
          let c = Counted-codes paired v k in
          (
            account,
            h,
            ap (λ ss. contains ss account) p
                ∙ ground (
                  arith,
                  contains-add account account w.adapter.paired_accounts,
                  text_eq_refl account,
                ),
            ap (lookup code) c
                ∙ ground (
                  arith,
                  lookup-remove code code w.adapter.pending_pair_codes,
                  text_eq_refl code,
                ),
          )
      go j (err e, v) k =
          let p = Counted-paired paired v k in
          let c = Counted-codes paired v k in
          (
            λ t.
                ap (λ ss. contains (delete account ss) t) p
                ∙ delete-add account t w.adapter.paired_accounts fresh,
            λ i.
                ap (λ codes. lookup i (insert code account codes)) c
                ∙ insert-remove code account i w.adapter.pending_pair_codes h,
          )

  Outcome-fail_if :
      (b : Bool) (e : KelvinError) (k : Channel Json)
      → Outcome code w (k w)
      → Outcome code w (and_then (fail_if b e w) (λ _. k))
  Outcome-fail_if true e k h = (λ t. refl, λ j. refl)
  Outcome-fail_if false e k h = h

  any_code-Outcome :
      (o : Option Text)
      → lookup code w.adapter.pending_pair_codes ≡ o
      → ((account : Text)
          → lookup code w.adapter.pending_pair_codes ≡ some account
          → contains w.adapter.paired_accounts account ≡ false)
      → Outcome code w (approve_code script code o w)
  unfolding approve_code
  any_code-Outcome none h fresh = (λ t. refl, λ j. refl)
  any_code-Outcome (some account) h fresh = approve_code-Outcome account h (fresh account h)

module _ (script : Script) (code : Text) (w : World) where
  -- If a pairing is approved, the account of the code is paired and the code is gone; if it is
  -- refused or cannot be saved, the same accounts are paired and the same codes are pending as
  -- before. The account of the code must not have been paired already.
  pub approve_pairing-Outcome :
      ((account : Text)
        → lookup (trim code) w.adapter.pending_pair_codes ≡ some account
        → contains w.adapter.paired_accounts account ≡ false)
      → Outcome (trim code) w (approve_pairing script code w)
  unfolding approve_pairing
  approve_pairing-Outcome fresh =
      let empty = invalid_input (literal "pairing code must not be empty") in
      let rest =
        approve_code script (trim code) (lookup (trim code) w.adapter.pending_pair_codes) in
      Outcome-fail_if script (trim code) w
        (if w.adapter.config.pairing_enabled then false else true)
        (invalid_input (literal "pairing is not enabled for this channel"))
        (fail_if (is_empty (trim code)) empty >> rest)
        (Outcome-fail_if script (trim code) w (is_empty (trim code)) empty rest
          (any_code-Outcome script (trim code) w _ refl fresh))
