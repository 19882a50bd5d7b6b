-- ===== src/Channel/Pairing.antt =====
-- The pairing of accounts (`enforce_pairing_policy`, `approve_pairing` and `simple_hash` of
-- apps/kelvin-gateway/src/channels.rs).
pub mod Atomic
use Prim.Native.Nat.{bit_xor}
use kelvinclaw.Prelude.{
  ℕ, ◌+◌, ◌-◌, ◌*◌, ◌/◌, ◌%◌, Bool, true, false, ◌||◌, Option, none, some, List, [], ◌∷◌, ltb,
  if◌then◌else◌, sat_inc,
}
use kelvinclaw.Prelude.Text.{Text, text_eq, trim, is_empty}
use kelvinclaw.Prelude.Map.{lookup, insert, remove, contains, add, delete}
use kelvinclaw.Prelude.Error.{KelvinResult, ok, err, invalid_input, not_found, literal}
use kelvinclaw.Prelude.Json.{Json, bool, text, object, nil, field}
use kelvinclaw.Prelude.Exec.{◌>>=◌, ◌>>◌, fail, fail_if}
use kelvinclaw.Channel.Types.{TextChannelAdapter}
use kelvinclaw.Channel.World.{Channel, Script, World, now_ms, update, persist_state}

-- `input.as_bytes()` of one character, in UTF-8
unfoldable pub utf8_bytes : ℕ → List ℕ
utf8_bytes c =
    if ltb c 0x80
    then c ∷ []
    else if ltb c 0x800
    then (0xc0 + c / 64) ∷ (0x80 + c % 64) ∷ []
    else if ltb c 0x10000
    then (0xe0 + c / 4096) ∷ (0x80 + c / 64 % 64) ∷ (0x80 + c % 64) ∷ []
    else (0xf0 + c / 262144) ∷ (0x80 + c / 4096 % 64) ∷ (0x80 + c / 64 % 64) ∷ (0x80 + c % 64) ∷ []

abbrev pub u128_mod : ℕ
u128_mod = 340282366920938463463374607431768211456

hash_bytes : ℕ → List ℕ → ℕ
hash_bytes hash [] = hash
hash_bytes hash (b ∷ bs) = hash_bytes (bit_xor hash b * 1099511628211 % u128_mod) bs

hash_text : ℕ → Text → ℕ
unfolding utf8_bytes hash_bytes
hash_text hash [] = hash
hash_text hash (c ∷ s) = hash_text (hash_bytes hash (utf8_bytes c)) s

unfoldable pub simple_hash : Text → ℕ
unfolding hash_text
simple_hash input = hash_text 1469598103934665603 input

-- `format!("{numeric:06}")`, of a number of six digits
unfoldable pub six_digits : ℕ → Text
six_digits n =
    (b'0' + n / 100000 % 10)
    ∷ (b'0' + n / 10000 % 10)
    ∷ (b'0' + n / 1000 % 10)
    ∷ (b'0' + n / 100 % 10)
    ∷ (b'0' + n / 10 % 10)
    ∷ (b'0' + n % 10)
    ∷ []

unfoldable pub pair_code : ℕ → Text → Text
unfolding simple_hash six_digits
pair_code now account_id = six_digits (bit_xor now (simple_hash account_id) % 900000 + 100000)

-- the first pending code of an account
unfoldable pub code_of : Text → List (Text × Text) → Option Text
code_of account_id [] = none
code_of account_id ((code, pending) ∷ codes) =
    if text_eq pending account_id then some code else code_of account_id codes

unfoldable pub is_paired : TextChannelAdapter → Text → Bool
is_paired a account_id =
    contains a.config.policy.allow_accounts account_id || contains a.paired_accounts account_id

unfoldable pub add_code : Text → Text → TextChannelAdapter → TextChannelAdapter
add_code code account_id a = record a {
  pending_pair_codes = insert code account_id a.pending_pair_codes;
}

unfoldable pub drop_code : Text → TextChannelAdapter → TextChannelAdapter
drop_code code a = record a { pending_pair_codes = remove code a.pending_pair_codes }

-- the account of an approved code is paired, and the code is gone
unfoldable pub pair_account : Text → Text → TextChannelAdapter → TextChannelAdapter
pair_account code account_id a = record a {
  paired_accounts = add account_id a.paired_accounts;
  pending_pair_codes = remove code a.pending_pair_codes;
  metrics = record (a.metrics) {
    pairing_approved_total = sat_inc a.metrics.pairing_approved_total;
  };
}

-- what `approve_pairing` undoes where the state cannot be saved
unfoldable pub unpair_account : Text → Text → TextChannelAdapter → TextChannelAdapter
unpair_account code account_id a = record a {
  paired_accounts = delete account_id a.paired_accounts;
  pending_pair_codes = insert code account_id a.pending_pair_codes;
  metrics = record (a.metrics) { pairing_approved_total = a.metrics.pairing_approved_total - 1 };
}

-- On an error: the undoing, then the error again.
or_undo :
    {A : Type 0}
    → (TextChannelAdapter → TextChannelAdapter)
    → A
    → KelvinResult (Unit {0}) × World
    → KelvinResult A × World
or_undo undo a (ok _, w) = (ok a, w)
or_undo undo a (err e, w) = (update undo >> fail e) w

module _ (script : Script) where
  fresh_code : Text → Channel (Option Text)
  unfolding pair_code add_code drop_code or_undo
  fresh_code account_id = do
    now ← now_ms script
    let code = pair_code now account_id
    update (add_code code account_id)
    λ w. or_undo (drop_code code) (some code) (persist_state script w)

  unfoldable pub enforce_pairing_policy : Text → Channel (Option Text)
  unfolding is_paired code_of fresh_code
  enforce_pairing_policy account_id w =
      let a = w.adapter in
      if a.config.pairing_enabled
      then (if is_paired a account_id
          then (ok none, w)
          else elim (code_of account_id a.pending_pair_codes) [
            | some code ↦ (ok (some code), w)
            | none ↦ fresh_code account_id w
          ])
      else (ok none, w)

  approve_code : Text → Option Text → Channel Json
  unfolding pair_account unpair_account or_undo
  approve_code code none = fail (not_found (literal "pairing code not found"))
  approve_code code (some account_id) = do
    update (pair_account code account_id)
    λ w.
        or_undo (unpair_account code account_id)
          (object (field "approved" (bool true) (field "account_id" (text account_id) nil)))
          (persist_state script w)

  unfoldable pub approve_pairing : Text → Channel Json
  unfolding approve_code
  approve_pairing code w =
      (do
        fail_if (if w.adapter.config.pairing_enabled then false else true)
            (invalid_input (literal "pairing is not enabled for this channel"))
        fail_if (is_empty (trim code)) (invalid_input (literal "pairing code must not be empty"))
        approve_code (trim code) (lookup (trim code) w.adapter.pending_pair_codes))
        w
