-- ===== src/Brain/Receipts.antt =====
-- What `sanitize_receipt_reason` of crates/kelvin-brain/src/kelvin_brain.rs leaves of a reason.
use kelvinclaw.Prelude.{
  ℕ, zero, suc, ◌+◌, ◌≤◌, ◌≡◌, refl, arith, Bool-cases, false, inl, inr, [], ◌∷◌, length, any,
}
use kelvinclaw.Prelude.Text.{Text, lit, is_control}
use kelvinclaw.Brain.ToolCalls.{sanitize_from, sanitize_receipt_reason, receipt_reason_max_length}

-- A printable text of at most so many characters.
abbrev pub IsShort : ℕ → Text → Type 0
IsShort n t = (length t ≤ n) × (any is_control t ≡ false)

dots-IsShort : IsShort 3 (lit "...")
unfolding any is_control
dots-IsShort = (omega arith, refl)

sanitize_from-IsShort : (room : ℕ) (reason : Text) → IsShort (room + 3) (sanitize_from room reason)
unfolding sanitize_from any
sanitize_from-IsShort room [] = (omega arith, refl)
sanitize_from-IsShort zero (ch ∷ reason) = dots-IsShort
sanitize_from-IsShort (suc room) (ch ∷ reason) =
    let ih = sanitize_from-IsShort room reason in
    elim (Bool-cases (is_control ch)) [
      | inl e ↦ rw e (omega (arith, ih.0), ih.1)
      | inr e ↦ rw e (omega (arith, ih.0), rw e ih.1)
    ]

-- No control characters, and at most 512 characters and the dots.
pub sanitize_receipt_reason-IsShort : (reason : Text) → IsShort 515 (sanitize_receipt_reason reason)
unfolding sanitize_receipt_reason
sanitize_receipt_reason-IsShort reason = sanitize_from-IsShort receipt_reason_max_length reason
