-- ===== src/Tools/Approved.antt =====
-- What a write has passed: `fs_safe_write` of crates/kelvin-sdk/src/toolpack.rs.
use kelvinclaw.Prelude.{◌≡◌, ◌≤◌, true, false, length, any}
use kelvinclaw.Prelude.Text.{Text, is_empty, is_control}
use kelvinclaw.Tools.Files.{ToolPackPolicy, WritePlan}
use kelvinclaw.Tools.Confined.{Confined}

-- A reason that is there, printable, and of 256 characters at most.
abbrev pub IsReason : Text → Type 0
IsReason reason =
    (is_empty reason ≡ false) × (length reason ≤ 256) × (any is_control reason ≡ false)

-- A write that the policy allows, for a reason, to a file in an allowed folder.
abbrev pub IsApproved : ToolPackPolicy → WritePlan → Type 0
IsApproved policy plan =
    (policy.allow_fs_write ≡ true) × IsReason plan.approval_reason × Confined plan.path
