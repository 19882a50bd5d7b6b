-- ===== src/Plugins/Admission/Defs.antt =====
-- When crates/kelvin-core/src/sdk.rs lets a plugin pass.
use kelvinclaw.Prelude.{◌≡◌, inr, true, false, Option, none, some}
use kelvinclaw.Prelude.Text.{Text}
use kelvinclaw.Plugins.Manifest.{
  fs_read, fs_write, network_egress, command_execution, declares, PluginManifest, Semver,
  kelvin_core_api_version,
}
use kelvinclaw.Plugins.Compatibility.{PluginSecurityPolicy}
use kelvinclaw.Plugins.WellFormed.{WellFormed}

-- What the policy says of a manifest.
abbrev pub IsPermitted : PluginManifest → PluginSecurityPolicy → Type 0
IsPermitted manifest policy =
    (manifest.experimental ≡ true → policy.allow_experimental ≡ true)
    × (declares manifest.capabilities fs_read ≡ true → policy.allow_fs_read ≡ true)
    × (declares manifest.capabilities network_egress ≡ true → policy.allow_network_egress ≡ true)
    × (declares manifest.capabilities fs_write ≡ true → policy.allow_fs_write ≡ true)
    × (declares manifest.capabilities command_execution ≡ true
        → policy.allow_command_execution ≡ true)

module _ (semver : Semver) where
  -- Two versions that are read have the same major number.
  abbrev pub SameMajor : Text → Text → Type 0
  SameMajor a b =
      (v w : semver.Version)
      → semver.parse a ≡ inr v
      → semver.parse b ≡ inr w
      → semver.major v ≡ semver.major w

  abbrev pub KeepsMinimum : semver.Version → Option Text → Type 0
  KeepsMinimum core none = Unit
  KeepsMinimum core (some min) =
      (v : semver.Version) × (semver.parse min ≡ inr v) × (semver.is_below core v ≡ false)

  abbrev pub KeepsMaximum : semver.Version → Option Text → Type 0
  KeepsMaximum core none = Unit
  KeepsMaximum core (some max) =
      (v : semver.Version) × (semver.parse max ≡ inr v) × (semver.is_below v core ≡ false)

  -- A plugin that the core of this version takes under this policy.
  pub record Admissible (manifest : PluginManifest) (core_version : Text)
      (policy : PluginSecurityPolicy) : Type 0 where
    pub well_formed : WellFormed semver manifest
    pub core : semver.Version
    pub core_parses : semver.parse core_version ≡ inr core
    pub same_major : SameMajor manifest.api_version kelvin_core_api_version
    pub minimum : KeepsMinimum core manifest.min_core_version
    pub maximum : KeepsMaximum core manifest.max_core_version
    pub permitted : IsPermitted manifest policy
