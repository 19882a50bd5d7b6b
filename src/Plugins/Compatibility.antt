-- ===== src/Plugins/Compatibility.antt =====
-- `check_plugin_compatibility` of crates/kelvin-core/src/sdk.rs.
use kelvinclaw.Prelude.{
  Bool, true, false, not, ◌&&◌, Option, none, some, List, [], ◌∷◌, ◌++◌, String, ◌⊎◌, inl, inr,
  ◌==◌,
}
use kelvinclaw.Prelude.Text.{Text}
use kelvinclaw.Prelude.Error.{Message, literal, with_text, with_message, ok, err, to_message}
use kelvinclaw.Plugins.Manifest.{
  PluginCapability, fs_read, fs_write, network_egress, command_execution, declares, PluginManifest,
  Semver, validate, kelvin_core_api_version,
}

pub record PluginSecurityPolicy : Type 0 where
  pub allow_experimental : Bool
  pub allow_fs_read : Bool
  pub allow_network_egress : Bool
  pub allow_fs_write : Bool
  pub allow_command_execution : Bool

pub record PluginCompatibilityReport : Type 0 where
  pub compatible : Bool
  pub reasons : List Message

abbrev pub success : PluginCompatibilityReport
success = record { compatible = true; reasons = [] }

abbrev pub failure : Message → PluginCompatibilityReport
failure reason = record { compatible = false; reasons = reason ∷ [] }

-- `reasons.push(…)` under a test
abbrev pub push_if : Bool → Message → List Message
push_if true m = m ∷ []
push_if false m = []

-- A capability that the manifest declares and the policy does not allow.
abbrev pub denied : PluginManifest → PluginCapability → Bool → String → List Message
denied manifest c allowed format =
    push_if (declares manifest.capabilities c && not allowed)
      (with_text (literal format) manifest.id)

unfoldable pub policy_reasons : PluginManifest → PluginSecurityPolicy → List Message
policy_reasons manifest policy =
    push_if (manifest.experimental && not policy.allow_experimental) (
      with_text (literal "plugin '{}' is experimental and policy disallows experimental plugins")
        manifest.id)
    ++ denied manifest fs_read policy.allow_fs_read
        "plugin '{}' requires filesystem read but policy disallows it"
    ++ denied manifest network_egress policy.allow_network_egress
        "plugin '{}' requires network egress but policy disallows it"
    ++ denied manifest fs_write policy.allow_fs_write
        "plugin '{}' requires filesystem write but policy disallows it"
    ++ denied manifest command_execution policy.allow_command_execution
        "plugin '{}' requires command execution but policy disallows it"

-- The report with these reasons.
abbrev pub report_of : List Message → PluginCompatibilityReport
report_of [] = success
report_of (m ∷ ms) = record { compatible = false; reasons = m ∷ ms }

module _ (semver : Semver) where
  abbrev pub api_mismatch : Message ⊎ semver.Version → Message ⊎ semver.Version → List Message
  api_mismatch (inr plugin_api) (inr core_api) =
      push_if (not (semver.major plugin_api == semver.major core_api)) (
        with_text
          (with_text (literal "api version mismatch: plugin {} vs core {}")
            (semver.print plugin_api))
          (semver.print core_api))
  api_mismatch _ _ = []

  -- The message on a bound that the core version does not keep.
  abbrev pub out_of_bound : String → semver.Version → semver.Version → Message
  out_of_bound format core_version bound =
      with_text (with_text (literal format) (semver.print core_version)) (semver.print bound)

  abbrev pub invalid_bound : String → Text → Message → Message
  invalid_bound format text e = with_message (with_text (literal format) text) e

  unfoldable pub below_minimum : semver.Version → Option Text → List Message
  below_minimum core_version none = []
  below_minimum core_version (some min) = elim (semver.parse min) [
    | inr min_version ↦
        push_if (semver.is_below core_version min_version) (
          out_of_bound "core version {} is lower than required minimum {}" core_version min_version)
    | inl e ↦ invalid_bound "invalid min_core_version '{min}': {err}" min e ∷ []
  ]

  unfoldable pub above_maximum : semver.Version → Option Text → List Message
  above_maximum core_version none = []
  above_maximum core_version (some max) = elim (semver.parse max) [
    | inr max_version ↦
        push_if (semver.is_below max_version core_version)
          (out_of_bound "core version {} exceeds plugin maximum {}" core_version max_version)
    | inl e ↦ invalid_bound "invalid max_core_version '{max}': {err}" max e ∷ []
  ]

  unfoldable pub reasons_against :
      PluginManifest → semver.Version → PluginSecurityPolicy → List Message
  reasons_against manifest core_version policy =
      api_mismatch (semver.parse manifest.api_version) (semver.parse kelvin_core_api_version)
      ++ below_minimum core_version manifest.min_core_version
      ++ above_maximum core_version manifest.max_core_version
      ++ policy_reasons manifest policy

  unfoldable pub check_plugin_compatibility :
      PluginManifest → Text → PluginSecurityPolicy → PluginCompatibilityReport
  check_plugin_compatibility manifest core_version policy = elim (validate semver manifest) [
    | err e ↦ failure (to_message e)
    | ok _ ↦ elim (semver.parse core_version) [
      | inl e ↦ failure (with_text (literal "invalid core version: {core_version}") core_version)
      | inr core_version ↦ report_of (reasons_against manifest core_version policy)
    ]
  ]
