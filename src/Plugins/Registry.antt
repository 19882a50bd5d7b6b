-- ===== src/Plugins/Registry.antt =====
-- `PluginFactory` and `InMemoryPluginRegistry` of crates/kelvin-core/src/sdk.rs.
use kelvinclaw.Prelude.{Bool, true, false, Option, none, some, List, [], ◌∷◌, map}
use kelvinclaw.Prelude.Text.{Text}
use kelvinclaw.Prelude.Map.{lookup, insert}
use kelvinclaw.Prelude.Error.{
  Message, literal, with_text, with_message, KelvinResult, ok, err, invalid_input, refuse_if, ◌>>◌,
}
use kelvinclaw.Plugins.Manifest.{PluginManifest, Semver}
use kelvinclaw.Plugins.Compatibility.{PluginSecurityPolicy, check_plugin_compatibility}

-- The traits of what a plugin provides, with the methods that the registries call.
pub record Traits : Type 1 where
  pub Tool : Type 0
  pub name : Tool → Text
  pub ModelProvider : Type 0
  pub provider_name : ModelProvider → Text
  pub model_name : ModelProvider → Text

-- A plugin by the methods that the registries call.
pub record PluginFactory (traits : Traits) : Type 0 where
  pub manifest : PluginManifest
  pub tool : Option traits.Tool
  pub model_provider : Option traits.ModelProvider

-- `reasons.join("; ")`
unfoldable pub joined : List Message → Message
joined [] = literal ""
joined (m ∷ ms) = with_message (with_message (literal "{}; {}") m) (joined ms)

module _ (traits : Traits) where
  abbrev pub InMemoryPluginRegistry : Type 0
  InMemoryPluginRegistry = List (Text × PluginFactory traits)

  abbrev is_registered : Option (PluginFactory traits) → Bool
  is_registered none = false
  is_registered (some p) = true

  unfoldable pub register :
      Semver
      → PluginFactory traits
      → Text
      → PluginSecurityPolicy
      → InMemoryPluginRegistry
      → KelvinResult InMemoryPluginRegistry
  register semver plugin core_version policy plugins =
      let report = check_plugin_compatibility semver plugin.manifest core_version policy in
      elim report.compatible [
        | false ↦ err (
            invalid_input (
              with_message (with_text (literal "plugin '{}' rejected: {}") plugin.manifest.id)
                (joined report.reasons)))
        | true ↦
            refuse_if (is_registered (lookup plugin.manifest.id plugins)) (
              invalid_input
                (with_text (literal "plugin '{}' is already registered") plugin.manifest.id))
            >> ok (insert plugin.manifest.id plugin plugins)
      ]

  unfoldable pub get : Text → InMemoryPluginRegistry → Option (PluginFactory traits)
  get plugin_id plugins = lookup plugin_id plugins

  unfoldable pub manifests : InMemoryPluginRegistry → List PluginManifest
  manifests plugins = map (λ p. p.1.manifest) plugins
