-- ===== src/Plugins/Models.antt =====
-- `SdkModelProviderRegistry` of crates/kelvin-core/src/sdk.rs.
use kelvinclaw.Prelude.{Bool, true, false, Option, none, some, List, [], ◌∷◌, ◌++◌, map}
use kelvinclaw.Prelude.Text.{Text, lit, trim, is_empty, text_leb}
use kelvinclaw.Prelude.Map.{lookup, insert}
use kelvinclaw.Prelude.Sort.{sort_by}
use kelvinclaw.Prelude.Error.{
  literal, with_text, KelvinResult, ok, err, invalid_input, not_found, refuse_if, ok_or, ◌>>=◌,
  ◌>>◌,
}
use kelvinclaw.Plugins.Manifest.{PluginManifest, provides_model, declares}
use kelvinclaw.Plugins.Registry.{Traits, InMemoryPluginRegistry, get, manifests}
use kelvinclaw.Plugins.Tools.{id_le}

-- `format!("{provider_name}::{model_name}")`
unfoldable pub provider_model_key : Text → Text → Text
provider_model_key provider_name model_name = provider_name ++ lit "::" ++ model_name

module _ (traits : Traits) where
  pub record SdkModelProviderRegistry : Type 0 where
    pub by_plugin_id : List (Text × traits.ModelProvider)
    pub by_provider_model : List (Text × traits.ModelProvider)

  abbrev pub has_model : Option traits.ModelProvider → Bool
  has_model none = false
  has_model (some m) = true

  -- The key of a model, from its trimmed names.
  unfoldable pub key_of : traits.ModelProvider → Text
  key_of model =
      provider_model_key (trim (traits.provider_name model)) (trim (traits.model_name model))

  -- The last arm of the match: the model goes in under the id and under its key.
  unfoldable pub add_model :
      Text → traits.ModelProvider → SdkModelProviderRegistry → KelvinResult SdkModelProviderRegistry
  add_model id model models =
      refuse_if (is_empty (trim (traits.provider_name model))) (
        invalid_input
          (with_text (literal "plugin '{}' returned a model provider with empty provider_name") id))
      >> refuse_if (is_empty (trim (traits.model_name model))) (
          invalid_input
            (with_text (literal "plugin '{}' returned a model provider with empty model_name") id))
      >> refuse_if (has_model (lookup (key_of model) models.by_provider_model)) (
          invalid_input (
            with_text (literal "duplicate model provider name from plugins: {provider_model_key}")
              (key_of model)))
      >> ok (record {
        by_plugin_id = insert id model models.by_plugin_id;
        by_provider_model = insert (key_of model) model models.by_provider_model;
      })

  unfoldable pub match_model :
      Text
      → Bool
      → Option traits.ModelProvider
      → SdkModelProviderRegistry
      → KelvinResult SdkModelProviderRegistry
  match_model id false none models = ok models
  match_model id false (some model) models = err (
      invalid_input (
        with_text
          (literal
            "plugin '{}' exposes a model provider but is missing 'model_provider' capability")
          id))
  match_model id true none models = err (
      invalid_input (
        with_text
          (literal "plugin '{}' declares model provider capability but returned no model provider")
          id))
  match_model id true (some model) models = add_model id model models

  -- The loop over the manifests.
  unfoldable pub collect_models :
      InMemoryPluginRegistry traits
      → List PluginManifest
      → SdkModelProviderRegistry
      → KelvinResult SdkModelProviderRegistry
  collect_models registry [] models = ok models
  collect_models registry (manifest ∷ rest) models =
      ok_or (get traits manifest.id registry) (
        not_found
          (with_text (literal "plugin '{}' disappeared during model registry build") manifest.id))
      >>= λ plugin.
          match_model manifest.id (declares manifest.capabilities provides_model)
            plugin.model_provider models
          >>= λ after. collect_models registry rest after

  unfoldable pub from_plugin_registry :
      InMemoryPluginRegistry traits → KelvinResult SdkModelProviderRegistry
  from_plugin_registry registry =
      collect_models registry (sort_by id_le (manifests traits registry))
        (record { by_plugin_id = []; by_provider_model = [] })

  unfoldable pub get_by_plugin_id : Text → SdkModelProviderRegistry → Option traits.ModelProvider
  get_by_plugin_id plugin_id models = lookup plugin_id models.by_plugin_id

  unfoldable pub get_by_provider_model :
      Text → Text → SdkModelProviderRegistry → Option traits.ModelProvider
  get_by_provider_model provider_name model_name models =
      lookup (provider_model_key (trim provider_name) (trim model_name)) models.by_provider_model

  unfoldable pub plugin_ids : SdkModelProviderRegistry → List Text
  plugin_ids models = sort_by text_leb (map (λ p. p.0) models.by_plugin_id)
