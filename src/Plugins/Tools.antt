-- ===== src/Plugins/Tools.antt =====
-- `SdkToolRegistry` of crates/kelvin-core/src/sdk.rs.
use kelvinclaw.Prelude.{Bool, true, false, Option, none, some, List, [], ◌∷◌, map}
use kelvinclaw.Prelude.Text.{Text, trim, is_empty, text_leb}
use kelvinclaw.Prelude.Map.{lookup, insert}
use kelvinclaw.Prelude.Sort.{sort_by}
use kelvinclaw.Prelude.Error.{
  literal, with_text, KelvinResult, ok, err, invalid_input, not_found, refuse_if, ok_or, ◌>>=◌,
  ◌>>◌,
}
use kelvinclaw.Plugins.Manifest.{PluginManifest, provides_tool, declares}
use kelvinclaw.Plugins.Registry.{Traits, InMemoryPluginRegistry, get, manifests}

-- The order of the ids, by which both registries go through the manifests.
abbrev pub id_le : PluginManifest → PluginManifest → Bool
id_le left right = text_leb left.id right.id

module _ (traits : Traits) where
  abbrev pub Tools : Type 0
  Tools = List (Text × traits.Tool)

  abbrev pub has_tool : Option traits.Tool → Bool
  has_tool none = false
  has_tool (some t) = true

  -- The last arm of the match: the tool goes in under its trimmed name.
  unfoldable pub add_tool : Text → traits.Tool → Tools → KelvinResult Tools
  add_tool id tool tools =
      let tool_name = trim (traits.name tool) in
      refuse_if (is_empty tool_name)
        (invalid_input (with_text (literal "plugin '{}' returned a tool with empty name") id))
      >> refuse_if (has_tool (lookup tool_name tools)) (
          invalid_input
            (with_text (literal "duplicate tool name from plugins: {tool_name}") tool_name))
      >> ok (insert tool_name tool tools)

  -- The match on what the plugin declares and what it provides.
  unfoldable pub match_tool : Text → Bool → Option traits.Tool → Tools → KelvinResult Tools
  match_tool id false none tools = ok tools
  match_tool id false (some tool) tools = err (
      invalid_input (
        with_text (literal "plugin '{}' exposes a tool but is missing 'tool_provider' capability")
          id))
  match_tool id true none tools = err (
      invalid_input
        (with_text (literal "plugin '{}' declares tool capability but returned no tool") id))
  match_tool id true (some tool) tools = add_tool id tool tools

  -- The loop over the manifests.
  unfoldable pub collect_tools :
      InMemoryPluginRegistry traits → List PluginManifest → Tools → KelvinResult Tools
  collect_tools registry [] tools = ok tools
  collect_tools registry (manifest ∷ rest) tools =
      ok_or (get traits manifest.id registry) (
        not_found
          (with_text (literal "plugin '{}' disappeared during tool registry build") manifest.id))
      >>= λ plugin.
          match_tool manifest.id (declares manifest.capabilities provides_tool) plugin.tool tools
          >>= λ after. collect_tools registry rest after

  unfoldable pub from_plugin_registry : InMemoryPluginRegistry traits → KelvinResult Tools
  from_plugin_registry registry =
      collect_tools registry (sort_by id_le (manifests traits registry)) []

  -- `SdkToolRegistry::get` and `names`
  unfoldable pub get_tool : Text → Tools → Option traits.Tool
  get_tool name tools = lookup name tools

  unfoldable pub names : Tools → List Text
  names tools = sort_by text_leb (map (λ p. p.0) tools)
