-- ===== src/Examples/Extensions.antt =====
-- Plugins of crates/kelvin-core/src/sdk.rs, with versions of which only the first digit is read.
use kelvinclaw.Prelude.{
  ℕ, ◌-◌, ◌≡◌, ◌↔◌, ◌⊎◌, inl, inr, refl, true, false, none, some, [], ◌∷◌, leb, ltb, ◌&&◌,
  if◌then◌else◌,
}
use kelvinclaw.Prelude.Text.{Text, lit}
use kelvinclaw.Prelude.Error.{Message, literal}
use kelvinclaw.Prelude.Text.{trim, trim_start, is_whitespace, is_control, is_empty, text_eq}
use kelvinclaw.Prelude.Map.{lookup, insert}
use kelvinclaw.Prelude.Sort.{sort_by, insert_by}
use kelvinclaw.Prelude.{any, all}
use kelvinclaw.Plugins.Manifest.{
  validate_plugin_id, validate_plugin_name, validate_cleaned, validate_semver,
  validate_optional_text_field, validate_homepage, validate_capabilities, refuse_repeated, declares,
  starts_with, is_id_char, is_ascii_alphanumeric, PluginManifest, Semver, validate, provides_tool,
  provides_model, network_egress,
}
use kelvinclaw.Plugins.Compatibility.{
  reasons_against, policy_reasons, below_minimum, above_maximum, PluginSecurityPolicy,
  check_plugin_compatibility,
}
use kelvinclaw.Plugins.WellFormed.{WellFormed}
use kelvinclaw.Plugins.Registry.{
  joined, Traits, PluginFactory, InMemoryPluginRegistry, register, get, manifests,
}
use kelvinclaw.Plugins.Held.{HoldsAdmissible, registrations, registrations-HoldsAdmissible}
use kelvinclaw.Plugins.Tools
use kelvinclaw.Plugins.Tools.{get_tool, collect_tools, match_tool, add_tool}
use kelvinclaw.Plugins.Models
use kelvinclaw.Plugins.Models.{
  collect_models, match_model, add_model, key_of, provider_model_key, get_by_plugin_id,
  get_by_provider_model, SdkModelProviderRegistry,
}
use kelvinclaw.Plugins.Exposed.{SomeOf, Exposes, from_plugin_registry-Exposes}
use kelvinclaw.Plugins.Offered.{Offers, from_plugin_registry-Offers}

abbrev first_digit : Text → Message ⊎ ℕ
first_digit [] = inl (literal "empty")
first_digit (c ∷ s) = if leb b'0' c && leb c b'9' then inr (c - 48) else inl (literal "no digit")

abbrev versions : Semver
versions = record {
  Version = ℕ;
  parse = first_digit;
  major = λ v. v;
  is_below = ltb;
  print = λ v. (48 ∷ []);
}

abbrev named : Traits
named = record {
  Tool = Text;
  name = λ t. t;
  ModelProvider = Text;
  provider_name = λ t. t;
  model_name = λ t. lit "m";
}

abbrev fetch_manifest : PluginManifest
fetch_manifest = record {
  id = lit "kelvin.fetch";
  name = lit "Fetch";
  version = lit "0.1.0";
  api_version = lit "1.0.0";
  description = none;
  homepage = some (lit "https://a.b");
  capabilities = provides_tool ∷ provides_model ∷ network_egress ∷ [];
  experimental = false;
  min_core_version = some (lit "0");
  max_core_version = none;
}

abbrev policy : PluginSecurityPolicy
policy = record {
  allow_experimental = false;
  allow_fs_read = false;
  allow_network_egress = true;
  allow_fs_write = false;
  allow_command_execution = false;
}

abbrev fetch : PluginFactory named
fetch = record {
  manifest = fetch_manifest;
  tool = some (lit " fetch ");
  model_provider = some (lit "p");
}

abbrev plugins : InMemoryPluginRegistry named
plugins = (lit "kelvin.fetch", fetch) ∷ []

fetch_is_compatible :
    (check_plugin_compatibility versions fetch_manifest (lit "1.2.0") policy).compatible ≡ true
unfolding check_plugin_compatibility validate validate_plugin_id validate_plugin_name
    validate_cleaned validate_semver validate_optional_text_field validate_homepage
    validate_capabilities refuse_repeated declares starts_with is_id_char is_ascii_alphanumeric
    reasons_against policy_reasons below_minimum above_maximum trim trim_start is_whitespace
    is_control is_empty any all
fetch_is_compatible = refl

registrations-HoldsAdmissible_example :
    HoldsAdmissible versions named
      (lit "1.2.0")
      policy
      (registrations versions named (lit "1.2.0") policy (fetch ∷ fetch ∷ []) [])
registrations-HoldsAdmissible_example =
    registrations-HoldsAdmissible versions named (lit "1.2.0") policy (fetch ∷ fetch ∷ [])

fetch_is_registered :
    get named
      (lit "kelvin.fetch")
      (registrations versions named (lit "1.2.0") policy (fetch ∷ fetch ∷ []) [])
    ≡ some fetch
unfolding check_plugin_compatibility validate validate_plugin_id validate_plugin_name
    validate_cleaned validate_semver validate_optional_text_field validate_homepage
    validate_capabilities refuse_repeated declares starts_with is_id_char is_ascii_alphanumeric
    reasons_against policy_reasons below_minimum above_maximum trim trim_start is_whitespace
    is_control is_empty any all register registrations get lookup insert text_eq joined
fetch_is_registered = refl

abbrev tools : Tools.Tools named
tools = (lit "fetch", lit " fetch ") ∷ []

from_plugin_registry-Exposes_example :
    (get_tool named (lit "fetch") tools ≡ some (lit " fetch "))
    ↔ SomeOf (Exposes named plugins (lit "fetch") (lit " fetch ")) (manifests named plugins)
unfolding Tools.from_plugin_registry sort_by insert_by manifests collect_tools match_tool add_tool
    get lookup insert declares any trim trim_start is_whitespace is_empty text_eq
from_plugin_registry-Exposes_example =
    from_plugin_registry-Exposes named plugins tools refl (lit "fetch") (lit " fetch ")

abbrev models : SdkModelProviderRegistry named
models = record {
  by_plugin_id = (lit "kelvin.fetch", lit "p") ∷ [];
  by_provider_model = (lit "p::m", lit "p") ∷ [];
}

from_plugin_registry-Offers_example :
    ((id : Text) (m : Text)
      → (get_by_plugin_id named id models ≡ some m)
        ↔ SomeOf (Offers named plugins id m) (manifests named plugins))
    × ((id : Text) (m : Text)
        → get_by_plugin_id named id models ≡ some m
        → get_by_provider_model named m (lit "m") models ≡ some m)
    × ((provider_name model_name : Text) (m : Text)
        → get_by_provider_model named provider_name model_name models ≡ some m
        → (id : Text) × (get_by_plugin_id named id models ≡ some m))
unfolding Models.from_plugin_registry sort_by insert_by manifests collect_models match_model
    add_model key_of provider_model_key get lookup insert declares any trim trim_start is_whitespace
    is_empty text_eq
from_plugin_registry-Offers_example = from_plugin_registry-Offers named plugins models refl
