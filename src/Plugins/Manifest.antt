-- ===== src/Plugins/Manifest.antt =====
-- `PluginManifest` of crates/kelvin-core/src/sdk.rs and its validation.
use kelvinclaw.Prelude.{
  ℕ, zero, suc, Bool, true, false, not, ◌&&◌, ◌||◌, Option, none, some, List, [], ◌∷◌, String, ◌⊎◌,
  inl, inr, length, ltb, leb, ◌==◌, any, all,
}
use kelvinclaw.Prelude.Text.{Text, lit, trim, is_empty, is_control, is_whitespace}
use kelvinclaw.Prelude.Error.{
  Message, literal, with_text, with_number, with_message, KelvinResult, ok, err, invalid_input,
  refuse_if, ◌>>◌,
}

abbrev pub kelvin_core_api_version : Text
kelvin_core_api_version = lit "1.0.0"

abbrev pub max_plugin_id_len : ℕ
max_plugin_id_len = 128

abbrev pub max_plugin_name_len : ℕ
max_plugin_name_len = 128

abbrev pub max_plugin_description_len : ℕ
max_plugin_description_len = 4096

abbrev pub max_plugin_homepage_len : ℕ
max_plugin_homepage_len = 2048

abbrev pub max_plugin_capabilities : ℕ
max_plugin_capabilities = 32

abbrev pub display_preview_max_len : ℕ
display_preview_max_len = 64

pub data PluginCapability : Type 0 where
  provides_model : PluginCapability
  provides_memory : PluginCapability
  provides_sessions : PluginCapability
  takes_events : PluginCapability
  provides_tool : PluginCapability
  fs_read : PluginCapability
  fs_write : PluginCapability
  network_egress : PluginCapability
  command_execution : PluginCapability
  provides_commands : PluginCapability
  env_access : PluginCapability

-- The place of a capability in the source's list, by which `==` tells them apart.
abbrev pub capability_rank : PluginCapability → ℕ
capability_rank provides_model = 0
capability_rank provides_memory = 1
capability_rank provides_sessions = 2
capability_rank takes_events = 3
capability_rank provides_tool = 4
capability_rank fs_read = 5
capability_rank fs_write = 6
capability_rank network_egress = 7
capability_rank command_execution = 8
capability_rank provides_commands = 9
capability_rank env_access = 10

-- The `Debug` print of a capability
abbrev debug_name : PluginCapability → String
debug_name provides_model = "ModelProvider"
debug_name provides_memory = "MemoryProvider"
debug_name provides_sessions = "SessionStore"
debug_name takes_events = "EventSink"
debug_name provides_tool = "ToolProvider"
debug_name fs_read = "FsRead"
debug_name fs_write = "FsWrite"
debug_name network_egress = "NetworkEgress"
debug_name command_execution = "CommandExecution"
debug_name provides_commands = "CommandProvider"
debug_name env_access = "EnvAccess"

abbrev pub same_capability : PluginCapability → PluginCapability → Bool
same_capability a b = capability_rank a == capability_rank b

-- `capabilities.contains(&c)`
unfoldable pub declares : List PluginCapability → PluginCapability → Bool
declares capabilities c = any (same_capability c) capabilities

pub record PluginManifest : Type 0 where
  pub id : Text
  pub name : Text
  pub version : Text
  pub api_version : Text
  pub description : Option Text
  pub homepage : Option Text
  pub capabilities : List PluginCapability
  pub experimental : Bool
  pub min_core_version : Option Text
  pub max_core_version : Option Text

-- What the source uses of the crate semver: an error is given by its print.
pub record Semver : Type 1 where
  pub Version : Type 0
  pub parse : Text → Message ⊎ Version
  pub major : Version → ℕ
  pub is_below : Version → Version → Bool
  pub print : Version → Text

-- `preview`
unfoldable pub preview : Text → ℕ → Text
preview [] max_chars = []
preview (ch ∷ value) zero = lit "..."
preview (ch ∷ value) (suc max_chars) = ch ∷ preview value max_chars

-- A message with the label in front.
abbrev labelled : String → String → Message
labelled format label = with_message (literal format) (literal label)

-- The three tests that the source has for each text: not empty, not too long, and none of the
-- characters that are refused.
unfoldable pub validate_cleaned :
    Text → Message → ℕ → Message → (ℕ → Bool) → Message → KelvinResult (Unit {0})
validate_cleaned cleaned empty max_len long refused characters =
    refuse_if (is_empty cleaned) (invalid_input empty)
    >> refuse_if (ltb max_len (length cleaned)) (invalid_input long)
    >> refuse_if (any refused cleaned) (invalid_input characters)

unfoldable pub is_ascii_alphanumeric : ℕ → Bool
is_ascii_alphanumeric c =
    (leb b'0' c && leb c b'9') || (leb b'A' c && leb c b'Z') || (leb b'a' c && leb c b'z')

unfoldable pub is_id_char : ℕ → Bool
unfolding is_ascii_alphanumeric
is_id_char c = is_ascii_alphanumeric c || (c == b'_') || (c == b'-') || (c == b'.')

unfoldable pub validate_plugin_id : Text → KelvinResult (Unit {0})
validate_plugin_id value =
    validate_cleaned (trim value) (literal "plugin id must not be empty") max_plugin_id_len
      (literal "plugin id exceeds max length {MAX_PLUGIN_ID_LEN}") is_control
      (literal "plugin id must not include control characters")
    >> refuse_if (not (all is_id_char (trim value))) (
        invalid_input (
          with_text (literal "plugin id has invalid characters: {shown}")
            (preview (trim value) display_preview_max_len)))

unfoldable pub validate_plugin_name : Text → KelvinResult (Unit {0})
validate_plugin_name value =
    validate_cleaned (trim value) (literal "plugin name must not be empty") max_plugin_name_len
      (literal "plugin name exceeds max length {MAX_PLUGIN_NAME_LEN}") is_control
      (literal "plugin name must not include control characters")

unfoldable pub validate_optional_text_field : String → Option Text → ℕ → KelvinResult (Unit {0})
validate_optional_text_field label none max_len = ok tt
validate_optional_text_field label (some raw) max_len =
    validate_cleaned (trim raw) (labelled "{label} must not be empty" label) max_len
      (with_number (labelled "{label} exceeds max length {max_len}" label) max_len) is_control
      (labelled "{label} must not include control characters" label)

-- `str::starts_with`
unfoldable pub starts_with : Text → Text → Bool
starts_with s [] = true
starts_with [] (p ∷ ps) = false
starts_with (c ∷ s) (p ∷ ps) = (c == p) && starts_with s ps

unfoldable pub validate_homepage : Option Text → KelvinResult (Unit {0})
validate_homepage none = ok tt
validate_homepage (some raw) =
    validate_cleaned (trim raw) (literal "plugin homepage must not be empty")
      max_plugin_homepage_len
      (literal "plugin homepage exceeds max length {MAX_PLUGIN_HOMEPAGE_LEN}")
      (λ ch. is_control ch || is_whitespace ch)
      (literal "plugin homepage must not include whitespace/control characters")
    >> refuse_if
        (not (starts_with (trim raw) (lit "https://") || starts_with (trim raw) (lit "http://")))
        (invalid_input (literal "plugin homepage must use http:// or https://"))

-- The loop over the capabilities, with those seen before.
unfoldable pub refuse_repeated :
    List PluginCapability → List PluginCapability → KelvinResult (Unit {0})
refuse_repeated seen [] = ok tt
refuse_repeated seen (capability ∷ capabilities) =
    refuse_if (declares seen capability) (
      invalid_input (
        labelled "plugin capabilities contain duplicate value: {capability:?}"
          (debug_name capability)))
    >> refuse_repeated (capability ∷ seen) capabilities

unfoldable pub validate_capabilities : List PluginCapability → KelvinResult (Unit {0})
validate_capabilities capabilities =
    refuse_if (ltb max_plugin_capabilities (length capabilities))
      (invalid_input (literal "plugin capabilities exceed max length {MAX_PLUGIN_CAPABILITIES}"))
    >> refuse_repeated [] capabilities

module _ (semver : Semver) where
  unfoldable pub validate_semver : String → Text → KelvinResult (Unit {0})
  validate_semver label value =
      refuse_if (is_empty (trim value)) (invalid_input (labelled "{label} must not be empty" label))
      >> elim (semver.parse value) [
        | inr version ↦ ok tt
        | inl e ↦ err (
            invalid_input (
              with_message
                (with_text (labelled "{label} must be valid semver, got '{shown}': {err}" label)
                  (preview value display_preview_max_len))
                e))
      ]

  abbrev pub validate_bound : String → Option Text → KelvinResult (Unit {0})
  validate_bound label none = ok tt
  validate_bound label (some value) = validate_semver label value

  unfoldable pub validate : PluginManifest → KelvinResult (Unit {0})
  validate m =
      validate_plugin_id m.id
      >> validate_plugin_name m.name
      >> validate_semver "plugin version" m.version
      >> validate_semver "api version" m.api_version
      >> validate_optional_text_field "plugin description" m.description max_plugin_description_len
      >> validate_homepage m.homepage
      >> validate_capabilities m.capabilities
      >> validate_bound "min core version" m.min_core_version
      >> validate_bound "max core version" m.max_core_version
