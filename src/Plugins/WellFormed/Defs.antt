-- ===== src/Plugins/WellFormed/Defs.antt =====
-- What the validation in crates/kelvin-core/src/sdk.rs asks of a manifest.
use kelvinclaw.Prelude.{
  ℕ, ◌≤◌, ◌≡◌, ◌≢◌, ◌⊎◌, inr, true, false, ◌||◌, Option, none, some, [], length, All,
}
use kelvinclaw.Prelude.Text.{Text, lit, trim, is_whitespace}
use kelvinclaw.Prelude.Distinct.{IsDistinct}
use kelvinclaw.Plugins.Manifest.{same_capability, PluginManifest, Semver, starts_with}

abbrev pub Between : ℕ → ℕ → ℕ → Type 0
Between a b c = (a ≤ c) × (c ≤ b)

-- A digit or a letter of ASCII.
abbrev pub Alphanumeric : ℕ → Type 0
Alphanumeric c = Between 48 57 c ⊎ (Between 65 90 c ⊎ Between 97 122 c)

-- Such a character, an underscore, a dash or a dot.
abbrev pub IdCharacter : ℕ → Type 0
IdCharacter c = Alphanumeric c ⊎ ((c ≡ 95) ⊎ ((c ≡ 45) ⊎ (c ≡ 46)))

-- Not a control character.
abbrev pub Printable : ℕ → Type 0
Printable c = (32 ≤ c) × ((c ≤ 126) ⊎ (160 ≤ c))

abbrev pub Solid : ℕ → Type 0
Solid c = Printable c × (is_whitespace c ≡ false)

-- A text, trimmed, that is there, is not too long and has only such characters.
abbrev pub IsClean : ℕ → (ℕ → Type 0) → Text → Type 0
IsClean max_len P value = (trim value ≢ []) × (length (trim value) ≤ max_len) × All P (trim value)

abbrev pub IsPluginId : Text → Type 0
IsPluginId value = IsClean 128 Printable value × All IdCharacter (trim value)

abbrev pub IsHomepage : Text → Type 0
IsHomepage value =
    IsClean 2048 Solid value
    × ((starts_with (trim value) (lit "https://") || starts_with (trim value) (lit "http://"))
        ≡ true)

-- A predicate on a text that may be missing.
abbrev pub WherePresent : (Text → Type 0) → Option Text → Type 0
WherePresent P none = Unit
WherePresent P (some value) = P value

abbrev pub IsSemver : Semver → Text → Type 0
IsSemver semver value = (trim value ≢ []) × (v : semver.Version) × (semver.parse value ≡ inr v)

pub record WellFormed (semver : Semver) (m : PluginManifest) : Type 0 where
  pub id : IsPluginId m.id
  pub name : IsClean 128 Printable m.name
  pub version : IsSemver semver m.version
  pub api_version : IsSemver semver m.api_version
  pub description : WherePresent (IsClean 4096 Printable) m.description
  pub homepage : WherePresent IsHomepage m.homepage
  pub few_capabilities : length m.capabilities ≤ 32
  pub distinct_capabilities : IsDistinct same_capability m.capabilities
  pub min_core_version : WherePresent (IsSemver semver) m.min_core_version
  pub max_core_version : WherePresent (IsSemver semver) m.max_core_version
