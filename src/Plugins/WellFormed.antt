-- ===== src/Plugins/WellFormed.antt =====
-- What a valid manifest is, without the order of the tests of `validate`.
mod Defs
mod Repeats
pub use Defs.{
  Alphanumeric, IdCharacter, Printable, Solid, IsClean, IsPluginId, IsHomepage, WherePresent,
  IsSemver, WellFormed,
}
use Repeats.{has_key, Fresh, IsFresh, Fresh-IsFresh}
use mathlib.Core.Logic.Iff
use kelvinclaw.Prelude.{
  ℕ, ◌≤◌, ◌≡◌, ◌≢◌, ◌↔◌, ◌⊎◌, inl, inr, refl, sym, ap, ◌∙◌, arith, Bool, Bool-cases, true, false,
  not, ◌&&◌, ◌||◌, Option, none, some, List, [], ◌∷◌, String, length, ltb, ◌==◌, if◌then◌else◌, any,
  all, All,
}
use kelvinclaw.Prelude.Text.{Text, lit, trim, is_empty, is_control, is_whitespace}
use kelvinclaw.Prelude.Distinct.{IsDistinct}
use kelvinclaw.Prelude.Error.{
  Message, KelvinError, KelvinResult, ok, err, invalid_input, literal, with_text, with_message,
  refuse_if, ◌>>=◌, ◌>>◌,
}
use kelvinclaw.Plugins.Manifest.{
  PluginCapability, same_capability, declares, capability_rank, PluginManifest, Semver,
  max_plugin_id_len, max_plugin_name_len, max_plugin_description_len, max_plugin_homepage_len,
  max_plugin_capabilities, validate_cleaned, is_id_char, is_ascii_alphanumeric, validate_plugin_id,
  validate_plugin_name, validate_optional_text_field, starts_with, validate_homepage,
  refuse_repeated, validate_capabilities, preview, display_preview_max_len, validate_semver,
  validate_bound, validate,
}

-- Whether a test passed.
abbrev pub Passes : KelvinResult (Unit {0}) → Type 0
Passes m = m ≡ ok tt

-- Two tests in a row pass if both do.
pub Passes-then :
    {P Q : Type 0} (m k : KelvinResult (Unit {0}))
    → Passes m ↔ P
    → Passes k ↔ Q
    → Passes (m >> k) ↔ (P × Q)
Passes-then (ok tt) k p q = (λ h. (p.0 refl, q.0 h), λ h. q.1 h.1)
Passes-then (err e) k p q = (λ h. cc, λ h. absurd (err_passes_not (p.1 h.0)))
  where
    err_passes_not : ¬ Passes (err e)
    err_passes_not h = cc

Passes-refuse_if :
    {P : Type 0} (b : Bool) (e : KelvinError) → (b ≡ false) ↔ P → Passes (refuse_if b e) ↔ P
Passes-refuse_if true e p = (λ h. cc, λ h. absurd (true_not_false (p.1 h)))
  where
    true_not_false : ¬ (true ≡ false)
    true_not_false h = cc
Passes-refuse_if false e p = (λ h. p.0 refl, λ h. refl)

same : {A : Type 0} → A ↔ A
same = (λ h. h, λ h. h)

not_iff : (b : Bool) → (not b ≡ false) ↔ (b ≡ true)
not_iff true = ground arith
not_iff false = ground arith

is_empty_iff : (s : Text) → (is_empty s ≡ false) ↔ (s ≢ [])
unfolding is_empty
is_empty_iff [] = (λ h. cc, λ h. absurd (h refl))
is_empty_iff (c ∷ s) = (λ h q. cc, λ h. refl)

ltb_iff : (a b : ℕ) → (ltb a b ≡ false) ↔ (b ≤ a)
ltb_iff a b = ground arith

any-All :
    {P : ℕ → Type 0} (f : ℕ → Bool)
    → ((c : ℕ) → (f c ≡ false) ↔ P c)
    → (t : Text) → (any f t ≡ false) ↔ All P t
unfolding any
any-All f h [] = (λ q. tt, λ q. refl)
any-All {P} f h (c ∷ t) = (
  λ q. ((h c).0 (ground (arith, q)), (any-All f h t).0 (ground (arith, q))),
  λ q. let a = (h c).1 q.0 in let b = (any-All {P = P} f h t).1 q.1 in ground (arith, a, b),
)

all-All :
    {P : ℕ → Type 0} (f : ℕ → Bool)
    → ((c : ℕ) → (f c ≡ true) ↔ P c)
    → (t : Text) → (all f t ≡ true) ↔ All P t
unfolding all
all-All f h [] = (λ q. tt, λ q. refl)
all-All {P} f h (c ∷ t) = (
  λ q. ((h c).0 (ground (arith, q)), (all-All f h t).0 (ground (arith, q))),
  λ q. let a = (h c).1 q.0 in let b = (all-All {P = P} f h t).1 q.1 in ground (arith, a, b),
)

is_control_iff : (c : ℕ) → (is_control c ≡ false) ↔ Printable c
unfolding is_control
is_control_iff c = ground arith

is_Solid_iff : (c : ℕ) → (is_control c || is_whitespace c ≡ false) ↔ Solid c
is_Solid_iff c =
    let i = is_control_iff c in
    (
      λ q. (i.0 (ground (arith, q)), ground (arith, q)),
      λ q. let a = i.1 q.0 in let b = q.1 in ground (arith, a, b),
    )

is_id_char_iff : (c : ℕ) → (is_id_char c ≡ true) ↔ IdCharacter c
unfolding is_id_char is_ascii_alphanumeric
is_id_char_iff c = ground arith

validate_cleaned_iff :
    {P : ℕ → Type 0} (value : Text) (empty : Message) (max_len : ℕ) (long : Message)
    (refused : ℕ → Bool) (characters : Message)
    → ((c : ℕ) → (refused c ≡ false) ↔ P c)
    → Passes (validate_cleaned (trim value) empty max_len long refused characters)
      ↔ IsClean max_len P value
unfolding validate_cleaned
validate_cleaned_iff value empty max_len long refused characters each =
    let i =
      Passes-then
        (refuse_if (is_empty (trim value)) (invalid_input empty)
          >> refuse_if (ltb max_len (length (trim value))) (invalid_input long))
        (refuse_if (any refused (trim value)) (invalid_input characters))
        (Passes-then (refuse_if (is_empty (trim value)) (invalid_input empty))
          (refuse_if (ltb max_len (length (trim value))) (invalid_input long))
          (Passes-refuse_if (is_empty (trim value)) (invalid_input empty)
            (is_empty_iff (trim value)))
          (Passes-refuse_if (ltb max_len (length (trim value))) (invalid_input long)
            (ltb_iff max_len (length (trim value)))))
        (Passes-refuse_if (any refused (trim value)) (invalid_input characters)
          (any-All refused each (trim value))) in
    (λ h. let q = i.0 h in (q.0.0, q.0.1, q.1), λ h. i.1 ((h.0, h.1), h.2))

validate_plugin_id_iff : (value : Text) → Passes (validate_plugin_id value) ↔ IsPluginId value
unfolding validate_plugin_id
validate_plugin_id_iff value =
    Passes-then _ _ (validate_cleaned_iff value _ max_plugin_id_len _ is_control _ is_control_iff) (
      Passes-refuse_if (not (all is_id_char (trim value))) _ (
        Iff.trans (not_iff (all is_id_char (trim value)))
          (all-All is_id_char is_id_char_iff (trim value))))

validate_plugin_name_iff :
    (value : Text) → Passes (validate_plugin_name value) ↔ IsClean 128 Printable value
unfolding validate_plugin_name
validate_plugin_name_iff value =
    validate_cleaned_iff value _ max_plugin_name_len _ is_control _ is_control_iff

validate_optional_text_field_iff :
    (label : String) (value : Option Text) (max_len : ℕ)
    → Passes (validate_optional_text_field label value max_len)
      ↔ WherePresent (IsClean max_len Printable) value
unfolding validate_optional_text_field
validate_optional_text_field_iff label none max_len = (λ h. tt, λ h. refl)
validate_optional_text_field_iff label (some raw) max_len =
    validate_cleaned_iff raw _ max_len _ is_control _ is_control_iff

validate_homepage_iff :
    (value : Option Text) → Passes (validate_homepage value) ↔ WherePresent IsHomepage value
unfolding validate_homepage
validate_homepage_iff none = (λ h. tt, λ h. refl)
validate_homepage_iff (some raw) =
    Passes-then _ _
      (validate_cleaned_iff raw _ max_plugin_homepage_len _
        (λ ch. is_control ch || is_whitespace ch) _ is_Solid_iff)
      (Passes-refuse_if _ _ (
        not_iff
          (starts_with (trim raw) (lit "https://") || starts_with (trim raw) (lit "http://"))))

refuse_repeated_iff :
    (seen capabilities : List PluginCapability)
    → Passes (refuse_repeated seen capabilities) ↔ Fresh capability_rank seen capabilities
unfolding refuse_repeated declares
refuse_repeated_iff seen [] = (λ h. tt, λ h. refl)
refuse_repeated_iff seen (c ∷ cs) =
    Passes-then _ _ (Passes-refuse_if (declares seen c) _ same) (refuse_repeated_iff (c ∷ seen) cs)

validate_capabilities_iff :
    (cs : List PluginCapability)
    → Passes (validate_capabilities cs)
      ↔ ((length cs ≤ max_plugin_capabilities) × IsDistinct same_capability cs)
unfolding validate_capabilities any
validate_capabilities_iff cs =
    Passes-then _ _
      (Passes-refuse_if (ltb max_plugin_capabilities (length cs)) _
        (ltb_iff max_plugin_capabilities (length cs)))
      (Iff.trans (refuse_repeated_iff [] cs) (
        Iff.trans (Fresh-IsFresh capability_rank [] cs)
          (λ h. h.0, λ h. (h, λ c q. absurd (none_seen c q)))))
  where
    none_seen : (c : PluginCapability) → ¬ (has_key capability_rank [] c ≡ true)
    none_seen c q = cc

module _ (semver : Semver) where
  validate_semver_iff :
      (label : String) (value : Text)
      → Passes (validate_semver semver label value) ↔ IsSemver semver value
  unfolding validate_semver
  validate_semver_iff label value =
      let i =
        Passes-then {Q = (v : semver.Version) × (semver.parse value ≡ inr v)} _ _
          (Passes-refuse_if (is_empty (trim value)) _ (is_empty_iff (trim value)))
          (go (semver.parse value)) in
      (λ h. let q = i.0 h in (q.0, q.1.0, q.1.1), λ h. i.1 (h.0, (h.1, h.2)))
    where
      go :
          (r : Message ⊎ semver.Version)
          → Passes (elim r [
            | inr version ↦ ok tt
            | inl e ↦ err (
                invalid_input (
                  with_message
                    (with_text
                      (with_message
                        (literal "{label} must be valid semver, got '{shown}': {err}")
                        (literal label))
                      (preview value display_preview_max_len))
                    e))
          ])
            ↔ ((v : semver.Version) × (r ≡ inr v))
      go (inr v) = (λ h. (v, refl), λ h. refl)
      go (inl e) = (λ h. cc, λ h. cc)

  validate_bound_iff :
      (label : String) (value : Option Text)
      → Passes (validate_bound semver label value) ↔ WherePresent (IsSemver semver) value
  validate_bound_iff label none = (λ h. tt, λ h. refl)
  validate_bound_iff label (some value) = validate_semver_iff label value

  pub validate_iff : (m : PluginManifest) → (validate semver m ≡ ok tt) ↔ WellFormed semver m
  unfolding validate
  validate_iff m =
      let i =
        Passes-then _ _
          (Passes-then _ _
            (Passes-then _ _
              (Passes-then _ _
                (Passes-then _ _
                  (Passes-then _ _
                    (Passes-then _ _
                      (Passes-then _ _ (validate_plugin_id_iff m.id)
                        (validate_plugin_name_iff m.name))
                      (validate_semver_iff "plugin version" m.version))
                    (validate_semver_iff "api version" m.api_version))
                  (validate_optional_text_field_iff "plugin description" m.description
                    max_plugin_description_len))
                (validate_homepage_iff m.homepage))
              (validate_capabilities_iff m.capabilities))
            (validate_bound_iff "min core version" m.min_core_version))
          (validate_bound_iff "max core version" m.max_core_version) in
      (
        λ h.
            let ((((((((id, name), version), api), description), homepage), caps), least), most) =
              i.0 h in
            record {
              id = id;
              name = name;
              version = version;
              api_version = api;
              description = description;
              homepage = homepage;
              few_capabilities = caps.0;
              distinct_capabilities = caps.1;
              min_core_version = least;
              max_core_version = most;
            },
        λ h. i.1 (
          (
            (
              (((((h.id, h.name), h.version), h.api_version), h.description), h.homepage),
              (h.few_capabilities, h.distinct_capabilities),
            ),
            h.min_core_version,
          ),
          h.max_core_version,
        ),
      )
