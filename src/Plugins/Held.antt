-- ===== src/Plugins/Held.antt =====
-- What the plugin registry of crates/kelvin-core/src/sdk.rs holds after any registrations.
use mathlib.Core.Option.{some-injective, none-ne-some}
use kelvinclaw.Prelude.{
  ◌≡◌, ◌⊎◌, inl, inr, refl, sym, subst, ◌∙◌, Bool-cases, Option-cases, true, false, some, List, [],
  ◌∷◌,
}
use kelvinclaw.Prelude.Text.{Text, text_eq, text_eq_iff}
use kelvinclaw.Prelude.Map.{lookup, insert, lookup-insert}
use kelvinclaw.Prelude.Error.{KelvinResult, ok, err}
use kelvinclaw.Plugins.Manifest.{Semver}
use kelvinclaw.Plugins.Compatibility.{PluginSecurityPolicy, check_plugin_compatibility}
use kelvinclaw.Plugins.Registry.{Traits, PluginFactory, InMemoryPluginRegistry, register, get}
use kelvinclaw.Plugins.Admission.{Admissible, compatible_iff}

module _ (semver : Semver) (traits : Traits) (core_version : Text)
    (policy : PluginSecurityPolicy) where
  -- The plugin is kept under its own id and passes the tests of the core and the policy.
  abbrev pub IsHeld : Text → PluginFactory traits → Type 0
  IsHeld id p = (p.manifest.id ≡ id) × Admissible semver p.manifest core_version policy

  -- Every plugin that `get` finds.
  abbrev pub HoldsAdmissible : InMemoryPluginRegistry traits → Type 0
  HoldsAdmissible plugins =
      (id : Text) (p : PluginFactory traits) → get traits id plugins ≡ some p → IsHeld id p

  -- Whether a registration succeeds or not, the registry goes on with what it then holds.
  abbrev pub after_register :
      InMemoryPluginRegistry traits
      → KelvinResult (InMemoryPluginRegistry traits)
      → InMemoryPluginRegistry traits
  after_register plugins (ok after) = after
  after_register plugins (err e) = plugins

  unfoldable pub registrations :
      List (PluginFactory traits) → InMemoryPluginRegistry traits → InMemoryPluginRegistry traits
  registrations [] plugins = plugins
  registrations (p ∷ ps) plugins =
      registrations ps
        (after_register plugins (register traits semver p core_version policy plugins))

  register-cases :
      (p : PluginFactory traits) (plugins : InMemoryPluginRegistry traits)
      → (after_register plugins (register traits semver p core_version policy plugins) ≡ plugins)
        ⊎ (((check_plugin_compatibility semver p.manifest core_version policy).compatible ≡ true)
            × (after_register plugins (register traits semver p core_version policy plugins)
                ≡ insert p.manifest.id p plugins))
  unfolding register
  register-cases p plugins =
      elim (Bool-cases
        (check_plugin_compatibility semver p.manifest core_version policy).compatible) [
          | inr e ↦ inl (rw (e, register) refl)
          | inl e ↦ elim (Option-cases (lookup p.manifest.id plugins)) [
            | inr f ↦ inl (rw (e, f.1, register) refl)
            | inl f ↦ inr (e, rw (e, f, register) refl)
          ]
        ]

  insert-HoldsAdmissible :
      (p : PluginFactory traits) (plugins : InMemoryPluginRegistry traits)
      → Admissible semver p.manifest core_version policy
      → HoldsAdmissible plugins
      → HoldsAdmissible (insert p.manifest.id p plugins)
  unfolding get
  insert-HoldsAdmissible p plugins a h id q e = elim (Bool-cases (text_eq p.manifest.id id)) [
    | inl f ↦
        subst (IsHeld id) (some-injective p q (sym (at_key f) ∙ e))
          ((text_eq_iff p.manifest.id id).0 f, a)
    | inr f ↦ h id q (sym (at_other f) ∙ e)
  ]
    where
      at_key : text_eq p.manifest.id id ≡ true → lookup id (insert p.manifest.id p plugins) ≡ some p
      at_key f = rw (lookup-insert p.manifest.id id p plugins) (rw f refl)

      at_other :
          text_eq p.manifest.id id ≡ false
          → lookup id (insert p.manifest.id p plugins) ≡ lookup id plugins
      at_other f = rw (lookup-insert p.manifest.id id p plugins) (rw f refl)

  register-HoldsAdmissible :
      (p : PluginFactory traits) (plugins : InMemoryPluginRegistry traits)
      → HoldsAdmissible plugins
      → HoldsAdmissible
          (after_register plugins (register traits semver p core_version policy plugins))
  register-HoldsAdmissible p plugins h = elim (register-cases p plugins) [
    | inl e ↦ subst HoldsAdmissible (sym e) h
    | inr e ↦ subst HoldsAdmissible (sym e.1) (
        insert-HoldsAdmissible p plugins
          ((compatible_iff semver p.manifest core_version policy).0 e.0) h)
  ]

  registrations-keep :
      (ps : List (PluginFactory traits)) (plugins : InMemoryPluginRegistry traits)
      → HoldsAdmissible plugins
      → HoldsAdmissible (registrations ps plugins)
  unfolding registrations
  registrations-keep [] plugins h = h
  registrations-keep (p ∷ ps) plugins h =
      registrations-keep ps
        (after_register plugins (register traits semver p core_version policy plugins))
        (register-HoldsAdmissible p plugins h)

  -- Whatever plugins were offered for registration, with one core version and one policy, each
  -- plugin that the registry then finds has the id under which it is found, a well-formed manifest
  -- and versions that suit the core, and asks for nothing that the policy does not allow.
  pub registrations-HoldsAdmissible :
      (ps : List (PluginFactory traits)) → HoldsAdmissible (registrations ps [])
  unfolding get lookup
  registrations-HoldsAdmissible ps = registrations-keep ps [] nothing_held
    where
      nothing_held : HoldsAdmissible []
      nothing_held id p e = absurd (none-ne-some p e)
