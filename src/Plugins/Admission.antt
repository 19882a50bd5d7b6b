-- ===== src/Plugins/Admission.antt =====
-- Which plugins `check_plugin_compatibility` of crates/kelvin-core/src/sdk.rs lets pass.
mod Defs
pub use Defs.{IsPermitted, SameMajor, KeepsMinimum, KeepsMaximum, Admissible}
use mathlib.Core.Logic.Iff
use kelvinclaw.Prelude.{
  ◌≡◌, ◌≢◌, ◌↔◌, ◌⊎◌, inl, inr, refl, sym, ap, ◌∙◌, arith, Bool, Bool-cases, true, false, not, ◌&&◌,
  Option, none, some, List, [], ◌∷◌, ◌++◌, String, ◌==◌, if◌then◌else◌, ℕ,
}
use kelvinclaw.Prelude.Text.{Text}
use kelvinclaw.Prelude.Error.{
  Message, KelvinError, KelvinResult, ok, err, to_message, literal, with_text,
}
use kelvinclaw.Plugins.Manifest.{
  PluginCapability, fs_read, fs_write, network_egress, command_execution, declares, PluginManifest,
  Semver, validate, kelvin_core_api_version,
}
use kelvinclaw.Plugins.Compatibility.{
  PluginSecurityPolicy, PluginCompatibilityReport, push_if, denied, policy_reasons, report_of,
  failure, api_mismatch, out_of_bound, invalid_bound, below_minimum, above_maximum, reasons_against,
  check_plugin_compatibility,
}
use kelvinclaw.Plugins.WellFormed.{WellFormed, validate_iff}

append-nil :
    {P Q : Type 0} (xs ys : List Message)
    → (xs ≡ []) ↔ P
    → (ys ≡ []) ↔ Q
    → (xs ++ ys ≡ []) ↔ (P × Q)
append-nil [] ys p q = (λ h. (p.0 refl, q.0 h), λ h. q.1 h.1)
append-nil (x ∷ xs) ys p q = (λ h. cc, λ h. absurd (cons_nil_not (p.1 h.0)))
  where
    cons_nil_not : ¬ (x ∷ xs ≡ [])
    cons_nil_not h = cc

push_if-nil : (b : Bool) (m : Message) → (push_if b m ≡ []) ↔ (b ≡ false)
push_if-nil true m = (λ h. cc, λ h. cc)
push_if-nil false m = (λ h. refl, λ h. refl)

unless_iff : (a b : Bool) → ((a && not b) ≡ false) ↔ (a ≡ true → b ≡ true)
unless_iff true b = (λ h q. ground arith, λ h. ground (arith, h refl))
unless_iff false b = (λ h q. cc, λ h. refl)

push_unless-nil : (a b : Bool) (m : Message) → (push_if (a && not b) m ≡ []) ↔ (a ≡ true → b ≡ true)
push_unless-nil a b m = Iff.trans (push_if-nil (a && not b) m) (unless_iff a b)

policy_reasons-nil :
    (manifest : PluginManifest) (policy : PluginSecurityPolicy)
    → (policy_reasons manifest policy ≡ []) ↔ IsPermitted manifest policy
unfolding policy_reasons
policy_reasons-nil manifest policy =
    Iff.trans
      (append-nil _ _
        (append-nil _ _
          (append-nil _ _
            (append-nil _ _ (push_unless-nil manifest.experimental policy.allow_experimental _)
              (push_unless-nil (declares manifest.capabilities fs_read) policy.allow_fs_read _))
            (push_unless-nil (declares manifest.capabilities network_egress)
              policy.allow_network_egress _))
          (push_unless-nil (declares manifest.capabilities fs_write) policy.allow_fs_write _))
        (push_unless-nil (declares manifest.capabilities command_execution)
          policy.allow_command_execution _))
      (λ h. (h.0.0.0.0, h.0.0.0.1, h.0.0.1, h.0.1, h.1), λ h. ((((h.0, h.1), h.2), h.3), h.4))

report_of-compatible : (ms : List Message) → ((report_of ms).compatible ≡ true) ↔ (ms ≡ [])
report_of-compatible [] = (λ h. refl, λ h. refl)
report_of-compatible (m ∷ ms) = (λ h. cc, λ h. cc)

inr_injective : {V : Type 0} {v w : V} → ◌≡◌ {A = Message ⊎ V} (inr v) (inr w) → v ≡ w
inr_injective {V} {v} e = ap version_or e
  where
    version_or : Message ⊎ V → V
    version_or (inl m) = v
    version_or (inr u) = u

eq_iff : (a b : ℕ) → (not (a == b) ≡ false) ↔ (a ≡ b)
eq_iff a b = ground arith

module _ (semver : Semver) where
  api_mismatch-nil :
      (a b : Text)
      → (api_mismatch semver (semver.parse a) (semver.parse b) ≡ []) ↔ SameMajor semver a b
  api_mismatch-nil a b = go (semver.parse a) (semver.parse b)
    where
      go :
          (x y : Message ⊎ semver.Version)
          → (api_mismatch semver x y ≡ [])
            ↔ ((v w : semver.Version) → x ≡ inr v → y ≡ inr w → semver.major v ≡ semver.major w)
      go (inr v) (inr w) =
          let i =
            Iff.trans (push_if-nil (not (semver.major v == semver.major w)) _)
              (eq_iff (semver.major v) (semver.major w)) in
          (
            λ h v' w' p q.
                sym (ap semver.major (inr_injective p)) ∙ i.0 h ∙ ap semver.major (inr_injective q),
            λ h. i.1 (h v w refl refl),
          )
      go (inr v) (inl e) = (λ h v w p q. cc, λ h. refl)
      go (inl e) y = (λ h v w p q. cc, λ h. refl)

  below_minimum-nil :
      (core : semver.Version) (o : Option Text)
      → (below_minimum semver core o ≡ []) ↔ KeepsMinimum semver core o
  unfolding below_minimum
  below_minimum-nil core none = (λ h. tt, λ h. refl)
  below_minimum-nil core (some min) = go (semver.parse min)
    where
      go :
          (x : Message ⊎ semver.Version)
          → ((elim x as (λ _. List Message) [
            | inr v ↦
                push_if
                  (semver.is_below core v)
                  (out_of_bound semver "core version {} is lower than required minimum {}" core v)
            | inl e ↦ invalid_bound semver "invalid min_core_version '{min}': {err}" min e ∷ []
          ])
              ≡ [])
            ↔ ((v : semver.Version) × (x ≡ inr v) × (semver.is_below core v ≡ false))
      go (inr v) =
          let i =
            push_if-nil (semver.is_below core v)
              (out_of_bound semver "core version {} is lower than required minimum {}" core v) in
          (λ h. (v, refl, i.0 h), λ h. i.1 (ap (semver.is_below core) (inr_injective h.1) ∙ h.2))
      go (inl e) = (λ h. cc, λ h. cc)

  above_maximum-nil :
      (core : semver.Version) (o : Option Text)
      → (above_maximum semver core o ≡ []) ↔ KeepsMaximum semver core o
  unfolding above_maximum
  above_maximum-nil core none = (λ h. tt, λ h. refl)
  above_maximum-nil core (some max) = go (semver.parse max)
    where
      go :
          (x : Message ⊎ semver.Version)
          → ((elim x as (λ _. List Message) [
            | inr v ↦
                push_if
                  (semver.is_below v core)
                  (out_of_bound semver "core version {} exceeds plugin maximum {}" core v)
            | inl e ↦ invalid_bound semver "invalid max_core_version '{max}': {err}" max e ∷ []
          ])
              ≡ [])
            ↔ ((v : semver.Version) × (x ≡ inr v) × (semver.is_below v core ≡ false))
      go (inr v) =
          let i =
            push_if-nil (semver.is_below v core)
              (out_of_bound semver "core version {} exceeds plugin maximum {}" core v) in
          (
            λ h. (v, refl, i.0 h),
            λ h. i.1 (ap (λ u. semver.is_below u core) (inr_injective h.1) ∙ h.2),
          )
      go (inl e) = (λ h. cc, λ h. cc)

  reasons_against-nil :
      (manifest : PluginManifest) (core : semver.Version) (policy : PluginSecurityPolicy)
      → (reasons_against semver manifest core policy ≡ []) ↔ (
          SameMajor semver manifest.api_version kelvin_core_api_version
          × KeepsMinimum semver core manifest.min_core_version
          × KeepsMaximum semver core manifest.max_core_version
          × IsPermitted manifest policy)
  unfolding reasons_against
  reasons_against-nil manifest core policy =
      Iff.trans
        (append-nil _ _
          (append-nil _ _
            (append-nil _ _ (api_mismatch-nil manifest.api_version kelvin_core_api_version)
              (below_minimum-nil core manifest.min_core_version))
            (above_maximum-nil core manifest.max_core_version))
          (policy_reasons-nil manifest policy))
        (λ h. (h.0.0.0, h.0.0.1, h.0.1, h.1), λ h. (((h.0, h.1), h.2), h.3))

  check-cases :
      (manifest : PluginManifest) (core_version : Text) (policy : PluginSecurityPolicy)
      → ((check_plugin_compatibility semver manifest core_version policy).compatible ≡ true) ↔ (
          (validate semver manifest ≡ ok tt)
          × (core : semver.Version) × (semver.parse core_version ≡ inr core)
          × (reasons_against semver manifest core policy ≡ []))
  unfolding check_plugin_compatibility
  check-cases manifest core_version policy =
      go (validate semver manifest) (semver.parse core_version)
    where
      go :
          (r : KelvinResult (Unit {0})) (x : Message ⊎ semver.Version)
          → ((elim r as (λ _. PluginCompatibilityReport) [
            | err e ↦ failure (to_message e)
            | ok _ ↦ elim x as (λ _. PluginCompatibilityReport) [
              | inl e ↦
                  failure (with_text (literal "invalid core version: {core_version}") core_version)
              | inr core ↦ report_of (reasons_against semver manifest core policy)
            ]
          ]).compatible
              ≡ true)
            ↔ ((r ≡ ok tt)
                × (core : semver.Version) × (x ≡ inr core)
                × (reasons_against semver manifest core policy ≡ []))
      go (err e) x = (λ h. cc, λ h. cc)
      go (ok tt) (inl e) = (λ h. cc, λ h. cc)
      go (ok tt) (inr core) =
          let i = report_of-compatible (reasons_against semver manifest core policy) in
          (
            λ h. (refl, core, refl, i.0 h),
            λ h. i.1 (ap (λ c. reasons_against semver manifest c policy) (inr_injective h.2) ∙ h.3),
          )

  pub compatible_iff :
      (manifest : PluginManifest) (core_version : Text) (policy : PluginSecurityPolicy)
      → ((check_plugin_compatibility semver manifest core_version policy).compatible ≡ true)
        ↔ Admissible semver manifest core_version policy
  compatible_iff manifest core_version policy =
      let i = check-cases manifest core_version policy in
      (
        λ h.
            let q = i.0 h in
            let against = (reasons_against-nil manifest q.1 policy).0 q.3 in
            record {
              well_formed = (validate_iff semver manifest).0 q.0;
              core = q.1;
              core_parses = q.2;
              same_major = against.0;
              minimum = against.1;
              maximum = against.2;
              permitted = against.3;
            },
        λ h. i.1 (
          (validate_iff semver manifest).1 h.well_formed,
          h.core,
          h.core_parses,
          (reasons_against-nil manifest h.core policy).1
              (h.same_major, h.minimum, h.maximum, h.permitted),
        ),
      )
