-- ===== src/Plugins/Indexed.antt =====
-- That the two indexes of `SdkModelProviderRegistry` of crates/kelvin-core/src/sdk.rs agree.
use mathlib.Core.Option.{some-injective, none-ne-some}
use kelvinclaw.Prelude.{
  ◌≡◌, inl, inr, refl, sym, ap, subst, ◌∙◌, Bool, Bool-cases, true, false, Option, none, some, List,
  [], ◌∷◌,
}
use kelvinclaw.Prelude.Text.{Text, text_eq, text_eq_iff, text_eq_refl}
use kelvinclaw.Prelude.Map.{lookup, insert, lookup-insert}
use kelvinclaw.Prelude.Sort.{sort_by}
use kelvinclaw.Prelude.Error.{
  KelvinResult, ok, then-ok, refuse_if-ok, ok-injective, bind-ok, ok_or, not_found, with_text,
  literal, ◌>>=◌,
}
use kelvinclaw.Plugins.Manifest.{PluginManifest, provides_model, declares}
use kelvinclaw.Plugins.Registry.{Traits, PluginFactory, InMemoryPluginRegistry, get, manifests}
use kelvinclaw.Plugins.Tools.{id_le}
use kelvinclaw.Plugins.Models.{
  SdkModelProviderRegistry, has_model, key_of, add_model, match_model, collect_models,
  from_plugin_registry, get_by_plugin_id, get_by_provider_model,
}

module _ (traits : Traits) where
  -- A model under the id of its plugin is under its own key, too.
  abbrev pub Indexed : SdkModelProviderRegistry traits → Type 0
  Indexed models =
      (id : Text) (m : traits.ModelProvider)
      → lookup id models.by_plugin_id ≡ some m
      → lookup (key_of traits m) models.by_provider_model ≡ some m

  abbrev pub with_model :
      Text
      → traits.ModelProvider
      → SdkModelProviderRegistry traits
      → SdkModelProviderRegistry traits
  with_model id model models = record {
    by_plugin_id = insert id model models.by_plugin_id;
    by_provider_model = insert (key_of traits model) model models.by_provider_model;
  }

  pub add_model-ok :
      (id : Text) (model : traits.ModelProvider) (models after : SdkModelProviderRegistry traits)
      → add_model traits id model models ≡ ok after
      → (has_model traits (lookup (key_of traits model) models.by_provider_model) ≡ false)
        × (with_model id model models ≡ after)
  unfolding add_model
  add_model-ok id model models after h =
      let last = then-ok _ _ after h in
      (refuse_if-ok _ _ (then-ok _ _ tt last.0).1, ok-injective last.1)

  none_of : (o : Option traits.ModelProvider) → has_model traits o ≡ false → o ≡ none
  none_of none h = refl
  none_of (some m) h = cc

  -- An entry of the second index stays where a key is added that was not there.
  keeps_entry :
      (key : Text) (model m : traits.ModelProvider) (entries : List (Text × traits.ModelProvider))
      → lookup key entries ≡ none
      → lookup (key_of traits m) entries ≡ some m
      → lookup (key_of traits m) (insert key model entries) ≡ some m
  keeps_entry key model m entries new old =
      rw (lookup-insert key (key_of traits m) model entries)
        (elim (Bool-cases (text_eq key (key_of traits m))) [
          | inl e ↦ absurd (
              none-ne-some m (
                sym new
                ∙ ap (λ k. lookup k entries) ((text_eq_iff key (key_of traits m)).0 e)
                ∙ old))
          | inr e ↦ rw e old
        ])

  new_entry :
      (model m : traits.ModelProvider) (entries : List (Text × traits.ModelProvider))
      → model ≡ m
      → lookup (key_of traits m) (insert (key_of traits model) model entries) ≡ some m
  new_entry model m entries e =
      subst (λ x. lookup (key_of traits x) (insert (key_of traits model) model entries) ≡ some x) e
        (rw (lookup-insert (key_of traits model) (key_of traits model) model entries)
          (rw (text_eq_refl (key_of traits model)) refl))

  with_model-Indexed :
      (id : Text) (model : traits.ModelProvider) (models : SdkModelProviderRegistry traits)
      → lookup (key_of traits model) models.by_provider_model ≡ none
      → Indexed models
      → Indexed (with_model id model models)
  with_model-Indexed id model models new h j m e = elim (Bool-cases (text_eq id j)) [
    | inl q ↦
        new_entry model m models.by_provider_model (some-injective model m (sym (at_key q) ∙ e))
    | inr q ↦
        keeps_entry (key_of traits model) model m models.by_provider_model new
          (h j m (sym (at_other q) ∙ e))
  ]
    where
      at_key : text_eq id j ≡ true → lookup j (insert id model models.by_plugin_id) ≡ some model
      at_key q = rw (lookup-insert id j model models.by_plugin_id) (rw q refl)

      at_other :
          text_eq id j ≡ false
          → lookup j (insert id model models.by_plugin_id) ≡ lookup j models.by_plugin_id
      at_other q = rw (lookup-insert id j model models.by_plugin_id) (rw q refl)

  match_model-Indexed :
      (id : Text) (declared : Bool) (provided : Option traits.ModelProvider)
      (models after : SdkModelProviderRegistry traits)
      → match_model traits id declared provided models ≡ ok after
      → Indexed models
      → Indexed after
  unfolding match_model
  match_model-Indexed id false none models after e h = subst Indexed (ok-injective e) h
  match_model-Indexed id false (some m) models after e h = cc
  match_model-Indexed id true none models after e h = cc
  match_model-Indexed id true (some m) models after e h =
      let p = add_model-ok id m models after e in
      subst Indexed p.1 (
        with_model-Indexed id m models
          (none_of (lookup (key_of traits m) models.by_provider_model) p.0) h)

  collect_models-Indexed :
      (registry : InMemoryPluginRegistry traits) (ms : List PluginManifest)
      (models after : SdkModelProviderRegistry traits)
      → collect_models traits registry ms models ≡ ok after
      → Indexed models
      → Indexed after
  unfolding collect_models
  collect_models-Indexed registry [] models after e h = subst Indexed (ok-injective e) h
  collect_models-Indexed registry (m ∷ ms) models after e h =
      let (plugin, q, turn) =
        bind-ok
          (ok_or (get traits m.id registry) (
            not_found
              (with_text (literal "plugin '{}' disappeared during model registry build") m.id)))
          (λ p. match p >>= λ a. collect_models traits registry ms a) after e in
      let (after_one, one, rest) =
        bind-ok (match plugin) (λ a. collect_models traits registry ms a) after turn in
      collect_models-Indexed registry ms after_one after rest (
        match_model-Indexed m.id (declares m.capabilities provides_model) plugin.model_provider
          models after_one one h)
    where
      match : PluginFactory traits → KelvinResult (SdkModelProviderRegistry traits)
      match p =
          match_model traits m.id (declares m.capabilities provides_model) p.model_provider models

  -- Where the model registry can be made, a model that is found under the id of its plugin is also
  -- found under its own provider and model names: no other plugin takes its place.
  pub from_plugin_registry-Indexed :
      (registry : InMemoryPluginRegistry traits) (models : SdkModelProviderRegistry traits)
      → from_plugin_registry traits registry ≡ ok models
      → (id : Text) (m : traits.ModelProvider) → get_by_plugin_id traits id models ≡ some m
      → get_by_provider_model traits (traits.provider_name m) (traits.model_name m) models ≡ some m
  unfolding from_plugin_registry get_by_plugin_id get_by_provider_model key_of lookup
  from_plugin_registry-Indexed registry models e =
      collect_models-Indexed registry (sort_by id_le (manifests traits registry))
        (record { by_plugin_id = []; by_provider_model = [] }) models e nothing
    where
      nothing : Indexed (record { by_plugin_id = []; by_provider_model = [] })
      nothing id m q = absurd (none-ne-some m q)
