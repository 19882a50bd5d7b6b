-- ===== src/Plugins/Offered.antt =====
-- Which models `SdkModelProviderRegistry` of crates/kelvin-core/src/sdk.rs finds.
use mathlib.Core.Option.{some-injective, none-ne-some}
use kelvinclaw.Prelude.{
  ◌≡◌, ◌↔◌, ◌⊎◌, inl, inr, refl, sym, ap, subst, ◌∙◌, Bool, Bool-cases, true, false, Option, none,
  some, List, [], ◌∷◌,
}
use kelvinclaw.Prelude.Text.{Text, text_eq, text_eq_iff}
use kelvinclaw.Prelude.Map.{lookup, insert, lookup-insert}
use kelvinclaw.Prelude.Sort.{sort_by}
use kelvinclaw.Prelude.Error.{
  KelvinResult, ok, ok-injective, bind-ok, ok_or, ok_or-ok, not_found, with_text, literal, ◌>>=◌,
}
use kelvinclaw.Plugins.Manifest.{PluginManifest, provides_model, declares}
use kelvinclaw.Plugins.Registry.{Traits, PluginFactory, InMemoryPluginRegistry, get, manifests}
use kelvinclaw.Plugins.Tools.{id_le}
use kelvinclaw.Plugins.Models.{
  SdkModelProviderRegistry, key_of, match_model, collect_models, from_plugin_registry,
  get_by_plugin_id, get_by_provider_model,
}
use kelvinclaw.Plugins.Exposed.{SomeOf, SomeOf-sort_by}
use kelvinclaw.Plugins.Indexed.{with_model, add_model-ok, from_plugin_registry-Indexed}

module _ (traits : Traits) (registry : InMemoryPluginRegistry traits) where
  -- The plugin of this manifest has the id, declares that it provides a model and provides this one.
  abbrev pub Offers : Text → traits.ModelProvider → PluginManifest → Type 0
  Offers id model manifest =
      (plugin : PluginFactory traits) × (get traits manifest.id registry ≡ some plugin)
      × (declares manifest.capabilities provides_model ≡ true)
      × (plugin.model_provider ≡ some model)
      × (manifest.id ≡ id)

  -- The model under an id is the one that the plugin with the id provides.
  abbrev IsOwn : SdkModelProviderRegistry traits → Type 0
  IsOwn models =
      (id : Text) (m : traits.ModelProvider)
      → lookup id models.by_plugin_id ≡ some m
      → (plugin : PluginFactory traits) × (get traits id registry ≡ some plugin)
        × (plugin.model_provider ≡ some m)

  -- A model under a key is under the id of a plugin, too.
  abbrev IsBacked : SdkModelProviderRegistry traits → Type 0
  IsBacked models =
      (key : Text) (m : traits.ModelProvider)
      → lookup key models.by_provider_model ≡ some m
      → (id : Text) × (lookup id models.by_plugin_id ≡ some m)

  -- Two models of the plugin with an id are the same.
  same_model :
      (id : Text) (p q : PluginFactory traits) (a b : traits.ModelProvider)
      → get traits id registry ≡ some p
      → p.model_provider ≡ some a
      → get traits id registry ≡ some q
      → q.model_provider ≡ some b
      → a ≡ b
  same_model id p q a b gp pa gq qb = some-injective a b (
      sym pa
      ∙ ap (λ (x : PluginFactory traits). x.model_provider) (some-injective p q (sym gp ∙ gq))
      ∙ qb)

  -- What is found under an id after a model was added.
  with_model-lookup :
      (mid : Text) (plugin : PluginFactory traits) (model : traits.ModelProvider)
      (models : SdkModelProviderRegistry traits)
      → get traits mid registry ≡ some plugin
      → plugin.model_provider ≡ some model
      → IsOwn models
      → (id : Text) (t : traits.ModelProvider)
      → (lookup id (with_model traits mid model models).by_plugin_id ≡ some t)
        ↔ ((lookup id models.by_plugin_id ≡ some t) ⊎ ((model ≡ t) × (mid ≡ id)))
  with_model-lookup mid plugin model models at_mid provided own id t =
      elim (Bool-cases (text_eq mid id)) [
        | inl e ↦
            let same = (text_eq_iff mid id).0 e in
            let found : lookup id (insert mid model models.by_plugin_id) ≡ some model =
              rw (lookup-insert mid id model models.by_plugin_id) (rw e refl) in
            (
              λ q. inr (some-injective model t (sym found ∙ q), same),
              λ q. elim q [
                | inr r ↦ found ∙ ap some r.0
                | inl old ↦
                    let o = own id t old in
                    found
                    ∙ ap some (
                        same_model id plugin o.0 model t
                          (ap (λ k. get traits k registry) (sym same) ∙ at_mid) provided o.1 o.2)
              ],
            )
        | inr e ↦
            let found : lookup id (insert mid model models.by_plugin_id)
                ≡ lookup id models.by_plugin_id =
              rw (lookup-insert mid id model models.by_plugin_id) (rw e refl) in
            (
              λ q. inl (sym found ∙ q),
              λ q. elim q [
                | inl old ↦ found ∙ old
                | inr r ↦ absurd (differ e ((text_eq_iff mid id).1 r.1))
              ],
            )
      ]
    where
      differ : {b : Bool} → b ≡ false → ¬ (b ≡ true)
      differ {b} e f = true_is_false (sym f ∙ e)
        where
          true_is_false : ¬ (true ≡ false)
          true_is_false h = cc

  match_model-lookup :
      (mid : Text) (declared : Bool) (plugin : PluginFactory traits)
      (provided : Option traits.ModelProvider) (models after : SdkModelProviderRegistry traits)
      → get traits mid registry ≡ some plugin
      → plugin.model_provider ≡ provided
      → IsOwn models
      → match_model traits mid declared provided models ≡ ok after
      → (id : Text) (t : traits.ModelProvider)
      → (lookup id after.by_plugin_id ≡ some t) ↔ (
          (lookup id models.by_plugin_id ≡ some t)
          ⊎ ((declared ≡ true) × (provided ≡ some t) × (mid ≡ id)))
  unfolding match_model
  match_model-lookup mid false plugin none models after g p own h id t =
      rw (ok-injective h) (λ q. inl q, λ q. elim q [ inl l ↦ l | inr r ↦ cc ])
  match_model-lookup mid false plugin (some m) models after g p own h id t = cc
  match_model-lookup mid true plugin none models after g p own h id t = cc
  match_model-lookup mid true plugin (some m) models after g p own h id t =
      let a = add_model-ok traits mid m models after h in
      let i = with_model-lookup mid plugin m models g p own id t in
      rw (sym a.1) (
        λ q. elim (i.0 q) [ inl l ↦ inl l | inr r ↦ inr (refl, ap some r.0, r.1) ],
        λ q. i.1 (elim q [ inl l ↦ inl l | inr r ↦ inr (some-injective m t r.1, r.2) ]),
      )

  match_model-IsOwn :
      (mid : Text) (declared : Bool) (plugin : PluginFactory traits)
      (models after : SdkModelProviderRegistry traits)
      → get traits mid registry ≡ some plugin
      → IsOwn models
      → match_model traits mid declared plugin.model_provider models ≡ ok after
      → IsOwn after
  match_model-IsOwn mid declared plugin models after g own h id t q =
      elim ((match_model-lookup mid declared plugin plugin.model_provider models after g refl own h
          id t).0
        q) [
          | inl old ↦ own id t old
          | inr new ↦ (plugin, ap (λ k. get traits k registry) (sym new.2) ∙ g, new.1)
        ]

  -- A model under a key after one was added: one of before, or the new one.
  with_model-key :
      (mid : Text) (model : traits.ModelProvider) (models : SdkModelProviderRegistry traits)
      (key : Text) (t : traits.ModelProvider)
      → lookup key (with_model traits mid model models).by_provider_model ≡ some t
      → (lookup key models.by_provider_model ≡ some t) ⊎ (model ≡ t)
  with_model-key mid model models key t =
      rw (lookup-insert (key_of traits model) key model models.by_provider_model)
        (elim (Bool-cases (text_eq (key_of traits model) key)) [
          | inl e ↦ rw e (λ q. inr (some-injective model t q))
          | inr e ↦ rw e (λ q. inl q)
        ])

  match_model-IsBacked :
      (mid : Text) (declared : Bool) (plugin : PluginFactory traits)
      (provided : Option traits.ModelProvider) (models after : SdkModelProviderRegistry traits)
      → get traits mid registry ≡ some plugin
      → plugin.model_provider ≡ provided
      → IsOwn models
      → IsBacked models
      → match_model traits mid declared provided models ≡ ok after
      → IsBacked after
  unfolding match_model
  match_model-IsBacked mid false plugin none models after g p own b h =
      subst IsBacked (ok-injective h) b
  match_model-IsBacked mid false plugin (some m) models after g p own b h = cc
  match_model-IsBacked mid true plugin none models after g p own b h = cc
  match_model-IsBacked mid true plugin (some m) models after g p own b h =
      let a = add_model-ok traits mid m models after h in
      subst IsBacked a.1 (λ key t q. elim (with_model-key mid m models key t q) [
        | inl old ↦
            let under = b key t old in
            (under.0, (with_model-lookup mid plugin m models g p own under.0 t).1 (inl under.1))
        | inr same ↦
            (mid, (with_model-lookup mid plugin m models g p own mid t).1 (inr (same, refl)))
      ])

  -- The models found under ids after the loop, and that those under keys are among them.
  collect_models-lookup :
      (ms : List PluginManifest) (models after : SdkModelProviderRegistry traits)
      → collect_models traits registry ms models ≡ ok after
      → IsOwn models
      → IsBacked models
      → IsBacked after
        × ((id : Text) (t : traits.ModelProvider)
            → (lookup id after.by_plugin_id ≡ some t)
              ↔ ((lookup id models.by_plugin_id ≡ some t) ⊎ SomeOf (Offers id t) ms))
  unfolding collect_models
  collect_models-lookup [] models after h own b = (
    subst IsBacked (ok-injective h) b,
    λ id t. rw (ok-injective h) (λ q. inl q, λ q. elim q [ inl l ↦ l | inr r ↦ absurd r ]),
  )
  collect_models-lookup (m ∷ ms) models after h own b =
      let (plugin, q, turn) =
        bind-ok
          (ok_or (get traits m.id registry) (
            not_found
              (with_text (literal "plugin '{}' disappeared during model registry build") m.id)))
          (λ p. match p >>= λ a. collect_models traits registry ms a) after h in
      let (after_one, one, rest) =
        bind-ok (match plugin) (λ a. collect_models traits registry ms a) after turn in
      let at_m = ok_or-ok (get traits m.id registry) _ plugin q in
      let declared = declares m.capabilities provides_model in
      let step =
        match_model-lookup m.id declared plugin plugin.model_provider models after_one at_m refl own
          one in
      let ih =
        collect_models-lookup ms after_one after rest
          (match_model-IsOwn m.id declared plugin models after_one at_m own one)
          (match_model-IsBacked m.id declared plugin plugin.model_provider models after_one at_m
            refl own b one) in
      (
        ih.0,
        λ id t. (
          λ u. elim ((ih.1 id t).0 u) [
            | inr later ↦ inr (inr later)
            | inl v ↦ elim ((step id t).0 v) [
              | inl old ↦ inl old
              | inr w ↦ inr (inl (plugin, at_m, w.0, w.1, w.2))
            ]
          ],
          λ u. (ih.1 id t).1 (elim u [
            | inl old ↦ inl ((step id t).1 (inl old))
            | inr w ↦ elim w [
              | inr later ↦ inr later
              | inl x ↦
                  let same = some-injective x.0 plugin (sym x.1 ∙ at_m) in
                  inl (
                    (step id t).1 (
                      inr (
                        x.2,
                        sym (ap (λ (y : PluginFactory traits). y.model_provider) same) ∙ x.3,
                        x.4,
                      )))
            ]
          ]),
        ),
      )
    where
      match : PluginFactory traits → KelvinResult (SdkModelProviderRegistry traits)
      match p =
          match_model traits m.id (declares m.capabilities provides_model) p.model_provider models

  -- Where the model registry can be made, it finds under an id exactly the model of a registered
  -- plugin with this id that declares that it provides one; a model that it finds under an id is
  -- found under its own provider and model names; and a model that it finds under such names is
  -- found under the id of a plugin.
  pub from_plugin_registry-Offers :
      (models : SdkModelProviderRegistry traits)
      → from_plugin_registry traits registry ≡ ok models
      → ((id : Text) (m : traits.ModelProvider)
          → (get_by_plugin_id traits id models ≡ some m)
            ↔ SomeOf (Offers id m) (manifests traits registry))
        × ((id : Text) (m : traits.ModelProvider)
            → get_by_plugin_id traits id models ≡ some m
            → get_by_provider_model traits (traits.provider_name m) (traits.model_name m) models
              ≡ some m)
        × ((provider_name model_name : Text) (m : traits.ModelProvider)
            → get_by_provider_model traits provider_name model_name models ≡ some m
            → (id : Text) × (get_by_plugin_id traits id models ≡ some m))
  unfolding from_plugin_registry get_by_plugin_id get_by_provider_model lookup
  from_plugin_registry-Offers models h =
      let c =
        collect_models-lookup (sort_by id_le (manifests traits registry)) nothing models h
          (λ id m q. absurd (none-ne-some m q)) (λ key m q. absurd (none-ne-some m q)) in
      (
        λ id m.
            let sorted = SomeOf-sort_by (Offers id m) id_le (manifests traits registry) in
            (
              λ q. elim ((c.1 id m).0 q) [ inl l ↦ absurd (none-ne-some m l) | inr r ↦ sorted.0 r ],
              λ q. (c.1 id m).1 (inr (sorted.1 q)),
            ),
        from_plugin_registry-Indexed traits registry models h,
        λ provider_name model_name m. c.0 _ m,
      )
    where
      nothing : SdkModelProviderRegistry traits
      nothing = record { by_plugin_id = []; by_provider_model = [] }
