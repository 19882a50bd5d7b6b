-- ===== src/Plugins/Exposed.antt =====
-- Which tools and models the registries of crates/kelvin-core/src/sdk.rs hold.
use mathlib.Core.Option.{some-injective, none-ne-some}
use kelvinclaw.Prelude.{
  ◌≡◌, ◌↔◌, ◌⊎◌, inl, inr, refl, sym, ap, ◌∙◌, Bool, Bool-cases, true, false, Option, none, some,
  List, [], ◌∷◌, if◌then◌else◌,
}
use kelvinclaw.Prelude.Text.{Text, text_eq, text_eq_iff, trim}
use kelvinclaw.Prelude.Map.{lookup, insert, lookup-insert}
use kelvinclaw.Prelude.Sort.{insert_by, sort_by}
use kelvinclaw.Prelude.Error.{ok, then-ok, refuse_if-ok, ok-injective, bind-ok, ok_or-ok}
use kelvinclaw.Plugins.Manifest.{PluginManifest, provides_tool, declares}
use kelvinclaw.Plugins.Registry.{Traits, PluginFactory, InMemoryPluginRegistry, get, manifests}
use kelvinclaw.Plugins.Tools.{
  Tools, has_tool, add_tool, match_tool, collect_tools, from_plugin_registry, id_le, get_tool,
}

-- Some element of the list.
abbrev pub SomeOf {ℓ} : {A : Type ℓ} → (A → Type 0) → List A → Type 0
SomeOf P [] = ⊥
SomeOf P (x ∷ xs) = P x ⊎ SomeOf P xs

module _ {ℓ} {A : Type ℓ} (P : A → Type 0) (le : A → A → Bool) where
  SomeOf-insert_by : (x : A) (xs : List A) → SomeOf P (insert_by le x xs) ↔ (P x ⊎ SomeOf P xs)
  unfolding insert_by
  SomeOf-insert_by x [] = (λ h. h, λ h. h)
  SomeOf-insert_by x (y ∷ ys) = elim (Bool-cases (le x y)) [
    | inl e ↦ rw e (λ h. h, λ h. h)
    | inr e ↦ rw e (
      λ h. elim h [
        | inl hy ↦ inr (inl hy)
        | inr hs ↦ elim ((SomeOf-insert_by x ys).0 hs) [ inl hx ↦ inl hx | inr hs ↦ inr (inr hs) ]
      ],
      λ h. elim h [
        | inl hx ↦ inr ((SomeOf-insert_by x ys).1 (inl hx))
        | inr hs ↦ elim hs [ inl hy ↦ inl hy | inr hs ↦ inr ((SomeOf-insert_by x ys).1 (inr hs)) ]
      ],
    )
  ]

  pub SomeOf-sort_by : (xs : List A) → SomeOf P (sort_by le xs) ↔ SomeOf P xs
  unfolding sort_by
  SomeOf-sort_by [] = (λ h. h, λ h. h)
  SomeOf-sort_by (x ∷ xs) =
      let i = SomeOf-insert_by x (sort_by le xs) in
      let ih = SomeOf-sort_by xs in
      (
        λ h. elim (i.0 h) [ inl hx ↦ inl hx | inr hs ↦ inr (ih.0 hs) ],
        λ h. i.1 (elim h [ inl hx ↦ inl hx | inr hs ↦ inr (ih.1 hs) ]),
      )

false_not_true : ¬ (false ≡ true)
false_not_true h = cc

module _ (traits : Traits) where
  -- What a map finds after an entry was added where none was.
  if_added :
      {P : Type 0} (b : Bool) (tool t : traits.Tool) (o : Option traits.Tool)
      → (b ≡ true) ↔ P
      → (b ≡ true → has_tool traits o ≡ false)
      → ((if b then some tool else o) ≡ some t) ↔ ((o ≡ some t) ⊎ ((tool ≡ t) × P))
  if_added false tool t o p n =
      (λ q. inl q, λ q. elim q [ inl l ↦ l | inr r ↦ absurd (false_not_true (p.1 r.1)) ])
  if_added true tool t none p n = (
    λ q. inr (some-injective tool t q, p.0 refl),
    λ q. elim q [ inl l ↦ absurd (none-ne-some t l) | inr r ↦ ap some r.0 ],
  )
  if_added true tool t (some x) p n = absurd (false_not_true (sym (n refl)))

  -- The plugin of this manifest declares and provides the tool, whose trimmed name is this one.
  abbrev pub Exposes : InMemoryPluginRegistry traits → Text → traits.Tool → PluginManifest → Type 0
  Exposes registry name tool manifest =
      (plugin : PluginFactory traits) × (get traits manifest.id registry ≡ some plugin)
      × (declares manifest.capabilities provides_tool ≡ true)
      × (plugin.tool ≡ some tool)
      × (trim (traits.name tool) ≡ name)

  -- What an added tool was checked for.
  add_tool-ok :
      (id : Text) (tool : traits.Tool) (tools after : Tools traits)
      → add_tool traits id tool tools ≡ ok after
      → (has_tool traits (lookup (trim (traits.name tool)) tools) ≡ false)
        × (insert (trim (traits.name tool)) tool tools ≡ after)
  unfolding add_tool
  add_tool-ok id tool tools after h =
      let last = then-ok _ _ after h in
      (refuse_if-ok _ _ (then-ok _ _ tt last.0).1, ok-injective last.1)

  add_tool-lookup :
      (id : Text) (tool : traits.Tool) (tools after : Tools traits)
      → add_tool traits id tool tools ≡ ok after
      → (name : Text) (t : traits.Tool)
      → (lookup name after ≡ some t)
        ↔ ((lookup name tools ≡ some t) ⊎ ((tool ≡ t) × (trim (traits.name tool) ≡ name)))
  add_tool-lookup id tool tools after h name t =
      let ok_add = add_tool-ok id tool tools after h in
      rw (sym ok_add.1, lookup-insert (trim (traits.name tool)) name tool tools)
        (if_added (text_eq (trim (traits.name tool)) name) tool t (lookup name tools)
          (text_eq_iff (trim (traits.name tool)) name)
          (λ e.
            sym (
              ap (λ k. has_tool traits (lookup k tools))
                ((text_eq_iff (trim (traits.name tool)) name).0 e))
            ∙ ok_add.0))

  -- One turn of the loop.
  match_tool-lookup :
      (id : Text) (declared : Bool) (provided : Option traits.Tool) (tools after : Tools traits)
      → match_tool traits id declared provided tools ≡ ok after
      → (name : Text) (t : traits.Tool)
      → (lookup name after ≡ some t) ↔ (
          (lookup name tools ≡ some t)
          ⊎ ((declared ≡ true) × (provided ≡ some t) × (trim (traits.name t) ≡ name)))
  unfolding match_tool
  match_tool-lookup id false none tools after h name t =
      rw (ok-injective h)
        (λ q. inl q, λ q. elim q [ inl l ↦ l | inr r ↦ absurd (false_not_true r.0) ])
  match_tool-lookup id false (some tool) tools after h name t = cc
  match_tool-lookup id true none tools after h name t = cc
  match_tool-lookup id true (some tool) tools after h name t =
      let i = add_tool-lookup id tool tools after h name t in
      (
        λ q. elim (i.0 q) [
          | inl l ↦ inl l
          | inr r ↦ inr (refl, ap some r.0, sym (ap (λ x. trim (traits.name x)) r.0) ∙ r.1)
        ],
        λ q. i.1 (elim q [
          | inl l ↦ inl l
          | inr r ↦
              let same = some-injective tool t r.1 in
              inr (same, ap (λ x. trim (traits.name x)) same ∙ r.2)
        ]),
      )

  collect_tools-lookup :
      (registry : InMemoryPluginRegistry traits) (ms : List PluginManifest)
      (tools after : Tools traits)
      → collect_tools traits registry ms tools ≡ ok after
      → (name : Text) (t : traits.Tool)
      → (lookup name after ≡ some t)
        ↔ ((lookup name tools ≡ some t) ⊎ SomeOf (Exposes registry name t) ms)
  unfolding collect_tools
  collect_tools-lookup registry [] tools after h name t =
      rw (ok-injective h) (λ q. inl q, λ q. elim q [ inl l ↦ l | inr r ↦ absurd r ])
  collect_tools-lookup registry (m ∷ ms) tools after h name t =
      let (plugin, q, turn) = bind-ok _ _ after h in
      let (after_one, one, rest) = bind-ok _ _ after turn in
      let at_m = ok_or-ok (get traits m.id registry) _ plugin q in
      let i =
        match_tool-lookup m.id (declares m.capabilities provides_tool) plugin.tool tools after_one
          one name t in
      let ih = collect_tools-lookup registry ms after_one after rest name t in
      (
        λ u. elim (ih.0 u) [
          | inr later ↦ inr (inr later)
          | inl v ↦ elim (i.0 v) [
            | inl old ↦ inl old
            | inr w ↦ inr (inl (plugin, at_m, w.0, w.1, w.2))
          ]
        ],
        λ u. ih.1 (elim u [
          | inl old ↦ inl (i.1 (inl old))
          | inr w ↦ elim w [
            | inr later ↦ inr later
            | inl x ↦
                let same = some-injective x.0 plugin (sym x.1 ∙ at_m) in
                inl (i.1 (inr (x.2, sym (ap (λ y. y.tool) same) ∙ x.3, x.4)))
          ]
        ]),
      )

  -- Where the tool registry can be made, it finds under a name exactly the tools that have this
  -- name, trimmed, and that a registered plugin provides which declares that it provides one.
  pub from_plugin_registry-Exposes :
      (registry : InMemoryPluginRegistry traits) (tools : Tools traits)
      → from_plugin_registry traits registry ≡ ok tools
      → (name : Text) (t : traits.Tool)
      → (get_tool traits name tools ≡ some t)
        ↔ SomeOf (Exposes registry name t) (manifests traits registry)
  unfolding from_plugin_registry get_tool lookup
  from_plugin_registry-Exposes registry tools h name t =
      let i =
        collect_tools-lookup registry (sort_by id_le (manifests traits registry)) [] tools h name
          t in
      let sorted = SomeOf-sort_by (Exposes registry name t) id_le (manifests traits registry) in
      (
        λ u. elim (i.0 u) [ inl l ↦ absurd (none-ne-some t l) | inr r ↦ sorted.0 r ],
        λ u. i.1 (inr (sorted.1 u)),
      )
