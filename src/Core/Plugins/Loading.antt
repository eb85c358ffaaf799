-- ===== src/Core/Plugins/Loading.antt =====
-- packages/core/src/plugin/registry.ts: what loading a plugin does to the registry.
use intellibiz.Shared.{
  String, true, false, Option, none, some, List, [], ◌∷◌, ◌++◌, Result, ok, err, ◌==◌, ◌≡◌, refl,
  sym, arith, All, Bool-cases, Option-cases, inl, inr, eq_iff, subst,
}
use intellibiz.Shared.Table.{Table, get, put, has, get-put}
use intellibiz.Core.Plugins.Container.{register, namespaced, includes, sandboxed_view}
use intellibiz.Core.Plugins.Circular.{detect_circular}
use intellibiz.Core.Plugins.{
  PluginDefinition, PluginRegistry, LoadError, missing, register_short, register_service,
  register_services, loaded_with, load_new, load, load_each, load_all, declared,
}

module _ {V : Type 0} where
  -- Every service that `a` holds is in `b`, with the same instance.
  abbrev pub Kept : Table V → Table V → Type 0
  Kept a b = (k : String) (v : V) → get k a ≡ some v → get k b ≡ some v

  Kept-put : (k : String) (v : V) (a : Table V) → get k a ≡ none → Kept a (put k v a)
  Kept-put k v a free j w h = rw get-put (elim (Bool-cases (k == j)) [
    | inl t ↦
        let e : k ≡ j = ground (arith, eq_iff k j, t) in absurd (ground (arith, rw e at free, h))
    | inr f ↦ rw f h
  ])

  register_short-Kept : (k : String) (v : V) (a : Table V) → Kept a (register_short k v a)
  unfolding register_short
  register_short-Kept k v a j w h = elim (Option-cases (get k a)) [
    | inl e ↦ rw e (Kept-put k v a e j w h)
    | inr (u, e) ↦ rw e h
  ]

  register_service-Kept :
      (name service_name : String) (made : Result V) (a : Table V)
      → Kept a (register_service name service_name made a).1
  unfolding register_service register
  register_service-Kept name service_name (err e) a k v h = h
  register_service-Kept name service_name (ok made) a k v h =
      elim (Option-cases (get (namespaced name service_name) a)) [
        | inl e ↦
            rw (e, register_service)
              (register_short-Kept service_name made (put (namespaced name service_name) made a) k v
                (Kept-put (namespaced name service_name) made a e k v h))
        | inr (u, e) ↦ rw (e, register_service) h
      ]

  register_services-Kept :
      (name : String) (deps : Table V) (services : List (String × (Table V → Result V)))
      (a : Table V)
      → Kept a (register_services name deps services a).1
  unfolding register_services
  register_services-Kept name deps [] a k v h = h
  register_services-Kept name deps ((service_name, factory) ∷ rest) a k v h =
      let first = register_service-Kept name service_name (factory deps) a k v h in
      let rest' =
        register_services-Kept name deps rest
          (register_service name service_name (factory deps) a).1 k v first in
      elim (Option-cases (register_service name service_name (factory deps) a).0) [
        | inl e ↦ rw (e, register_services) rest'
        | inr (x, e) ↦ rw (e, register_services) first
      ]

  loaded_with-services :
      (name : String) (loaded : List String) (out : Option LoadError × Table V)
      → (loaded_with name loaded out).1.services ≡ out.1
  loaded_with-services name loaded (none, services) = refl
  loaded_with-services name loaded (some e, services) = refl

  load_new-Kept :
      (plugin : PluginDefinition V) (s : PluginRegistry V) (o : Option String)
      → Kept s.services (load_new plugin s o).1.services
  unfolding load_new
  load_new-Kept plugin s (some dep) k v h = h
  load_new-Kept plugin s none k v h =
      let out =
        register_services plugin.name (sandboxed_view s.services plugin.dependencies)
          plugin.services s.services in
      subst (λ t. get k t ≡ some v) (sym (loaded_with-services plugin.name s.loaded out))
        (register_services-Kept plugin.name (sandboxed_view s.services plugin.dependencies)
          plugin.services s.services k v h)

  load-Kept :
      (plugin : PluginDefinition V) (s : PluginRegistry V)
      → Kept s.services (load plugin s).1.services
  unfolding load
  load-Kept plugin s k v h = elim (Bool-cases (includes plugin.name s.loaded)) [
    | inl t ↦ rw t h
    | inr f ↦ rw f (load_new-Kept plugin s (missing s.services plugin.dependencies) k v h)
  ]

  load_each-Kept :
      (plugins : List (PluginDefinition V)) (s : PluginRegistry V)
      → Kept s.services (load_each plugins s).1.services
  unfolding load_each
  load_each-Kept [] s k v h = h
  load_each-Kept (plugin ∷ plugins) s k v h =
      let first = load-Kept plugin s k v h in
      let rest = load_each-Kept plugins (load plugin s).1 k v first in
      elim (Option-cases (load plugin s).0) [
        | inl e ↦ rw (e, load_each) rest
        | inr (x, e) ↦ rw (e, load_each) first
      ]

  -- Loading plugins, with whatever outcome, leaves every service that was registered registered
  -- under its key, with the same instance.
  pub load_all-Kept :
      (plugins : List (PluginDefinition V)) (s : PluginRegistry V) (k : String) (v : V)
      → get k s.services ≡ some v
      → get k (load_all plugins s).1.services ≡ some v
  unfolding load_all
  load_all-Kept plugins s k v h = elim (Option-cases (detect_circular (declared plugins))) [
    | inl e ↦ rw (e, load_all) (load_each-Kept plugins s k v h)
    | inr (c, e) ↦ rw (e, load_all) h
  ]

  -- Every key is registered.
  abbrev pub AllRegistered : Table V → List String → Type 0
  AllRegistered services keys = All (λ k. has k services ≡ true) keys

  missing-none :
      (services : Table V) (deps : List String)
      → missing services deps ≡ none
      → AllRegistered services deps
  unfolding missing
  missing-none services [] h = tt
  missing-none services (dep ∷ deps) h = elim (Option-cases (get dep services)) [
    | inl e ↦ absurd (ground (arith, rw (e, missing) at h))
    | inr (v, e) ↦ (rw e refl, missing-none services deps (rw (e, missing) at h))
  ]

  loaded_with-loaded :
      (name : String) (loaded : List String) (out : Option LoadError × Table V)
      → (loaded_with name loaded out).0 ≡ none
      → (loaded_with name loaded out).1.loaded ≡ loaded ++ name ∷ []
  loaded_with-loaded name loaded (none, services) h = refl
  loaded_with-loaded name loaded (some e, services) h = absurd (ground (arith, h))

  load_new-succeeds :
      (plugin : PluginDefinition V) (s : PluginRegistry V) (o : Option String)
      → missing s.services plugin.dependencies ≡ o
      → (load_new plugin s o).0 ≡ none
      → AllRegistered s.services plugin.dependencies
        × ((load_new plugin s o).1.loaded ≡ s.loaded ++ plugin.name ∷ [])
  unfolding load_new
  load_new-succeeds plugin s (some dep) m h = absurd (ground (arith, h))
  load_new-succeeds plugin s none m h = (
    missing-none s.services plugin.dependencies m,
    loaded_with-loaded plugin.name s.loaded
        (register_services plugin.name (sandboxed_view s.services plugin.dependencies)
          plugin.services s.services)
        h,
  )

  -- A plugin that is loaded for the first time, without an error, had all of its dependencies
  -- registered before, and is noted as loaded behind the others.
  pub load_succeeds :
      (plugin : PluginDefinition V) (s : PluginRegistry V)
      → includes plugin.name s.loaded ≡ false
      → (load plugin s).0 ≡ none
      → AllRegistered s.services plugin.dependencies
        × ((load plugin s).1.loaded ≡ s.loaded ++ plugin.name ∷ [])
  unfolding load
  load_succeeds plugin s new h =
      rw (new, load)
        (load_new-succeeds plugin s (missing s.services plugin.dependencies) refl
          (rw (new, load) at h))
